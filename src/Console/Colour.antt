-- ===== src/Console/Colour.antt =====
-- The pickers of a colour: apps/console/src/domain/hsvToXy.ts and colorPresets.ts, and
-- apps/console/src/components: ColorControl.tsx and GamutTrianglePicker.tsx, in the numbers of
-- Console.Gamut. What is drawn is left out.
pub mod Picked
use sharpn.Prelude.{
  ℕ, zero, suc, ◌+◌, ◌-◌, ◌*◌, ◌/◌, ◌%◌, ◌≤◌, ◌<◌, min, max, String, ◌≡◌, refl, sym, ap, subst, ◌∙◌,
  ◌≢◌, ◌↔◌, ◌⊎◌, inl, inr, Bool, true, false, ◌&&◌, ◌||◌, not, Option, none, some, List, [], ◌∷◌,
  ◌++◌, map, arith, ltb, leb, ◌==◌, str_eq, if◌then◌else◌, ltb→lt, lt→ltb, leb→le, str_eq_iff,
  str_eq_refl, Bool-cases, Option-cases, or_else, is_some, length, get_elem?, head?, length-append,
  keep, all, any, All,
}
use sharpn.Prelude.Maps.{
  lookup, insert, delete, lookup-insert, lookup-insert_self, lookup-delete, Distinct,
  insert-Distinct,
}
use sharpn.Command.{Decimal}
use sharpn.Console.Gamut.{
  Numbers, dec, ColorXy, ColorGamut, nought, one, xy, gamut_c, clamp_to_gamut,
}

pub record Rgb (n : Numbers) : Type 0 where
  pub r : n.Num
  pub g : n.Num
  pub b : n.Num

pub record ColorPreset (n : Numbers) : Type 0 where
  pub name : String
  pub at : ColorXy n

module _ (n : Numbers) where
  open n use {Num, lit, add, sub, mul, div, rem, pow, lt, equal}

  abbrev pub color_presets : List (ColorPreset n)
  color_presets =
      record { name = "Red"; at = xy n (dec 675 3) (dec 322 3) }
      ∷ record { name = "Orange"; at = xy n (dec 6 1) (dec 38 2) }
      ∷ record { name = "Yellow"; at = xy n (dec 47 2) (dec 48 2) }
      ∷ record { name = "Green"; at = xy n (dec 28 2) (dec 6 1) }
      ∷ record { name = "Cyan"; at = xy n (dec 22 2) (dec 33 2) }
      ∷ record { name = "Blue"; at = xy n (dec 167 3) (dec 4 2) }
      ∷ record { name = "Purple"; at = xy n (dec 28 2) (dec 12 2) }
      ∷ record { name = "Pink"; at = xy n (dec 4 1) (dec 2 1) }
      ∷ []

  pub gamma_corrected : Num → Num
  gamma_corrected channel =
      if lt (lit (dec 4045 5)) channel
      then pow (div (add channel (lit (dec 55 3))) (lit (dec 1055 3))) (lit (dec 24 1))
      else div channel (lit (dec 1292 2))

  -- `Math.abs`.
  abbrev pub magnitude : Num → Num
  magnitude a = if lt a (nought n) then sub (nought n) a else a

  abbrev pub rgb : Num → Num → Num → Rgb n
  rgb r g b = record { r = r; g = g; b = b }

  -- The sixth of the wheel that a hue lies in.
  abbrev pub sixth : Num → Num → Num → Rgb n
  sixth h c x =
      if lt h (lit (dec 60 0))
      then rgb c x (nought n)
      else if lt h (lit (dec 120 0))
      then rgb x c (nought n)
      else if lt h (lit (dec 180 0))
      then rgb (nought n) c x
      else if lt h (lit (dec 240 0))
      then rgb (nought n) x c
      else if lt h (lit (dec 300 0))
      then rgb x (nought n) c
      else rgb c (nought n) x

  pub rgb_from_hsv : Num → Num → Num → Rgb n
  rgb_from_hsv h s v =
      let c = mul v s in
      let x =
        mul c
          (sub (one n) (magnitude (sub (rem (div h (lit (dec 60 0))) (lit (dec 2 0))) (one n)))) in
      let m = sub v c in let p = sixth h c x in rgb (add p.r m) (add p.g m) (add p.b m)

  abbrev pub weighted : Decimal → Decimal → Decimal → Rgb n → Num
  weighted r g b p = add (add (mul p.r (lit r)) (mul p.g (lit g))) (mul p.b (lit b))

  abbrev pub over_sum : Num → Num → Num → ColorXy n
  over_sum x y sum =
      if equal sum (nought n)
      then record { x = nought n; y = nought n }
      else record { x = div x sum; y = div y sum }

  pub hsv_to_xy : Num → Num → ColorXy n
  unfolding gamma_corrected rgb_from_hsv
  hsv_to_xy h s =
      let full = lit (dec 360 0) in
      let raw = rgb_from_hsv (rem (add (rem h full) full) full) s (one n) in
      let p = rgb (gamma_corrected raw.r) (gamma_corrected raw.g) (gamma_corrected raw.b) in
      let x = weighted (dec 664511 6) (dec 154324 6) (dec 162028 6) p in
      let y = weighted (dec 283881 6) (dec 668433 6) (dec 47685 6) p in
      let z = weighted (dec 88 6) (dec 7231 5) (dec 986039 6) p in
      clamp_to_gamut n (over_sum x y (add (add x y) z)) (gamut_c n)

  pub centroid_of : ColorGamut n → ColorXy n
  centroid_of g = record {
    x = div (add (add g.red.x g.green.x) g.blue.x) (lit (dec 3 0));
    y = div (add (add g.red.y g.green.y) g.blue.y) (lit (dec 3 0));
  }

  -- A click on a preset.
  pub preset_commit : Option (ColorGamut n) → ColorPreset n → ColorXy n
  preset_commit color_gamut preset = clamp_to_gamut n preset.at (or_else color_gamut (gamut_c n))

  -- Where the picker is drawn, and where the pointer is.
  pub record Pointer : Type 0 where
    pub left : Num
    pub top : Num
    pub width : Num
    pub height : Num
    pub client_x : Num
    pub client_y : Num

  -- The triangle's state, with what it has committed, latest first.
  pub record Picker : Type 0 where
    pub live : ColorXy n
    pub dragging : Bool
    pub committed : List (ColorXy n)

  abbrev pub picker : ColorXy n → Picker
  picker shown = record { live = shown; dragging = false; committed = [] }

  abbrev pub size : Num
  size = lit (dec 200 0)

  -- `pointFromEvent`, once the picker is drawn.
  pub point_from_event : ColorGamut n → Pointer → ColorXy n
  point_from_event gamut e =
      let px = mul (div (sub e.client_x e.left) e.width) size in
      let py = mul (div (sub e.client_y e.top) e.height) size in
      clamp_to_gamut n (record { x = div px size; y = sub (one n) (div py size) }) gamut

  pub handle_pointer_down : ColorGamut n → Pointer → Picker → Picker
  handle_pointer_down gamut e p = record p { live = point_from_event gamut e; dragging = true }

  pub handle_pointer_move : ColorGamut n → Pointer → Picker → Picker
  handle_pointer_move gamut e p =
      if not p.dragging then p else record p { live = point_from_event gamut e }

  pub handle_pointer_up : ColorGamut n → Pointer → Picker → Picker
  handle_pointer_up gamut e p =
      if not p.dragging
      then p
      else record p { dragging = false; committed = point_from_event gamut e ∷ p.committed }

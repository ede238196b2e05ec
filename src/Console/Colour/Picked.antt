-- ===== src/Console/Colour/Picked.antt =====
-- What the pickers of apps/console/src/components hand on as a colour.
use sharpn.Prelude.{
  ℕ, suc, ◌≡◌, refl, sym, ap, ◌∙◌, inl, inr, Bool, true, false, Option, if◌then◌else◌, Bool-cases,
  or_else, length, All,
}
use sharpn.Console.Gamut.{Numbers, ColorXy, ColorGamut, gamut_c}
use sharpn.Console.Gamut.Reachable.{IsReachable, clamp-IsReachable}
use sharpn.Console.Colour.{
  ColorPreset, hsv_to_xy, preset_commit, Pointer, Picker, picker, point_from_event,
  handle_pointer_down, handle_pointer_move, handle_pointer_up,
}

module _ (n : Numbers) (gamut : ColorGamut n) where
  -- What the pointer does to the triangle.
  pub data Step : Picker n → Picker n → Type 0 where
    presses : (e : Pointer n) (p : Picker n) → Step p (handle_pointer_down n gamut e p)
    moves : (e : Pointer n) (p : Picker n) → Step p (handle_pointer_move n gamut e p)
    lifts : (e : Pointer n) (p : Picker n) → Step p (handle_pointer_up n gamut e p)

  pub data Steps (p : Picker n) : Picker n → Type 0 where
    here : Steps p p
    later : {q r : Picker n} → Steps p q → Step q r → Steps p r

  -- How often a press was followed by a lift.
  abbrev pub drags : {p q : Picker n} → Steps p q → Bool × ℕ
  drags here = (false, 0)
  drags (later run (presses e p)) = (true, (drags run).1)
  drags (later run (moves e p)) = drags run
  drags (later run (lifts e p)) =
      (false, if (drags run).0 then suc (drags run).1 else (drags run).1)

  -- What was committed is reachable, once for each drag, and a drag is known to have begun.
  pub record IsPicked (drag : Bool × ℕ) (p : Picker n) : Type 0 where
    pub reachable : All (IsReachable n gamut) p.committed
    pub begun : p.dragging ≡ drag.0
    pub once : length p.committed ≡ drag.1

  moved-IsPicked :
      (d : Bool × ℕ) (e : Pointer n) (p : Picker n)
      → IsPicked d p
      → IsPicked d (handle_pointer_move n gamut e p)
  unfolding handle_pointer_move
  moved-IsPicked d e p k = elim (Bool-cases p.dragging) [
    | inl drags ↦
        simp drags (record { reachable = k.reachable; begun = sym drags ∙ k.begun; once = k.once })
    | inr idle ↦ simp idle k
  ]

  lifted-IsPicked :
      (d : Bool × ℕ) (e : Pointer n) (p : Picker n)
      → IsPicked d p
      → IsPicked (false, if d.0 then suc d.1 else d.1) (handle_pointer_up n gamut e p)
  unfolding handle_pointer_up point_from_event
  lifted-IsPicked d e p k = elim (Bool-cases p.dragging) [
    | inl drags ↦
        simp (drags, sym k.begun ∙ drags)
          (record {
            reachable = (clamp-IsReachable n _ gamut, k.reachable);
            begun = refl;
            once = ap suc k.once;
          })
    | inr idle ↦
        simp (idle, sym k.begun ∙ idle)
          (record { reachable = k.reachable; begun = idle; once = k.once })
  ]

  -- However the pointer is pressed, moved and lifted on the triangle, one colour is committed
  -- for each press that was followed by a lift and none otherwise, and every one of them is
  -- inside the triangle, as one that is not a number counts, or on one of its sides.
  pub Steps-IsPicked :
      {shown : ColorXy n} {q : Picker n} (run : Steps (picker n shown) q) → IsPicked (drags run) q
  unfolding handle_pointer_down
  Steps-IsPicked here = record { reachable = tt; begun = refl; once = refl }
  Steps-IsPicked (later run (presses e p)) =
      let k = Steps-IsPicked run in record { reachable = k.reachable; begun = refl; once = k.once }
  Steps-IsPicked (later run (moves e p)) = moved-IsPicked (drags run) e p (Steps-IsPicked run)
  Steps-IsPicked (later run (lifts e p)) = lifted-IsPicked (drags run) e p (Steps-IsPicked run)

-- A preset is moved into the bulb's triangle, and what the wheel answers into Gamut C.
pub others-IsReachable :
    (n : Numbers) (color_gamut : Option (ColorGamut n)) (preset : ColorPreset n) (h s : n.Num)
    → IsReachable n (or_else color_gamut (gamut_c n)) (preset_commit n color_gamut preset)
      × IsReachable n (gamut_c n) (hsv_to_xy n h s)
unfolding preset_commit hsv_to_xy
others-IsReachable n color_gamut preset h s = (
  clamp-IsReachable n preset.at (or_else color_gamut (gamut_c n)),
  clamp-IsReachable n _ (gamut_c n),
)

-- ===== src/Tests/Controls.antt =====
-- The Console's domain on small inputs.
use sharpn.Prelude.{
  ℕ, ◌+◌, ◌-◌, ◌*◌, ◌/◌, ◌%◌, String, ◌≡◌, refl, ◌≢◌, true, false, none, some, [], ◌∷◌, arith, ltb,
  ◌==◌, length,
}
use sharpn.Prelude.Decimal.{codes}
use sharpn.Prelude.{compare, Ordering}
use sharpn.Console.Listing.Ordered.{HasIds}
use sharpn.Command.{read_light_command, ok}
use sharpn.Tests.Bodies.{zod}
use sharpn.Light.{Light}
use sharpn.Codec.{changed}
use sharpn.Events.{light}
use sharpn.Console.Temperature.{
  body_of, commit, shown_kelvin, temperature_command, default_mirek_range,
}
use sharpn.Console.Temperature.Within.{IsRange, commit-read, commit-shown}
use sharpn.Console.Gamut.{Numbers, ColorXy, gamut_c, xy, dec, closest_on_segment, nearer}
use sharpn.Console.Colour.{Picker, picker, Pointer, handle_pointer_down, handle_pointer_up}
use sharpn.Console.Colour.Picked.{
  Steps, here, later, presses, lifts, drags, IsPicked, Steps-IsPicked,
}
use sharpn.Console.Listing.{Collation, Locale, flip, sort_lights_by_name}
use sharpn.Console.Listing.Ordered.{Reordered, swapped, IsOrdered, sort-Reordered, sort-IsOrdered}
use sharpn.Console.Live.{Live, list_query}
use sharpn.Console.Live.Fresh
use sharpn.Console.EventStream.{sent, heard, receive, receive_all}
use sharpn.Console.EventStream.Delivered.{meant, heard-sent}

Hue-IsRange : IsRange default_mirek_range
Hue-IsRange = record { lowest = omega arith; ordered = omega arith; highest = omega arith }

commit-read_example :
    read_light_command zod (body_of (temperature_command (commit none 2700)))
    ≡ ok (temperature_command (commit none 2700))
commit-read_example = commit-read none Hue-IsRange zod 2700 (omega arith)

commit-shown_example : commit none (shown_kelvin none (some 366) none) ≡ 366
commit-shown_example =
    commit-shown none Hue-IsRange 366 (omega arith) (omega arith) none (some 366) refl

-- Whole numbers, for numbers.
whole_asym : (a b : ℕ) → ltb a b ≡ true → ltb b a ≡ false
whole_asym a b h = ground arith

whole_trans : (a b c : ℕ) → (b == b) ≡ true → ltb a b ≡ false → ltb b c ≡ false → ltb a c ≡ false
whole_trans a b c e h k = ground arith

whole_nan : (a b : ℕ) → (a == a) ≡ false → (ltb a b ≡ false) × (ltb b a ≡ false)
whole_nan a b h = ground arith

whole_irrefl : (a : ℕ) → ltb a a ≡ false
whole_irrefl a = ground arith

abbrev whole : Numbers
whole = record {
  Num = ℕ;
  lit = λ d. d.digits;
  add = ◌+◌;
  sub = ◌-◌;
  mul = ◌*◌;
  div = ◌/◌;
  rem = ◌%◌;
  pow = λ a b. a;
  lt = ltb;
  equal = ◌==◌;
  lt_irrefl = whole_irrefl;
  lt_asym = whole_asym;
  nan_unordered = whole_nan;
  not_lt_trans = whole_trans;
  one_not_lt_zero = refl;
}

abbrev far : ColorXy whole
far = xy whole (dec 9 1) (dec 9 1)

abbrev first_two : ColorXy whole
first_two =
    nearer whole far (closest_on_segment whole far (gamut_c whole).red (gamut_c whole).green)
      (closest_on_segment whole far (gamut_c whole).green (gamut_c whole).blue)

abbrev pointer : Pointer whole
pointer = record { left = 0; top = 0; width = 200; height = 200; client_x = 50; client_y = 80 }

abbrev pressed : Picker whole
pressed = handle_pointer_down whole (gamut_c whole) pointer (picker whole far)

abbrev drag :
    Steps whole
      (gamut_c whole)
      (picker whole far)
      (handle_pointer_up whole (gamut_c whole) pointer pressed)
drag = later (later here (presses pointer (picker whole far))) (lifts pointer pressed)

Steps-IsPicked_example :
    IsPicked whole
      (gamut_c whole)
      (drags whole (gamut_c whole) drag)
      (handle_pointer_up whole (gamut_c whole) pointer pressed)
Steps-IsPicked_example = Steps-IsPicked whole (gamut_c whole) drag

-- Texts by their length: enough of a locale to tell two ids apart.
abbrev by_length : String → String → Ordering
by_length a b = compare (length (codes a)) (length (codes b))

by_length-flip : (a b : String) → by_length b a ≡ flip (by_length a b)
by_length-flip a b = ground arith

by_length_trans :
    (a b c : String)
    → by_length a b ≢ Ordering.gt
    → by_length b c ≢ Ordering.gt
    → by_length a c ≢ Ordering.gt
by_length_trans a b c h k = ground arith

abbrev lengths : Collation
lengths = record {
  compare = by_length;
  compare_flip = by_length-flip;
  compare_trans = by_length_trans;
}

abbrev locale : Locale
locale = record { names = lengths; ids = lengths; lower = λ t. t }

abbrev lamp : String → String → Light
lamp id name = record {
  id = id;
  name = name;
  archetype = codes "plug";
  on = true;
  brightness = none;
  min_dim_level = none;
  color_temperature_mirek = none;
  mirek_schema = none;
  color_xy = none;
  color_gamut = none;
  capabilities = record { dimming = false; color_temperature = false; color = false };
}

abbrev desk : Light
desk = lamp "1" "lamp"

abbrev shelf : Light
shelf = lamp "10" "lamp"

lamps-HasIds : HasIds locale (desk ∷ shelf ∷ [])
lamps-HasIds = (((λ e. cc), tt), (tt, tt))

sort-Reordered_example :
    sort_lights_by_name locale (desk ∷ shelf ∷ []) ≡ sort_lights_by_name locale (shelf ∷ desk ∷ [])
sort-Reordered_example = sort-Reordered locale (swapped desk shelf []) lamps-HasIds

sort-IsOrdered_example :
    IsOrdered locale (sort_lights_by_name locale (shelf ∷ desk ∷ []))
    × Reordered (shelf ∷ desk ∷ []) (sort_lights_by_name locale (shelf ∷ desk ∷ []))
sort-IsOrdered_example = sort-IsOrdered locale (shelf ∷ desk ∷ [])

heard-sent_example : heard (sent (light changed "1")) ≡ meant (light changed "1")
heard-sent_example = heard-sent (light changed "1")

-- The list is being read when a Light of it changes.
abbrev busy : Live
busy = record {
  fetching = list_query ∷ [];
  scheduled = [];
  read_anew = [];
  previous_gateway = none;
}

abbrev settled : Live
settled = record (receive_all [] (receive (light changed "1") busy)) { fetching = [] }

-- ===== src/Tests/Wires.antt =====
-- Messages on a wire that has a cell for every number.
use sharpn.Prelude.{
  true, false, Bool, ℕ, zero, suc, ◌+◌, ◌≤◌, ◌<◌, ◌≡◌, refl, ap, inl, Option, none, some, [], ◌∷◌,
  ◌++◌, arith, length,
}
use sharpn.Prelude.Int.{ℤ, pos, negsuc}
use sharpn.Prelude.Decimal.{Text}
use sharpn.Wire.{Bytes, Reader, reader, Wire, ok}
use sharpn.Wire.Reading.{Ends}
use sharpn.Wire.Fields.{IsWritten}
use sharpn.Wire.Message.{decode_as}
use sharpn.Wire.Lighting.LightGet
use sharpn.Wire.Lighting.LightPut
use sharpn.Wire.Service.UpdateLightRequest.{UpdateLightRequest}
use sharpn.Wire.Service.UpdateLightRequest
use sharpn.Wire.Service.ListLightsResponse.{ListLightsResponse}
use sharpn.Wire.Service.ListLightsResponse
use sharpn.Wire.Exchanged.{update_light-encode, list_lights-encode, list_lights-Ends}

abbrev int_cells : ℤ → Bytes
int_cells (pos n) = 0 ∷ n ∷ []
int_cells (negsuc n) = 1 ∷ n ∷ []

abbrev text_cells : Text → Bytes
text_cells t = length t ∷ t

abbrev take_uint : ℕ → Bytes → Option (ℕ × Reader)
take_uint at [] = none
take_uint at (b ∷ bs) = some (b, reader (at + 1) bs)

abbrev take_int : ℕ → Bytes → Option (ℤ × Reader)
take_int at [] = none
take_int at (b ∷ []) = none
take_int at (zero ∷ n ∷ bs) = some (pos n, reader (at + 2) bs)
take_int at (suc b ∷ n ∷ bs) = some (negsuc n, reader (at + 2) bs)

abbrev bool_cells : Bool → Bytes
bool_cells true = 1 ∷ []
bool_cells false = 0 ∷ []

abbrev take_bool : ℕ → Bytes → Option (Bool × Reader)
take_bool at [] = none
take_bool at (zero ∷ bs) = some (false, reader (at + 1) bs)
take_bool at (suc b ∷ bs) = some (true, reader (at + 1) bs)

take_bool-cells :
    (b : Bool) (at : ℕ) (rest : Bytes)
    → take_bool at (bool_cells b ++ rest) ≡ some (b, reader (at + length (bool_cells b)) rest)
take_bool-cells true at rest = refl
take_bool-cells false at rest = refl

take_bool_takes :
    (at : ℕ) (bs : Bytes) (s : Reader) (b : Bool)
    → take_bool at bs ≡ some (b, s)
    → length s.rest < length bs
take_bool_takes at [] s b h = cc
take_bool_takes at (zero ∷ bs) s b h = ground arith
take_bool_takes at (suc c ∷ bs) s b h = ground arith

abbrev put_first : ℕ → Option (Text × Bytes) → Option (Text × Bytes)
put_first c none = none
put_first c (some (t, bs)) = some (c ∷ t, bs)

abbrev cut : ℕ → Bytes → Option (Text × Bytes)
cut zero bs = some ([], bs)
cut (suc n) [] = none
cut (suc n) (b ∷ bs) = put_first b (cut n bs)

abbrev text_at : ℕ → Option (Text × Bytes) → Option (Text × Reader)
text_at at none = none
text_at at (some (t, bs)) = some (t, reader at bs)

abbrev take_text : ℕ → Bytes → Option (Text × Reader)
take_text at [] = none
take_text at (n ∷ bs) = text_at (at + suc n) (cut n bs)

abbrev skip_cell : ℕ → Bytes → Option Reader
skip_cell at [] = none
skip_cell at (b ∷ bs) = some (reader (at + 1) bs)

cut-append : (t rest : Bytes) → cut (length t) (t ++ rest) ≡ some (t, rest)
cut-append [] rest = refl
cut-append (c ∷ cs) rest = ap (put_first c) (cut-append cs rest)

take_int-cells :
    (v : ℤ) (at : ℕ) (rest : Bytes)
    → take_int at (int_cells v ++ rest) ≡ some (v, reader (at + length (int_cells v)) rest)
take_int-cells (pos n) at rest = refl
take_int-cells (negsuc n) at rest = refl

take_uint_takes :
    (at : ℕ) (bs : Bytes) (s : Reader) (n : ℕ)
    → take_uint at bs ≡ some (n, s)
    → length s.rest < length bs
take_uint_takes at [] s n h = cc
take_uint_takes at (b ∷ bs) s n h = ground arith

take_int_takes :
    (at : ℕ) (bs : Bytes) (s : Reader) (v : ℤ)
    → take_int at bs ≡ some (v, s)
    → length s.rest < length bs
take_int_takes at [] s v h = cc
take_int_takes at (b ∷ []) s v h = cc
take_int_takes at (zero ∷ n ∷ bs) s v h = ground arith
take_int_takes at (suc b ∷ n ∷ bs) s v h = ground arith

put_first_takes :
    (b : ℕ) (o : Option (Text × Bytes)) (k : ℕ) (t : Text) (rest : Bytes)
    → ((u : Text) (left : Bytes) → o ≡ some (u, left) → length left ≤ k)
    → put_first b o ≡ some (t, rest)
    → length rest ≤ k
put_first_takes b none k t rest takes h = cc
put_first_takes b (some (u, left)) k t rest takes h =
    let same : left ≡ rest = cc in omega (arith, takes u left refl, ap length same)

cut_takes :
    (n : ℕ) (bs : Bytes) (t : Text) (rest : Bytes)
    → cut n bs ≡ some (t, rest)
    → length rest ≤ length bs
cut_takes zero bs t rest h = let same : bs ≡ rest = cc in omega (arith, ap length same)
cut_takes (suc n) [] t rest h = cc
cut_takes (suc n) (b ∷ bs) t rest h =
    put_first_takes b (cut n bs) (length (b ∷ bs)) t rest
      (λ u left found. omega (arith, cut_takes n bs u left found)) h

text_at_takes :
    (at : ℕ) (o : Option (Text × Bytes)) (k : ℕ) (t : Text) (s : Reader)
    → ((u : Text) (left : Bytes) → o ≡ some (u, left) → length left ≤ k)
    → text_at at o ≡ some (t, s)
    → length s.rest ≤ k
text_at_takes at none k t s takes h = cc
text_at_takes at (some (u, left)) k t s takes h =
    let same : reader at left ≡ s = cc in
    omega (arith, takes u left refl, ap (λ r. length r.rest) same)

take_text_takes :
    (at : ℕ) (bs : Bytes) (s : Reader) (t : Text)
    → take_text at bs ≡ some (t, s)
    → length s.rest < length bs
take_text_takes at [] s t h = cc
take_text_takes at (n ∷ bs) s t h = omega (
  arith,
  text_at_takes (at + suc n) (cut n bs) (length bs) t s (λ u left. cut_takes n bs u left) h,
)

skip_cell_takes :
    (at : ℕ) (bs : Bytes) (s : Reader) → skip_cell at bs ≡ some s → length s.rest ≤ length bs
skip_cell_takes at [] s h = cc
skip_cell_takes at (b ∷ bs) s h = ground arith

abbrev cells : Wire
cells = record {
  uint32 = λ n. n ∷ [];
  int32 = int_cells;
  string = text_cells;
  read_uint32 = λ r. take_uint r.at r.rest;
  read_int32 = λ r. take_int r.at r.rest;
  read_string = λ r. take_text r.at r.rest;
  double = λ bits. bits ∷ [];
  bool = bool_cells;
  read_double = λ r. take_uint r.at r.rest;
  read_bool = λ r. take_bool r.at r.rest;
  skip = λ kind r. skip_cell r.at r.rest;
  read-uint32 = λ n at rest small. refl;
  read-int32 = λ v at rest fits. take_int-cells v at rest;
  read-string = λ t at rest scalar short. ap (text_at (at + suc (length t))) (cut-append t rest);
  uint32_takes = λ r s n. take_uint_takes r.at r.rest s n;
  int32_takes = λ r s v. take_int_takes r.at r.rest s v;
  string_takes = λ r s t. take_text_takes r.at r.rest s t;
  read-double = λ bits at rest small. refl;
  read-bool = take_bool-cells;
  double_takes = λ r s n. take_uint_takes r.at r.rest s n;
  bool_takes = λ r s b. take_bool_takes r.at r.rest s b;
  skip_takes = λ kind r s. skip_cell_takes r.at r.rest s;
}

blank : IsWritten cells []
blank = record { scalar = tt; short = omega arith }

digit : IsWritten cells (49 ∷ [])
digit = record { scalar = (inl (omega arith), tt); short = omega arith }

-- Switch a Light off.
abbrev off : UpdateLightRequest
off = record {
  light_id = 49 ∷ [];
  command = some (record LightPut.base { on = some (record { on = false }) });
}

off-IsSendable : UpdateLightRequest.IsSendable cells off
off-IsSendable = record {
  light_id = digit;
  command = (
    record {
      type = tt;
      on = (tt, omega arith);
      dimming = tt;
      dimming_delta = tt;
      color_temperature_delta = tt;
      dynamics = tt;
      alert = tt;
      signaling = tt;
      mode = tt;
      gradient = tt;
      effects = tt;
      effects_v2 = tt;
      timed_effects = tt;
      powerup = tt;
      colour = tt;
    },
    omega arith,
  );
}

update_light-encode_example :
    decode_as
      (UpdateLightRequest.message cells)
      0
      (length (UpdateLightRequest.encode cells off))
      (reader 0 (UpdateLightRequest.encode cells off ++ []))
    ≡ ok off (reader (0 + length (UpdateLightRequest.encode cells off)) [])
update_light-encode_example = update_light-encode cells off off-IsSendable 0 []

-- A Bridge with one Light, which is on.
abbrev one_light : ListLightsResponse
one_light = record {
  lights = record LightGet.base { id = 49 ∷ []; on = some (record { on = true }) } ∷ [];
}

one_light-IsSendable : ListLightsResponse.IsSendable cells one_light
one_light-IsSendable = record {
  lights = (
    (
      record {
        type = blank;
        id = digit;
        id_v1 = tt;
        owner = tt;
        metadata = tt;
        identify = tt;
        service_id = omega arith;
        on = (tt, omega arith);
        dimming = tt;
        color_temperature = tt;
        color = tt;
        dynamics = tt;
        alert = tt;
        signaling = tt;
        mode = omega arith;
        gradient = tt;
        effects = tt;
        effects_v2 = tt;
        timed_effects = tt;
        powerup = tt;
        product_data = tt;
        geometry = tt;
      },
      omega arith,
    ),
    tt,
  );
}

list_lights-encode_example :
    decode_as
      (ListLightsResponse.message cells)
      0
      (length (ListLightsResponse.encode cells one_light))
      (reader 0 (ListLightsResponse.encode cells one_light ++ []))
    ≡ ok one_light (reader (0 + length (ListLightsResponse.encode cells one_light)) [])
list_lights-encode_example = list_lights-encode cells one_light one_light-IsSendable 0 []

-- Bytes that are no message.
list_lights-Ends_example :
    Ends 3 (decode_as (ListLightsResponse.message cells) 0 3 (reader 0 (10 ∷ 7 ∷ 16 ∷ [])))
list_lights-Ends_example = list_lights-Ends cells 3 (reader 0 (10 ∷ 7 ∷ 16 ∷ []))

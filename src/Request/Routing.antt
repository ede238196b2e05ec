-- ===== src/Request/Routing.antt =====
-- Where the route that changes a Light lies among what http/app.ts mounts.
use sharpn.Prelude.{
  String, ◌≡◌, refl, ◌≢◌, inl, inr, Bool, true, false, ◌&&◌, ◌||◌, List, [], ◌∷◌, arith, str_eq,
  str_eq_iff, Bool-cases,
}
use sharpn.Request.{
  changes_nothing, under, Route, sign_in, sign_out, unserved, update_light, operator_route,
  collection_route, light_route, route_of, mounted, is_mounted, options_of,
}

patch_changes : (method : String) → str_eq method "PATCH" ≡ true → changes_nothing method ≡ false
patch_changes method h = rw ((str_eq_iff method "PATCH").0 h) refl

light_route-patch :
    (method id i : String) → light_route method i ≡ update_light id → str_eq method "PATCH" ≡ true
light_route-patch method id i e = ground arith

operator_route-ne : (method a id : String) → operator_route method a ≢ update_light id
operator_route-ne method a id = ground arith

collection_route-ne : (method c id : String) → collection_route method c ≢ update_light id
collection_route-ne method c id = ground arith

mounted-update_light :
    (method : String) (path : List String) (id : String)
    → mounted method path ≡ update_light id
    → (under "lights" path ≡ true) × (changes_nothing method ≡ false)
unfolding mounted
mounted-update_light method [] id e = cc
mounted-update_light method (a ∷ []) id e = absurd (operator_route-ne method a id e)
mounted-update_light method (a ∷ b ∷ []) id e = cc
mounted-update_light method (a ∷ b ∷ c ∷ []) id e =
    elim (Bool-cases (str_eq a "api" && str_eq b "v1")) [
      | inl hit ↦ absurd (collection_route-ne method c id (rw (hit, mounted) at e))
      | inr miss ↦ absurd (clash (rw (miss, mounted) at e))
    ]
  where
    clash : unserved ≢ update_light id
    clash = λ q. cc
mounted-update_light method (a ∷ b ∷ c ∷ d ∷ []) id e =
    elim (Bool-cases (under "lights" (a ∷ b ∷ c ∷ []))) [
      | inl lit ↦
          (lit, patch_changes method (light_route-patch method id d (rw (lit, mounted) at e)))
      | inr dark ↦ absurd (clash (rw (dark, mounted) at e))
    ]
  where
    clash : unserved ≢ update_light id
    clash = λ q. cc
mounted-update_light method (a ∷ b ∷ c ∷ d ∷ f ∷ path) id e = cc

-- The route that changes a Light lies behind the gate of the Lights, and is no read.
pub route_of-update_light :
    (method : String) (path : List String) (id : String)
    → route_of method path ≡ update_light id
    → (under "lights" path ≡ true) × (changes_nothing method ≡ false)
unfolding route_of
route_of-update_light method path id e =
    elim (Bool-cases (str_eq method "OPTIONS" && is_mounted path)) [
      | inl asked ↦ absurd (clash (rw (asked, route_of) at e))
      | inr other ↦ mounted-update_light method path id (rw (other, route_of) at e)
    ]
  where
    clash : options_of ≢ update_light id
    clash = λ q. cc

-- The two routes that set the cookie themselves.
abbrev pub sets_cookie : Route → Bool
sets_cookie sign_in = true
sets_cookie sign_out = true
sets_cookie _ = false

sets_cookie-collection_route :
    (method c : String)
    → str_eq c "session" ≡ false
    → sets_cookie (collection_route method c) ≡ false
sets_cookie-collection_route method c h = ground arith

sets_cookie-light_route : (method id : String) → sets_cookie (light_route method id) ≡ false
sets_cookie-light_route method id = ground arith

name_is_not_session :
    (c : String) → (str_eq c "lights" || str_eq c "events") ≡ true → str_eq c "session" ≡ false
name_is_not_session c h = elim (Bool-cases (str_eq c "lights")) [
  | inl lit ↦ rw ((str_eq_iff c "lights").0 lit) refl
  | inr dark ↦ rw ((str_eq_iff c "events").0 (ground arith)) refl
]

sets_cookie-mounted :
    (method : String) (path : List String)
    → (under "lights" path || under "events" path) ≡ true
    → sets_cookie (mounted method path) ≡ false
unfolding mounted
sets_cookie-mounted method [] h = cc
sets_cookie-mounted method (a ∷ []) h = cc
sets_cookie-mounted method (a ∷ b ∷ []) h = cc
sets_cookie-mounted method (a ∷ b ∷ c ∷ []) h =
    elim (Bool-cases (str_eq a "api" && str_eq b "v1")) [
      | inl hit ↦
          rw (hit, mounted)
            (sets_cookie-collection_route method c (name_is_not_session c (ground arith)))
      | inr miss ↦ rw (miss, mounted) refl
    ]
sets_cookie-mounted method (a ∷ b ∷ c ∷ d ∷ []) h =
    elim (Bool-cases (under "lights" (a ∷ b ∷ c ∷ []))) [
      | inl lit ↦ rw (lit, mounted) (sets_cookie-light_route method d)
      | inr dark ↦ rw (dark, mounted) refl
    ]
sets_cookie-mounted method (a ∷ b ∷ c ∷ d ∷ f ∷ path) h = refl

-- None of them lies behind the gate of a session.
pub sets_cookie-route_of :
    (method : String) (path : List String)
    → (under "lights" path || under "events" path) ≡ true
    → sets_cookie (route_of method path) ≡ false
unfolding route_of
sets_cookie-route_of method path h =
    elim (Bool-cases (str_eq method "OPTIONS" && is_mounted path)) [
      | inl asked ↦ rw (asked, route_of) refl
      | inr other ↦ rw (other, route_of) (sets_cookie-mounted method path h)
    ]

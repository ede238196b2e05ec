-- ===== src/Adapter/Ending.antt =====
-- How a subscription of gateway/adapter.ts ends.
use sharpn.Prelude.{
  ℕ, suc, String, ◌≡◌, refl, sym, ap, ◌∙◌, ◌≢◌, ◌⊎◌, inl, inr, Bool, true, false, not, Option, none,
  some, List, [], ◌∷◌, arith, Bool-cases, length,
}
use sharpn.Status.{GrpcStatus, ServiceError, GatewayResult, ok}
use sharpn.Codec.{Happened, Notice, notice_from}
use sharpn.Adapter.{
  Told, notice, opened, over, Listening, subscribe, stop, end, on_metadata, tell_notice, on_data,
  on_error, on_end,
}

-- The events of the stream, in any order, and the calls that cancel it.
pub data Step (grpc : GrpcStatus) (id : String) : Listening → Listening → Type 0 where
  cancels : (l : Listening) → Step grpc id l (stop l)
  opens : (l : Listening) → Step grpc id l (on_metadata l)
  carries : (event : Option Happened) (l : Listening) → Step grpc id l (on_data event l)
  fails : (error : ServiceError) (l : Listening) → Step grpc id l (on_error grpc id error l)
  finishes : (l : Listening) → Step grpc id l (on_end id l)

pub data Steps (grpc : GrpcStatus) (id : String) (l : Listening) : Listening → Type 0 where
  here : Steps grpc id l l
  later : {k m : Listening} → Steps grpc id l k → Step grpc id k m → Steps grpc id l m

-- What the Subscriber was told of the end.
abbrev pub endings : List Told → List (GatewayResult (Unit {0}))
endings [] = []
endings (over ending ∷ told) = ending ∷ endings told
endings (notice n ∷ told) = endings told
endings (opened ∷ told) = endings told

abbrev pub flag : Bool → ℕ
flag true = 1
flag false = 0

-- The Subscriber is told of one end, and the channel keeps the subscription until then.
pub record IsTold (l : Listening) : Type 0 where
  pub once : length (endings l.told) ≡ flag l.ended
  pub kept : l.listed ≡ not l.ended

end-IsTold : (ending : GatewayResult (Unit {0})) (l : Listening) → IsTold l → IsTold (end ending l)
unfolding end
end-IsTold ending l t = elim (Bool-cases l.ended) [
  | inl done ↦ rw done (record { once = t.once ∙ ap flag done; kept = t.kept ∙ ap not done })
  | inr going ↦ rw going (record { once = ap suc (t.once ∙ ap flag going); kept = refl })
]

data-IsTold : (o : Option Notice) (l : Listening) → IsTold l → IsTold (tell_notice o l)
data-IsTold none l t = t
data-IsTold (some n) l t = record { once = t.once; kept = t.kept }

module _ {grpc : GrpcStatus} {id : String} where
  Step-IsTold : {l m : Listening} → Step grpc id l m → IsTold l → IsTold m
  unfolding stop on_metadata on_data on_error on_end
  Step-IsTold (cancels l) t = record { once = t.once; kept = t.kept }
  Step-IsTold (opens l) t = record { once = t.once; kept = t.kept }
  Step-IsTold (carries event l) t = data-IsTold (notice_from event) l t
  Step-IsTold (fails error l) t = end-IsTold _ l t
  Step-IsTold (finishes l) t = end-IsTold _ l t

  Steps-keep-IsTold : {l m : Listening} → Steps grpc id l m → IsTold l → IsTold m
  Steps-keep-IsTold here t = t
  Steps-keep-IsTold (later run step) t = Step-IsTold step (Steps-keep-IsTold run t)

  -- Whatever order the events of the stream come in, and whenever it is cancelled: the
  -- Subscriber is told of one end once the subscription has ended and of none before, and the
  -- channel keeps the subscription exactly until then.
  pub Steps-IsTold : {l : Listening} → Steps grpc id subscribe l → IsTold l
  Steps-IsTold run = Steps-keep-IsTold run (record { once = refl; kept = refl })

-- Cancelled, and either not ended yet or told of a clean end.
abbrev IsClean : String → Listening → Type 0
IsClean id l =
    (l.cancelled ≡ true)
    × (((l.ended ≡ false) × (endings l.told ≡ []))
        ⊎ ((l.ended ≡ true) × (endings l.told ≡ ok id tt ∷ [])))

end-IsClean :
    (id : String) (ending : GatewayResult (Unit {0})) (l : Listening)
    → ending ≡ ok id tt
    → IsClean id l
    → IsClean id (end ending l)
unfolding end
end-IsClean id ending l e (cancelled, inl (going, none_told)) =
    rw going (cancelled, inr (refl, λ i. e i ∷ none_told i))
end-IsClean id ending l e (cancelled, inr (done, one)) = rw done (cancelled, inr (refl, one))

data-IsClean :
    (id : String) (o : Option Notice) (l : Listening) → IsClean id l → IsClean id (tell_notice o l)
data-IsClean id none l c = c
data-IsClean id (some n) l c = c

no_endings : {l : Listening} → IsTold l → l.ended ≡ false → endings l.told ≡ []
no_endings {l} t going = empty_of (endings l.told) (t.once ∙ ap flag going)
  where
    empty_of : (es : List (GatewayResult (Unit {0}))) → length es ≡ 0 → es ≡ []
    empty_of [] h = refl
    empty_of (e ∷ es) h = absurd (omega (arith, h))

ended_clean :
    (id : String) (m : Listening) → IsClean id m → m.ended ≡ true → endings m.told ≡ ok id tt ∷ []
ended_clean id m (cancelled, inl (going, none_told)) done = absurd (clash (sym going ∙ done))
  where
    clash : false ≢ true
    clash = λ q. cc
ended_clean id m (cancelled, inr (ended, one)) done = one

module _ {grpc : GrpcStatus} {id : String} where
  Step-IsClean : {l m : Listening} → Step grpc id l m → IsClean id l → IsClean id m
  unfolding stop on_metadata on_data on_error on_end
  Step-IsClean (cancels l) (cancelled, rest) = (refl, rest)
  Step-IsClean (opens l) c = c
  Step-IsClean (carries event l) c = data-IsClean id (notice_from event) l c
  Step-IsClean (fails error l) c = end-IsClean id _ l (rw c.0 refl) c
  Step-IsClean (finishes l) c = end-IsClean id _ l refl c

  Steps-IsClean : {l m : Listening} → Steps grpc id l m → IsClean id l → IsClean id m
  Steps-IsClean here c = c
  Steps-IsClean (later run step) c = Step-IsClean step (Steps-IsClean run c)

  -- A subscription that is cancelled before it ends, and then does, is told of one end, and of a
  -- clean one, whatever its stream reports.
  pub cancelled-endings :
      {l m : Listening}
      → Steps grpc id subscribe l
      → l.ended ≡ false
      → Steps grpc id (stop l) m
      → m.ended ≡ true
      → endings m.told ≡ ok id tt ∷ []
  unfolding stop
  cancelled-endings {l} {m} before going after done =
      ended_clean id m
        (Steps-IsClean after (refl, inl (going, no_endings (Steps-IsTold before) going))) done

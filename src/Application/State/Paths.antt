-- ===== src/Application/State/Paths.antt =====
-- The lifecycle as a relation: what a sequence of allowed transitions can reach.
use mathlib.Core.Path.{subst}
use careerpilot.Base.{
  ◌≡◌, refl, ap, ◌∙◌, ◌↔◌, ◌⊎◌, inl, inr, Bool, true, false, List, [], ◌∷◌, arith, nat_eq, contains,
  string_eq, int_eq, Result, ok, err, Result-cases,
}
use careerpilot.Application.Types.{
  status_eq, Status, discovered, qualified, preparing, review, ready, starting, submitting,
  submitted, human_required, failed, expired, cancelled, Application,
}
use careerpilot.Application.State.{valid_transition, transition}

ok_inj : {A : Type 0} {x y : A} → ok x ≡ ok y → x ≡ y
ok_inj h = cc

-- A transition succeeds exactly when the table allows it, and then only the status changes.
pub transition_exact :
    (a b : Application) (to : Status)
    → (transition a to ≡ ok b)
      ↔ ((valid_transition a.status to ≡ true) × (b ≡ record a { status = to }))
unfolding transition
transition_exact a b to = ground arith

-- Statuses requested one after another; the first refusal ends the run.
unfoldable pub advance : Application → List Status → Result Application
advance a [] = ok a
advance a (to ∷ via) = elim (transition a to) [ ok b ↦ advance b via | err e ↦ err e ]

-- The lifecycle as a relation: the statuses that a history goes through after its start.
pub data Reaches : Status → List Status → Status → Type 0 where
  here : {s : Status} → Reaches s [] s
  step :
      {s t u : Status} {via : List Status}
      → valid_transition s t ≡ true
      → Reaches t via u
      → Reaches s (t ∷ via) u

-- A run of the code that succeeds is a history of the relation, and changes only the status.
pub advance-Reaches :
    (a : Application) (via : List Status) {b : Application}
    → advance a via ≡ ok b
    → Reaches a.status via b.status × (b ≡ record a { status = b.status })
unfolding advance
advance-Reaches a [] h = rw (← ok_inj h) (here, refl)
advance-Reaches a (to ∷ via) {b} h = elim (Result-cases (transition a to)) [
  | inr (e, r) ↦ absurd (ground arith)
  | inl (c, r) ↦
      let (allowed, same) = (transition_exact a c to).0 r in
      let onward : advance c via ≡ ok b = ground arith in
      let (rest, kept) = advance-Reaches c via onward in
      (
        step allowed (subst (λ x. Reaches x.status via b.status) same rest),
        kept ∙ ap {A = Application} (λ x. record x { status = b.status }) same,
      )
]

-- A region of statuses that can only be left through one status.
module _ (inside : Status → Bool) (gate : Status)
    (barrier : (s t : Status)
      → inside s ≡ true
      → valid_transition s t ≡ true
      → (t ≡ gate) ⊎ (inside t ≡ true)) where
  gate_is_passed :
      {s u : Status} {via : List Status}
      → Reaches s via u
      → inside s ≡ true
      → inside u ≡ false
      → contains via gate ≡ true
  gate_is_passed here b h = cc
  gate_is_passed (step {s = s} {t = t} v r) b h = elim (barrier s t b v) [
    | inl e ↦ ground arith
    | inr q ↦ ground (arith, gate_is_passed r q h)
  ]

-- Before a person has reviewed, before READY, and before the submit action.
abbrev before_review : Status → Bool
before_review discovered = true
before_review qualified = true
before_review preparing = true
before_review cancelled = true
before_review _ = false

abbrev before_ready : Status → Bool
before_ready review = true
before_ready s = before_review s

abbrev before_submitting : Status → Bool
before_submitting submitting = false
before_submitting submitted = false
before_submitting _ = true

barrier_review :
    (s t : Status)
    → before_review s ≡ true
    → valid_transition s t ≡ true
    → (t ≡ review) ⊎ (before_review t ≡ true)
unfolding valid_transition
barrier_review s t b h = ground arith

barrier_ready :
    (s t : Status)
    → before_ready s ≡ true
    → valid_transition s t ≡ true
    → (t ≡ ready) ⊎ (before_ready t ≡ true)
unfolding valid_transition
barrier_ready s t b h = ground arith

barrier_submitting :
    (s t : Status)
    → before_submitting s ≡ true
    → valid_transition s t ≡ true
    → (t ≡ submitting) ⊎ (before_submitting t ≡ true)
unfolding valid_transition
barrier_submitting s t b h = ground arith

-- Any run that takes an application from DISCOVERED to SUBMITTED has requested REVIEW, READY and
-- SUBMITTING on the way.
pub submitted_needs_steps :
    (a : Application) (via : List Status) {b : Application}
    → advance a via ≡ ok b
    → a.status ≡ discovered
    → b.status ≡ submitted
    → (contains via review ≡ true) × (contains via ready ≡ true) × (contains via submitting ≡ true)
submitted_needs_steps a via h s t =
    let r = (advance-Reaches a via h).0 in
    (
      gate_is_passed before_review review barrier_review r (rw s) (rw t),
      gate_is_passed before_ready ready barrier_ready r (rw s) (rw t),
      gate_is_passed before_submitting submitting barrier_submitting r (rw s) (rw t),
    )

abbrev pub is_terminal : Status → Bool
is_terminal submitted = true
is_terminal failed = true
is_terminal expired = true
is_terminal cancelled = true
is_terminal _ = false

-- The terminal status that every other status can go to at once.
abbrev exit : Status → Status
exit discovered = cancelled
exit qualified = cancelled
exit preparing = cancelled
exit review = cancelled
exit ready = cancelled
exit starting = cancelled
exit human_required = cancelled
exit _ = failed

valid_transition-exit : (s : Status) → is_terminal s ≡ false → valid_transition s (exit s) ≡ true
unfolding valid_transition status_eq
valid_transition-exit s h = ground arith

-- A status refuses every request exactly when it is SUBMITTED, FAILED, EXPIRED or CANCELLED, and
-- from every other status one request leads to FAILED or CANCELLED.
pub terminal_exact :
    (s : Status)
    → ((is_terminal s ≡ true) ↔ ((t : Status) → valid_transition s t ≡ false))
      × ((is_terminal s ≡ true)
          ⊎ (valid_transition s failed ≡ true)
          ⊎ (valid_transition s cancelled ≡ true))
unfolding valid_transition status_eq
terminal_exact s = (
  (λ h t. ground arith, λ closed. ground (arith, closed (exit s), valid_transition-exit s)),
  ground arith,
)

-- ===== src/Browser/Steps/HandOver.antt =====
-- What a person is handed when a session pauses.
use careerpilot.Base.{
  String, ◌<>◌, ◌≡◌, inl, inr, none, some, List, ◌∷◌, arith, Option-cases, ok, Result-cases, add,
}
use careerpilot.Browser.Types
use careerpilot.Browser.Types.{Session, Outcome, Call, Runner}
use careerpilot.Browser.Recovery.{new_recovery_token}
use careerpilot.Browser.Steps.{notify, hand_over}

-- What tells the person, put on record if there is somebody to tell.
abbrev pub notified : Runner → Session → String → String → List Call → List Call
notified r s reason raw h = elim r.notifier [
  | none ↦ h
  | some send ↦ Types.notify_human_required s.id s.application_id reason ("/recovery/" <> raw) ∷ h
]

-- The calls of a hand-over: a token is drawn and only its hash stored, for this session and until
-- the recovery time is over, before anybody is told.
pub record IsHandedOver (r : Runner) (s : Session) (reason : String) (h h' : List Call)
    : Type 0 where
  pub raw : String
  pub drawn : r.random_token (Types.read_clock ∷ h) ≡ ok raw
  pub stored :
      r.tokens.save_token_hash
        (Types.draw_token ∷ Types.read_clock ∷ h)
        (r.sha256_hex raw)
        s.id
        (add (r.now h) r.recovery_ttl)
      ≡ none
  pub calls :
      h'
      ≡ notified r s reason raw (
          Types.save_token_hash (r.sha256_hex raw) s.id (add (r.now h) r.recovery_ttl)
          ∷ Types.draw_token
          ∷ Types.read_clock
          ∷ h)

module _ (r : Runner) where
  -- A hand-over that reports HUMAN_REQUIRED has drawn a token, has stored its hash and not the token
  -- for the session until the recovery time is over, and has then, if there is a notifier, sent the
  -- link with the token; it made no other call but to the clock.
  pub hand_over-IsHandedOver :
      (s : Session) (reason : String) (h : List Call)
      → (hand_over r s reason h).0.0.outcome ≡ Outcome.human_required
      → IsHandedOver r s reason h (hand_over r s reason h).1
  unfolding hand_over notify new_recovery_token
  hand_over-IsHandedOver s reason h paused =
      let drawing = Types.read_clock ∷ h in
      elim (Result-cases (r.random_token drawing)) [
        | inr (e, failed) ↦ absurd (ground arith)
        | inl (raw, drawn) ↦
            let drawn_calls = Types.draw_token ∷ drawing in
            elim (Option-cases (
              r.tokens.save_token_hash drawn_calls (r.sha256_hex raw) s.id
                (add (r.now h) r.recovery_ttl))) [
                  | inr (e, unsaved) ↦ absurd (ground arith)
                  | inl stored ↦ record {
                    raw = raw;
                    drawn = drawn;
                    stored = stored;
                    calls = ground arith;
                  }
                ]
      ]

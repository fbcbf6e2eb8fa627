-- ===== src/Browser/Steps/Notified.antt =====
-- The notification service of internal/notification as the notifier of a runner, which is what the
-- signature of its NotifyHumanRequired is for.
use careerpilot.Base.{
  String, ◌<>◌, ◌≡◌, refl, inl, inr, Option, none, some, List, ◌∷◌, arith, Option-cases, Error, ok,
  Result-cases, add,
}
use careerpilot.Notification
use careerpilot.Notification.{Notification, Service, notify_human_required, human_notification}
use careerpilot.Notification.Persistence.{notify_persists}
use careerpilot.Browser.Types
use careerpilot.Browser.Types.{Session, Outcome, Call, Runner}
use careerpilot.Browser.Recovery.{new_recovery_token}
use careerpilot.Browser.Steps.{notify, hand_over}

-- `asked` are the calls that the service has made by then.
abbrev pub service_notifier :
    Service
    → (List Call → List Notification.Call)
    → List Call
    → String
    → String
    → String
    → String
    → Option Error
service_notifier s asked h session_id application_id reason url =
    (notify_human_required s session_id application_id reason url (asked h)).0

-- The notification that the store has taken, behind the calls that the service made before.
abbrev pub stored_notification :
    Service → List Notification.Call → Session → String → String → Notification
stored_notification s q x reason url =
    record (human_notification x.id x.application_id reason url) {
      id = s.new_id q;
      created_at = s.now (Notification.new_id ∷ q);
    }

module _ (r : Runner) (s : Service) (asked : List Call → List Notification.Call) where
  -- The calls of a hand-over before it notifies.
  abbrev pub before_notice : Session → String → List Call → List Call
  before_notice x raw h =
      Types.save_token_hash (r.sha256_hex raw) x.id (add (r.now h) r.recovery_ttl)
      ∷ Types.draw_token
      ∷ Types.read_clock
      ∷ h

  -- A hand-over that ends without an error, with the notification service as the notifier, has given
  -- the notification store a notification whose action URL has the drawn token itself, and the store
  -- has taken it, while the token store was given the token's hash.
  pub hand_over_stores_link :
      (x : Session) (reason : String) (h : List Call)
      → r.notifier ≡ some (service_notifier s asked)
      → (hand_over r x reason h).0.1 ≡ none
      → (raw : String) × (r.random_token (Types.read_clock ∷ h) ≡ ok raw)
        × (r.tokens.save_token_hash
              (Types.draw_token ∷ Types.read_clock ∷ h)
              (r.sha256_hex raw)
              x.id
              (add (r.now h) r.recovery_ttl)
            ≡ none)
        × let q = asked (before_notice x raw h) in
          let n = stored_notification s q x reason ("/recovery/" <> raw) in
          (s.save_notification (Notification.read_clock ∷ Notification.new_id ∷ q) n ≡ none)
          × (n.action_url ≡ "/recovery/" <> raw)
  unfolding hand_over notify new_recovery_token notify_human_required
  hand_over_stores_link x reason h wired fine =
      let drawing = Types.read_clock ∷ h in
      elim (Result-cases (r.random_token drawing)) [
        | inr (e, failed) ↦ absurd (ground arith)
        | inl (raw, drawn) ↦
            let drawn_calls = Types.draw_token ∷ drawing in
            elim (Option-cases (
              r.tokens.save_token_hash drawn_calls (r.sha256_hex raw) x.id
                (add (r.now h) r.recovery_ttl))) [
                  | inr (e, unsaved) ↦ absurd (ground arith)
                  | inl stored ↦
                      let url = "/recovery/" <> raw in
                      let q = asked (before_notice x raw h) in
                      let n = human_notification x.id x.application_id reason url in
                      elim (Option-cases (Notification.notify s n q).0) [
                        | inr (e, unsent) ↦ absurd (ground arith)
                        | inl sent ↦
                            (raw, drawn, stored, (((notify_persists s n q).1.0 sent).0, refl))
                      ]
                ]
      ]

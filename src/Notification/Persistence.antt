-- ===== src/Notification/Persistence.antt =====
-- A notification is stored before it is sent, and whatever becomes of the sending.
use careerpilot.Base.{◌≡◌, ◌≢◌, ◌↔◌, ◌⊎◌, none, List, ◌∷◌, arith}
use careerpilot.Notification.{
  Notification, Call, new_id, read_clock, save_notification, send, Service, notify,
}

-- Every notification is handed to the store, once and before any sending; it is sent, as it was
-- stored, exactly when the store took it; no error is returned exactly when both went well.
pub notify_persists :
    (s : Service) (n : Notification) (h : List Call)
    → let drawn = read_clock ∷ new_id ∷ h in
      let n' = record n { id = s.new_id h; created_at = s.now (new_id ∷ h) } in
      let stored = save_notification n' ∷ drawn in
      let (failure, h') = notify s n h in
      (((s.save_notification drawn n' ≢ none) × (h' ≡ stored) × (failure ≢ none))
        ⊎ ((s.save_notification drawn n' ≡ none) × (h' ≡ send n' ∷ stored)))
      × ((failure ≡ none) ↔ ((s.save_notification drawn n' ≡ none) × (s.send stored n' ≡ none)))
unfolding notify
notify_persists s n h = ground arith

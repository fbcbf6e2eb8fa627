-- ===== src/Notification.antt =====
-- internal/notification/notification.go. The channel, the store, the ids and the clock are the
-- environment.
pub mod Persistence
use careerpilot.Base.{
  String, ◌<>◌, Option, none, some, List, pos, Error, on_nil, wrap, M, ◌>>=◌, pure, call, Time,
}

pub data Kind : Type 0 where
  review_required human_required : Kind

pub record Notification : Type 0 where
  pub id : String
  pub kind : Kind
  pub company : String
  pub role : String
  pub reason : String
  pub progress : String
  pub action_url : String
  pub expires_at : Time
  pub created_at : Time

-- `Notification{}` but for its kind.
abbrev no_notification : Kind → Notification
no_notification kind = record {
  id = "";
  kind = kind;
  company = "";
  role = "";
  reason = "";
  progress = "";
  action_url = "";
  expires_at = pos 0;
  created_at = pos 0;
}

pub data Call : Type 0 where
  new_id read_clock : Call
  save_notification : Notification → Call
  send : Notification → Call

-- A `Service`.
pub record Service : Type 0 where
  pub send : List Call → Notification → Option Error
  pub save_notification : List Call → Notification → Option Error
  pub new_id : List Call → String
  pub now : List Call → Time

-- What a hand-over to a person is notified by.
abbrev pub human_notification : String → String → String → String → Notification
human_notification session_id application_id reason recovery_url =
    record (no_notification human_required) {
      reason = reason;
      progress = "session " <> session_id <> " (application " <> application_id <> ")";
      action_url = recovery_url;
    }

module _ (s : Service) where
  unfoldable pub notify : Notification → M Call (Option Error)
  notify n = do
    id ← call new_id s.new_id
    created ← call read_clock s.now
    let n' = record n { id = id; created_at = created }
    unsaved ← call (save_notification n') (λ h. s.save_notification h n')
    on_nil unsaved (λ e. some (wrap "notification: save" e))
        do
          unsent ← call (send n') (λ h. s.send h n')
          on_nil unsent (λ e. some (wrap "notification: send" e)) (pure none)

  unfoldable pub notify_review_required :
      String → String → String → String → String → M Call (Option Error)
  notify_review_required company role reason progress action_url =
      notify (record (no_notification review_required) {
        company = company;
        role = role;
        reason = reason;
        progress = progress;
        action_url = action_url;
      })

  unfoldable pub notify_human_required : String → String → String → String → M Call (Option Error)
  notify_human_required session_id application_id reason recovery_url =
      notify (human_notification session_id application_id reason recovery_url)

-- The line that `LogSender.Send` writes to the log, with its attributes.
pub record LogLine : Type 0 where
  pub kind : Kind
  pub company : String
  pub role : String
  pub reason : String
  pub progress : String
  pub action_url : String

-- `LogSender.Send`, which cannot fail.
pub log_sender_send : Notification → M LogLine (Option Error)
log_sender_send n = do
  let line : LogLine = record {
    kind = n.kind;
    company = n.company;
    role = n.role;
    reason = n.reason;
    progress = n.progress;
    action_url = n.action_url;
  }
  written ← call line (λ h. tt)
  pure none

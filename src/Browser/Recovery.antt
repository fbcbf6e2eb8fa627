-- ===== src/Browser/Recovery.antt =====
-- internal/browser/recovery.go: single-use tokens, of which only the hash is stored.
pub mod SingleUse
pub mod Race
mod Tests
use careerpilot.Base.{
  String, none, some, on_nil, message, wrap, Result, ok, err, M, ◌>>=◌, pure, call, on_ok, Time,
  Duration, add,
}
use careerpilot.Browser.Types
use careerpilot.Browser.Types.{Call, Runner, TokenStore}

pub record RecoveryToken : Type 0 where
  pub raw : String
  pub hash : String
  pub session_id : String
  pub expires_at : Time

unfoldable pub new_recovery_token :
    Runner → String → Time → Duration → M Call (Result RecoveryToken)
new_recovery_token r session_id now ttl = do
  drawn ← call Types.draw_token r.random_token
  on_ok drawn (λ e. err (wrap "browser: generate recovery token" e))
      λ raw. pure (
        ok (record {
          raw = raw;
          hash = r.sha256_hex raw;
          session_id = session_id;
          expires_at = add now ttl;
        }))

unfoldable pub redeem : Runner → String → Time → M Call (Result String)
redeem r raw now = do
  let hash = r.sha256_hex raw
  answer ← call (Types.lookup_by_hash hash now) (λ h. r.tokens.lookup_by_hash h hash now)
  on_ok answer (λ e. err (wrap "browser: redeem recovery token" e))
      λ found. elim found [
        | none ↦ pure (err (message "browser: recovery token invalid or expired"))
        | some session_id ↦ do
          failure ← call (Types.revoke_by_hash hash) (λ h. r.tokens.revoke_by_hash h hash)
          on_nil failure (λ e. err (wrap "browser: revoke recovery token after redemption" e))
              (pure (ok session_id))
      ]

-- ===== src/Browser/Recovery/SingleUse.antt =====
-- A recovery token works once.
use careerpilot.Base.{
  String, ◌≡◌, inl, inr, Bool, false, none, List, ◌∷◌, ◌++◌, arith, nat_eq, ◌==◌, string_eq,
  Option-cases, any, int_eq, message, ok, err, Time,
}
use careerpilot.Browser.Types
use careerpilot.Browser.Types.{Call, Runner}
use careerpilot.Browser.Recovery.{redeem}

abbrev pub stores_token : String → Call → Bool
stores_token hash (Types.save_token_hash other id expires) = other == hash
stores_token hash _ = false

-- A token store that does not find a hash that it revoked, until that hash is stored again.
pub record ForgetsRevoked (r : Runner) : Type 0 where
  pub not_found :
      (h later : List Call) (hash : String) (now : Time)
      → r.tokens.revoke_by_hash h hash ≡ none
      → any (stores_token hash) later ≡ false
      → r.tokens.lookup_by_hash (later ++ (Types.revoke_by_hash hash ∷ h)) hash now ≡ ok none

-- Over a token store that does not find a hash that it revoked, a token that has been redeemed
-- cannot be redeemed again, at any time and after any other calls, unless its hash has been stored
-- anew.
pub redeem_once :
    (r : Runner) (raw : String) (now later_on : Time) (h later : List Call) {id : String}
    → ForgetsRevoked r
    → (redeem r raw now h).0 ≡ ok id
    → any (stores_token (r.sha256_hex raw)) later ≡ false
    → (redeem r raw later_on (later ++ (redeem r raw now h).1)).0
      ≡ err (message "browser: recovery token invalid or expired")
unfolding redeem
redeem_once r raw now later_on h later forgets redeemed fresh =
    let hash = r.sha256_hex raw in
    let h' = Types.lookup_by_hash hash now ∷ h in
    elim (Option-cases (r.tokens.revoke_by_hash h' hash)) [
      | inr (e, kept) ↦ absurd (ground arith)
      | inl revoked ↦ ground (arith, forgets.not_found h' later hash later_on revoked fresh)
    ]

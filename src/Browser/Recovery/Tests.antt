-- ===== src/Browser/Recovery/Tests.antt =====
-- A token store that keeps the law of internal/browser/recovery.go, and a token used on it.
use careerpilot.Base.{
  String, ◌<>◌, ◌≡◌, refl, ap, false, Option, none, some, List, [], ◌∷◌, ◌++◌, arith, if◌then◌else◌,
  nat_eq, ◌==◌, string_eq, any, pos, int_eq, message, ok, err, minute,
}
use careerpilot.Browser.Types
use careerpilot.Browser.Types.{normal, no_session, Call, Runner}
use careerpilot.Browser.Recovery.{redeem}
use careerpilot.Browser.Recovery.SingleUse.{ForgetsRevoked, stores_token, redeem_once}
use careerpilot.Browser.Recovery.Race.{
  Redemption, looking, Race, begin, opened, turn, winners, late_redemptions_fail,
}

-- The last thing that happened to a hash decides.
lookup_in : List Call → String → Option String
lookup_in [] hash = none
lookup_in (Types.revoke_by_hash other ∷ h) hash =
    let rest = lookup_in h hash in if other == hash then none else rest
lookup_in (Types.save_token_hash other id expires ∷ h) hash =
    let rest = lookup_in h hash in if other == hash then some id else rest
lookup_in (_ ∷ h) hash = lookup_in h hash

runner : Runner
runner = record {
  driver = record {
    launch = λ h. none;
    navigate = λ h url. ok normal;
    fill = λ h values. none;
    detect_state = λ h. ok normal;
    screenshot = λ h. err (message "no screenshot");
    current_url = λ h. "";
    submit = λ h selector. ok normal;
  };
  tokens = record {
    save_token_hash = λ h hash id expires. none;
    lookup_by_hash = λ h hash now. ok (lookup_in h hash);
    revoke_by_hash = λ h hash. none;
  };
  count_started_since = λ h since. ok (pos 0);
  save_session = λ h s. ok s;
  get_session = λ h id. ok no_session;
  save_checkpoint = λ h c. none;
  save_screenshot = λ h id shot. "";
  notifier = none;
  limits = record { browser_sessions_per_day = pos 2; max_session_minutes = pos 30 };
  recovery_ttl = minute;
  random_token = λ h. ok "raw";
  sha256_hex = λ s. "h:" <> s;
  new_id = λ h. "id";
  now = λ h. pos 0;
}

lookup_in-revoked :
    (h later : List Call) (hash : String)
    → any (stores_token hash) later ≡ false
    → lookup_in (later ++ (Types.revoke_by_hash hash ∷ h)) hash ≡ none
unfolding lookup_in
lookup_in-revoked h [] hash fresh = ground arith
lookup_in-revoked h (Types.revoke_by_hash other ∷ later) hash fresh =
    ground (arith, lookup_in-revoked h later hash fresh)
lookup_in-revoked h (Types.save_token_hash other id expires ∷ later) hash fresh =
    ground (arith, lookup_in-revoked h later hash)
lookup_in-revoked h (_ ∷ later) hash fresh = lookup_in-revoked h later hash fresh

runner-ForgetsRevoked : ForgetsRevoked runner
unfolding runner
runner-ForgetsRevoked = record {
  not_found = λ h later hash now revoked fresh. ap ok (lookup_in-revoked h later hash fresh);
}

-- The hash of the token "raw" was stored for the session s1.
abbrev issued : List Call
issued = Types.save_token_hash "h:raw" "s1" (pos 9) ∷ []

redeemed_first : (redeem runner "raw" (pos 1) issued).0 ≡ ok "s1"
unfolding redeem runner lookup_in string_eq
redeemed_first = refl

redeem_once_example :
    (redeem runner "raw" (pos 2) (Types.read_clock ∷ (redeem runner "raw" (pos 1) issued).1)).0
    ≡ err (message "browser: recovery token invalid or expired")
redeem_once_example =
    redeem_once runner "raw" (pos 1) (pos 2) issued (Types.read_clock ∷ []) runner-ForgetsRevoked
      redeemed_first refl

-- Both of two later redemptions look the token up before either goes on.
contested :
    (ps : List Redemption) × (h : List Call) × Race runner "raw"
      (redeem runner "raw" (pos 1) issued).1
      ps
      h
contested = (
  _,
  _,
  turn (_ ∷ []) [] _ (pos 1) (
      turn [] (_ ∷ []) _ (pos 1) (
        turn (_ ∷ []) [] looking (pos 1)
          (turn [] (looking ∷ []) looking (pos 1) (opened (opened begin))))),
)

late_redemptions_fail_example : winners contested.0 ≡ 0
late_redemptions_fail_example =
    late_redemptions_fail runner "raw" runner-ForgetsRevoked (pos 1) issued redeemed_first
      contested.2

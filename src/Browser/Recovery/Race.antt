-- ===== src/Browser/Recovery/Race.antt =====
-- Several redemptions of one link at the same time, a call of `Redeem` a step.
use careerpilot.Base.{
  refl, ap, ◌∙◌, any, ℕ, ◌≤◌, String, ◌≡◌, Bool, true, false, Option, none, some, List, [], ◌∷◌,
  ◌++◌, arith, nat_eq, string_eq, count_if, count_if-append, int_eq, Error, message, wrap, Result,
  ok, err, M, ◌>>=◌, pure, call, Time,
}
use mathlib.Core.Path.{subst}
use careerpilot.Browser.Types
use careerpilot.Browser.Types.{Call, Runner}
use careerpilot.Browser.Recovery.{redeem}
use careerpilot.Browser.Recovery.SingleUse.{stores_token, ForgetsRevoked}

-- Where a redemption stands between its calls.
pub data Redemption : Type 0 where
  looking : Redemption
  found : String → Redemption
  ended : Result String → Redemption

module _ (r : Runner) (raw : String) where
  looked_up : Result (Option String) → Redemption
  looked_up (err e) = ended (err (wrap "browser: redeem recovery token" e))
  looked_up (ok none) = ended (err (message "browser: recovery token invalid or expired"))
  looked_up (ok (some session_id)) = found session_id

  revoked : String → Option Error → Redemption
  revoked session_id (some e) =
      ended (err (wrap "browser: revoke recovery token after redemption" e))
  revoked session_id none = ended (ok session_id)

  -- One call of `Redeem`, and what it does up to the next.
  unfoldable pub advance : Time → Redemption → M Call Redemption
  unfolding looked_up revoked
  advance now looking = do
    answer ←
        call (Types.lookup_by_hash (r.sha256_hex raw) now)
          (λ h. r.tokens.lookup_by_hash h (r.sha256_hex raw) now)
    pure (looked_up answer)
  advance now (found session_id) = do
    failure ←
        call (Types.revoke_by_hash (r.sha256_hex raw))
          (λ h. r.tokens.revoke_by_hash h (r.sha256_hex raw))
    pure (revoked session_id failure)
  advance now (ended result) = pure (ended result)

  -- A redemption that is alone is `Redeem`.
  pub advance-redeem :
      (now : Time) (h : List Call)
      → (let (p, h') = advance now looking h in advance now p h')
        ≡ (ended (redeem r raw now h).0, (redeem r raw now h).1)
  unfolding advance redeem
  advance-redeem now h = ground arith

  -- What a race may lead to: redemptions join at any time and take turns in any order, and any
  -- other calls come between, as long as they do not store the token's hash anew.
  pub data Race (h₀ : List Call) : List Redemption → List Call → Type 0 where
    begin : Race h₀ [] h₀
    opened : {ps : List Redemption} {h : List Call} → Race h₀ ps h → Race h₀ (looking ∷ ps) h
    turn :
        (ps qs : List Redemption) (p : Redemption) (now : Time) {h : List Call}
        → Race h₀ (ps ++ (p ∷ qs)) h
        → Race h₀ (ps ++ ((advance now p h).0 ∷ qs)) (advance now p h).1
    between :
        {ps : List Redemption} (c : Call) {h : List Call}
        → stores_token (r.sha256_hex raw) c ≡ false
        → Race h₀ ps h
        → Race h₀ ps (c ∷ h)

abbrev won : Redemption → Bool
won (ended (ok session_id)) = true
won _ = false

-- The redemptions that succeeded.
abbrev pub winners : List Redemption → ℕ
winners = count_if won

-- A redemption that has found the token, or has succeeded.
abbrev past_lookup : Redemption → Bool
past_lookup (found session_id) = true
past_lookup p = won p

module _ (r : Runner) (raw : String) (forgets : ForgetsRevoked r) where
  -- A revocation of the token that succeeded, and since then no storing of its hash.
  record Revoked (h : List Call) : Type 0 where
    before : List Call
    later : List Call
    whole : h ≡ later ++ (Types.revoke_by_hash (r.sha256_hex raw) ∷ before)
    revoked_then : r.tokens.revoke_by_hash before (r.sha256_hex raw) ≡ none
    not_stored : any (stores_token (r.sha256_hex raw)) later ≡ false

  Revoked-past :
      (c : Call) (h : List Call)
      → stores_token (r.sha256_hex raw) c ≡ false
      → Revoked h
      → Revoked (c ∷ h)
  Revoked-past c h fresh x = record {
    before = x.before;
    later = c ∷ x.later;
    whole = ap (◌∷◌ c) x.whole;
    revoked_then = x.revoked_then;
    not_stored = ground (arith, x.not_stored);
  }

  redeem-Revoked :
      (now : Time) (h : List Call) {id : String}
      → (redeem r raw now h).0 ≡ ok id
      → Revoked (redeem r raw now h).1
  unfolding redeem
  redeem-Revoked now h done = record {
    before = Types.lookup_by_hash (r.sha256_hex raw) now ∷ h;
    later = [];
    whole = ground arith;
    revoked_then = ground arith;
    not_stored = refl;
  }

  -- Where the token is revoked, a turn of a redemption that has not found it does not find it.
  advance-fails :
      (now : Time) (p : Redemption) (h : List Call)
      → Revoked h
      → past_lookup p ≡ false
      → let (p', h') = advance r raw now p h in Revoked h' × (past_lookup p' ≡ false)
  unfolding advance looked_up
  advance-fails now looking h x early =
      let missing =
        forgets.not_found x.before x.later (r.sha256_hex raw) now x.revoked_then x.not_stored in
      let answer : r.tokens.lookup_by_hash h (r.sha256_hex raw) now ≡ ok none =
        ap (λ g. r.tokens.lookup_by_hash g (r.sha256_hex raw) now) x.whole ∙ missing in
      (Revoked-past (Types.lookup_by_hash (r.sha256_hex raw) now) h refl x, ground arith)
  advance-fails now (found id) h x early = absurd (ground arith)
  advance-fails now (ended result) h x early = (x, early)

  Race-fails :
      {h₀ : List Call} {ps : List Redemption} {h : List Call}
      → Revoked h₀
      → Race r raw h₀ ps h
      → Revoked h × (count_if past_lookup ps ≡ 0)
  Race-fails gone begin = (gone, refl)
  Race-fails gone (opened race) = Race-fails gone race
  Race-fails gone (turn ps qs p now {h} race) =
      let (x, none_past) = Race-fails gone race in
      let split = count_if-append past_lookup ps (p ∷ qs) in
      let early : past_lookup p ≡ false = ground arith in
      let p' = (advance r raw now p h).0 in
      let (x', early') = advance-fails now p h x early in
      (x', ground (arith, count_if-append past_lookup ps (p' ∷ qs)))
  Race-fails gone (between c {h} fresh race) =
      let (x, none_past) = Race-fails gone race in (Revoked-past c h fresh x, none_past)

  winners-past : (ps : List Redemption) → winners ps ≤ count_if past_lookup ps
  winners-past [] = omega arith
  winners-past (looking ∷ ps) = omega (arith, winners-past ps)
  winners-past (found id ∷ ps) = omega (arith, winners-past ps)
  winners-past (ended (ok id) ∷ ps) = omega (arith, winners-past ps)
  winners-past (ended (err e) ∷ ps) = omega (arith, winners-past ps)

  -- Over a token store that does not find a hash that it revoked, once a link has been redeemed no
  -- redemption of it that begins later succeeds, however many there are, in whatever order their
  -- calls come, and among any other calls that do not store its hash anew.
  pub late_redemptions_fail :
      (now : Time) (h₀ : List Call) {id : String} {ps : List Redemption} {h : List Call}
      → (redeem r raw now h₀).0 ≡ ok id
      → Race r raw (redeem r raw now h₀).1 ps h
      → winners ps ≡ 0
  late_redemptions_fail now h₀ {ps = ps} redeemed race =
      omega (arith, winners-past ps, Race-fails (redeem-Revoked now h₀ redeemed) race)

-- Over a token store that answers both lookups before either revocation, and whose revocation does
-- not fail the second time, two redemptions of one link may both succeed.
pub race_may_have_two_winners :
    (r : Runner) (raw session_id : String) (now : Time) (h : List Call)
    → let hash = r.sha256_hex raw in
      let look = Types.lookup_by_hash hash now in
      let revoke = Types.revoke_by_hash hash in
      r.tokens.lookup_by_hash h hash now ≡ ok (some session_id)
      → r.tokens.lookup_by_hash (look ∷ h) hash now ≡ ok (some session_id)
      → r.tokens.revoke_by_hash (look ∷ look ∷ h) hash ≡ none
      → r.tokens.revoke_by_hash (revoke ∷ look ∷ look ∷ h) hash ≡ none
      → Race r raw h
          (ended (ok session_id) ∷ ended (ok session_id) ∷ [])
          (revoke ∷ revoke ∷ look ∷ look ∷ h)
unfolding advance looked_up revoked
race_may_have_two_winners r raw session_id now h first second third fourth =
    let look = Types.lookup_by_hash (r.sha256_hex raw) now in
    let revoke = Types.revoke_by_hash (r.sha256_hex raw) in
    let one_found : Race r raw h (found session_id ∷ looking ∷ []) (look ∷ h) =
      subst (λ a. Race r raw h (looked_up r raw a ∷ looking ∷ []) (look ∷ h)) first
        (turn [] (looking ∷ []) looking now (opened (opened begin))) in
    let both_found : Race r raw h (found session_id ∷ found session_id ∷ []) (look ∷ look ∷ h) =
      subst (λ a. Race r raw h (found session_id ∷ looked_up r raw a ∷ []) (look ∷ look ∷ h)) second
        (turn (found session_id ∷ []) [] looking now one_found) in
    let one_won : Race r raw h (ended (ok session_id) ∷ found session_id ∷ [])
        (revoke ∷ look ∷ look ∷ h) =
      subst
        (λ a.
          Race r raw h (revoked r raw session_id a ∷ found session_id ∷ [])
            (revoke ∷ look ∷ look ∷ h))
        third (turn [] (found session_id ∷ []) (found session_id) now both_found) in
    subst
      (λ a.
        Race r raw h (ended (ok session_id) ∷ revoked r raw session_id a ∷ [])
          (revoke ∷ revoke ∷ look ∷ look ∷ h))
      fourth (turn (ended (ok session_id) ∷ []) [] (found session_id) now one_won)

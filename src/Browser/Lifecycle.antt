-- ===== src/Browser/Lifecycle.antt =====
-- The session lifecycle, as a machine over the state in the store, whose states are those of
-- docs/BROWSER-RECOVERY.md: the specification of internal/browser/runner.go.
use careerpilot.Base.{◌≡◌, refl, Bool, true, false, none, List, ◌∷◌, arith, Error, ok, err}
use careerpilot.Browser.Types
use careerpilot.Browser.Types.{Session, SessionState, Outcome, Return, Call, Runner}

-- The states in which automation may still touch the page.
abbrev pub is_active : SessionState → Bool
is_active SessionState.running = true
is_active SessionState.resumed = true
is_active _ = false

-- The active states and the one that waits for a person: those that an end can follow.
abbrev pub is_live : SessionState → Bool
is_live SessionState.human_required = true
is_live s = is_active s

-- The moves that a session may make. docs/BROWSER-RECOVERY.md draws the way from STARTING over
-- RUNNING and HUMAN_REQUIRED to RESUMED, and the three ends; here each move is tied to the states in
-- which it may happen. A checkpoint keeps the state; a submission runs again what was resumed.
pub data Move : SessionState → SessionState → Type 0 where
  launched : Move SessionState.starting SessionState.running
  unlaunched : Move SessionState.starting SessionState.failed
  resuming : Move SessionState.human_required SessionState.resumed
  submitting : {s : SessionState} → is_active s ≡ true → Move s SessionState.running
  checkpointed : {s : SessionState} → is_active s ≡ true → Move s s
  completing : Move SessionState.running SessionState.completed
  pausing : {s : SessionState} → is_live s ≡ true → Move s SessionState.human_required
  failing : {s : SessionState} → is_live s ≡ true → Move s SessionState.failed
  expiring : {s : SessionState} → is_live s ≡ true → Move s SessionState.expired

abbrev pub is_save : Call → Bool
is_save (Types.save_session s) = true
is_save _ = false

-- What a run makes of a stored state: from a state and a record of calls to a later pair of them. A
-- call that saves a session moves the state when the store takes it, every other call leaves it.
pub data Lived (r : Runner) (s₀ : SessionState) (h₀ : List Call)
    : SessionState → List Call → Type 0 where
  begun : Lived r s₀ h₀ s₀ h₀
  other :
      {s : SessionState} {h : List Call} (c : Call)
      → is_save c ≡ false
      → Lived r s₀ h₀ s h
      → Lived r s₀ h₀ s (c ∷ h)
  refused :
      {s : SessionState} {h : List Call} (x : Session) (e : Error)
      → r.save_session h x ≡ err e
      → Lived r s₀ h₀ s h
      → Lived r s₀ h₀ s (Types.save_session x ∷ h)
  saved :
      {s : SessionState} {h : List Call} (x : Session)
      → r.save_session h x ≡ ok x
      → Move s x.state
      → Lived r s₀ h₀ s h
      → Lived r s₀ h₀ x.state (Types.save_session x ∷ h)

-- A run that follows the lifecycle from a stored state, and that returns, when it returns no error,
-- a session in the state that the store then has.
abbrev pub Follows : Runner → SessionState → List Call → Return × List Call → Type 0
Follows r s₀ h₀ ((result, failure), h) =
    (s : SessionState) × Lived r s₀ h₀ s h × (failure ≡ none → result.session.state ≡ s)

-- A final state is one that no move leaves.
abbrev is_final : SessionState → Bool
is_final SessionState.completed = true
is_final SessionState.failed = true
is_final SessionState.expired = true
is_final _ = false

Move-final : {s t : SessionState} → Move s t → is_final s ≡ false
Move-final launched = refl
Move-final unlaunched = refl
Move-final resuming = refl
Move-final {s} (submitting on) = ground arith
Move-final {s} (checkpointed on) = ground arith
Move-final completing = refl
Move-final {s} (pausing on) = ground arith
Move-final {s} (failing on) = ground arith
Move-final {s} (expiring on) = ground arith

-- Once a session is COMPLETED, FAILED or EXPIRED, a run that follows the lifecycle leaves the stored
-- state as it is.
pub Lived-final :
    (r : Runner) {s₀ : SessionState} {h₀ : List Call} {s : SessionState} {h : List Call}
    → is_final s₀ ≡ true
    → Lived r s₀ h₀ s h
    → s ≡ s₀
Lived-final r end begun = refl
Lived-final r end (other c e l) = Lived-final r end l
Lived-final r end (refused x e eq l) = Lived-final r end l
Lived-final r end (saved x eq move l) =
    let same = Lived-final r end l in let open_yet = Move-final move in absurd (ground arith)

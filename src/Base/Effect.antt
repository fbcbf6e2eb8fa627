-- ===== src/Base/Effect.antt =====
-- Errors, and code that calls out of the program. What a component calls is a type of events; its
-- environment answers each call from the calls made before it, so it may be any stateful program.
use mathlib.Core.Path.{◌≡◌, refl}
use mathlib.Core.Logic.{◌⊎◌, inl, inr}
use mathlib.Core.Bool.{Bool, true, false, ◌||◌}
use mathlib.Core.Option.{Option, none, some}
use mathlib.Core.List.{List, [], ◌∷◌, ◌++◌, map}
use Prim.Native.String.{String, ◌++◌ as ◌<>◌}

-- Go's `error`: a message, a message that wraps an error by `%w`, `errors.Join` of two errors, and
-- the two errors of package context.
pub data Error : Type 0 where
  deadline_exceeded canceled : Error
  message : String → Error
  wrap : String → Error → Error
  joined : Error → Error → Error

-- `err.Error()`.
unfoldable pub error_text : Error → String
error_text deadline_exceeded = "context deadline exceeded"
error_text canceled = "context canceled"
error_text (message s) = s
error_text (wrap s e) = s <> ": " <> error_text e
error_text (joined a b) = error_text a <> "\n" <> error_text b

-- `errors.Is(err, context.DeadlineExceeded)`.
unfoldable pub is_deadline_exceeded : Error → Bool
is_deadline_exceeded deadline_exceeded = true
is_deadline_exceeded canceled = false
is_deadline_exceeded (message s) = false
is_deadline_exceeded (wrap s e) = is_deadline_exceeded e
is_deadline_exceeded (joined a b) = is_deadline_exceeded a || is_deadline_exceeded b

-- `errors.Is(err, context.Canceled)`.
unfoldable pub is_canceled : Error → Bool
is_canceled deadline_exceeded = false
is_canceled canceled = true
is_canceled (message s) = false
is_canceled (wrap s e) = is_canceled e
is_canceled (joined a b) = is_canceled a || is_canceled b

-- `errors.Join(err, e)`, where `err` may be nil.
abbrev pub join_errors : Option Error → Error → Error
join_errors none e = e
join_errors (some a) e = joined a e

pub data Result {ℓ} (A : Type ℓ) : Type ℓ where
  ok : A → Result A
  err : Error → Result A

pub Result-cases {ℓ} :
    {A : Type ℓ} (r : Result A) → ((a : A) × (r ≡ ok a)) ⊎ ((e : Error) × (r ≡ err e))
Result-cases (ok a) = inl (a, refl)
Result-cases (err e) = inr (e, refl)

-- The calls made so far, the newest first, go in and come out.
abbrev pub M : Type 0 → Type 0 → Type 0
M E A = List E → A × List E

infixl 5 ◌>>=◌ ◌>>◌
abbrev pub ◌>>=◌ : {E A B : Type 0} → M E A → (A → M E B) → M E B
◌>>=◌ m f h = let (a, h') = m h in f a h'

abbrev pub ◌>>◌ : {E A B : Type 0} → M E A → M E B → M E B
m >> k = m >>= λ _. k

abbrev pub pure : {E A : Type 0} → A → M E A
pure a h = (a, h)

-- One call: the environment's answer, and the event on record.
abbrev pub call : {E A : Type 0} → E → (List E → A) → M E A
call event answer h = (answer h, event ∷ h)

-- `if err != nil { return ..., f(err) }`: the rest of the function runs on a value.
abbrev pub on_ok : {E A B : Type 0} → Result A → (Error → B) → (A → M E B) → M E B
on_ok (ok a) f k = k a
on_ok (err e) f k = pure (f e)

-- A component with its own calls, run inside another: its environment starts from what the outer
-- calls left behind, and its calls are put on the outer record.
abbrev pub nest : {E F A : Type 0} → (F → E) → (List E → M F A) → M E A
nest f m h = let (a, own) = m h [] in (a, map f own ++ h)

-- `if err := ...; err != nil { return f(err) }`, where the call returns nothing but an error.
abbrev pub on_nil : {E B : Type 0} → Option Error → (Error → B) → M E B → M E B
on_nil none f k = k
on_nil (some e) f k = pure (f e)

-- What holds of both ends of a test holds of the whole.
pub on_ok_rule {ℓ} :
    {E A B : Type 0} (P : B × List E → Type ℓ) (r : Result A) (f : Error → B) (k : A → M E B)
    (h : List E)
    → ((e : Error) → P (f e, h))
    → ((a : A) → P (k a h))
    → P (on_ok r f k h)
on_ok_rule P (ok a) f k h failed held = held a
on_ok_rule P (err e) f k h failed held = failed e

-- The same, where what follows knows which value was tested.
pub on_ok_cases {ℓ} :
    {E A B : Type 0} (P : B × List E → Type ℓ) (r : Result A) (f : Error → B) (k : A → M E B)
    (h : List E)
    → ((e : Error) → r ≡ err e → P (f e, h))
    → ((a : A) → r ≡ ok a → P (k a h))
    → P (on_ok r f k h)
on_ok_cases P (ok a) f k h failed held = held a refl
on_ok_cases P (err e) f k h failed held = failed e refl

-- The rule for a call that returns nothing but an error.
pub on_nil_rule {ℓ} :
    {E B : Type 0} (P : B × List E → Type ℓ) (o : Option Error) (f : Error → B) (k : M E B)
    (h : List E)
    → ((e : Error) → P (f e, h))
    → P (k h)
    → P (on_nil o f k h)
on_nil_rule P none f k h failed held = held
on_nil_rule P (some e) f k h failed held = failed e

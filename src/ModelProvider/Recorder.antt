-- ===== src/ModelProvider/Recorder.antt =====
-- internal/modelprovider/provider.go and recorder.go. A provider, the run store, the id generator
-- and the clock are the environment.
pub mod Audit
use careerpilot.Base.{
  String, Bool, true, false, Option, none, some, List, if◌then◌else◌, ℤ, ◌-ℤ◌, quot, Error,
  is_deadline_exceeded, is_canceled, join_errors, M, ◌>>=◌, pure, call, Time,
}
use careerpilot.Base.Dict.{Dict}

-- `temperature` is in thousandths.
pub record Request : Type 0 where
  pub prompt : String
  pub max_tokens : ℤ
  pub temperature : ℤ
  pub metadata : Dict String String

pub record Response : Type 0 where
  pub text : String
  pub input_tokens : ℤ
  pub output_tokens : ℤ

pub record Run : Type 0 where
  pub id : String
  pub provider : String
  pub purpose : String
  pub input_tokens : ℤ
  pub output_tokens : ℤ
  pub latency_ms : ℤ
  pub succeeded : Bool
  pub error_category : String
  pub started_at : Time

pub data Call : Type 0 where
  read_clock new_id : Call
  provider_generate : Request → Call
  save_run : Run → Call

-- A `Provider` and the dependencies of a `Recorder`. A provider may return a response beside an
-- error, as Go functions may.
pub record Env : Type 0 where
  pub provider_name : String
  pub generate : List Call → Request → Response × Option Error
  pub save_run : List Call → Run → Option Error
  pub new_id : List Call → String
  pub now : List Call → Time

unfoldable pub categorize_error : Option Error → String
categorize_error none = ""
categorize_error (some e) =
    if is_deadline_exceeded e
    then "timeout"
    else if is_canceled e
    then "canceled"
    else "provider_error"

abbrev is_nil : Option Error → Bool
is_nil none = true
is_nil (some e) = false

-- The audit record of one call.
unfoldable pub run_of : String → String → String → Time → Time → Response → Option Error → Run
unfolding categorize_error
run_of id provider purpose started finished resp e = record {
  id = id;
  provider = provider;
  purpose = purpose;
  input_tokens = resp.input_tokens;
  output_tokens = resp.output_tokens;
  latency_ms = quot (finished -ℤ started) 1_000_000;
  succeeded = is_nil e;
  error_category = categorize_error e;
  started_at = started;
}

abbrev saved_outcome : Response → Option Error → Option Error → Response × Option Error
saved_outcome resp e none = (resp, e)
saved_outcome resp e (some save_err) = (resp, some (join_errors e save_err))

-- `Recorder.Generate`.
unfoldable pub generate : Env → String → Request → M Call (Response × Option Error)
generate env purpose req = do
  started ← call read_clock env.now
  answer ← call (provider_generate req) (λ h. env.generate h req)
  id ← call new_id env.new_id
  finished ← call read_clock env.now
  let run = run_of id env.provider_name purpose started finished answer.0 answer.1
  failure ← call (save_run run) (λ h. env.save_run h run)
  pure (saved_outcome answer.0 answer.1 failure)

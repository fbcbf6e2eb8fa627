-- ===== src/ModelProvider/Placeholders.antt =====
-- internal/modelprovider/claude.go and gemini.go: providers with no API behind them, run inside a
-- recorder.
use careerpilot.Base.{
  String, ◌≡◌, refl, ◌≢◌, false, Option, none, some, List, ◌∷◌, arith, pos, Error,
  is_deadline_exceeded, is_canceled, message,
}
use careerpilot.ModelProvider.Recorder.{
  Request, Response, Run, Call, Env, generate, run_of, categorize_error, read_clock, new_id,
  provider_generate, save_run,
}

-- `ErrNotConfigured`.
abbrev pub not_configured : Error
not_configured = message "modelprovider: provider not configured"

-- A `ClaudeProvider` or `GeminiProvider`: its name, and its `GenerateFunc` if one is set.
pub record Placeholder : Type 0 where
  pub name : String
  pub generate_func : Option (List Call → Request → Response × Option Error)

abbrev pub new_claude_provider : Placeholder
new_claude_provider = record { name = "claude"; generate_func = none }

abbrev pub new_gemini_provider : Placeholder
new_gemini_provider = record { name = "gemini"; generate_func = none }

-- `Response{}`.
abbrev pub no_response : Response
no_response = record { text = ""; input_tokens = pos 0; output_tokens = pos 0 }

unfoldable pub placeholder_generate : Placeholder → List Call → Request → Response × Option Error
placeholder_generate p h req = elim p.generate_func [
  | none ↦ (no_response, some not_configured)
  | some f ↦ f h req
]

-- A recorder's environment with this provider.
abbrev pub placed : Placeholder → Env → Env
placed p env = record env {
  provider_name = p.name;
  generate = λ h req. placeholder_generate p h req;
}

-- A recorded call of a placeholder with no function set returns an error and no text, and its one
-- audit record says that the named provider failed with no tokens and with a provider error.
pub unconfigured-fails :
    (p : Placeholder) (env : Env) (purpose : String) (req : Request) (h : List Call)
    → p.generate_func ≡ none
    → let env' = placed p env in
      let (answer, h') = generate env' purpose req h in
      (answer.0 ≡ no_response)
      × (answer.1 ≢ none)
      × ((run : Run) × (earlier : List Call) × (h' ≡ save_run run ∷ earlier)
          × (run.provider ≡ p.name)
          × (run.purpose ≡ purpose)
          × (run.succeeded ≡ false)
          × (run.error_category ≡ "provider_error"))
unfolding placeholder_generate generate run_of categorize_error is_deadline_exceeded is_canceled
unconfigured-fails p env purpose req h unset =
    let env' = placed p env in
    let asked = provider_generate req ∷ read_clock ∷ h in
    let id = env.new_id asked in
    let finished = env.now (new_id ∷ asked) in
    let e = some not_configured in
    let run = run_of id p.name purpose (env.now h) finished no_response e in
    let drawn = read_clock ∷ new_id ∷ asked in
    let same : placeholder_generate p (read_clock ∷ h) req ≡ (no_response, e) = ground arith in
    (ground arith, ground arith, (run, drawn, ground arith, refl, refl, refl, refl))

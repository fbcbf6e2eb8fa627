-- ===== src/ModelProvider/Recorder/Audit.antt =====
-- Every model call leaves one audit record, whatever becomes of it.
use careerpilot.Base.{String, ◌≡◌, refl, ◌↔◌, true, none, List, ◌∷◌, arith, ◌-ℤ◌, quot}
use careerpilot.ModelProvider.Recorder.{
  Request, Run, Call, Env, read_clock, new_id, provider_generate, save_run, run_of,
  categorize_error, generate,
}

-- What the record of a call says.
pub record IsRecorded (env : Env) (purpose : String) (req : Request) (h : List Call) (run : Run)
    : Type 0 where
  pub purpose_kept : run.purpose ≡ purpose
  pub provider_kept : run.provider ≡ env.provider_name
  pub id_drawn : run.id ≡ env.new_id (provider_generate req ∷ read_clock ∷ h)
  pub input_counted : run.input_tokens ≡ (env.generate (read_clock ∷ h) req).0.input_tokens
  pub output_counted : run.output_tokens ≡ (env.generate (read_clock ∷ h) req).0.output_tokens
  pub begun : run.started_at ≡ env.now h
  pub measured :
      run.latency_ms
      ≡ quot (env.now (new_id ∷ provider_generate req ∷ read_clock ∷ h) -ℤ env.now h) 1_000_000
  pub categorized : run.error_category ≡ categorize_error (env.generate (read_clock ∷ h) req).1
  pub judged : (run.succeeded ≡ true) ↔ ((env.generate (read_clock ∷ h) req).1 ≡ none)

-- A recorded call asks the provider once and saves one run record: of the call's purpose, the
-- provider's name, the token counts of the response, the time at which the call began and the
-- milliseconds, rounded towards zero, that it took; the record has the category of the
-- provider's error and says that it succeeded exactly when there was none. The response is returned as it came, and no error is returned exactly
-- when neither the provider nor the run store gave one.
pub generate_audited :
    (env : Env) (purpose : String) (req : Request) (h : List Call)
    → let asked = provider_generate req ∷ read_clock ∷ h in
      let answer = env.generate (read_clock ∷ h) req in
      let drawn = read_clock ∷ new_id ∷ asked in
      let (returned, h') = generate env purpose req h in
      (run : Run) × IsRecorded env purpose req h run
      × (h' ≡ save_run run ∷ drawn)
      × (returned.0 ≡ answer.0)
      × ((returned.1 ≡ none) ↔ ((answer.1 ≡ none) × (env.save_run drawn run ≡ none)))
unfolding generate run_of
generate_audited env purpose req h =
    let asked = provider_generate req ∷ read_clock ∷ h in
    let answer = env.generate (read_clock ∷ h) req in
    let run =
      run_of (env.new_id asked) env.provider_name purpose (env.now h) (env.now (new_id ∷ asked))
        answer.0 answer.1 in
    (
      run,
      record {
        purpose_kept = refl;
        provider_kept = refl;
        id_drawn = refl;
        input_counted = refl;
        output_counted = refl;
        begun = refl;
        measured = refl;
        categorized = refl;
        judged = ground arith;
      },
      refl,
      ground arith,
      ground arith,
    )

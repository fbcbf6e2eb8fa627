-- ===== src/ModelProvider/Tests.antt =====
-- One recorded call of a provider that answers.
use careerpilot.Base.{◌≡◌, ◌↔◌, Option, none, some, [], ◌∷◌, pos, Error, message}
use careerpilot.ModelProvider.Recorder.{
  Request, Response, Env, read_clock, new_id, provider_generate, save_run, Run, generate,
}
use careerpilot.ModelProvider.Recorder.Audit.{IsRecorded, generate_audited}

abbrev response : Response
response = record { text = "{}"; input_tokens = pos 10; output_tokens = pos 2 }

abbrev env : Env
env = record {
  provider_name = "claude";
  generate = λ h req. (response, none);
  save_run = λ h run. some (message "disk full");
  new_id = λ h. "r1";
  now = λ h. pos 5;
}

abbrev request : Request
request = record { prompt = "hi"; max_tokens = pos 0; temperature = pos 0; metadata = [] }

generate_audited_example :
    let asked = provider_generate request ∷ read_clock ∷ [] in
    let drawn = read_clock ∷ new_id ∷ asked in
    let no_error : Option Error = none in
    let (returned, h') = generate env "job_triage" request [] in
    (run : Run) × IsRecorded env "job_triage" request [] run
    × (h' ≡ save_run run ∷ drawn)
    × (returned.0 ≡ response)
    × ((returned.1 ≡ none) ↔ ((no_error ≡ none) × (env.save_run drawn run ≡ none)))
generate_audited_example = generate_audited env "job_triage" request []

-- ===== src/Resume/Pipeline/Lifecycle.antt =====
-- What generation and the human decisions do to a version's status.
use careerpilot.Base.{String, ◌≡◌, ◌≢◌, ◌↔◌, ◌⊎◌, some, List, [], ◌∷◌, ◌++◌, arith, pos, ok, Time}
use careerpilot.Resume.Version.{
  validated, review, approved, rejected, valid_transition, status_eq, Version,
}
use careerpilot.Resume.Validation.{validate_page_count}
use careerpilot.Resume.Pipeline.{
  GenerateInput, Toolchain, Call, read_clock, compile_tex, generate, approve, reject,
}

-- The calls that `Generate` makes once the template has been rendered to `tex`, newest first.
abbrev pub generate_calls : String → List Call
generate_calls tex = compile_tex tex ∷ read_clock ∷ []

-- A successful generation has compiled the rendered source exactly once and made no other call but
-- to the clock; the version keeps that source and the validation of its page count, and is
-- VALIDATED if it has one page and under REVIEW otherwise.
pub generate_lem :
    (t : Toolchain) (i : GenerateInput) (h : List Call) {v : Version}
    → (generate t i h).0 ≡ ok v
    → (t.parse_and_execute i.template_name i.template_source i.content ≡ ok v.source_tex)
      × ((generate t i h).1 ≡ generate_calls v.source_tex ++ h)
      × (v.validation ≡ some (validate_page_count v.page_count))
      × (((v.status ≡ validated) × (v.page_count ≡ pos 1))
          ⊎ ((v.status ≡ review) × (v.page_count ≢ pos 1)))
unfolding generate validate_page_count
generate_lem t i h e = ground arith

-- What the toolchain answered.
pub generate_answers :
    (t : Toolchain) (i : GenerateInput) (h : List Call) {v : Version}
    → (generate t i h).0 ≡ ok v
    → (t.parse_and_execute i.template_name i.template_source i.content ≡ ok v.source_tex)
      × (t.compile (read_clock ∷ h) v.source_tex
          ≡ ok (record { pdf = v.generated_pdf; page_count = v.page_count }))
      × ((v.status ≡ validated) ↔ (v.page_count ≡ pos 1))
unfolding generate validate_page_count
generate_answers t i h e = ground arith

-- A version is approved exactly when it is VALIDATED or under REVIEW, and rejected exactly when it
-- is under REVIEW; the decision changes its status and, for an approval, its time.
pub decisions_exact :
    (now : Time) (v : Version)
    → ((approve now v ≡ ok (record v { status = approved; approved_at = now }))
        ↔ ((v.status ≡ validated) ⊎ (v.status ≡ review)))
      × ((reject v ≡ ok (record v { status = rejected })) ↔ (v.status ≡ review))
unfolding approve reject valid_transition status_eq
decisions_exact now v = ground arith

-- ===== src/Resume/Pipeline/History.antt =====
-- The life of a version: generated, then decided upon by a human.
use careerpilot.Base.{
  ℕ, suc, String, ◌≡◌, ◌≢◌, ◌⊎◌, inl, refl, some, List, ◌∷◌, arith, pos, ok, Time,
}
use careerpilot.Resume.Version.{
  validated, review, approved, rejected, valid_transition, status_eq, Version,
}
use careerpilot.Resume.Validation.{validate_page_count}
use careerpilot.Resume.Pipeline.{
  GenerateInput, Toolchain, Call, read_clock, generate, approve, reject,
}
use careerpilot.Resume.Pipeline.Lifecycle.{generate_lem, generate_answers}

-- What happened to a version that is now the index; a store gives it an id when it saves it.
pub data History (t : Toolchain) : Version → Type 0 where
  generation :
      (i : GenerateInput) (h : List Call) (v : Version) → (generate t i h).0 ≡ ok v → History t v
  approval : (now : Time) (v w : Version) → approve now v ≡ ok w → History t v → History t w
  saving : (id : String) (v : Version) → History t v → History t (record v { id = id })
  rejection : (v w : Version) → reject v ≡ ok w → History t v → History t w

-- How often a human has decided upon the version.
pub decisions : {t : Toolchain} {v : Version} → History t v → ℕ
decisions (generation i h v e) = 0
decisions (approval now v w e past) = suc (decisions past)
decisions (saving id v past) = decisions past
decisions (rejection v w e past) = suc (decisions past)

-- The status goes with the page count and the number of decisions.
abbrev pub Fits : ℕ → Version → Type 0
Fits n v =
    ((n ≡ 0)
      × (((v.status ≡ validated) × (v.page_count ≡ pos 1))
          ⊎ ((v.status ≡ review) × (v.page_count ≢ pos 1))))
    ⊎ ((n ≡ 1) × ((v.status ≡ approved) ⊎ ((v.status ≡ rejected) × (v.page_count ≢ pos 1))))

-- The generation that a version stems from.
pub record Origin (t : Toolchain) (v : Version) : Type 0 where
  pub input : GenerateInput
  pub before : List Call
  pub rendered :
      t.parse_and_execute input.template_name input.template_source input.content ≡ ok v.source_tex
  pub compiled :
      t.compile (read_clock ∷ before) v.source_tex
      ≡ ok (record { pdf = v.generated_pdf; page_count = v.page_count })
  pub checked : v.validation ≡ some (validate_page_count v.page_count)

-- A decision changes nothing but the status and the time of the approval.
approve-Origin :
    (t : Toolchain) (now : Time) (v w : Version) → approve now v ≡ ok w → Origin t v → Origin t w
unfolding approve
approve-Origin t now v w e o = record {
  input = o.input;
  before = o.before;
  rendered = ground (arith, o.rendered);
  compiled = ground (arith, o.compiled);
  checked = ground (arith, o.checked);
}

reject-Origin : (t : Toolchain) (v w : Version) → reject v ≡ ok w → Origin t v → Origin t w
unfolding reject
reject-Origin t v w e o = record {
  input = o.input;
  before = o.before;
  rendered = ground (arith, o.rendered);
  compiled = ground (arith, o.compiled);
  checked = ground (arith, o.checked);
}

pub history-Origin : (t : Toolchain) (v : Version) → History t v → Origin t v
history-Origin t _ (generation i h v e) =
    let (rendered, compiled, fits) = generate_answers t i h e in
    let (again, calls, checked, status) = generate_lem t i h e in
    record { input = i; before = h; rendered = rendered; compiled = compiled; checked = checked }
history-Origin t _ (approval now v w e past) = approve-Origin t now v w e (history-Origin t v past)
history-Origin t _ (saving id v past) =
    let o = history-Origin t v past in
    record {
      input = o.input;
      before = o.before;
      rendered = o.rendered;
      compiled = o.compiled;
      checked = o.checked;
    }
history-Origin t _ (rejection v w e past) = reject-Origin t v w e (history-Origin t v past)

approve-Fits :
    (now : Time) (n : ℕ) (v w : Version) → approve now v ≡ ok w → Fits n v → Fits (suc n) w
unfolding approve valid_transition status_eq
approve-Fits now n v w e fits = ground arith

reject-Fits : (n : ℕ) (v w : Version) → reject v ≡ ok w → Fits n v → Fits (suc n) w
unfolding reject valid_transition status_eq
reject-Fits n v w e fits = ground arith

pub history-Fits : (t : Toolchain) (v : Version) (past : History t v) → Fits (decisions past) v
unfolding decisions
history-Fits t _ (generation i h v e) =
    let (rendered, calls, checked, status) = generate_lem t i h e in inl (refl, status)
history-Fits t _ (approval now v w e past) =
    approve-Fits now (decisions past) v w e (history-Fits t v past)
history-Fits t _ (saving id v past) = history-Fits t v past
history-Fits t _ (rejection v w e past) = reject-Fits (decisions past) v w e (history-Fits t v past)

-- ===== src/Resume/Validation.antt =====
-- internal/resume/validation.go: the one-page requirement.
use careerpilot.Base.{◌≡◌, ◌↔◌, true, false, [], ◌∷◌, arith, if◌then◌else◌, ℤ, pos, ltb_ℤ, leb_ℤ}
use careerpilot.Resume.Version.{ValidationResult}

abbrev pub max_page_count : ℤ
max_page_count = pos 1

unfoldable pub validate_page_count : ℤ → ValidationResult
validate_page_count page_count =
    if leb_ℤ page_count (pos 0)
    then record {
      passed = false;
      page_count = page_count;
      reasons = "page count could not be determined" ∷ [];
    }
    else if ltb_ℤ max_page_count page_count
    then record {
      passed = false;
      page_count = page_count;
      reasons =
          "resume exceeds one page"
          ∷ "reduce content (remove low-value bullets, shorten wording, tighten spacing) and recompile"
          ∷ "do not reduce font size below the template's established minimum" ∷ [];
    }
    else record { passed = true; page_count = page_count; reasons = [] }

-- A document passes exactly when it has one page, the count is kept, and reasons are given exactly for a failure.
pub validate_page_count_exact :
    (n : ℤ)
    → let v = validate_page_count n in
      ((v.passed ≡ true) ↔ (n ≡ pos 1))
      × (v.page_count ≡ n)
      × ((v.passed ≡ true) ↔ (v.reasons ≡ []))
unfolding validate_page_count
validate_page_count_exact n = ground arith

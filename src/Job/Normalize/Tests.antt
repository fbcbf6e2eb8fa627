-- ===== src/Job/Normalize/Tests.antt =====
-- One posting written in two ways.
use careerpilot.Base.{
  to_lower, fields, join, nat_eq, ◌≡◌, refl, ◌↔◌, arith, nat_eq, join, to_lower, fields,
}
use careerpilot.Job.Types.{RawJob}
use careerpilot.Job.Memory.{raw, sha}
use careerpilot.Job.Normalize.{normalize, normalize_text}
use careerpilot.Job.Normalize.Exact.{folded, IsLatin, Unseparated, fingerprints_exact}

abbrev written : RawJob
written = record raw { company = "école" }

abbrev shouted : RawJob
shouted = record written { company = "  ÉCOLE "; title = "Go\tEngineer" }

written-IsLatin : IsLatin written
written-IsLatin = omega arith

shouted-IsLatin : IsLatin shouted
shouted-IsLatin = omega arith

company_plain : Unseparated (folded written.company)
unfolding folded normalize_text to_lower fields join nat_eq
company_plain = omega arith

company_plain' : Unseparated (folded shouted.company)
unfolding folded normalize_text to_lower fields join nat_eq
company_plain' = omega arith

title_plain : Unseparated (folded written.title)
unfolding folded normalize_text to_lower fields join nat_eq
title_plain = omega arith

title_plain' : Unseparated (folded shouted.title)
unfolding folded normalize_text to_lower fields join nat_eq
title_plain' = omega arith

fingerprints_exact_example :
    ((normalize sha "greenhouse" written).normalized_hash
      ≡ (normalize sha "greenhouse" shouted).normalized_hash)
    ↔ ((folded written.company ≡ folded shouted.company)
        × (folded written.title ≡ folded shouted.title)
        × (folded written.location ≡ folded shouted.location))
fingerprints_exact_example =
    fingerprints_exact sha "greenhouse" written shouted written-IsLatin shouted-IsLatin
      (λ same. same) company_plain company_plain' title_plain title_plain'

same_folds :
    (folded written.company ≡ folded shouted.company)
    × (folded written.title ≡ folded shouted.title)
unfolding folded normalize_text to_lower fields join nat_eq
same_folds = (refl, refl)

lowers_latin : to_lower "ÀÉÖØÝÞ×ßA" ≡ "àéöøýþ×ßa"
unfolding to_lower nat_eq
lowers_latin = refl

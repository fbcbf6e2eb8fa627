-- ===== src/Job/Normalize/Fingerprints.antt =====
-- Which postings share a fingerprint.
use careerpilot.Base.{String, ◌<>◌, ◌≡◌, join}
use careerpilot.Base.Words.{text_laws}
use careerpilot.Job.Normalize.{fingerprint, fingerprint_key}

-- Whatever the hash, a company name that ends in "|" and some text, and a title that begins with
-- that text and "|", have the same fingerprint: the parts are joined by "|" and none is escaped.
pub fingerprint_ambiguous :
    (sha256_hex : String → String) (source company text title location : String)
    → fingerprint sha256_hex source (company <> "|" <> text) title location
      ≡ fingerprint sha256_hex source company (text <> "|" <> title) location
unfolding fingerprint fingerprint_key join
fingerprint_ambiguous sha256_hex source company text title location = simp text_laws

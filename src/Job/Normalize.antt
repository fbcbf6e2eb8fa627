-- ===== src/Job/Normalize.antt =====
-- internal/job/normalize.go. SHA-256 in hexadecimal is a parameter.
pub mod Fingerprints
pub mod Exact
mod Tests
use careerpilot.Base.{
  String, ◌<>◌, ◌||◌, [], ◌∷◌, if◌then◌else◌, nat_eq, string_eq, pos, int_eq, join, contains_text,
  to_lower, fields,
}
use careerpilot.Base.Dict.{Dict, insert}
use careerpilot.Job.Types.{normalized, Job, RawJob}

unfoldable pub normalize_text : String → String
unfolding fields join
normalize_text s = join (fields s) " "

unfoldable pub fingerprint_key : String → String → String → String → String
unfolding to_lower join
fingerprint_key source company title location =
    to_lower (join (source ∷ company ∷ title ∷ location ∷ []) "|")

unfoldable pub infer_remote_policy : String → String → String
unfolding to_lower contains_text
infer_remote_policy location description =
    let text = to_lower (location <> " " <> description) in
    if contains_text text "fully remote" || contains_text text "100% remote"
    then "remote"
    else if contains_text text "hybrid"
    then "hybrid"
    else if contains_text text "remote"
    then "remote"
    else if contains_text text "on-site"
        || contains_text text "onsite"
        || contains_text text "on site"
    then "onsite"
    else "unspecified"

-- `for k, v := range raw.Fields { rawData[k] = v }`
insert_all : Dict String String → Dict String String → Dict String String
unfolding insert
insert_all [] d = d
insert_all ((k, v) ∷ more) d = insert_all more (insert k v d)

unfoldable pub raw_data_of : RawJob → Dict String String
unfolding insert_all
raw_data_of raw = insert_all raw.extra (
    ("url", raw.url)
    ∷ ("company", raw.company)
    ∷ ("title", raw.title)
    ∷ ("location", raw.location)
    ∷ ("description", raw.description)
    ∷ [])

module _ (sha256_hex : String → String) where
  unfoldable pub fingerprint : String → String → String → String → String
  unfolding fingerprint_key
  fingerprint source company title location =
      sha256_hex (fingerprint_key source company title location)

  unfoldable pub normalize : String → RawJob → Job
  unfolding fingerprint normalize_text infer_remote_policy raw_data_of
  normalize source raw =
      let company = normalize_text raw.company in
      let title = normalize_text raw.title in
      let location = normalize_text raw.location in
      record {
        id = "";
        source = source;
        source_job_id = raw.source_job_id;
        url = raw.url;
        company = company;
        title = title;
        location = location;
        description = raw.description;
        remote_policy = infer_remote_policy location raw.description;
        raw_data = raw_data_of raw;
        normalized_hash = fingerprint source company title location;
        duplicate_of_id = "";
        status = normalized;
        discovered_at = pos 0;
        updated_at = pos 0;
      }

-- ===== src/Application/Gate.antt =====
-- internal/application/safety_gate.go: the checks before READY.
pub mod Laws
use careerpilot.Base.{
  String, ◌<>◌, Bool, not, ◌&&◌, some, List, [], ◌∷◌, ◌++◌, if◌then◌else◌, nat_eq, Eq, ◌==◌,
  string_eq, String-discrete, length, ℤ, pos, int_eq, ltb_ℤ, leb_ℤ, show_ℤ, show_list, message,
  Result, err,
}
use careerpilot.Application.Types.{ready, Application, SafetyGateResult}
use careerpilot.Application.State.{transition}
use careerpilot.Application.Answers.{has_unresolved_review}

-- `unlisted` is any other string; the zero value "" is one.
pub data PlatformPolicy : Type 0 where
  policy_unknown policy_allowed policy_denied : PlatformPolicy
  unlisted : String → PlatformPolicy

pub PlatformPolicy-discrete : Discrete PlatformPolicy
PlatformPolicy-discrete = hlevel String-discrete

instance unfoldable pub platform_policy_eq : Eq PlatformPolicy
unfolding PlatformPolicy-discrete
platform_policy_eq = record { dec = PlatformPolicy-discrete }

pub record SafetyGateInput : Type 0 where
  pub application : Application
  pub job_verified : Bool
  pub resume_verified : Bool
  pub is_duplicate : Bool
  pub platform : PlatformPolicy
  pub applications_submitted_today : ℤ
  pub daily_application_limit : ℤ

-- `reasons = append(reasons, why)` under a test.
abbrev note : Bool → String → List String → List String
note test why reasons = if test then reasons ++ (why ∷ []) else reasons

abbrev platform_reasons : PlatformPolicy → List String → List String
platform_reasons p reasons =
    if p == policy_unknown
    then reasons ++ ("platform automation policy is unknown" ∷ [])
    else note (p == policy_denied) "platform automation is denied" reasons

abbrev limit_reached : SafetyGateInput → Bool
limit_reached i =
    ltb_ℤ (pos 0) i.daily_application_limit
    && leb_ℤ i.daily_application_limit i.applications_submitted_today

unfoldable pub gate_reasons : SafetyGateInput → List String
gate_reasons i =
    let r₁ = note (not i.job_verified) "job identity not verified" [] in
    let r₂ = note (not i.resume_verified) "resume not verified/approved" r₁ in
    let r₃ =
      note (has_unresolved_review i.application.answers) "unresolved REVIEW answers remain" r₂ in
    let r₄ = note i.is_duplicate "duplicate application detected for this job" r₃ in
    let r₅ = platform_reasons i.platform r₄ in
    note (limit_reached i)
      ("daily application limit (" <> show_ℤ i.daily_application_limit <> ") reached") r₅

unfoldable pub evaluate_safety_gate : SafetyGateInput → SafetyGateResult
unfolding gate_reasons
evaluate_safety_gate i =
    let reasons = gate_reasons i in record { passed = length reasons == 0; reasons = reasons }

unfoldable pub make_ready : Application → SafetyGateResult → Result Application
make_ready a gate =
    if not gate.passed
    then err (message ("application: safety gate failed: " <> show_list gate.reasons))
    else transition (record a { safety_gate = some gate }) ready

-- ===== src/Analytics/Records.antt =====
-- internal/outcome/outcome.go: the history of an application's outcome.
pub mod History
use careerpilot.Base.{
  String, Bool, List, [], ◌∷◌, ◌++◌, nat_eq, Eq, ◌==◌, string_eq, any, ℤ, int_eq, Time,
}

-- `unset` is the zero value: no final outcome yet.
pub data FunnelStage : Type 0 where
  unset discovered qualified prepared submitted responded : FunnelStage
  interview offer rejected withdrawn : FunnelStage

pub FunnelStage-discrete : Discrete FunnelStage
FunnelStage-discrete = hlevel

instance unfoldable pub funnel_stage_eq : Eq FunnelStage
unfolding FunnelStage-discrete
funnel_stage_eq = record { dec = FunnelStage-discrete }

pub record StageEvent : Type 0 where
  pub stage : FunnelStage
  pub timestamp : Time

-- The fields of `Record`, under another name.
pub record OutcomeRecord : Type 0 where
  pub id : String
  pub application_id : String
  pub job_id : String
  pub role : String
  pub company : String
  pub source : String
  pub resume_variant : String
  pub resume_version : ℤ
  pub job_score : ℤ
  pub application_date : Time
  pub stages : List StageEvent
  pub final_outcome : FunnelStage

unfoldable pub has_stage : OutcomeRecord → FunnelStage → Bool
has_stage r stage = any (λ e. e.stage == stage) r.stages

-- The switch of `AppendStage`.
abbrev settle : OutcomeRecord → FunnelStage → OutcomeRecord
settle r offer = record r { final_outcome = offer }
settle r rejected = record r { final_outcome = rejected }
settle r withdrawn = record r { final_outcome = withdrawn }
settle r _ = r

unfoldable pub append_stage : OutcomeRecord → FunnelStage → Time → OutcomeRecord
append_stage r stage at =
    settle (record r { stages = r.stages ++ (record { stage = stage; timestamp = at } ∷ []) }) stage

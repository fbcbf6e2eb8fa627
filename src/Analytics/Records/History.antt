-- ===== src/Analytics/Records/History.antt =====
-- The history of an outcome only grows.
use careerpilot.Base.{
  ◌≡◌, refl, ◌≢◌, ◌↔◌, ◌⊎◌, Bool, true, ◌||◌, List, [], ◌∷◌, ◌++◌, arith, nat_eq, ◌==◌, string_eq,
  any, int_eq, Time,
}
use careerpilot.Analytics.Records.{
  offer, rejected, withdrawn, FunnelStage, funnel_stage_eq, StageEvent, OutcomeRecord, has_stage,
  append_stage,
}

any-append :
    {A : Type 0} (p : A → Bool) (xs ys : List A) → any p (xs ++ ys) ≡ (any p xs || any p ys)
any-append p [] ys = refl
any-append p (x ∷ xs) ys = ground (arith, any-append p xs ys)

append_stage-stages :
    (r : OutcomeRecord) (stage : FunnelStage) (at : Time)
    → (append_stage r stage at).stages ≡ r.stages ++ (record { stage = stage; timestamp = at } ∷ [])
unfolding append_stage
append_stage-stages r stage at = ground arith

append_stage-has :
    (r : OutcomeRecord) (stage asked : FunnelStage) (at : Time)
    → (has_stage (append_stage r stage at) asked ≡ true)
      ↔ ((has_stage r asked ≡ true) ⊎ (asked ≡ stage))
unfolding has_stage
append_stage-has r stage asked at =
    let event : StageEvent = record { stage = stage; timestamp = at } in
    ground (
      arith,
      append_stage-stages r stage at,
      any-append (λ e. e.stage == asked) r.stages (event ∷ []),
    )

append_stage-final :
    (r : OutcomeRecord) (stage : FunnelStage) (at : Time)
    → (((stage ≡ offer) ⊎ ((stage ≡ rejected) ⊎ (stage ≡ withdrawn)))
        × ((append_stage r stage at).final_outcome ≡ stage))
      ⊎ ((stage ≢ offer)
          × (stage ≢ rejected)
          × (stage ≢ withdrawn)
          × ((append_stage r stage at).final_outcome ≡ r.final_outcome))
unfolding append_stage
append_stage-final r stage at = ground arith

-- Appending a stage puts one event at the end of the history and rewrites none; afterwards the
-- record has that stage and every stage that it had, and no other; the final outcome becomes the
-- stage if it is OFFER, REJECTED or WITHDRAWN, and stays as it was if it is not.
pub append_stage_exact :
    (r : OutcomeRecord) (stage asked : FunnelStage) (at : Time)
    → let r' = append_stage r stage at in
      (r'.stages ≡ r.stages ++ (record { stage = stage; timestamp = at } ∷ []))
      × ((has_stage r' asked ≡ true) ↔ ((has_stage r asked ≡ true) ⊎ (asked ≡ stage)))
      × ((((stage ≡ offer) ⊎ ((stage ≡ rejected) ⊎ (stage ≡ withdrawn)))
            × (r'.final_outcome ≡ stage))
          ⊎ ((stage ≢ offer)
              × (stage ≢ rejected)
              × (stage ≢ withdrawn)
              × (r'.final_outcome ≡ r.final_outcome)))
append_stage_exact r stage asked at =
    let stages = append_stage-stages r stage at in
    (stages, append_stage-has r stage asked at, append_stage-final r stage at)

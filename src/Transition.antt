-- ===== src/Transition.antt =====
-- typescript/src/transitions.ts: when a plan change takes effect. Ranks are integers of the catalog;
-- only their order is used, so they are naturals here. Credits are counted in atoms.
pub mod Policy
pub use stripe_entitlements_fast.Catalog.{Interval, month, year, Plan}
use stripe_entitlements_fast.Base.{
  ℕ, String, Bool, true, false, ◌&&◌, ◌||◌, not, str_eq, ltb, leb, if◌then◌else◌,
}

-- `TransitionPolicy`, `EffectiveMode` of types.ts
pub data TransitionPolicy : Type 0 where
  full_period_reset prorated_delta : TransitionPolicy

pub data Timing : Type 0 where
  immediate period_end noop : Timing

pub data Reason : Type 0 where
  unchanged annual_lineage delta_not_monthly delta_not_positive : Reason
  delta_upgrade higher_rank lower_rank month_to_year interval_conversion : Reason

-- `TransitionDecision`
pub record Decision : Type 0 where
  pub from_plan : String
  pub from_interval : Interval
  pub target_plan : String
  pub target_interval : Interval
  pub timing : Timing
  pub reason : Reason
  pub policy : TransitionPolicy

-- The thrown error is `ambiguous`.
pub data Outcome : Type 0 where
  decided : Decision → Outcome
  ambiguous : Outcome

abbrev pub is_month : Interval → Bool
is_month month = true
is_month year = false

abbrev pub is_year : Interval → Bool
is_year i = not (is_month i)

abbrev pub same_interval : Interval → Interval → Bool
same_interval month i = is_month i
same_interval year i = is_year i

abbrev pub is_delta : TransitionPolicy → Bool
is_delta full_period_reset = false
is_delta prorated_delta = true

-- `decideTransition`
unfoldable pub decide_transition : Plan → Interval → Plan → Interval → TransitionPolicy → Outcome
decide_transition current current_interval target target_interval policy =
    let decision = λ (timing : Timing) (reason : Reason). decided (record {
      from_plan = current.key;
      from_interval = current_interval;
      target_plan = target.key;
      target_interval = target_interval;
      timing = timing;
      reason = reason;
      policy = policy;
    }) in
    if str_eq current.key target.key && same_interval current_interval target_interval
    then decision noop unchanged
    else if is_year current_interval
    then decision period_end annual_lineage
    else if is_delta policy && (not (is_month target_interval) || not (is_month current_interval))
    then decision period_end delta_not_monthly
    else if is_delta policy
        && (ltb current.rank target.rank && leb target.monthly_credits current.monthly_credits)
    then decision period_end delta_not_positive
    else if ltb current.rank target.rank
    then decision immediate (if is_delta policy then delta_upgrade else higher_rank)
    else if ltb target.rank current.rank
    then decision period_end lower_rank
    else if not (str_eq target.key current.key)
    then ambiguous
    else if is_month current_interval && is_year target_interval
    then decision immediate month_to_year
    else decision period_end interval_conversion

-- ===== src/Tests/Plans.antt =====
-- Transitions between two sample plans, and two deliveries in either order.
use mathlib.Core.Bool.{false≢true}
use mathlib.Core.List.Perm
use stripe_entitlements_fast.Base.{◌≡◌, ◌≢◌, ◌⊎◌, ◌↔◌, refl, eq_iff, [], ◌∷◌}
use stripe_entitlements_fast.Ordering.{Cursor, Event, projection_order, rank_for, deliver}
use stripe_entitlements_fast.Ordering.Convergence.{deliver_same_events}
use stripe_entitlements_fast.Transition.{
  Plan, month, prorated_delta, full_period_reset, immediate, ambiguous, decide_transition,
}
use stripe_entitlements_fast.Transition.Policy.{
  timing_of, Upgrades, IsCoherent, decide_transition_immediate, decide_transition-ambiguous,
}

abbrev basic : Plan
basic = record {
  key = "basic";
  currency = "usd";
  rank = 1;
  monthly_credits = 100;
  month_usd = 9;
  year_usd = 90;
  features = "export" ∷ [];
  limits = ("seats", 5) ∷ [];
}

abbrev pro : Plan
pro = record {
  key = "pro";
  currency = "usd";
  rank = 2;
  monthly_credits = 500;
  month_usd = 29;
  year_usd = 290;
  features = "export" ∷ [];
  limits = ("seats", 5) ∷ [];
}

basic-ne-pro : basic.key ≢ pro.key
basic-ne-pro e = false≢true ((eq_iff "basic" "pro").1 e)

basic-IsCoherent : IsCoherent basic pro
basic-IsCoherent = record {
  rank = λ e. absurd (basic-ne-pro e);
  credits = λ e. absurd (basic-ne-pro e);
}

decide_transition_immediate_example :
    (timing_of (decide_transition basic month pro month prorated_delta) ≡ immediate)
    ↔ Upgrades basic month pro month prorated_delta
decide_transition_immediate_example =
    decide_transition_immediate basic month pro month prorated_delta basic-IsCoherent

decide_transition-ambiguous_example :
    (decide_transition basic month (record pro { rank = 1 }) month full_period_reset ≡ ambiguous)
    ↔ ((month ≡ month)
        × (basic.key ≢ pro.key)
        × (1 ≡ basic.rank)
        × ((full_period_reset ≡ full_period_reset) ⊎ (month ≡ month)))
decide_transition-ambiguous_example =
    decide_transition-ambiguous basic month (record pro { rank = 1 }) month full_period_reset

abbrev start : Cursor
start = record { created = 0; rank = 0 }

abbrev paid : Event
paid = record { created = 5; type = "invoice.paid" }

abbrev deleted : Event
deleted = record { created = 5; type = "customer.subscription.deleted" }

-- in one second a deletion outranks a payment
deliver_run : (deliver start (deleted ∷ paid ∷ [])).rank ≡ 40
unfolding deliver projection_order rank_for
deliver_run = refl

deliver_same_events_example :
    deliver start (paid ∷ deleted ∷ []) ≡ deliver start (deleted ∷ paid ∷ [])
deliver_same_events_example =
    deliver_same_events start (paid ∷ deleted ∷ []) (deleted ∷ paid ∷ [])
      (λ e. Perm.mem_iff (Perm.swap deleted paid []))

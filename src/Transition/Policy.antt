-- ===== src/Transition/Policy.antt =====
-- What `decideTransition` (typescript/src/transitions.ts) promises, independent of its branch order.
use stripe_entitlements_fast.Base.{◌≡◌, ◌≢◌, ◌<◌, ◌⊎◌, ◌↔◌, arith, eq_iff}
use stripe_entitlements_fast.Transition.{
  Interval, month, year, TransitionPolicy, full_period_reset, prorated_delta, Timing, immediate,
  noop, Plan, Outcome, decided, ambiguous, decide_transition,
}

abbrev pub timing_of : Outcome → Timing
timing_of (decided d) = d.timing
timing_of ambiguous = noop

-- What makes a change take effect at once: it starts from a monthly plan, and it raises the rank,
-- under the delta policy by a monthly change that raises the credits too, or it turns the same
-- plan into a yearly one without the delta policy.
abbrev pub Upgrades : Plan → Interval → Plan → Interval → TransitionPolicy → Type 0
Upgrades c month t ti full_period_reset =
    (c.rank < t.rank) ⊎ ((c.rank ≡ t.rank) × (c.key ≡ t.key) × (ti ≡ year))
Upgrades c month t ti prorated_delta =
    (c.rank < t.rank) × (c.monthly_credits < t.monthly_credits) × (ti ≡ month)
Upgrades c year t ti p = ⊥

-- Same keys name the same plan.
pub record IsCoherent (c t : Plan) : Type 0 where
  pub rank : c.key ≡ t.key → c.rank ≡ t.rank
  pub credits : c.key ≡ t.key → c.monthly_credits ≡ t.monthly_credits

-- Between plans of one catalog, a change takes effect at once exactly when it is an upgrade.
pub decide_transition_immediate :
    (c : Plan) (ci : Interval) (t : Plan) (ti : Interval) (p : TransitionPolicy)
    → IsCoherent c t
    → (timing_of (decide_transition c ci t ti p) ≡ immediate) ↔ Upgrades c ci t ti p
unfolding decide_transition
decide_transition_immediate c month t month full_period_reset h = (
  λ e. ground (arith, eq_iff c.key t.key, eq_iff t.key c.key, h.rank),
  λ e. ground (arith, eq_iff c.key t.key, eq_iff t.key c.key, h.rank),
)
decide_transition_immediate c month t year full_period_reset h = (
  λ e. ground (arith, eq_iff c.key t.key, eq_iff t.key c.key, h.rank),
  λ e. ground (arith, eq_iff c.key t.key, eq_iff t.key c.key, h.rank),
)
decide_transition_immediate c month t month prorated_delta h = (
  λ e. ground (arith, eq_iff c.key t.key, eq_iff t.key c.key, h.rank),
  λ e. ground (arith, eq_iff c.key t.key, eq_iff t.key c.key, h.rank),
)
decide_transition_immediate c month t year prorated_delta h = (
  λ e. ground (arith, eq_iff c.key t.key, eq_iff t.key c.key, h.rank),
  λ e. ground (arith, eq_iff c.key t.key, eq_iff t.key c.key, h.rank),
)
decide_transition_immediate c year t ti p h =
    (λ e. ground (arith, eq_iff c.key t.key), λ e. absurd e)

-- A request is refused exactly when a monthly plan meets another plan of its own rank, except that
-- the delta policy defers a change to a yearly plan before it compares ranks.
pub decide_transition-ambiguous :
    (c : Plan) (ci : Interval) (t : Plan) (ti : Interval) (p : TransitionPolicy)
    → (decide_transition c ci t ti p ≡ ambiguous) ↔ (
        (ci ≡ month)
        × (c.key ≢ t.key)
        × (c.rank ≡ t.rank)
        × ((p ≡ full_period_reset) ⊎ (ti ≡ month)))
unfolding decide_transition
decide_transition-ambiguous c ci t ti p = (
  λ e. ground (arith, eq_iff c.key t.key, eq_iff t.key c.key),
  λ e. ground (arith, eq_iff c.key t.key, eq_iff t.key c.key),
)

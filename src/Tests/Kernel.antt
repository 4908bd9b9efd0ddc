-- ===== src/Tests/Kernel.antt =====
-- A kernel that opens its own pool, runs, and is stopped; and one that was given a pool.
use stripe_entitlements_fast.Base.{refl, true, false, some, none}
use stripe_entitlements_fast.Kernel.{
  running, stopping, nothing, closing, call_start, call_stop, pool_opened, migrated, happen,
  begin_start, begin_stop, migrate, finish_start, close_pool,
}
use stripe_entitlements_fast.Kernel.Cycle.{kernel, Reach, created, step, Owns, Reach-Owns}
use stripe_entitlements_fast.Kernel.Progress.{Progresses, Reach-Progresses}

running_reached : Reach none (kernel running true true (some 4) nothing)
unfolding happen begin_start migrate finish_start
running_reached =
    step migrated (step (pool_opened 4) (step (call_start true) (created none) refl) refl) refl

stopping_reached : Reach none (kernel stopping false true none closing)
unfolding happen begin_stop close_pool
stopping_reached = step call_stop running_reached refl

Reach-Owns_example : Owns none (kernel running true true (some 4) nothing)
Reach-Owns_example = Reach-Owns running_reached

Reach-Progresses_example : Progresses (kernel stopping false true none closing)
Reach-Progresses_example = Reach-Progresses stopping_reached

-- ===== src/Kernel/Progress.antt =====
-- A transition of `BillingKernel` (typescript/src/kernel.ts) ends, whatever the database answers.
use mathlib.Core.Path.{subst}
use stripe_entitlements_fast.Base.{
  ℕ, ◌<◌, ◌≡◌, ◌⊎◌, inl, inr, refl, arith, Bool, true, false, Option, none, some,
}
use stripe_entitlements_fast.Kernel.{
  idle, running, Await, nothing, migrating, closing, connecting, Kernel, KernelEvent, call_start,
  call_stop, pool_opened, open_failed, migrated, migration_failed, pool_closed, finish_start,
  migrate, close_pool, settle, fail_start, happen,
}
use stripe_entitlements_fast.Kernel.Cycle.{
  Reach, Shape, rests, connects, migrates_own, migrates, runs_own, runs, gives_up, stops,
  Reach-Shape,
}

-- the answers that a kernel still waits for, at most
abbrev pub waits : Await → ℕ
waits nothing = 0
waits closing = 1
waits migrating = 2
waits (connecting apply) = 3

abbrev pub is_answer : KernelEvent → Bool
is_answer (call_start apply) = false
is_answer call_stop = false
is_answer _ = true

-- An answer brings the kernel nearer to its end, an answer that it waits for can come, and a kernel that
-- waits for none is at rest or runs.
pub record Progresses (k : Kernel) : Type 0 where
  pub nearer :
      (e : KernelEvent) (later : Kernel)
      → is_answer e ≡ true
      → happen e k ≡ some later
      → waits later.awaits < waits k.awaits
  pub answered :
      0 < waits k.awaits
      → (e : KernelEvent) × (later : Kernel) × (is_answer e ≡ true) × (happen e k ≡ some later)
  pub ended : waits k.awaits ≡ 0 → (k.state ≡ idle) ⊎ (k.state ≡ running)

abbrev Nears : ℕ → Option Kernel → Type 0
Nears n none = Unit
Nears n (some k) = waits k.awaits < n

Shape-Nears :
    {given : Option ℕ} {k : Kernel} (e : KernelEvent)
    → is_answer e ≡ true
    → Shape given k
    → Nears (waits k.awaits) (happen e k)
unfolding happen migrate finish_start fail_start close_pool settle
Shape-Nears (call_start apply) h s = absurd (ground (arith, h))
Shape-Nears call_stop h s = absurd (ground (arith, h))
Shape-Nears (pool_opened q) h (connects true) = omega arith
Shape-Nears (pool_opened q) h (connects false) = omega arith
Shape-Nears open_failed h (connects apply) = omega arith
Shape-Nears migrated h (migrates_own q) = omega arith
Shape-Nears migrated h (migrates q) = omega arith
Shape-Nears migration_failed h (migrates_own q) = omega arith
Shape-Nears migration_failed h (migrates q) = omega arith
Shape-Nears pool_closed h gives_up = omega arith
Shape-Nears pool_closed h stops = omega arith
Shape-Nears e h s = tt

Shape-answered :
    {given : Option ℕ} {k : Kernel}
    → Shape given k
    → 0 < waits k.awaits
    → (e : KernelEvent) × (later : Kernel) × (is_answer e ≡ true) × (happen e k ≡ some later)
unfolding happen
Shape-answered (rests given) lt = absurd (omega (arith, lt))
Shape-answered (connects apply) lt = (open_failed, _, refl, refl)
Shape-answered (migrates_own q) lt = (migrated, _, refl, refl)
Shape-answered (migrates q) lt = (migrated, _, refl, refl)
Shape-answered (runs_own q) lt = absurd (omega (arith, lt))
Shape-answered (runs q) lt = absurd (omega (arith, lt))
Shape-answered gives_up lt = (pool_closed, _, refl, refl)
Shape-answered stops lt = (pool_closed, _, refl, refl)

Shape-ended :
    {given : Option ℕ} {k : Kernel}
    → Shape given k
    → waits k.awaits ≡ 0
    → (k.state ≡ idle) ⊎ (k.state ≡ running)
Shape-ended (rests given) e = inl refl
Shape-ended (connects apply) e = absurd (omega (arith, e))
Shape-ended (migrates_own q) e = absurd (omega (arith, e))
Shape-ended (migrates q) e = absurd (omega (arith, e))
Shape-ended (runs_own q) e = inr refl
Shape-ended (runs q) e = inr refl
Shape-ended gives_up e = absurd (omega (arith, e))
Shape-ended stops e = absurd (omega (arith, e))

-- For every kernel that is reached: each answer of the database, a failure too, leaves fewer answers to
-- wait for, of three at most; while there are any, one can come; and when there are none, the kernel is
-- at rest or runs, so that no start and no stop gets stuck.
pub Reach-Progresses : {given : Option ℕ} {k : Kernel} → Reach given k → Progresses k
Reach-Progresses {k = k} r = record {
  nearer =
      λ e later answer h. subst (Nears (waits k.awaits)) h (Shape-Nears e answer (Reach-Shape r));
  answered = Shape-answered (Reach-Shape r);
  ended = Shape-ended (Reach-Shape r);
}

-- ===== src/Kernel/Cycle.antt =====
-- The states that `BillingKernel` (typescript/src/kernel.ts) reaches: "start() owns only the database
-- connection that it opens; stop() never closes an injected, already-connected pool".
use mathlib.Core.Path.{subst}
use stripe_entitlements_fast.Base.{ℕ, ◌≡◌, ◌↔◌, refl, arith, Bool, true, false, Option, none, some}
use stripe_entitlements_fast.Kernel.{
  State, idle, starting, running, stopping, Await, nothing, migrating, closing, connecting, Kernel,
  KernelEvent, call_start, call_stop, pool_opened, open_failed, migrated, migration_failed,
  pool_closed, is_connected, finish_start, migrate, close_pool, settle, fail_start, begin_start,
  begin_stop, happen, require_services,
}

abbrev pub kernel : State → Bool → Bool → Option ℕ → Await → Kernel
kernel s services here pool awaits = record {
  state = s;
  has_services = services;
  connected_here = here;
  pool = pool;
  awaits = awaits;
}

-- A kernel that is reached, and the pool that the owner of its database has last left. The owner opens or
-- closes a pool only while the kernel is idle.
pub data Reach : Option ℕ → Kernel → Type 0 where
  created : (given : Option ℕ) → Reach given (kernel idle false false given nothing)
  step :
      {given : Option ℕ} {k later : Kernel} (e : KernelEvent)
      → Reach given k
      → happen e k ≡ some later
      → Reach given later
  given_over :
      {given : Option ℕ} {k : Kernel} (next : Option ℕ)
      → Reach given k
      → k.state ≡ idle
      → Reach next (record k { pool = next })

-- the forms that a kernel takes
pub data Shape : Option ℕ → Kernel → Type 0 where
  rests : (given : Option ℕ) → Shape given (kernel idle false false given nothing)
  connects : (apply : Bool) → Shape none (kernel starting false true none (connecting apply))
  migrates_own : (q : ℕ) → Shape none (kernel starting false true (some q) migrating)
  migrates : (q : ℕ) → Shape (some q) (kernel starting false false (some q) migrating)
  runs_own : (q : ℕ) → Shape none (kernel running true true (some q) nothing)
  runs : (q : ℕ) → Shape (some q) (kernel running true false (some q) nothing)
  gives_up : Shape none (kernel starting false true none closing)
  stops : Shape none (kernel stopping false true none closing)

-- what an event leads to
abbrev Leads : Option ℕ → Option Kernel → Type 0
Leads given none = Unit
Leads given (some k) = Shape given k

Shape-happen :
    {given : Option ℕ} {k : Kernel} (e : KernelEvent) → Shape given k → Leads given (happen e k)
unfolding happen begin_start begin_stop migrate finish_start fail_start close_pool settle
Shape-happen (call_start apply) (rests none) = connects apply
Shape-happen (call_start true) (rests (some q)) = migrates q
Shape-happen (call_start false) (rests (some q)) = runs q
Shape-happen call_stop (rests given) = rests given
Shape-happen (pool_opened q) (connects true) = migrates_own q
Shape-happen (pool_opened q) (connects false) = runs_own q
Shape-happen open_failed (connects apply) = gives_up
Shape-happen migrated (migrates_own q) = runs_own q
Shape-happen migrated (migrates q) = runs q
Shape-happen migration_failed (migrates_own q) = gives_up
Shape-happen migration_failed (migrates q) = rests (some q)
Shape-happen call_stop (runs_own q) = stops
Shape-happen call_stop (runs q) = rests (some q)
Shape-happen pool_closed gives_up = rests none
Shape-happen pool_closed stops = rests none
Shape-happen e s = tt

Shape-given_over :
    {given : Option ℕ} {k : Kernel} (next : Option ℕ)
    → Shape given k
    → k.state ≡ idle
    → Shape next (record k { pool = next })
Shape-given_over next (rests given) rest = rests next
Shape-given_over next (connects apply) rest = absurd (ground (arith, rest))
Shape-given_over next (migrates_own q) rest = absurd (ground (arith, rest))
Shape-given_over next (migrates q) rest = absurd (ground (arith, rest))
Shape-given_over next (runs_own q) rest = absurd (ground (arith, rest))
Shape-given_over next (runs q) rest = absurd (ground (arith, rest))
Shape-given_over next gives_up rest = absurd (ground (arith, rest))
Shape-given_over next stops rest = absurd (ground (arith, rest))

pub Reach-Shape : {given : Option ℕ} {k : Kernel} → Reach given k → Shape given k
Reach-Shape (created given) = rests given
Reach-Shape (step {given = given} e r h) = subst (Leads given) h (Shape-happen e (Reach-Shape r))
Reach-Shape (given_over next r h) = Shape-given_over next (Reach-Shape r) h

-- What is asked of a kernel at rest, of one that runs, and of every one.
pub record Owns (given : Option ℕ) (k : Kernel) : Type 0 where
  pub at_rest : k.state ≡ idle → k.pool ≡ given
  pub while_running : k.state ≡ running → is_connected k.pool ≡ true
  pub never_taken : is_connected given ≡ true → k.pool ≡ given
  pub served : (require_services k ≡ true) ↔ (k.state ≡ running)

at_rest-Shape : {given : Option ℕ} {k : Kernel} → Shape given k → k.state ≡ idle → k.pool ≡ given
at_rest-Shape (rests given) h = refl
at_rest-Shape (connects apply) h = refl
at_rest-Shape (migrates_own q) h = absurd (ground (arith, h))
at_rest-Shape (migrates q) h = refl
at_rest-Shape (runs_own q) h = absurd (ground (arith, h))
at_rest-Shape (runs q) h = refl
at_rest-Shape gives_up h = refl
at_rest-Shape stops h = refl

while_running-Shape :
    {given : Option ℕ} {k : Kernel} → Shape given k → k.state ≡ running → is_connected k.pool ≡ true
while_running-Shape (rests given) h = absurd (ground (arith, h))
while_running-Shape (connects apply) h = absurd (ground (arith, h))
while_running-Shape (migrates_own q) h = refl
while_running-Shape (migrates q) h = refl
while_running-Shape (runs_own q) h = refl
while_running-Shape (runs q) h = refl
while_running-Shape gives_up h = absurd (ground (arith, h))
while_running-Shape stops h = absurd (ground (arith, h))

never_taken-Shape :
    {given : Option ℕ} {k : Kernel} → Shape given k → is_connected given ≡ true → k.pool ≡ given
never_taken-Shape (rests given) h = refl
never_taken-Shape (connects apply) h = refl
never_taken-Shape (migrates_own q) h = absurd (ground (arith, h))
never_taken-Shape (migrates q) h = refl
never_taken-Shape (runs_own q) h = absurd (ground (arith, h))
never_taken-Shape (runs q) h = refl
never_taken-Shape gives_up h = refl
never_taken-Shape stops h = refl

served-Shape :
    {given : Option ℕ} {k : Kernel}
    → Shape given k
    → (require_services k ≡ true) ↔ (k.state ≡ running)
unfolding require_services
served-Shape (rests given) = (λ h. absurd (ground (arith, h)), λ h. absurd (ground (arith, h)))
served-Shape (connects apply) = (λ h. absurd (ground (arith, h)), λ h. absurd (ground (arith, h)))
served-Shape (migrates_own q) = (λ h. absurd (ground (arith, h)), λ h. absurd (ground (arith, h)))
served-Shape (migrates q) = (λ h. absurd (ground (arith, h)), λ h. absurd (ground (arith, h)))
served-Shape (runs_own q) = (λ h. refl, λ h. refl)
served-Shape (runs q) = (λ h. refl, λ h. refl)
served-Shape gives_up = (λ h. absurd (ground (arith, h)), λ h. absurd (ground (arith, h)))
served-Shape stops = (λ h. absurd (ground (arith, h)), λ h. absurd (ground (arith, h)))

-- However the calls, the answers of the database and the failures follow each other: a kernel at rest
-- leaves its database with the pool that it was given, a running kernel has a pool, a pool that was
-- given is never closed or replaced, and the services are handed out exactly while the kernel runs.
pub Reach-Owns : {given : Option ℕ} {k : Kernel} → Reach given k → Owns given k
Reach-Owns r = record {
  at_rest = at_rest-Shape (Reach-Shape r);
  while_running = while_running-Shape (Reach-Shape r);
  never_taken = never_taken-Shape (Reach-Shape r);
  served = served-Shape (Reach-Shape r);
}

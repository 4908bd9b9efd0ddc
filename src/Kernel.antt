-- ===== src/Kernel.antt =====
-- The life cycle of `BillingKernel` (typescript/src/kernel.ts) with the pool of its `Database`
-- (typescript/src/database.ts), as the events between which the code runs without a pause. Pools are
-- told apart by a number; the services are one value that is there or not, and their construction is taken
-- not to throw.
pub mod Cycle
pub mod Progress
use stripe_entitlements_fast.Base.{
  ℕ, Bool, true, false, not, Option, none, some, ◌&&◌, if◌then◌else◌,
}

pub data State : Type 0 where
  idle starting running stopping : State

-- what the code waits for: `connect`, with the choice of `applyMigrations`, `applyMigrations`, `close`
pub data Await : Type 0 where
  nothing migrating closing : Await
  connecting : Bool → Await

pub record Kernel : Type 0 where
  pub state : State
  pub has_services : Bool
  pub connected_here : Bool
  pub pool : Option ℕ
  pub awaits : Await

pub data KernelEvent : Type 0 where
  call_start : Bool → KernelEvent
  call_stop : KernelEvent
  pool_opened : ℕ → KernelEvent
  open_failed migrated migration_failed pool_closed : KernelEvent

-- `databaseConnected`
abbrev pub is_connected : Option ℕ → Bool
is_connected none = false
is_connected (some _) = true

abbrev pub is_running : State → Bool
is_running running = true
is_running _ = false

-- the services are built, and the kernel runs
unfoldable pub finish_start : Kernel → Kernel
finish_start k = record k { has_services = true; state = running; awaits = nothing }

-- the statements after the pool is there
unfoldable pub migrate : Bool → Kernel → Kernel
migrate apply k = if apply then record k { awaits = migrating } else finish_start k

-- `close` drops the pool, and then waits for its end, which it may fail to come to
unfoldable pub close_pool : Kernel → Kernel
close_pool k = record k { pool = none; awaits = closing }

unfoldable pub settle : Kernel → Kernel
settle k = record k { connected_here = false; state = idle; awaits = nothing }

-- the `catch` of `start`
unfoldable pub fail_start : Kernel → Kernel
fail_start k =
    let failed = record k { has_services = false } in
    if k.connected_here then close_pool failed else settle failed

-- the body of `start`; a kernel that is not idle throws
unfoldable pub begin_start : Bool → Kernel → Option Kernel
begin_start apply k = elim k.state [
  | idle ↦
      let started = record k { state = starting; connected_here = not (is_connected k.pool) } in
      some (
        if is_connected k.pool
        then migrate apply started
        else record started { awaits = connecting apply })
  | _ ↦ none
]

-- the body of `stop`; a kernel in a transition throws
unfoldable pub begin_stop : Kernel → Option Kernel
begin_stop k = elim k.state [
  | idle ↦ some k
  | running ↦
      let stopped = record k { state = stopping; has_services = false } in
      some (if k.connected_here then close_pool stopped else settle stopped)
  | _ ↦ none
]

-- none where the event cannot happen, or the call throws
unfoldable pub happen : KernelEvent → Kernel → Option Kernel
happen (call_start apply) k = begin_start apply k
happen call_stop k = begin_stop k
happen (pool_opened q) k = elim k.awaits [
  | connecting apply ↦ some (migrate apply (record k { pool = some q }))
  | _ ↦ none
]
happen open_failed k = elim k.awaits [ connecting apply ↦ some (fail_start k) | _ ↦ none ]
happen migrated k = elim k.awaits [ migrating ↦ some (finish_start k) | _ ↦ none ]
happen migration_failed k = elim k.awaits [ migrating ↦ some (fail_start k) | _ ↦ none ]
happen pool_closed k = elim k.awaits [ closing ↦ some (settle k) | _ ↦ none ]

-- `requireServices`
unfoldable pub require_services : Kernel → Bool
require_services k = k.has_services && is_running k.state

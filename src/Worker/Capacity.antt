-- ===== src/Worker/Capacity.antt =====
-- packages/worker_core/src/cloudcause_worker_core/live_limits.py: `LiveInvestigationCapacity`. Awaiting a
-- slot ends one step; getting it, or running out of time, is part of a later one.
use cloudcause.Prelude.{
  ℕ, ◌+◌, ◌-◌, ◌<◌, ◌≡◌, ◌⊎◌, Bool, true, not, ◌||◌, Option, none, some, ltb, leb, if◌then◌else◌,
}

-- the numbers of `LiveInvestigationCapacity` and of its `BoundedSemaphore`
pub record Capacity : Type 0 where
  pub maximum : ℕ
  pub free : ℕ
  pub waiting : ℕ
  pub active : ℕ

-- `__init__`; `none` is a ValueError, and the flag says whether the timeout is positive
unfoldable pub new_capacity : ℕ → Bool → Option Capacity
new_capacity maximum timeout_positive =
    if ltb maximum 1 || not timeout_positive
    then none
    else some (record { maximum = maximum; free = maximum; waiting = 0; active = 0 })

-- `reserve` up to its `yield` or its wait
unfoldable pub ask : Capacity → Capacity
ask c =
    if leb c.free 0
    then record c { waiting = c.waiting + 1 }
    else record c { free = c.free - 1; active = c.active + 1 }

-- the wait runs out, and LiveCapacityTimeoutError is raised
unfoldable pub give_up : Capacity → Capacity
give_up c = record c { waiting = c.waiting - 1 }

-- the `finally` of `reserve`: the slot passes to one that waits, or back to the semaphore, which
-- raises a ValueError (`none`) when it would hold more than its bound
unfoldable pub leave : Capacity → Option Capacity
leave c =
    if ltb 0 c.waiting
    then some (record c { waiting = c.waiting - 1; active = c.active - 1 + 1 })
    else if leb c.maximum c.free
    then none
    else some (record c { free = c.free + 1; active = c.active - 1 })

-- The histories of one capacity. Only one that waits can give up, only one that is active can leave.
pub data Reach (maximum : ℕ) : Capacity → Type 0 where
  begin : (c : Capacity) → new_capacity maximum true ≡ some c → Reach maximum c
  asked : (c : Capacity) → Reach maximum c → Reach maximum (ask c)
  gave_up : (c : Capacity) → Reach maximum c → 0 < c.waiting → Reach maximum (give_up c)
  left : (c d : Capacity) → Reach maximum c → 0 < c.active → leave c ≡ some d → Reach maximum d

abbrev IsBalanced : ℕ → Capacity → Type 0
IsBalanced maximum c =
    (c.maximum ≡ maximum) × (c.active + c.free ≡ maximum) × ((c.waiting ≡ 0) ⊎ (c.free ≡ 0))

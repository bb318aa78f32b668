-- ===== src/Worker/Budget.antt =====
-- packages/worker_core/src/cloudcause_worker_core/live_limits.py: the budget of live calls that the
-- boundaries of one investigation share.
use cloudcause.Prelude.{
  ℕ, zero, suc, ◌+◌, ◌≤◌, ◌≡◌, refl, Bool, true, false, min, leb, arith, if◌then◌else◌,
}

-- `AgentCallBudget`
pub record AgentCallBudget : Type 0 where
  pub maximum : ℕ
  pub used : ℕ

-- `reserve`: `false` is the `AgentCallLimitExceeded` that is raised
unfoldable pub reserve : AgentCallBudget → AgentCallBudget × Bool
reserve b =
    if leb b.maximum b.used
    then (b, false)
    else (record { maximum = b.maximum; used = suc b.used }, true)

-- n calls one after another, with the number of those that were let through
unfoldable pub reserve_all : ℕ → AgentCallBudget → AgentCallBudget × ℕ
unfolding reserve
reserve_all zero b = (b, 0)
reserve_all (suc n) b =
    let (b1, granted) = reserve b in
    let (b2, count) = reserve_all n b1 in (b2, if granted then suc count else count)

-- Of a budget that is not overdrawn, n calls in a row are let through as long as anything is left:
-- it ends at its maximum or n calls further, whichever is less, and as many calls got through.
pub reserve_all_lem :
    (n : ℕ) (b : AgentCallBudget)
    → b.used ≤ b.maximum
    → ((reserve_all n b).0.used ≡ min (b.used + n) b.maximum)
      × (b.used + (reserve_all n b).1 ≡ min (b.used + n) b.maximum)
      × ((reserve_all n b).0.maximum ≡ b.maximum)
unfolding reserve_all reserve
reserve_all_lem zero b h = (omega arith, omega arith, refl)
reserve_all_lem (suc n) b h = ground (arith, reserve_all_lem n (reserve b).0)

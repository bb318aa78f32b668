-- ===== src/RateLimit/Memory.antt =====
-- packages/rate_limit/src/cloudcause_rate_limit/memory.py: `MemoryRateLimiter`.
-- A coroutine runs without interruption between two awaits, so what happens under a bucket's lock
-- is one step. A semaphore holds its free slots and the callers that wait for one; a release hands
-- its slot to a waiter, as asyncio does. `asyncio.wait_for` runs the acquisition as a task of its own, as
-- it does on Python 3.11, so a caller awaits twice: until its acquisition runs, and from the moment that
-- it has a slot until it goes on and counts itself.
pub mod Permits
pub mod Tokens
pub mod Steps
use cloudcause.Prelude.{
  ℕ, zero, suc, ◌+◌, ◌-◌, String, Bool, true, false, not, ◌&&◌, Option, none, some, List, [], ◌∷◌,
  ltb, ◌==◌, nat_eq, string_eq, if◌then◌else◌,
}
use cloudcause.Prelude.Dict.{Dict, get, put, remove, get_or, put_default, keys}
use cloudcause.Prelude.Floats.{FloatOps, dec, ◌⊕◌, ◌⊖◌, ◌⊗◌, ◌⊘◌, ◌≼◌, min_f, max_f}
use cloudcause.RateLimit.Protocol.{TokenBucketResult, Outcome, ok, err, value_error}

-- asyncio.Semaphore
pub record Semaphore : Type 0 where
  pub free : ℕ
  pub waiting : ℕ

-- Semaphore.locked(): no free slot, or somebody waits.
abbrev pub locked : Semaphore → Bool
locked s = not (ltb 0 s.free && s.waiting == 0)

-- What a step of the entry into `concurrency_permit` comes to.
pub data Entry : Type 0 where
  arrived granted queued timed_out changed_maximum bad_maximum : Entry

module _ (Num : Type 0) where
  -- `_TokenBucket`
  pub record TokenBucket : Type 0 where
    pub tokens : Num
    pub last_refill : Num
    pub last_access : Num

  -- The dictionaries of `MemoryRateLimiter.__init__`; a lock is the Boolean that says it is held. The last
  -- two are the callers on the event loop, by key: those whose acquisition has not run yet, and those
  -- that have a slot and have not counted themselves yet.
  pub record MemoryRateLimiter : Type 0 where
    pub buckets : Dict String TokenBucket
    pub bucket_locks : Dict String Bool
    pub semaphores : Dict String Semaphore
    pub maximums : Dict String ℕ
    pub active : Dict String ℕ
    pub arriving : Dict String ℕ
    pub uncounted : Dict String ℕ

module _ {Num : Type 0} where
  -- `_lock_for`
  unfoldable pub lock_for : String → MemoryRateLimiter Num → MemoryRateLimiter Num
  lock_for key s = record s { bucket_locks = put_default key false s.bucket_locks }

module _ {Num : Type 0} ⦃F : FloatOps Num⦄ where
  -- The bucket as the locked section finds it: a new one is full, an old one is refilled.
  unfoldable pub refill : Num → Num → Num → Option (TokenBucket Num) → TokenBucket Num
  refill capacity rate now none = record { tokens = capacity; last_refill = now; last_access = now }
  refill capacity rate now (some b) =
      let elapsed = max_f (dec 0 0) (now ⊖ b.last_refill) in
      record {
        tokens = min_f capacity (b.tokens ⊕ elapsed ⊗ rate);
        last_refill = now;
        last_access = now;
      }

  -- The test of the cost, on the refilled bucket.
  unfoldable pub spend : Num → Num → TokenBucket Num → TokenBucket Num × TokenBucketResult Num
  spend rate cost b =
      if cost ≼ b.tokens
      then (
        record b { tokens = b.tokens ⊖ cost },
        record { allowed = true; remaining = b.tokens ⊖ cost; retry_after_seconds = dec 0 0 },
      )
      else (
        b,
        record {
          allowed = false;
          remaining = b.tokens;
          retry_after_seconds = (cost ⊖ b.tokens) ⊘ rate;
        },
      )

  -- `acquire_tokens`
  unfoldable pub acquire_tokens :
      String
      → Num
      → Num
      → Num
      → Num
      → MemoryRateLimiter Num
      → MemoryRateLimiter Num × Outcome Num (TokenBucketResult Num)
  unfolding lock_for refill spend
  acquire_tokens key capacity rate cost now s =
      if capacity ≼ dec 0 0
      then (s, err value_error)
      else if rate ≼ dec 0 0
      then (s, err value_error)
      else let s1 = lock_for key s in
        let (b, r) = spend rate cost (refill capacity rate now (get key s1.buckets)) in
        (record s1 { buckets = put key b s1.buckets }, ok r)

module _ {Num : Type 0} where
  -- `_check_maximum`
  unfoldable pub check_maximum : String → ℕ → MemoryRateLimiter Num → Bool
  check_maximum key maximum s = elim (get key s.maximums) [
    | none ↦ true
    | some recorded ↦ recorded == maximum
  ]

  -- `_semaphore_for`; `none` is the ValueError of `_check_maximum`.
  unfoldable pub semaphore_for :
      String → ℕ → MemoryRateLimiter Num → Option (Semaphore × MemoryRateLimiter Num)
  unfolding check_maximum
  semaphore_for key maximum s = elim (get key s.semaphores) [
    | some sem ↦ if check_maximum key maximum s then some (sem, s) else none
    | none ↦
        let sem : Semaphore = record { free = maximum; waiting = 0 } in
        some (
          sem,
          record s {
            semaphores = put key sem s.semaphores;
            maximums = put key maximum s.maximums;
            active = put key 0 s.active;
          },
        )
  ]

  -- The task of `semaphore.acquire()` runs: the caller has a slot, or waits for one.
  unfoldable pub take_slot :
      String → Semaphore → MemoryRateLimiter Num → MemoryRateLimiter Num × Entry
  take_slot key sem s =
      let s1 : MemoryRateLimiter Num = record s {
        arriving = put key (get_or key 0 s.arriving - 1) s.arriving;
      } in
      if locked sem
      then (
        record s1 { semaphores = put key (record sem { waiting = sem.waiting + 1 }) s1.semaphores },
        queued,
      )
      else (
        record s1 {
          semaphores = put key (record sem { free = sem.free - 1 }) s1.semaphores;
          uncounted = put key (get_or key 0 s1.uncounted + 1) s1.uncounted;
        },
        granted,
      )

  -- The caller goes on after `wait_for`, up to the `yield`.
  unfoldable pub count_holder : String → MemoryRateLimiter Num → MemoryRateLimiter Num
  count_holder key s = record s {
    uncounted = put key (get_or key 0 s.uncounted - 1) s.uncounted;
    active = put key (get_or key 0 s.active + 1) s.active;
  }

module _ {Num : Type 0} ⦃F : FloatOps Num⦄ where
  -- `wait_for` is called: a timeout that is not positive ends before the acquisition runs.
  abbrev pub arrive : String → Num → MemoryRateLimiter Num → MemoryRateLimiter Num × Entry
  arrive key timeout s =
      if timeout ≼ dec 0 0
      then (s, timed_out)
      else (record s { arriving = put key (get_or key 0 s.arriving + 1) s.arriving }, arrived)

  -- `concurrency_permit` up to the await of `wait_for`
  unfoldable pub enter_permit :
      String → ℕ → Num → MemoryRateLimiter Num → MemoryRateLimiter Num × Entry
  unfolding semaphore_for
  enter_permit key maximum timeout s =
      if ltb maximum 1 then (s, bad_maximum) else elim (semaphore_for key maximum s) [
        | none ↦ (s, changed_maximum)
        | some (sem, s1) ↦ arrive key timeout s1
      ]

module _ {Num : Type 0} where
  -- The wait of a queued caller runs into its timeout, and RateLimitExceeded is raised.
  unfoldable pub time_out : String → MemoryRateLimiter Num → MemoryRateLimiter Num
  time_out key s = elim (get key s.semaphores) [
    | none ↦ s
    | some sem ↦ record s {
      semaphores = put key (record sem { waiting = sem.waiting - 1 }) s.semaphores;
    }
  ]

  -- The `finally` of `concurrency_permit`: the count falls, and the slot goes to a waiter, who has not
  -- counted itself yet, or back to the semaphore.
  unfoldable pub exit_permit : String → MemoryRateLimiter Num → MemoryRateLimiter Num
  exit_permit key s =
      let s1 : MemoryRateLimiter Num = record s {
        active = put key (get_or key 1 s.active - 1) s.active;
      } in
      elim (get key s.semaphores) [
        | none ↦ s1
        | some sem ↦
            if ltb 0 sem.waiting
            then record s1 {
              semaphores = put key (record sem { waiting = sem.waiting - 1 }) s1.semaphores;
              uncounted = put key (get_or key 0 s1.uncounted + 1) s1.uncounted;
            }
            else record s1 {
              semaphores = put key (record sem { free = sem.free + 1 }) s1.semaphores;
            }
      ]

module _ {Num : Type 0} ⦃F : FloatOps Num⦄ where
  -- One key of the first loop of `evict_inactive`: a held lock keeps its bucket.
  unfoldable pub evict_bucket :
      Num → Num → String → MemoryRateLimiter Num × ℕ → MemoryRateLimiter Num × ℕ
  evict_bucket now older_than key (s, evicted) =
      if get_or key false s.bucket_locks then (s, evicted) else elim (get key s.buckets) [
        | none ↦ (s, evicted)
        | some b ↦
            if older_than ≼ now ⊖ b.last_access
            then (
              record s { buckets = remove key s.buckets; bucket_locks = remove key s.bucket_locks },
              evicted + 1,
            )
            else (s, evicted)
      ]

  unfoldable pub evict_buckets :
      Num → Num → List String → MemoryRateLimiter Num × ℕ → MemoryRateLimiter Num × ℕ
  evict_buckets now older_than [] acc = acc
  evict_buckets now older_than (key ∷ rest) acc =
      evict_buckets now older_than rest (evict_bucket now older_than key acc)

module _ {Num : Type 0} where
  -- One entry of the second loop: a semaphore that nobody holds or waits for is dropped.
  unfoldable pub evict_semaphore :
      String → Semaphore → MemoryRateLimiter Num → MemoryRateLimiter Num
  evict_semaphore key sem s =
      if get_or key 0 s.active == 0 && not (locked sem)
      then record s {
        semaphores = remove key s.semaphores;
        maximums = remove key s.maximums;
        active = remove key s.active;
      }
      else s

  unfoldable pub evict_semaphores :
      Dict String Semaphore → MemoryRateLimiter Num → MemoryRateLimiter Num
  evict_semaphores [] s = s
  evict_semaphores ((key, sem) ∷ rest) s = evict_semaphores rest (evict_semaphore key sem s)

module _ {Num : Type 0} ⦃F : FloatOps Num⦄ where
  -- `evict_inactive`: each loop runs over a copy of the entries that it may delete.
  unfoldable pub evict_inactive : Num → Num → MemoryRateLimiter Num → MemoryRateLimiter Num × ℕ
  evict_inactive older_than now s =
      let (s1, evicted) = evict_buckets now older_than (keys s.buckets) (s, 0) in
      (evict_semaphores s1.semaphores s1, evicted)

module _ (Num : Type 0) where
  -- `MemoryRateLimiter.__init__`
  abbrev pub empty : MemoryRateLimiter Num
  empty = record {
    buckets = [];
    bucket_locks = [];
    semaphores = [];
    maximums = [];
    active = [];
    arriving = [];
    uncounted = [];
  }

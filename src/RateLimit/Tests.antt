-- ===== src/RateLimit/Tests.antt =====
-- The rate limiter run on numbers in millionths, and its theorems at concrete inputs.
use cloudcause.Prelude.{
  ℕ, zero, suc, ltb, ◌≤◌, ◌≡◌, refl, String, true, false, some, [], length, string_eq, nat_eq,
  if◌then◌else◌,
}
use cloudcause.Prelude.Dict.{Dict, get, put, remove}
use cloudcause.Prelude.Floats.{dec, round, ◌⊖◌, ◌≼◌}
use cloudcause.Prelude.Micro.{Micro, micro_ops, micro_laws}
use cloudcause.RateLimit.Protocol.{TokenBucketResult, ok}
use cloudcause.RateLimit.Memory
use cloudcause.RateLimit.Memory.{
  Semaphore, TokenBucket, MemoryRateLimiter, empty, refill, enter_permit, take_slot, count_holder,
  evict_inactive,
}
use cloudcause.RateLimit.Memory.Tokens.{Bounded, acquire_tokens-Bounded}
use cloudcause.RateLimit.Memory.Steps.{start, next, enter, evict_inactive-held}
use cloudcause.RateLimit.Redis
use cloudcause.RateLimit.Redis.{acquire_lease, renew_lease}
use cloudcause.RateLimit.Redis.Buckets.{stored, written, told, redis-memory}
use cloudcause.RateLimit.Redis.Leases.{LeaseReach, leases_within_maximum}
use cloudcause.RateLimit.Redis.Leases
use cloudcause.RateLimit.Governor.{Limiter, QuotaSettings}
use cloudcause.RateLimit.Admission.{
  AdmissionGuard, Acquire, check, FailsClosed, Granted, check-FailsClosed, check-Granted,
}

abbrev lit : ℕ → Micro
lit n = dec n 0

-- two slots, for one caller: on its way, with a slot, and counted
abbrev two_slots : Semaphore
two_slots = record { free = 2; waiting = 0 }

abbrev one_arriving : MemoryRateLimiter Micro
one_arriving = (enter_permit "gemini" 2 (lit 30) (empty Micro)).0

abbrev one_uncounted : MemoryRateLimiter Micro
one_uncounted = (take_slot "gemini" two_slots one_arriving).0

abbrev one_holder : MemoryRateLimiter Micro
one_holder = count_holder "gemini" one_uncounted

one_holder_active : get "gemini" one_holder.active ≡ some 1
unfolding enter_permit take_slot count_holder get put
one_holder_active = refl

-- an eviction while the caller's slot is not counted deletes the semaphore of that slot
eviction_takes_slot : (evict_inactive (lit 60) (lit 0) one_uncounted).0.semaphores ≡ []
unfolding enter_permit take_slot evict_inactive get put remove Memory.evict_semaphores
    Memory.evict_buckets Memory.evict_semaphore
eviction_takes_slot = refl

evict_inactive-held_example :
    let t = (evict_inactive (lit 60) (lit 90) one_holder).0 in
    (get "gemini" t.semaphores ≡ get "gemini" one_holder.semaphores)
    × (get "gemini" t.maximums ≡ get "gemini" one_holder.maximums)
    × (get "gemini" t.active ≡ get "gemini" one_holder.active)
evict_inactive-held_example =
    evict_inactive-held (lit 60) (lit 90) "gemini" one_holder one_holder_active

no_bucket :
    (b : TokenBucket Micro) → get "c" (empty Micro).buckets ≡ some b → (dec 0 0 ≼ b.tokens) ≡ true
unfolding get
no_bucket b e = cc

acquire_tokens-Bounded_example :
    let before = refill (lit 5) (lit 1) (lit 7) (get "c" (empty Micro).buckets) in
    (r : TokenBucketResult Micro) × (b : TokenBucket Micro) × ((Memory.acquire_tokens "c"
        (lit 5)
        (lit 1)
        (lit 1)
        (lit 7)
        (empty Micro)).1
      ≡ ok r)
    × (get "c" (Memory.acquire_tokens "c" (lit 5) (lit 1) (lit 1) (lit 7) (empty Micro)).0.buckets
        ≡ some b)
    × Bounded (lit 5) b
    × (r.remaining ≡ b.tokens)
    × (r.allowed ≡ (lit 1 ≼ before.tokens))
    × (b.tokens ≡ (if lit 1 ≼ before.tokens then before.tokens ⊖ lit 1 else before.tokens))
acquire_tokens-Bounded_example =
    acquire_tokens-Bounded micro_laws (lit 5) (lit 1) (lit 1) (lit 7) refl refl refl "c"
      (empty Micro) no_bucket

-- the whole part of a number that is not negative
abbrev cut : Micro → Micro
cut x = round 0 x

redis-memory_example :
    let (s', answer) = Memory.acquire_tokens "c" (lit 5) (lit 1) (lit 1) (lit 7) (empty Micro) in
    Redis.acquire_tokens cut
      (lit 5)
      (lit 1)
      (lit 1)
      (lit 7)
      (stored (get "c" (empty Micro).buckets))
    ≡ (
      written micro_laws cut answer (stored (get "c" s'.buckets)),
      told micro_laws cut (lit 1) (lit 1) answer,
    )
redis-memory_example = redis-memory micro_laws cut "c" (lit 5) (lit 1) (lit 1) (lit 7) (empty Micro)

abbrev one_lease : Dict String Micro
one_lease = (acquire_lease (lit 0) 1 "a" (lit 120) []).0

leases_within_maximum_example : length one_lease ≤ 1
leases_within_maximum_example =
    leases_within_maximum (Leases.next Leases.start (Leases.acquire (lit 0) (lit 120) "a" []))

-- the in-process limiter at time 7, one client
abbrev acquire_now : Acquire Micro (MemoryRateLimiter Micro)
acquire_now key capacity rate cost = Memory.acquire_tokens key capacity rate cost (lit 7)

abbrev client_key : String → String
client_key peer = "admission:client:1"

abbrev guard : AdmissionGuard Micro
guard = record {
  enabled = true;
  client_capacity = lit 1;
  client_refill = lit 1;
  global_capacity = lit 9;
  global_refill = lit 1;
}

check-FailsClosed_example :
    FailsClosed (check acquire_now client_key guard "10.0.0.1" (empty Micro)).1
check-FailsClosed_example = check-FailsClosed acquire_now client_key guard "10.0.0.1" (empty Micro)

check_passes : (check acquire_now client_key guard "10.0.0.1" (empty Micro)).1 ≡ ok tt
unfolding check Memory.acquire_tokens get put
check_passes = refl

check-Granted_example :
    let client =
      acquire_now
        (client_key "10.0.0.1")
        guard.client_capacity
        guard.client_refill
        (dec 1 0)
        (empty Micro) in
    let global =
      acquire_now "admission:global" guard.global_capacity guard.global_refill (dec 1 0) client.0 in
    Granted client.1
    × Granted global.1
    × ((check acquire_now client_key guard "10.0.0.1" (empty Micro)).0 ≡ global.0)
check-Granted_example =
    check-Granted acquire_now client_key guard "10.0.0.1" (empty Micro) refl check_passes

-- the client's only token is spent
abbrev spent : MemoryRateLimiter Micro
spent = (check acquire_now client_key guard "10.0.0.1" (empty Micro)).0

abbrev refused : TokenBucketResult Micro
refused = record { allowed = false; remaining = lit 0; retry_after_seconds = lit 1 }

spent_refuses : (acquire_now (client_key "10.0.0.1") (lit 1) (lit 1) (dec 1 0) spent).1 ≡ ok refused
unfolding check Memory.acquire_tokens get put
spent_refuses = refl

-- a clock that jumps over the deadline
abbrev clock : ℕ → Micro
clock zero = dec 0 0
clock (suc n) = dec 60 0

-- A limiter that grants from the second request on; the deadline is over after one sleep.
abbrev slow_limiter : Limiter Micro (ℕ × ℕ)
slow_limiter = record {
  acquire_tokens = λ key capacity rate cost w. (
    (suc w.0, w.1),
    ok (record { allowed = ltb 0 w.0; remaining = dec 0 0; retry_after_seconds = dec 3 0 }),
  );
  enter = λ key maximum timeout w. (w, ok tt);
  exit = λ key w. w;
  sleep = λ delay w. (w.0, suc w.1);
  time = λ w. clock w.1;
}

abbrev quotas : QuotaSettings Micro
quotas = record {
  openai_max_concurrency = 2;
  openai_requests_per_minute = 20;
  gemini_max_concurrency = 1;
  gemini_requests_per_minute = 8;
  gemini_summary_max_concurrency = 1;
  gemini_summary_requests_per_minute = 4;
  max_agent_seconds = dec 60 0;
}

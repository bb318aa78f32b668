-- ===== src/RateLimit/Redis.antt =====
-- packages/rate_limit/src/cloudcause_rate_limit/redis_backend.py: the Lua scripts that keep token
-- buckets and concurrency leases in Redis, one atomic step each. A sorted set of leases is the
-- dictionary from lease ids to scores; key expiry (EXPIRE) is not modelled.
-- `tostring` is the number that is read back of a number that Lua has written as a text: Lua 5.1 writes
-- fourteen significant digits.
pub mod Leases
pub mod Buckets
use cloudcause.Prelude.{
  ℕ, String, Bool, true, false, Option, none, some, List, [], ◌∷◌, length, ltb, string_eq,
  if◌then◌else◌,
}
use cloudcause.Prelude.Dict.{Dict, get, put, remove}
use cloudcause.Prelude.Floats.{FloatOps, dec, ◌⊕◌, ◌⊖◌, ◌⊗◌, ◌⊘◌, ◌≼◌, ◌≺◌, min_f}
use cloudcause.RateLimit.Protocol.{TokenBucketResult, Outcome, ok, err, value_error}

module _ (Num : Type 0) where
  -- The hash fields `tokens` and `last_refill`.
  pub record StoredBucket : Type 0 where
    pub tokens : Num
    pub last_refill : Num

module _ {Num : Type 0} ⦃F : FloatOps Num⦄ where
  -- The refill of _TOKEN_BUCKET_SCRIPT, a missing hash being a full bucket.
  unfoldable pub script_refill : Num → Num → Num → Option (StoredBucket Num) → Num
  script_refill capacity rate now none =
      let elapsed = if now ⊖ now ≺ dec 0 0 then dec 0 0 else now ⊖ now in
      min_f capacity (capacity ⊕ elapsed ⊗ rate)
  script_refill capacity rate now (some b) =
      let elapsed = if now ⊖ b.last_refill ≺ dec 0 0 then dec 0 0 else now ⊖ b.last_refill in
      min_f capacity (b.tokens ⊕ elapsed ⊗ rate)

module _ {Num : Type 0} ⦃F : FloatOps Num⦄ (tostring : Num → Num) where
  -- _TOKEN_BUCKET_SCRIPT: the stored hash, and the reply {allowed, tokens}.
  unfoldable pub token_bucket_script :
      Num → Num → Num → Num → Option (StoredBucket Num) → StoredBucket Num × Bool × Num
  unfolding script_refill
  token_bucket_script capacity rate cost now stored =
      let tokens = script_refill capacity rate now stored in
      if cost ≼ tokens
      then (
        record { tokens = tostring (tokens ⊖ cost); last_refill = tostring now },
        true,
        tostring (tokens ⊖ cost),
      )
      else (record { tokens = tostring tokens; last_refill = tostring now }, false, tostring tokens)

  -- `RedisRateLimiter.acquire_tokens`, over the hash of its key.
  unfoldable pub acquire_tokens :
      Num
      → Num
      → Num
      → Num
      → Option (StoredBucket Num)
      → Option (StoredBucket Num) × Outcome Num (TokenBucketResult Num)
  unfolding token_bucket_script
  acquire_tokens capacity rate cost now stored =
      if capacity ≼ dec 0 0
      then (stored, err value_error)
      else if rate ≼ dec 0 0
      then (stored, err value_error)
      else let (b, allowed, remaining) = token_bucket_script capacity rate cost now stored in
        (
          some b,
          ok (record {
            allowed = allowed;
            remaining = remaining;
            retry_after_seconds = if allowed then dec 0 0 else (cost ⊖ remaining) ⊘ rate;
          }),
        )

module _ {Num : Type 0} ⦃F : FloatOps Num⦄ where
  -- ZREMRANGEBYSCORE key -inf now
  unfoldable pub sweep : Num → Dict String Num → Dict String Num
  sweep now [] = []
  sweep now ((id, score) ∷ rest) =
      let kept = sweep now rest in if score ≼ now then kept else (id, score) ∷ kept

  -- _ACQUIRE_LEASE_SCRIPT
  unfoldable pub acquire_lease : Num → ℕ → String → Num → Dict String Num → Dict String Num × Bool
  acquire_lease now maximum id ttl leases =
      let live = sweep now leases in
      if ltb (length live) maximum then (put id (now ⊕ ttl) live, true) else (live, false)

  -- _RENEW_LEASE_SCRIPT
  unfoldable pub renew_lease : Num → String → Num → Dict String Num → Dict String Num × Bool
  renew_lease now id ttl leases = elim (get id leases) [
    | none ↦ (leases, false)
    | some _ ↦ (put id (now ⊕ ttl) leases, true)
  ]

  -- _RELEASE_LEASE_SCRIPT
  unfoldable pub release_lease : String → Dict String Num → Dict String Num
  release_lease id leases = remove id leases

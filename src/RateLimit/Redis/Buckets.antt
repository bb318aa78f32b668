-- ===== src/RateLimit/Redis/Buckets.antt =====
-- redis_backend.py and memory.py keep the same token buckets.
use cloudcause.Prelude.{
  ◌≡◌, refl, String, Option, none, some, arith, string_eq, if◌then◌else◌, Bool-cases, inl, inr,
}
use cloudcause.Prelude.Dict.{get, get-put_self}
use cloudcause.Prelude.Floats.{FloatOps, FloatLaws, dec, ◌⊖◌, ◌⊘◌, ◌≼◌}
use cloudcause.RateLimit.Protocol.{TokenBucketResult, Outcome, ok, err}
use cloudcause.RateLimit.Memory
use cloudcause.RateLimit.Memory.{TokenBucket, MemoryRateLimiter, refill, spend}
use cloudcause.RateLimit.Redis
use cloudcause.RateLimit.Redis.{StoredBucket, script_refill, token_bucket_script}

module _ {Num : Type 0} where
  -- What Redis stores of an in-process bucket.
  abbrev pub stored : Option (TokenBucket Num) → Option (StoredBucket Num)
  stored none = none
  stored (some b) = some (record { tokens = b.tokens; last_refill = b.last_refill })

module _ {Num : Type 0} ⦃F : FloatOps Num⦄ (L : FloatLaws Num) where
  script_refill-refill :
      (capacity rate now : Num) (o : Option (TokenBucket Num))
      → script_refill capacity rate now (stored o) ≡ (refill capacity rate now o).tokens
  unfolding script_refill refill
  script_refill-refill capacity rate now none = simp (L.sub_self, L.refl_f, L.zero_mul, L.add_zero)
  script_refill-refill capacity rate now (some b) = ground (
    arith,
    L.antisym_f (now ⊖ b.last_refill) (dec 0 0),
    L.total_f (dec 0 0) (now ⊖ b.last_refill),
  )

  last_refill-refill :
      (capacity rate now : Num) (o : Option (TokenBucket Num))
      → (refill capacity rate now o).last_refill ≡ now
  unfolding refill
  last_refill-refill capacity rate now none = refl
  last_refill-refill capacity rate now (some b) = refl

  module _ (tostring : Num → Num) where
    -- what the Redis backend tells of an answer of the in-process backend
    abbrev pub told :
        Num → Num → Outcome Num (TokenBucketResult Num) → Outcome Num (TokenBucketResult Num)
    told rate cost (ok r) = ok (record {
      allowed = r.allowed;
      remaining = tostring r.remaining;
      retry_after_seconds = if r.allowed then dec 0 0 else (cost ⊖ tostring r.remaining) ⊘ rate;
    })
    told rate cost (err e) = err e

    -- what it stores of the bucket that the in-process backend has after this answer
    abbrev pub written :
        Outcome Num (TokenBucketResult Num) → Option (StoredBucket Num) → Option (StoredBucket Num)
    written (ok r) (some b) =
        some (record { tokens = tostring b.tokens; last_refill = tostring b.last_refill })
    written (ok r) none = none
    written (err e) o = o

    -- The Redis backend and the in-process backend decide alike: from the same bucket at the same time,
    -- `acquire_tokens` raises the same error or grants and refuses the same requests. The tokens and the
    -- time that Redis stores, and the remainder that its answer tells and reckons the delay from, are
    -- those of the in-process backend as Lua's `tostring` writes them; an error changes nothing.
    pub redis-memory :
        (key : String) (capacity rate cost now : Num) (s : MemoryRateLimiter Num)
        → let (s', answer) = Memory.acquire_tokens key capacity rate cost now s in
          (Redis.acquire_tokens tostring capacity rate cost now (stored (get key s.buckets)))
          ≡ (written answer (stored (get key s'.buckets)), told rate cost answer)
    unfolding Redis.acquire_tokens Memory.acquire_tokens token_bucket_script
    redis-memory key capacity rate cost now s = elim (Bool-cases (capacity ≼ dec 0 0)) [
      | inl no_capacity ↦ rw no_capacity
      | inr capacity_pos ↦ rw capacity_pos (elim (Bool-cases (rate ≼ dec 0 0)) [
        | inl no_rate ↦ rw no_rate
        | inr rate_pos ↦
            rw rate_pos
              (elim (Bool-cases (cost ≼ (refill capacity rate now (get key s.buckets)).tokens)) [
                | inl covered ↦
                    simp (get-put_self, script_refill-refill, last_refill-refill, covered)
                | inr short ↦ simp (get-put_self, script_refill-refill, last_refill-refill, short)
              ])
      ])
    ]

-- ===== src/RateLimit/Memory/Tokens.antt =====
-- memory.py: the token buckets of `MemoryRateLimiter`.
use text.Mathlib.TextEquality.{eq_iff}
use cloudcause.Prelude.{
  ◌≡◌, refl, String, true, false, Option, none, some, arith, string_eq, if◌then◌else◌,
}
use cloudcause.Prelude.Dict.{get, dict_laws}
use cloudcause.Prelude.Floats.{FloatOps, FloatLaws, dec, ◌⊕◌, ◌⊖◌, ◌⊗◌, ◌≼◌, max_f}
use cloudcause.Prelude.Bounds.{min_f-le_left, le-min_f, le-max_f_left}
use cloudcause.RateLimit.Protocol.{TokenBucketResult, ok}
use cloudcause.RateLimit.Memory.{TokenBucket, MemoryRateLimiter, refill, spend, acquire_tokens}

module _ {Num : Type 0} ⦃F : FloatOps Num⦄ where
  -- A bucket holds no debt and no more than its capacity.
  abbrev pub Bounded : Num → TokenBucket Num → Type 0
  Bounded capacity b = ((dec 0 0 ≼ b.tokens) ≡ true) × ((b.tokens ≼ capacity) ≡ true)

  module _ (L : FloatLaws Num) (capacity rate cost now : Num)
      (cap_pos : (capacity ≼ dec 0 0) ≡ false) (rate_pos : (rate ≼ dec 0 0) ≡ false)
      (cost_nonneg : (dec 0 0 ≼ cost) ≡ true) where
    refill-Bounded :
        (o : Option (TokenBucket Num))
        → ((b : TokenBucket Num) → o ≡ some b → (dec 0 0 ≼ b.tokens) ≡ true)
        → Bounded capacity (refill capacity rate now o)
    unfolding refill
    refill-Bounded none h = ground (arith, L.total_f capacity (dec 0 0), L.refl_f capacity)
    refill-Bounded (some b) h =
        let elapsed : Num = max_f (dec 0 0) (now ⊖ b.last_refill) in
        let grown : Num = b.tokens ⊕ elapsed ⊗ rate in
        (
          le-min_f L (dec 0 0) capacity grown (L.total_f capacity (dec 0 0) cap_pos) (
              L.add_nonneg b.tokens (elapsed ⊗ rate) (h b refl) (
                L.mul_nonneg elapsed rate (le-max_f_left L (dec 0 0) (now ⊖ b.last_refill))
                  (L.total_f rate (dec 0 0) rate_pos))),
          min_f-le_left L capacity grown,
        )

    spend-Bounded :
        (b : TokenBucket Num) → Bounded capacity b → Bounded capacity (spend rate cost b).0
    unfolding spend
    spend-Bounded b h = ground (
      arith,
      L.sub_nonneg b.tokens cost,
      L.sub_le b.tokens cost,
      L.trans_f (b.tokens ⊖ cost) b.tokens capacity,
    )

    -- With a positive capacity and rate and a cost of zero or more, `acquire_tokens` never raises.
    -- From a bucket without debt, or none, it leaves a bucket that holds no debt and at most its
    -- capacity, and whose tokens are the reported remainder. The request is allowed exactly when the
    -- refilled bucket covers the cost, and then the cost is taken; otherwise nothing is taken.
    pub acquire_tokens-Bounded :
        (key : String) (s : MemoryRateLimiter Num)
        → ((b : TokenBucket Num) → get key s.buckets ≡ some b → (dec 0 0 ≼ b.tokens) ≡ true)
        → let before = refill capacity rate now (get key s.buckets) in
          (r : TokenBucketResult Num) × (b : TokenBucket Num) × ((acquire_tokens key capacity rate
              cost now s).1
            ≡ ok r)
          × (get key (acquire_tokens key capacity rate cost now s).0.buckets ≡ some b)
          × Bounded capacity b
          × (r.remaining ≡ b.tokens)
          × (r.allowed ≡ (cost ≼ before.tokens))
          × (b.tokens ≡ (if cost ≼ before.tokens then before.tokens ⊖ cost else before.tokens))
    unfolding acquire_tokens
    acquire_tokens-Bounded key s h =
        let before : TokenBucket Num = refill capacity rate now (get key s.buckets) in
        (
          (spend rate cost before).1,
          (spend rate cost before).0,
          rw (cap_pos, rate_pos),
          rw (cap_pos, rate_pos) (simp dict_laws (ground (arith, eq_iff key key))),
          spend-Bounded before (refill-Bounded (get key s.buckets) h),
          ground arith,
          ground arith,
          ground arith,
        )

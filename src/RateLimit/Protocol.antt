-- ===== src/RateLimit/Protocol.antt =====
-- packages/rate_limit/src/cloudcause_rate_limit/{protocol,errors}.py: the outcome of a token
-- acquisition, the one error of every rate-limit boundary, and `fail_closed`.
use cloudcause.Prelude.{String, Bool, true}
use cloudcause.Prelude.Floats.{FloatOps, dec, max_f}

module _ (Num : Type 0) where
  pub record TokenBucketResult : Type 0 where
    pub allowed : Bool
    pub remaining : Num
    pub retry_after_seconds : Num

  pub record RateLimitExceeded : Type 0 where
    pub scope : String
    pub retry_after_seconds : Num
    pub retryable : Bool

  -- What an awaited call can raise: the structured error, a ValueError, or any other exception.
  pub data Raised : Type 0 where
    exceeded : RateLimitExceeded → Raised
    value_error : Raised
    other : Raised

  pub data Outcome (A : Type 0) : Type 0 where
    ok : A → Outcome A
    err : Raised → Outcome A

module _ {Num : Type 0} where
  infixl 5 ◌>>=◌
  abbrev pub ◌>>=◌ : {A B : Type 0} → Outcome Num A → (A → Outcome Num B) → Outcome Num B
  ok a >>= f = f a
  err e >>= f = err e

module _ {Num : Type 0} ⦃F : FloatOps Num⦄ where
  -- `RateLimitExceeded.__init__`: a negative delay is clipped. The text of `detail` is not modelled.
  unfoldable pub rate_limit_exceeded : String → Num → RateLimitExceeded Num
  rate_limit_exceeded scope retry_after = record {
    scope = scope;
    retry_after_seconds = max_f (dec 0 0) retry_after;
    retryable = true;
  }

  -- `fail_closed`: the structured error passes, every other exception becomes one.
  unfoldable pub fail_closed : {A : Type 0} → String → Num → Outcome Num A → Outcome Num A
  unfolding rate_limit_exceeded
  fail_closed scope retry_after (ok a) = ok a
  fail_closed scope retry_after (err (exceeded e)) = err (exceeded e)
  fail_closed scope retry_after (err value_error) =
      err (exceeded (rate_limit_exceeded scope retry_after))
  fail_closed scope retry_after (err other) = err (exceeded (rate_limit_exceeded scope retry_after))

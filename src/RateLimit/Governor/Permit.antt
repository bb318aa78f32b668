-- ===== src/RateLimit/Governor/Permit.antt =====
-- governor.py: the wait for the rate ends, and a model call has a token and a slot.
use cloudcause.Prelude.{
  ℕ, zero, suc, ◌<◌, ◌≤◌, ◌≡◌, refl, ◌⊎◌, inl, inr, String, true, false, Option, some, Bool-cases,
  arith, string_eq,
}
use cloudcause.Prelude.Floats.{FloatOps, FloatLaws, dec, ◌⊖◌, ◌⊘◌, ◌≼◌, min_f, max_f}
use cloudcause.Prelude.Text.{◌+++◌}
use cloudcause.RateLimit.Protocol.{
  TokenBucketResult, RateLimitExceeded, rate_limit_exceeded, exceeded, value_error, other, Outcome,
  ok, err, fail_closed,
}
use cloudcause.RateLimit.Admission.{Granted}
use cloudcause.RateLimit.Governor.{Limiter, request_token, after_request, rate_loop}

module _ {Num World : Type 0} ⦃F : FloatOps Num⦄ (limiter : Limiter Num World) where
  -- The rounds that the clock leaves before a deadline: a request gives none back, and a sleep of ten
  -- milliseconds or of all the time that remains takes one.
  pub record Advances (rounds : World → ℕ) (deadline : Num) : Type 0 where
    pub request_rounds :
        (key : String) (capacity rate cost : Num) (w : World)
        → rounds (limiter.acquire_tokens key capacity rate cost w).0 ≤ rounds w
    pub sleep_rounds :
        (delay : Num) (w : World)
        → (deadline ⊖ limiter.time w ≼ dec 0 0) ≡ false
        → (min_f (dec 1 2) (deadline ⊖ limiter.time w) ≼ delay) ≡ true
        → rounds (limiter.sleep delay w) < rounds w

  -- How the wait for a token ends: with a request that was granted, or with the structured error.
  abbrev pub RateEnd : String → ℕ → World × Outcome Num (Unit {0}) → Type 0
  RateEnd rate_key requests_per_minute (w, o) =
      ((v : World) × Granted (request_token limiter rate_key requests_per_minute v).1
        × (w ≡ (request_token limiter rate_key requests_per_minute v).0)
        × (o ≡ ok tt))
      ⊎ ((e : RateLimitExceeded Num) × (o ≡ err (exceeded e)))

  abbrev pub Ends : String → ℕ → Option (World × Outcome Num (Unit {0})) → Type 0
  Ends rate_key requests_per_minute o =
      (end : World × Outcome Num (Unit {0})) × (o ≡ some end)
      × RateEnd rate_key requests_per_minute end

  module _ (L : FloatLaws Num) {rounds : World → ℕ} {deadline : Num}
      (A : Advances rounds deadline) where
    long_enough :
        (delay remaining : Num)
        → (min_f (dec 1 2) remaining ≼ min_f (max_f delay (dec 1 2)) remaining) ≡ true
    long_enough delay remaining = ground (
      arith,
      L.refl_f remaining,
      L.refl_f (dec 1 2),
      L.total_f (dec 1 2) delay,
      L.total_f (dec 1 2) remaining,
      L.total_f remaining (dec 1 2),
      L.total_f delay remaining,
      L.total_f remaining delay,
      L.trans_f (dec 1 2) remaining delay,
      L.trans_f remaining (dec 1 2) delay,
      L.trans_f (dec 1 2) delay remaining,
    )

    after_request-Ends :
        (scope rate_key : String) (requests_per_minute : ℕ)
        (again : World → Option (World × Outcome Num (Unit {0}))) (v : World)
        (o : Outcome Num (TokenBucketResult Num))
        → (request_token limiter rate_key requests_per_minute v).1 ≡ o
        → let w = (request_token limiter rate_key requests_per_minute v).0 in
          ((u : World) → rounds u < rounds w → Ends rate_key requests_per_minute (again u))
          → Ends rate_key requests_per_minute
              (after_request limiter deadline rate_key again (w, fail_closed scope (dec 5 0) o))
    unfolding after_request fail_closed
    after_request-Ends scope rate_key n again v (err (exceeded e)) h more =
        ((_, err (exceeded e)), refl, inr (e, refl))
    after_request-Ends scope rate_key n again v (err value_error) h more =
        ((_, _), refl, inr (rate_limit_exceeded scope (dec 5 0), refl))
    after_request-Ends scope rate_key n again v (err other) h more =
        ((_, _), refl, inr (rate_limit_exceeded scope (dec 5 0), refl))
    after_request-Ends scope rate_key n again v (ok result) h more =
        let w = (request_token limiter rate_key n v).0 in
        let remaining = deadline ⊖ limiter.time w in
        elim (Bool-cases result.allowed) [
          | inl yes_a ↦ ((w, ok tt), rw yes_a, inl (v, (result, h, yes_a), refl, refl))
          | inr no_a ↦ elim (Bool-cases (remaining ≼ dec 0 0)) [
            | inl over ↦ (
              (w, err (exceeded (rate_limit_exceeded rate_key result.retry_after_seconds))),
              rw (no_a, over),
              inr (rate_limit_exceeded rate_key result.retry_after_seconds, refl),
            )
            | inr left ↦
                let (end, e, r) =
                  more _
                    (A.sleep_rounds _ w left (long_enough result.retry_after_seconds remaining)) in
                (end, rw (no_a, left, e), r)
          ]
        ]

    pub rate_loop-Ends :
        (fuel : ℕ) (rate_key : String) (requests_per_minute : ℕ) (w : World)
        → rounds w < fuel
        → Ends rate_key requests_per_minute
            (rate_loop limiter fuel deadline rate_key requests_per_minute w)
    unfolding rate_loop request_token
    rate_loop-Ends zero rate_key n w h = absurd (omega arith)
    rate_loop-Ends (suc fuel) rate_key n w h =
        after_request-Ends (rate_key +++ ":unavailable") rate_key n
          (rate_loop limiter fuel deadline rate_key n) w _ refl
          (λ u fewer. rate_loop-Ends fuel rate_key n u (
            let kept = A.request_rounds rate_key (dec n 0) (dec n 0 ⊘ dec 60 0) (dec 1 0) w in
            omega arith))

  module _ {Value : Type 0} (call : World → World × Value) where
    -- How a permit ends: the call was made, with a token and then a slot that is given back afterwards,
    -- or it was not, and there is a structured error.
    abbrev pub Governed : Num → String → ℕ → ℕ → World × Outcome Num Value → Type 0
    Governed timeout key maximum requests_per_minute (w, o) =
        ((v : World) × Granted (request_token limiter (key +++ ":rpm") requests_per_minute v).1
          × let before = (request_token limiter (key +++ ":rpm") requests_per_minute v).0 in
            let entered = limiter.enter key maximum timeout before in
            (entered.1 ≡ ok tt)
            × (w ≡ limiter.exit key (call entered.0).0)
            × (o ≡ ok (call entered.0).1))
        ⊎ ((e : RateLimitExceeded Num) × (o ≡ err (exceeded e)))

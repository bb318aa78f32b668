-- ===== src/RateLimit/Admission.antt =====
-- packages/rate_limit/src/cloudcause_rate_limit/admission.py: the two buckets of gateway admission,
-- over any limiter. `hash_client_key` (an HMAC) is a parameter, and so is `admission:global`.
use cloudcause.Prelude.{
  ℕ, ◌+◌, ◌≡◌, refl, ◌⊎◌, inl, inr, String, Bool, true, if◌then◌else◌, Bool-cases,
}
use cloudcause.Prelude.Floats.{FloatOps, dec, ◌⊘◌}
use cloudcause.RateLimit.Protocol.{
  TokenBucketResult, RateLimitExceeded, rate_limit_exceeded, Raised, exceeded, value_error, other,
  Outcome, ok, err, fail_closed,
}

-- `RateLimiter.acquire_tokens` of protocol.py, with the capacity, the refill rate and the cost.
abbrev pub Acquire : Type 0 → Type 0 → Type 0
Acquire Num S = String → Num → Num → Num → S → S × Outcome Num (TokenBucketResult Num)

module _ (Num : Type 0) where
  pub record AdmissionGuard : Type 0 where
    pub enabled : Bool
    pub client_capacity : Num
    pub client_refill : Num
    pub global_capacity : Num
    pub global_refill : Num

module _ {Num : Type 0} ⦃F : FloatOps Num⦄ where
  -- `AdmissionGuard.__init__`
  unfoldable pub admission_guard : Bool → ℕ → ℕ → ℕ → AdmissionGuard Num
  admission_guard enabled client_per_hour client_burst global_per_minute = record {
    enabled = enabled;
    client_capacity = dec (client_per_hour + client_burst) 0;
    client_refill = dec client_per_hour 0 ⊘ dec 3600 0;
    global_capacity = dec global_per_minute 0;
    global_refill = dec global_per_minute 0 ⊘ dec 60 0;
  }

  -- What `check` makes of one awaited answer: the call runs under `fail_closed`.
  unfoldable pub admit : String → Outcome Num (TokenBucketResult Num) → Outcome Num (Unit {0})
  unfolding fail_closed rate_limit_exceeded
  admit scope r = elim (fail_closed "rate_limiter_unavailable" (dec 5 0) r) [
    | err e ↦ err e
    | ok result ↦
        if result.allowed
        then ok tt
        else err (exceeded (rate_limit_exceeded scope result.retry_after_seconds))
  ]

  -- The outcome says that the bucket granted a token.
  abbrev pub Granted : Outcome Num (TokenBucketResult Num) → Type 0
  Granted o = (r : TokenBucketResult Num) × (o ≡ ok r) × (r.allowed ≡ true)

  -- The outcome is a plain return or the structured error.
  abbrev pub FailsClosed : Outcome Num (Unit {0}) → Type 0
  FailsClosed o = (o ≡ ok tt) ⊎ ((e : RateLimitExceeded Num) × (o ≡ err (exceeded e)))

  admit-ok :
      (scope : String) (o : Outcome Num (TokenBucketResult Num)) → admit scope o ≡ ok tt → Granted o
  unfolding admit
  admit-ok scope (ok r) h = elim (Bool-cases r.allowed) [
    | inl yes_r ↦ (r, refl, yes_r)
    | inr no_r ↦ let e = rw (no_r, admit) at h in cc e
  ]
  admit-ok scope (err (exceeded e)) h = cc
  admit-ok scope (err value_error) h = cc
  admit-ok scope (err other) h = cc

  admit-FailsClosed :
      (scope : String) (o : Outcome Num (TokenBucketResult Num)) → FailsClosed (admit scope o)
  unfolding admit
  admit-FailsClosed scope (ok r) = elim (Bool-cases r.allowed) [
    | inl yes_r ↦ inl (rw yes_r)
    | inr no_r ↦ inr (rate_limit_exceeded scope r.retry_after_seconds, rw no_r)
  ]
  admit-FailsClosed scope (err (exceeded e)) = inr (e, refl)
  admit-FailsClosed scope (err value_error) =
      inr (rate_limit_exceeded "rate_limiter_unavailable" (dec 5 0), refl)
  admit-FailsClosed scope (err other) =
      inr (rate_limit_exceeded "rate_limiter_unavailable" (dec 5 0), refl)

  module _ {S : Type 0} (acquire : Acquire Num S) (hash_client_key : String → String) where
    -- The second bucket, reached when the first call did not raise.
    unfoldable pub check_global :
        AdmissionGuard Num → S × Outcome Num (Unit {0}) → S × Outcome Num (Unit {0})
    check_global guard (s, err e) = (s, err e)
    check_global guard (s, ok _) =
        let (s', r) =
          acquire "admission:global" guard.global_capacity guard.global_refill (dec 1 0) s in
        (s', admit "global_live_investigation" r)

    -- `AdmissionGuard.check`
    unfoldable pub check : AdmissionGuard Num → String → S → S × Outcome Num (Unit {0})
    unfolding check_global admit
    check guard peer_ip s =
        if guard.enabled
        then (let (s1, r1) =
              acquire (hash_client_key peer_ip) guard.client_capacity guard.client_refill (dec 1 0)
                s in
            check_global guard (s1, admit "client_live_investigation" r1))
        else (s, ok tt)

    check_global-FailsClosed :
        (guard : AdmissionGuard Num) (s : S) (o : Outcome Num (Unit {0}))
        → FailsClosed o
        → FailsClosed (check_global guard (s, o)).1
    unfolding check_global
    check_global-FailsClosed guard s (ok tt) h = admit-FailsClosed "global_live_investigation" _
    check_global-FailsClosed guard s (err e) h = h

    -- Whatever the limiter answers or raises, a check returns or raises the structured error, never
    -- another exception.
    pub check-FailsClosed :
        (guard : AdmissionGuard Num) (peer_ip : String) (s : S)
        → FailsClosed (check guard peer_ip s).1
    unfolding check
    check-FailsClosed guard peer_ip s = elim (Bool-cases guard.enabled) [
      | inl on ↦
          rw on
            (check_global-FailsClosed guard _ _ (admit-FailsClosed "client_live_investigation" _))
      | inr off ↦ rw off (inl refl)
    ]

    module _ (guard : AdmissionGuard Num) (peer_ip : String) (s : S) where
      abbrev pub client : S × Outcome Num (TokenBucketResult Num)
      client =
          acquire (hash_client_key peer_ip) guard.client_capacity guard.client_refill (dec 1 0) s

      abbrev pub global : S × Outcome Num (TokenBucketResult Num)
      global =
          acquire "admission:global" guard.global_capacity guard.global_refill (dec 1 0) client.0

      both :
          (o : Outcome Num (Unit {0}))
          → (check_global guard (client.0, o)).1 ≡ ok tt
          → (o ≡ ok tt) × Granted global.1 × ((check_global guard (client.0, o)).0 ≡ global.0)
      unfolding check_global
      both (ok tt) h = (refl, admit-ok "global_live_investigation" global.1 h, refl)
      both (err e) h = cc

      -- An enabled guard lets a request through only if the client's bucket and then the
      -- deployment's bucket each granted a token, in this order; both were then spent, and nothing
      -- else happened to the limiter.
      pub check-Granted :
          guard.enabled ≡ true
          → (check guard peer_ip s).1 ≡ ok tt
          → Granted client.1 × Granted global.1 × ((check guard peer_ip s).0 ≡ global.0)
      unfolding check
      check-Granted on h =
          let (e, g, st) =
            both (admit "client_live_investigation" client.1) (rw (on, check) at h) in
          (admit-ok "client_live_investigation" client.1 e, g, rw on st)

      denied :
          (o : Outcome Num (Unit {0})) (e : Raised Num)
          → o ≡ err e
          → check_global guard (client.0, o) ≡ (client.0, err e)
      unfolding check_global
      denied o e h = rw h

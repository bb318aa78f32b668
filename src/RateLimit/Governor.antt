-- ===== src/RateLimit/Governor.antt =====
-- packages/rate_limit/src/cloudcause_rate_limit/governor.py: `AIRequestGovernor`, around one model call.
-- The limiter and the event loop are an interface on the world that they change; the model call is a
-- function of that world whose value says what it returned or raised.
pub mod Permit
use cloudcause.Prelude.{
  ℕ, zero, suc, String, Bool, Option, none, some, List, [], ◌∷◌, ◌&&◌, string_eq, if◌then◌else◌,
}
use cloudcause.Prelude.Dict.{Dict, get}
use cloudcause.Prelude.Floats.{FloatOps, dec, ◌⊕◌, ◌⊖◌, ◌⊘◌, ◌≼◌, min_f, max_f}
use cloudcause.Prelude.Text.{◌+++◌}
use cloudcause.RateLimit.Protocol.{
  TokenBucketResult, rate_limit_exceeded, exceeded, Outcome, ok, err, fail_closed,
}
use cloudcause.RateLimit.Admission.{Acquire}

module _ (Num World : Type 0) where
  -- `RateLimiter` of protocol.py, and the clock and the sleep of the event loop
  pub record Limiter : Type 0 where
    pub acquire_tokens : Acquire Num World
    -- `__aenter__` and `__aexit__` of `concurrency_permit`, with the maximum and the timeout
    pub enter : String → ℕ → Num → World → World × Outcome Num (Unit {0})
    pub exit : String → World → World
    pub sleep : Num → World → World
    pub time : World → Num

-- The settings that the governor reads
pub record QuotaSettings (Num : Type 0) : Type 0 where
  pub openai_max_concurrency : ℕ
  pub openai_requests_per_minute : ℕ
  pub gemini_max_concurrency : ℕ
  pub gemini_requests_per_minute : ℕ
  pub gemini_summary_max_concurrency : ℕ
  pub gemini_summary_requests_per_minute : ℕ
  pub max_agent_seconds : Num

-- `_FAMILY_LIMITS`, with the values of the settings that it names
unfoldable pub family_limits : {Num : Type 0} → QuotaSettings Num → Dict String (ℕ × ℕ)
family_limits s =
    ("openai", (s.openai_max_concurrency, s.openai_requests_per_minute))
    ∷ ("gemini", (s.gemini_max_concurrency, s.gemini_requests_per_minute))
    ∷ ("gemini-summary", (s.gemini_summary_max_concurrency, s.gemini_summary_requests_per_minute))
    ∷ []

-- `provider_model_key` of keys.py
unfoldable pub provider_model_key : String → String → String
provider_model_key provider model = provider +++ ":" +++ model

module _ {Num World : Type 0} ⦃F : FloatOps Num⦄ (limiter : Limiter Num World) where
  -- `permit_timeout_seconds or settings.max_agent_seconds`
  unfoldable pub permit_timeout : Option Num → QuotaSettings Num → Num
  permit_timeout none s = s.max_agent_seconds
  permit_timeout (some seconds) s =
      if (seconds ≼ dec 0 0) && (dec 0 0 ≼ seconds) then s.max_agent_seconds else seconds

  -- the request to the limiter in `_acquire_rate`
  unfoldable pub request_token : String → ℕ → World → World × Outcome Num (TokenBucketResult Num)
  request_token rate_key requests_per_minute w =
      limiter.acquire_tokens rate_key (dec requests_per_minute 0)
        (dec requests_per_minute 0 ⊘ dec 60 0) (dec 1 0) w

  -- the rest of the loop's body, with what goes round again after the sleep
  unfoldable pub after_request :
      Num
      → String
      → (World → Option (World × Outcome Num (Unit {0})))
      → World × Outcome Num (TokenBucketResult Num)
      → Option (World × Outcome Num (Unit {0}))
  unfolding rate_limit_exceeded
  after_request deadline rate_key again (w, err e) = some (w, err e)
  after_request deadline rate_key again (w, ok result) =
      let remaining = deadline ⊖ limiter.time w in
      let next =
        again (limiter.sleep (min_f (max_f result.retry_after_seconds (dec 1 2)) remaining) w) in
      if result.allowed
      then some (w, ok tt)
      else if remaining ≼ dec 0 0
      then some (w, err (exceeded (rate_limit_exceeded rate_key result.retry_after_seconds)))
      else next

  -- the loop of `_acquire_rate`; `none` is a run out of fuel
  unfoldable pub rate_loop : ℕ → Num → String → ℕ → World → Option (World × Outcome Num (Unit {0}))
  unfolding request_token after_request fail_closed
  rate_loop zero deadline rate_key requests_per_minute w = none
  rate_loop (suc fuel) deadline rate_key requests_per_minute w =
      let (w', r) = request_token rate_key requests_per_minute w in
      after_request deadline rate_key (rate_loop fuel deadline rate_key requests_per_minute)
        (w', fail_closed (rate_key +++ ":unavailable") (dec 5 0) r)

  -- `_acquire_rate`
  unfoldable pub acquire_rate :
      ℕ → Num → String → ℕ → World → Option (World × Outcome Num (Unit {0}))
  unfolding rate_loop
  acquire_rate fuel timeout key requests_per_minute w =
      rate_loop fuel (limiter.time w ⊕ timeout) (key +++ ":rpm") requests_per_minute w

  module _ {Value : Type 0} (call : World → World × Value) where
    -- the model call in its slot, which is given back however the call ends
    unfoldable pub call_in_slot :
        String → World × Outcome Num (Unit {0}) → World × Outcome Num Value
    call_in_slot key (w, err e) = (w, err e)
    call_in_slot key (w, ok entered) = let (w', value) = call w in (limiter.exit key w', ok value)

    -- `_acquire_concurrency` around the model call
    unfoldable pub with_slot : Num → String → ℕ → World → World × Outcome Num Value
    unfolding fail_closed call_in_slot
    with_slot timeout key maximum w =
        let (w', r) = limiter.enter key maximum timeout w in
        call_in_slot key (w', fail_closed (key +++ ":unavailable") (dec 5 0) r)

    unfoldable pub after_rate :
        Num
        → String
        → ℕ
        → Option (World × Outcome Num (Unit {0}))
        → Option (World × Outcome Num Value)
    unfolding with_slot
    after_rate timeout key maximum none = none
    after_rate timeout key maximum (some (w, err e)) = some (w, err e)
    after_rate timeout key maximum (some (w, ok granted)) = some (with_slot timeout key maximum w)

    -- `permit` within the limits of the family; the first `none` is the KeyError of an unknown one
    unfoldable pub permit_within :
        ℕ → Num → String → World → Option (ℕ × ℕ) → Option (Option (World × Outcome Num Value))
    unfolding acquire_rate after_rate
    permit_within fuel timeout key w none = none
    permit_within fuel timeout key w (some (maximum, requests_per_minute)) =
        some (after_rate timeout key maximum (acquire_rate fuel timeout key requests_per_minute w))

    -- `permit` around the model call
    unfoldable pub permit :
        ℕ
        → Option Num
        → QuotaSettings Num
        → String
        → String
        → World
        → Option (Option (World × Outcome Num Value))
    unfolding get family_limits provider_model_key permit_timeout permit_within
    permit fuel timeout settings family model w =
        permit_within fuel (permit_timeout timeout settings) (provider_model_key family model) w
          (get family (family_limits settings))

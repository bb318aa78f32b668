-- ===== src/Worker/Retry.antt =====
-- packages/rate_limit/src/cloudcause_rate_limit/retry.py: `run_with_retries`. The world that the awaited
-- calls change is a parameter, with the calls as functions on it.
use cloudcause.Prelude.{
  ℕ, zero, suc, ◌+◌, ◌-◌, ◌^◌, ◌≤◌, ◌≡◌, refl, ap, sym, subst, ◌∙◌, Bool, true, not, ◌||◌, Option,
  none, some, leb, arith, Bool-cases, inl, inr, if◌then◌else◌, if-holds,
}
use cloudcause.Prelude.Floats.{FloatOps, FloatLaws, dec, ◌⊕◌, ◌⊖◌, ◌⊗◌, ◌≼◌, min_f}

module _ (Num World Error Value : Type 0) where
  -- `RetryDecision`
  pub record RetryDecision : Type 0 where
    pub retryable : Bool
    pub delay_seconds : Option Num

  pub data Attempt : Type 0 where
    returned : Value → Attempt
    raised : Error → Attempt

  -- the callables that `run_with_retries` is given, the event loop and the random numbers
  pub record Calls : Type 0 where
    pub factory : World → World × Attempt
    pub classify : Error → RetryDecision
    pub on_retry : ℕ → Num → Error → World → World
    pub sleep : Num → World → World
    pub uniform : Num → World → World × Num
    pub time : World → Num

  -- The other arguments
  pub record Limits : Type 0 where
    pub attempts : ℕ
    pub base_seconds : Num
    pub max_seconds : Num
    pub deadline_seconds : Num

module _ {Num World Error Value : Type 0} ⦃F : FloatOps Num⦄ (calls : Calls Num World Error Value)
    (limits : Limits Num World Error Value) where
  -- the delay before the next attempt
  unfoldable pub next_delay : Option Num → ℕ → Num → World → World × Num
  next_delay (some delay) attempt remaining w =
      (w, min_f (min_f delay limits.max_seconds) remaining)
  next_delay none attempt remaining w =
      let (w', drawn) = calls.uniform (limits.base_seconds ⊗ dec (2 ^ (attempt - 1)) 0) w in
      (w', min_f (min_f drawn limits.max_seconds) remaining)

  -- `on_retry`, the sleep, and what is left of the deadline afterwards
  unfoldable pub wait : Num → ℕ → Error → World × Num → World
  wait deadline attempt error (w, delay) = calls.sleep delay (calls.on_retry attempt delay error w)

  -- the end of an attempt, with what tries again if an attempt is left
  unfoldable pub resume :
      Num
      → ℕ
      → Option (World → World × Attempt Num World Error Value)
      → World × Attempt Num World Error Value
      → World × Attempt Num World Error Value
  unfolding next_delay wait
  resume deadline attempt again (w, returned value) = (w, returned value)
  resume deadline attempt none (w, raised error) = (w, raised error)
  resume deadline attempt (some again) (w, raised error) =
      let decision = calls.classify error in
      let remaining = deadline ⊖ calls.time w in
      let w' =
        wait deadline attempt error (next_delay decision.delay_seconds attempt remaining w) in
      if not decision.retryable || (remaining ≼ dec 0 0)
      then (w, raised error)
      else if deadline ≼ calls.time w'
      then (w', raised error)
      else again w'

  -- the attempts from number `attempt` on, of which `left` follow the first
  unfoldable pub try_from : Num → ℕ → ℕ → World → World × Attempt Num World Error Value
  unfolding resume
  try_from deadline zero attempt w = resume deadline attempt none (calls.factory w)
  try_from deadline (suc left) attempt w =
      resume deadline attempt (some (try_from deadline left (suc attempt))) (calls.factory w)

  -- `run_with_retries`; `none` is the ValueError for a number of attempts below one
  unfoldable pub run_with_retries : World → Option (World × Attempt Num World Error Value)
  unfolding try_from
  run_with_retries w =
      if leb limits.attempts 0
      then none
      else some (try_from (calls.time w ⊕ limits.deadline_seconds) (limits.attempts - 1) 1 w)

  -- A count of the factory's calls and a property of the world, which every sleep of at most
  -- `max_seconds` keeps.
  pub record Tracks (count : World → ℕ) (Fine : World → Type 0) : Type 0 where
    pub factory_count : (w : World) → count (calls.factory w).0 ≡ suc (count w)
    pub factory_fine : (w : World) → Fine w → Fine (calls.factory w).0
    pub on_retry_count :
        (n : ℕ) (d : Num) (e : Error) (w : World) → count (calls.on_retry n d e w) ≡ count w
    pub on_retry_fine :
        (n : ℕ) (d : Num) (e : Error) (w : World) → Fine w → Fine (calls.on_retry n d e w)
    pub uniform_count : (x : Num) (w : World) → count (calls.uniform x w).0 ≡ count w
    pub uniform_fine : (x : Num) (w : World) → Fine w → Fine (calls.uniform x w).0
    pub sleep_count : (d : Num) (w : World) → count (calls.sleep d w) ≡ count w
    pub sleep_fine :
        (d : Num) (w : World) → (d ≼ limits.max_seconds) ≡ true → Fine w → Fine (calls.sleep d w)

  module _ (L : FloatLaws Num) {count : World → ℕ} {Fine : World → Type 0}
      (T : Tracks count Fine) where
    short :
        (x remaining : Num)
        → (min_f (min_f x limits.max_seconds) remaining ≼ limits.max_seconds) ≡ true
    short x remaining = ground (
      arith,
      L.refl_f limits.max_seconds,
      L.total_f limits.max_seconds x,
      L.total_f x limits.max_seconds,
      L.trans_f remaining x limits.max_seconds,
      L.total_f x remaining,
      L.total_f limits.max_seconds remaining,
      L.total_f remaining x,
      L.total_f remaining limits.max_seconds,
    )

    wait-lem :
        (deadline : Num) (attempt : ℕ) (error : Error) (o : Option Num) (remaining : Num)
        (w : World)
        → Fine w
        → let w' = wait deadline attempt error (next_delay o attempt remaining w) in
          (count w' ≡ count w) × Fine w'
    unfolding wait next_delay
    wait-lem deadline attempt error none remaining w f =
        let x = limits.base_seconds ⊗ dec (2 ^ (attempt - 1)) 0 in
        let (w1, drawn) = calls.uniform x w in
        let delay = min_f (min_f drawn limits.max_seconds) remaining in
        (
          T.sleep_count delay _ ∙ T.on_retry_count attempt delay error w1 ∙ T.uniform_count x w,
          T.sleep_fine delay _ (short drawn remaining)
              (T.on_retry_fine attempt delay error w1 (T.uniform_fine x w f)),
        )
    wait-lem deadline attempt error (some d) remaining w f =
        let delay = min_f (min_f d limits.max_seconds) remaining in
        (
          T.sleep_count delay _ ∙ T.on_retry_count attempt delay error w,
          T.sleep_fine delay _ (short d remaining) (T.on_retry_fine attempt delay error w f),
        )

    -- at most n more calls, and the property is kept
    abbrev Within : ℕ → World → World → Type 0
    Within n w w' = (count w' ≤ count w + n) × Fine w'

    resume-Within :
        (deadline : Num) (attempt n : ℕ) (again : World → World × Attempt Num World Error Value)
        → ((w : World) → Fine w → Within n w (again w).0)
        → (r : World × Attempt Num World Error Value) → Fine r.0
        → Within n r.0 (resume deadline attempt (some again) r).0
    unfolding resume
    resume-Within deadline attempt n again h (w, returned value) f = (omega arith, f)
    resume-Within deadline attempt n again h (w, raised error) f =
        let remaining = deadline ⊖ calls.time w in
        let w' =
          wait deadline attempt error
            (next_delay (calls.classify error).delay_seconds attempt remaining w) in
        let (same, fine) =
          wait-lem deadline attempt error (calls.classify error).delay_seconds remaining w f in
        let (few, fine') = h w' fine in
        if-holds (λ (r : World × Attempt Num World Error Value). Within n w r.0) _ (omega arith, f)
          (if-holds (λ (r : World × Attempt Num World Error Value). Within n w r.0) _
            (omega (arith, same), fine) (omega (arith, same, few), fine'))

    resume_last :
        (deadline : Num) (attempt : ℕ) (r : World × Attempt Num World Error Value)
        → (resume deadline attempt none r).0 ≡ r.0
    unfolding resume
    resume_last deadline attempt (w, returned value) = refl
    resume_last deadline attempt (w, raised error) = refl

    try_from-Within :
        (deadline : Num) (left attempt : ℕ) (w : World)
        → Fine w
        → Within (suc left) w (try_from deadline left attempt w).0
    unfolding try_from
    try_from-Within deadline zero attempt w f =
        let same = resume_last deadline attempt (calls.factory w) in
        (
          omega (arith, ap count same, T.factory_count w),
          subst Fine (sym same) (T.factory_fine w f),
        )
    try_from-Within deadline (suc left) attempt w f =
        let (few, fine) =
          resume-Within deadline attempt (suc left) (try_from deadline left (suc attempt))
            (λ v g. try_from-Within deadline left (suc attempt) v g) (calls.factory w)
            (T.factory_fine w f) in
        (omega (arith, few, T.factory_count w), fine)

    -- what a finished run satisfies
    abbrev pub Finished : World → Option (World × Attempt Num World Error Value) → Type 0
    Finished w none = limits.attempts ≡ 0
    Finished w (some r) = (count r.0 ≤ count w + limits.attempts) × Fine r.0

    -- With calls that `Tracks` describes, a run with at least one attempt ends, after at most as many calls of the factory as it has
    -- attempts, and every sleep on the way is at most the maximum delay: what such sleeps and the
    -- other calls keep holds at the end. Only a run without an attempt is refused.
    pub run_with_retries-Finished : (w : World) → Fine w → Finished w (run_with_retries w)
    unfolding run_with_retries
    run_with_retries-Finished w f =
        let (few, fine) =
          try_from-Within (calls.time w ⊕ limits.deadline_seconds) (limits.attempts - 1) 1 w f in
        elim (Bool-cases (leb limits.attempts 0)) [
          | inl no_attempt ↦ rw no_attempt (ground (arith, no_attempt))
          | inr an_attempt ↦ rw an_attempt (ground (arith, few, an_attempt), fine)
        ]

-- ===== src/RateLimit/Memory/Steps.antt =====
-- memory.py: every interleaving of callers, timeouts, releases and evictions, as a step relation.
-- Evictions are the exception: they come only while no caller is on its way, since one that comes
-- between a caller's look-up of the semaphore and its count deletes a semaphore that is in use.
use text.Mathlib.TextEquality.{eq_iff}
use cloudcause.Prelude.{
  ℕ, suc, ◌≡◌, refl, ap, ◌∙◌, String, some, List, [], ◌∷◌, arith, nat_eq, string_eq,
}
use cloudcause.Prelude.Dict.{Dict, get, get_or, keys, get-remove}
use cloudcause.Prelude.Floats.{FloatOps}
use cloudcause.RateLimit.Memory.{
  Semaphore, MemoryRateLimiter, acquire_tokens, enter_permit, take_slot, count_holder, time_out,
  exit_permit, evict_bucket, evict_buckets, evict_semaphore, evict_semaphores, evict_inactive,
  empty,
}
use cloudcause.RateLimit.Memory.Permits.{Quiet}

module _ {Num : Type 0} ⦃F : FloatOps Num⦄ where
  -- One atomic step: an operation between two awaits. A slot is given back by one of its holders.
  pub data Step : MemoryRateLimiter Num → MemoryRateLimiter Num → Type 0 where
    acquire :
        (key : String) (capacity rate cost now : Num) (s : MemoryRateLimiter Num)
        → Step s (acquire_tokens key capacity rate cost now s).0
    enter :
        (key : String) (maximum : ℕ) (timeout : Num) (s : MemoryRateLimiter Num)
        → Step s (enter_permit key maximum timeout s).0
    take :
        (key : String) (sem : Semaphore) (others : ℕ) (s : MemoryRateLimiter Num)
        → get_or key 0 s.arriving ≡ suc others
        → get key s.semaphores ≡ some sem
        → Step s (take_slot key sem s).0
    count :
        (key : String) (others : ℕ) (s : MemoryRateLimiter Num)
        → get_or key 0 s.uncounted ≡ suc others
        → Step s (count_holder key s)
    give_up : (key : String) (s : MemoryRateLimiter Num) → Step s (time_out key s)
    leave :
        (key : String) (holders : ℕ) (s : MemoryRateLimiter Num)
        → get key s.active ≡ some (suc holders)
        → Step s (exit_permit key s)
    evict :
        (older_than now : Num) (s : MemoryRateLimiter Num)
        → Quiet s
        → Step s (evict_inactive older_than now s).0

  pub data Reach : MemoryRateLimiter Num → Type 0 where
    start : Reach (empty Num)
    next : {s t : MemoryRateLimiter Num} → Reach s → Step s t → Reach t

  -- the entries that the concurrency permits of two states are in
  abbrev SamePermits : MemoryRateLimiter Num → MemoryRateLimiter Num → Type 0
  SamePermits s t =
      (t.semaphores ≡ s.semaphores)
      × (t.maximums ≡ s.maximums)
      × (t.active ≡ s.active)
      × (t.arriving ≡ s.arriving)
      × (t.uncounted ≡ s.uncounted)

  evict_buckets-permits :
      (now older_than : Num) (ks : List String) (acc : MemoryRateLimiter Num × ℕ)
      → SamePermits acc.0 (evict_buckets now older_than ks acc).0
  unfolding evict_buckets evict_bucket
  evict_buckets-permits now older_than [] acc = (refl, refl, refl, refl, refl)
  evict_buckets-permits now older_than (key ∷ ks) (s, n) =
      ground
        (arith, evict_buckets-permits now older_than ks (evict_bucket now older_than key (s, n)))

  evict_semaphore-held :
      (key j : String) (sem : Semaphore) {a : ℕ} (s : MemoryRateLimiter Num)
      → get j s.active ≡ some (suc a)
      → (get j (evict_semaphore key sem s).semaphores ≡ get j s.semaphores)
        × (get j (evict_semaphore key sem s).maximums ≡ get j s.maximums)
        × (get j (evict_semaphore key sem s).active ≡ get j s.active)
  unfolding evict_semaphore
  evict_semaphore-held key j sem s e = ground (
    arith,
    get-remove key j s.semaphores,
    get-remove key j s.maximums,
    get-remove key j s.active,
    eq_iff key j,
  )

  evict_semaphores-held :
      (d : Dict String Semaphore) (j : String) {a : ℕ} (s : MemoryRateLimiter Num)
      → get j s.active ≡ some (suc a)
      → (get j (evict_semaphores d s).semaphores ≡ get j s.semaphores)
        × (get j (evict_semaphores d s).maximums ≡ get j s.maximums)
        × (get j (evict_semaphores d s).active ≡ get j s.active)
  unfolding evict_semaphores
  evict_semaphores-held [] j s e = (refl, refl, refl)
  evict_semaphores-held ((key, sem) ∷ d) j s e =
      let (p, m, q) = evict_semaphore-held key j sem s e in
      let (p', m', q') = evict_semaphores-held d j (evict_semaphore key sem s) (q ∙ e) in
      (p' ∙ p, m' ∙ m, q' ∙ q)

  -- Eviction never takes the semaphore, the maximum or the count of a key that has a counted holder, so
  -- the holder's release finds the semaphore it acquired. A caller that has a slot and is not counted
  -- yet does not protect the key.
  pub evict_inactive-held :
      (older_than now : Num) (j : String) {a : ℕ} (s : MemoryRateLimiter Num)
      → get j s.active ≡ some (suc a)
      → let t = (evict_inactive older_than now s).0 in
        (get j t.semaphores ≡ get j s.semaphores)
        × (get j t.maximums ≡ get j s.maximums)
        × (get j t.active ≡ get j s.active)
  unfolding evict_inactive
  evict_inactive-held older_than now j s e =
      let t : MemoryRateLimiter Num = (evict_buckets now older_than (keys s.buckets) (s, 0)).0 in
      let (ps, pm, pa, _, _) = evict_buckets-permits now older_than (keys s.buckets) (s, 0) in
      let (qs, qm, qa) = evict_semaphores-held t.semaphores j t (ap (get j) pa ∙ e) in
      (qs ∙ ap (get j) ps, qm ∙ ap (get j) pm, qa ∙ ap (get j) pa)

-- ===== src/RateLimit/Memory/Permits.antt =====
-- memory.py: the concurrency permits of `MemoryRateLimiter`, over every sequence of callers.
use cloudcause.Prelude.{
  ℕ, suc, ◌+◌, ◌-◌, ◌≤◌, ◌≡◌, refl, subst, ◌⊎◌, inl, inr, String, Bool, true, false, not, ◌&&◌,
  Option, none, some, [], ◌∷◌, arith, ◌==◌, nat_eq, string_eq, if◌then◌else◌, ltb, Option-cases,
  Bool-cases,
}
use cloudcause.Prelude.Dict.{Dict, get, put, get_or, dict_laws, get-put}
use cloudcause.Prelude.Floats.{FloatOps, dec, ◌≼◌}
use text.Mathlib.TextEquality.{eq_iff}
use cloudcause.RateLimit.Memory.{
  Semaphore, MemoryRateLimiter, enter_permit, time_out, exit_permit, evict_semaphore,
  evict_semaphores, check_maximum, semaphore_for, take_slot, count_holder, locked, arrive,
}

-- The entries of one key agree: free slots, holders and the callers that have a slot and are not
-- counted yet add up to the recorded maximum, and somebody waits only when no slot is free.
abbrev pub Balanced : Option Semaphore → Option ℕ → Option ℕ → ℕ → Type 0
Balanced none none none u = u ≡ 0
Balanced (some sem) (some m) (some a) u =
    (sem.free + a + u ≡ m) × (1 ≤ m) × ((sem.waiting ≡ 0) ⊎ (sem.free ≡ 0))
Balanced _ _ _ _ = ⊥

-- Where the entries of one key are written and agree, those of every key `j` still agree.
write-Balanced :
    (same : Bool) (sem : Semaphore) (m a u : ℕ) (S : Option Semaphore) (M A : Option ℕ) (U : ℕ)
    {S' : Option Semaphore} {M' A' : Option ℕ} {U' : ℕ}
    → Balanced (some sem) (some m) (some a) u
    → Balanced S M A U
    → S' ≡ (if same then some sem else S)
    → M' ≡ (if same then some m else M)
    → A' ≡ (if same then some a else A)
    → U' ≡ (if same then u else U)
    → Balanced S' M' A' U'
write-Balanced same sem m a u S M A U new old es em ea eu = rw (es, em, ea, eu) (go same)
  where
    go :
        (b : Bool)
        → Balanced
            (if b then some sem else S)
            (if b then some m else M)
            (if b then some a else A)
            (if b then u else U)
    go true = new
    go false = old

module _ {V : Type 0} (key j : String) where
  -- an entry that is there may count as written
  keep_entry :
      (d : Dict String V) (v : V)
      → get key d ≡ some v
      → get j d ≡ (if key == j then some v else get j d)
  keep_entry d v e = ground (arith, eq_iff key j)

  get-put_twice :
      (d : Dict String V) (u v : V)
      → get j (put key v (put key u d)) ≡ (if key == j then some v else get j d)
  get-put_twice d u v = simp dict_laws (ground arith)

get_or-put :
    (key j : String) (v w : ℕ) (d : Dict String ℕ)
    → get_or j w (put key v d) ≡ (if key == j then v else get_or j w d)
get_or-put key j v w d = ground (arith, get-put key j v d)

-- An existing semaphore has its maximum and its count.
pub entries :
    (M A : Option ℕ) (u : ℕ) {sem : Semaphore} {S : Option Semaphore}
    → Balanced S M A u
    → S ≡ some sem
    → (m : ℕ) × (a : ℕ) × (M ≡ some m) × (A ≡ some a) × Balanced (some sem) (some m) (some a) u
entries (some m) (some a) u {sem} h e =
    (m, a, refl, refl, subst (λ x. Balanced x (some m) (some a) u) e h)
entries none none u h e = ground arith
entries none (some a) u h e = ground arith
entries (some m) none u h e = ground arith

-- A count belongs to a semaphore.
held :
    (S : Option Semaphore) (M : Option ℕ) (u : ℕ) {A : Option ℕ} {a : ℕ}
    → Balanced S M A u
    → A ≡ some a
    → (sem : Semaphore) × (m : ℕ) × (S ≡ some sem)
      × (M ≡ some m)
      × Balanced (some sem) (some m) (some a) u
held (some sem) (some m) u h e =
    (sem, m, refl, refl, subst (λ x. Balanced (some sem) (some m) x u) e h)
held none none u h e = ground arith
held none (some m) u h e = ground arith
held (some sem) none u h e = ground arith

-- A slot that was taken belongs to a semaphore.
taken :
    (S : Option Semaphore) (M A : Option ℕ) (u : ℕ)
    → Balanced S M A (suc u)
    → (sem : Semaphore) × (m : ℕ) × (a : ℕ) × (S ≡ some sem)
      × (M ≡ some m)
      × (A ≡ some a)
      × Balanced (some sem) (some m) (some a) (suc u)
taken (some sem) (some m) (some a) u h = (sem, m, a, refl, refl, refl, h)
taken none none none u h = ground arith
taken none none (some a) u h = elim h [ ]
taken none (some m) A u h = elim h [ ]
taken (some sem) none A u h = elim h [ ]
taken (some sem) (some m) none u h = elim h [ ]

none_taken : (S : Option Semaphore) (M A : Option ℕ) (u : ℕ) → Balanced S M A u → S ≡ none → u ≡ 0
none_taken none none none u h e = h
none_taken none none (some a) u h e = elim h [ ]
none_taken none (some m) A u h e = elim h [ ]
none_taken (some sem) M A u h e = ground arith

module _ {Num : Type 0} where
  abbrev BalancedAt : MemoryRateLimiter Num → String → Type 0
  BalancedAt s j =
      Balanced (get j s.semaphores) (get j s.maximums) (get j s.active) (get_or j 0 s.uncounted)

  pub record IsBalanced (s : MemoryRateLimiter Num) : Type 0 where
    pub at_key : (j : String) → BalancedAt s j

  module _ (key : String) (s : MemoryRateLimiter Num) (h : IsBalanced s) where
    module _ (sem : Semaphore) (m a u : ℕ) (em : get key s.maximums ≡ some m) where
      -- `semaphores[key]`, `active[key]` and the uncounted callers are written, `maximums[key]` stays
      write_two :
          (A U R : Dict String ℕ)
          → Balanced (some sem) (some m) (some a) u
          → ((j : String) → get j A ≡ (if key == j then some a else get j s.active))
          → ((j : String) → get_or j 0 U ≡ (if key == j then u else get_or j 0 s.uncounted))
          → IsBalanced (record s {
            semaphores = put key sem s.semaphores;
            active = A;
            uncounted = U;
            arriving = R;
          })
      write_two A U R new ea eu = record {
        at_key = λ j.
            write-Balanced (key == j) sem m a u (get j s.semaphores) (get j s.maximums)
              (get j s.active) (get_or j 0 s.uncounted) new (h.at_key j)
              (get-put key j sem s.semaphores) (keep_entry key j s.maximums m em) (ea j) (eu j);
      }

    abbrev u : ℕ
    u = get_or key 0 s.uncounted

    module _ (sem : Semaphore) (m a : ℕ) (es : get key s.semaphores ≡ some sem)
        (em : get key s.maximums ≡ some m) (ea : get key s.active ≡ some a)
        (agree : Balanced (some sem) (some m) (some a) u) where
      kept_active : (j : String) → get j s.active ≡ (if key == j then some a else get j s.active)
      kept_active j = keep_entry key j s.active a ea

      kept_uncounted :
          (j : String) → get_or j 0 s.uncounted ≡ (if key == j then u else get_or j 0 s.uncounted)
      kept_uncounted j = ground (arith, eq_iff key j)

      take_slot_at : IsBalanced (take_slot key sem s).0
      unfolding take_slot
      take_slot_at = elim (Bool-cases (locked sem)) [
        | inl full ↦
            rw (full, take_slot)
              (write_two (record sem { waiting = sem.waiting + 1 }) m a u em s.active s.uncounted _
                (ground arith) kept_active kept_uncounted)
        | inr room ↦
            rw (room, take_slot)
              (write_two (record sem { free = sem.free - 1 }) m a (u + 1) em s.active
                (put key (u + 1) s.uncounted) _ (ground arith) kept_active
                (λ j. get_or-put key j (u + 1) 0 s.uncounted))
      ]

      time_out_at : IsBalanced (time_out key s)
      unfolding time_out
      time_out_at =
          rw (es, time_out)
            (write_two (record sem { waiting = sem.waiting - 1 }) m a u em s.active s.uncounted
              s.arriving (ground arith) kept_active kept_uncounted)

    module _ (sem : Semaphore) (m a : ℕ) (es : get key s.semaphores ≡ some sem)
        (em : get key s.maximums ≡ some m) (ea : get key s.active ≡ some (suc a))
        (agree : Balanced (some sem) (some m) (some (suc a)) u) where
      exit_permit_at : IsBalanced (exit_permit key s)
      unfolding exit_permit
      exit_permit_at = elim (Bool-cases (ltb 0 sem.waiting)) [
        | inl more ↦
            rw (es, exit_permit)
              (rw more (
                write_two (record sem { waiting = sem.waiting - 1 }) m a (u + 1) em _ _ s.arriving
                  (ground arith) (λ j. simp dict_laws (ground arith))
                  (λ j. get_or-put key j (u + 1) 0 s.uncounted)))
        | inr done ↦
            rw (es, exit_permit)
              (rw done (
                write_two (record sem { free = sem.free + 1 }) m a u em _ _ s.arriving
                  (ground arith) (λ j. simp dict_laws (ground arith))
                  (λ j. ground (arith, eq_iff key j))))
      ]

    count_holder_at :
        (sem : Semaphore) (m a t : ℕ)
        → get key s.semaphores ≡ some sem
        → get key s.maximums ≡ some m
        → get key s.active ≡ some a
        → u ≡ suc t
        → Balanced (some sem) (some m) (some a) (suc t)
        → IsBalanced (count_holder key s)
    unfolding count_holder
    count_holder_at sem m a t es em ea eu agree = record {
      at_key = λ j.
          write-Balanced (key == j) sem m (a + 1) t (get j s.semaphores) (get j s.maximums)
            (get j s.active) (get_or j 0 s.uncounted) (ground (arith, agree)) (h.at_key j)
            (keep_entry key j s.semaphores sem es) (keep_entry key j s.maximums m em)
            (simp dict_laws (ground arith))
            (ground (arith, get_or-put key j (u - 1) 0 s.uncounted));
    }

    pub count_holder-IsBalanced : (t : ℕ) → u ≡ suc t → IsBalanced (count_holder key s)
    count_holder-IsBalanced t eu =
        let (sem, m, a, es, em, ea, agree) =
          taken (get key s.semaphores) (get key s.maximums) (get key s.active) t (
            subst (λ x. Balanced (get key s.semaphores) (get key s.maximums) (get key s.active) x)
              eu (h.at_key key)) in
        count_holder_at sem m a t es em ea eu agree

    pub take_slot-IsBalanced :
        (sem : Semaphore) → get key s.semaphores ≡ some sem → IsBalanced (take_slot key sem s).0
    take_slot-IsBalanced sem es =
        let (m, a, em, ea, agree) =
          entries (get key s.maximums) (get key s.active) u (h.at_key key) es in
        take_slot_at sem m a es em ea agree

    pub time_out-IsBalanced : IsBalanced (time_out key s)
    unfolding time_out
    time_out-IsBalanced = elim (Option-cases (get key s.semaphores)) [
      | inl e ↦ rw (e, time_out) h
      | inr (sem, e) ↦
          let (m, a, em, ea, agree) =
            entries (get key s.maximums) (get key s.active) u (h.at_key key) e in
          time_out_at sem m a e em ea agree
    ]

    pub exit_permit-IsBalanced :
        (a : ℕ) → get key s.active ≡ some (suc a) → IsBalanced (exit_permit key s)
    exit_permit-IsBalanced a ea =
        let (sem, m, es, em, agree) =
          held (get key s.semaphores) (get key s.maximums) u (h.at_key key) ea in
        exit_permit_at sem m a es em ea agree

    -- no semaphore, so nobody has a slot of it
    nobody : get key s.semaphores ≡ none → u ≡ 0
    nobody e =
        none_taken (get key s.semaphores) (get key s.maximums) (get key s.active) u (h.at_key key) e

    new_semaphore-IsBalanced :
        (maximum : ℕ)
        → 1 ≤ maximum
        → get key s.semaphores ≡ none
        → IsBalanced (record s {
          semaphores = put key (record { free = maximum; waiting = 0 }) s.semaphores;
          maximums = put key maximum s.maximums;
          active = put key 0 s.active;
        })
    new_semaphore-IsBalanced maximum p e = record {
      at_key = λ j.
          write-Balanced (key == j) (record { free = maximum; waiting = 0 }) maximum 0 0
            (get j s.semaphores) (get j s.maximums) (get j s.active) (get_or j 0 s.uncounted)
            (omega arith, p, inl refl) (h.at_key j) (get-put key j _ s.semaphores)
            (get-put key j maximum s.maximums) (get-put key j 0 s.active)
            (let z = nobody e in ground (arith, eq_iff key j));
    }

  arriving-IsBalanced :
      (s : MemoryRateLimiter Num) (R : Dict String ℕ)
      → IsBalanced s
      → IsBalanced (record s { arriving = R })
  arriving-IsBalanced s R h = record { at_key = λ j. h.at_key j }

  module _ ⦃F : FloatOps Num⦄ (key : String) (timeout : Num) where
    expires : (s : MemoryRateLimiter Num) → IsBalanced s → IsBalanced (arrive key timeout s).0
    expires s h = elim (Bool-cases (timeout ≼ dec 0 0)) [
      | inl late ↦ rw late h
      | inr in_time ↦ rw in_time (arriving-IsBalanced s _ h)
    ]

    pub enter_permit-IsBalanced :
        (maximum : ℕ) (s : MemoryRateLimiter Num)
        → IsBalanced s
        → IsBalanced (enter_permit key maximum timeout s).0
    unfolding enter_permit
    enter_permit-IsBalanced maximum s h = elim (Bool-cases (ltb maximum 1)) [
      | inl small ↦ rw small h
      | inr enough ↦ rw enough (elim (Option-cases (get key s.semaphores)) [
        | inl e ↦
            rw (e, semaphore_for)
              (expires _ (new_semaphore-IsBalanced key s h maximum (ground arith) e))
        | inr (sem, e) ↦
            rw (e, semaphore_for)
              (elim (Bool-cases (check_maximum key maximum s)) [
                | inl same ↦ rw same (expires s h)
                | inr changed ↦ rw changed h
              ])
      ])
    ]

  -- No caller is on its way: none whose acquisition has not run, and none that is not counted yet.
  pub record Quiet (s : MemoryRateLimiter Num) : Type 0 where
    pub nobody_arrives : (j : String) → get_or j 0 s.arriving ≡ 0
    pub all_counted : (j : String) → get_or j 0 s.uncounted ≡ 0

  evict_semaphore-Quiet :
      (key : String) (sem : Semaphore) (s : MemoryRateLimiter Num)
      → Quiet s
      → Quiet (evict_semaphore key sem s)
  unfolding evict_semaphore
  evict_semaphore-Quiet key sem s q =
      elim (Bool-cases (get_or key 0 s.active == 0 && not (locked sem))) [
        | inl idle ↦
            rw idle (record { nobody_arrives = q.nobody_arrives; all_counted = q.all_counted })
        | inr busy ↦ rw busy q
      ]

  -- An eviction removes all three entries of a key, or none.
  evict_semaphore-IsBalanced :
      (key : String) (sem : Semaphore) (s : MemoryRateLimiter Num)
      → Quiet s
      → IsBalanced s
      → IsBalanced (evict_semaphore key sem s)
  unfolding evict_semaphore
  evict_semaphore-IsBalanced key sem s q h =
      elim (Bool-cases (get_or key 0 s.active == 0 && not (locked sem))) [
        | inl idle ↦
            rw idle (record {
              at_key = λ j. simp dict_laws (ground (arith, h.at_key j, q.all_counted j));
            })
        | inr busy ↦ rw busy h
      ]

  pub evict_semaphores-IsBalanced :
      (d : Dict String Semaphore) (s : MemoryRateLimiter Num)
      → Quiet s
      → IsBalanced s
      → IsBalanced (evict_semaphores d s)
  unfolding evict_semaphores
  evict_semaphores-IsBalanced [] s q h = h
  evict_semaphores-IsBalanced ((key, sem) ∷ rest) s q h =
      evict_semaphores-IsBalanced rest (evict_semaphore key sem s)
        (evict_semaphore-Quiet key sem s q) (evict_semaphore-IsBalanced key sem s q h)

-- ===== src/RateLimit/Redis/Leases.antt =====
-- redis_backend.py: the leases of one key, over every interleaving of processes.
use cloudcause.Prelude.{
  ℕ, ◌+◌, ◌≤◌, ◌≡◌, String, some, [], ◌∷◌, arith, length, string_eq, Option-cases, inl, inr,
}
use cloudcause.Prelude.Dict.{Dict, get, put, remove}
use cloudcause.Prelude.Floats.{FloatOps, ◌⊕◌}
use cloudcause.RateLimit.Redis.{sweep, acquire_lease, renew_lease, release_lease}

module _ {Num : Type 0} where
  length-put_le : (id : String) (v : Num) (d : Dict String Num) → length (put id v d) ≤ length d + 1
  unfolding put
  length-put_le id v [] = omega arith
  length-put_le id v ((j, w) ∷ d) = ground (arith, length-put_le id v d)

  length-put_member :
      (id : String) (v w : Num) (d : Dict String Num)
      → get id d ≡ some w
      → length (put id v d) ≡ length d
  unfolding put get
  length-put_member id v w [] e = ground arith
  length-put_member id v w ((j, u) ∷ d) e = ground (arith, length-put_member id v w d)

  length-remove_le : (id : String) (d : Dict String Num) → length (remove id d) ≤ length d
  unfolding remove
  length-remove_le id [] = omega arith
  length-remove_le id ((j, w) ∷ d) = ground (arith, length-remove_le id d)

module _ {Num : Type 0} ⦃F : FloatOps Num⦄ where
  length-sweep_le : (now : Num) (d : Dict String Num) → length (sweep now d) ≤ length d
  unfolding sweep
  length-sweep_le now [] = omega arith
  length-sweep_le now ((j, w) ∷ d) = ground (arith, length-sweep_le now d)

  -- Any process may run any script at any time; the maximum is fixed for the key.
  pub data LeaseStep (maximum : ℕ) : Dict String Num → Dict String Num → Type 0 where
    acquire :
        (now ttl : Num) (id : String) (d : Dict String Num)
        → LeaseStep maximum d (acquire_lease now maximum id ttl d).0
    renew :
        (now ttl : Num) (id : String) (d : Dict String Num)
        → LeaseStep maximum d (renew_lease now id ttl d).0
    release : (id : String) (d : Dict String Num) → LeaseStep maximum d (release_lease id d)

  pub data LeaseReach (maximum : ℕ) : Dict String Num → Type 0 where
    start : LeaseReach maximum []
    next :
        {c d : Dict String Num}
        → LeaseReach maximum c
        → LeaseStep maximum c d
        → LeaseReach maximum d

  LeaseStep-within :
      {maximum : ℕ} {c d : Dict String Num}
      → LeaseStep maximum c d
      → length c ≤ maximum
      → length d ≤ maximum
  unfolding acquire_lease renew_lease release_lease
  LeaseStep-within (acquire now ttl id d) h =
      ground (arith, length-sweep_le now d, length-put_le id (now ⊕ ttl) (sweep now d))
  LeaseStep-within (renew now ttl id d) h = elim (Option-cases (get id d)) [
    | inl e ↦ rw (e, renew_lease) h
    | inr (w, e) ↦ rw (e, renew_lease) (rw (length-put_member id (now ⊕ ttl) w d e) h)
  ]
  LeaseStep-within (release id d) h = omega (arith, length-remove_le id d)

  -- However processes interleave the acquire, renew and release scripts of one key, the sorted set
  -- never holds more leases than the maximum.
  pub leases_within_maximum :
      {maximum : ℕ} {d : Dict String Num} → LeaseReach maximum d → length d ≤ maximum
  leases_within_maximum start = omega arith
  leases_within_maximum (next r st) = LeaseStep-within st (leases_within_maximum r)

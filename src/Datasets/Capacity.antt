-- ===== src/Datasets/Capacity.antt =====
-- packages/datasets/src/cloudcause_datasets/store.py: the byte cap of the store.
use cloudcause.Prelude.{
  ℕ, ◌+◌, ◌≤◌, ◌≡◌, refl, inl, inr, String, none, some, List, [], ◌∷◌, string_eq, ◌==◌, Bool-cases,
  arith,
}
use cloudcause.Prelude.Dict.{Dict, get, put, remove, get-put, get-put_self, get-remove}
use cloudcause.Datasets.Model.{Dataset, records_in}
use cloudcause.Datasets.Store.{
  MemoryStore, Result, ok, refused, total_bytes, bytes_excluding, check_capacity, put_dataset,
  forget, forget_all, doomed, evict_expired, get_dataset, put_checked,
}

-- no key twice
abbrev pub Distinct : Dict String ℕ → Type 0
Distinct [] = Unit
Distinct ((key, _) ∷ rest) = (get key rest ≡ none) × Distinct rest

put-Distinct : (k : String) (v : ℕ) (d : Dict String ℕ) → Distinct d → Distinct (put k v d)
unfolding put get
put-Distinct k v [] h = (refl, tt)
put-Distinct k v ((j, w) ∷ d) h = elim (Bool-cases (j == k)) [
  | inl same ↦ rw same (h.0, h.1)
  | inr other ↦ rw other (
    ground (arith, get-put k j v d, string_eq.same_iff k j, string_eq.same_iff j k, h.0),
    put-Distinct k v d h.1,
  )
]

remove-Distinct : (k : String) (d : Dict String ℕ) → Distinct d → Distinct (remove k d)
unfolding remove
remove-Distinct k [] h = tt
remove-Distinct k ((j, w) ∷ d) h = elim (Bool-cases (j == k)) [
  | inl same ↦ rw same (remove-Distinct k d h.1)
  | inr other ↦ rw other (ground (arith, get-remove k j d, h.0), remove-Distinct k d h.1)
]

bytes_excluding-absent :
    (k : String) (d : Dict String ℕ) → get k d ≡ none → bytes_excluding k d ≡ total_bytes d
unfolding bytes_excluding total_bytes get
bytes_excluding-absent k [] h = refl
bytes_excluding-absent k ((j, w) ∷ d) h = ground (arith, bytes_excluding-absent k d)

total_bytes-put :
    (k : String) (v : ℕ) (d : Dict String ℕ)
    → Distinct d
    → total_bytes (put k v d) ≡ bytes_excluding k d + v
unfolding total_bytes put bytes_excluding
total_bytes-put k v [] h = omega arith
total_bytes-put k v ((j, w) ∷ d) h = ground (
  arith,
  total_bytes-put k v d h.1,
  bytes_excluding-absent j d h.0,
  bytes_excluding-absent k d,
  h.0,
  string_eq.same_iff j k,
)

total_bytes-remove-le : (k : String) (d : Dict String ℕ) → total_bytes (remove k d) ≤ total_bytes d
unfolding total_bytes remove
total_bytes-remove-le k [] = omega arith
total_bytes-remove-le k ((j, w) ∷ d) = ground (arith, total_bytes-remove-le k d)

module _ {Num : Type 0} where
  -- the store holds no more bytes than it may
  abbrev pub WithinCap : MemoryStore Num → Type 0
  WithinCap m = Distinct m.sizes × (total_bytes m.sizes ≤ m.settings.dataset_store_max_bytes)

  pub forget-WithinCap :
      (id : String) (m : MemoryStore Num) → WithinCap m → WithinCap (forget id m).0
  forget-WithinCap id m h =
      (remove-Distinct id m.sizes h.0, omega (arith, total_bytes-remove-le id m.sizes, h.1))

  forget_all-WithinCap :
      (ids : List String) (m : MemoryStore Num) → WithinCap m → WithinCap (forget_all ids m)
  forget_all-WithinCap [] m h = h
  forget_all-WithinCap (id ∷ rest) m h =
      forget_all-WithinCap rest (forget id m).0 (forget-WithinCap id m h)

  pub evict_expired-WithinCap :
      (now : ℕ) (m : MemoryStore Num) → WithinCap m → WithinCap (evict_expired now m).0
  unfolding evict_expired
  evict_expired-WithinCap now m h = forget_all-WithinCap (doomed now m.datasets) m h

  pub get_dataset-WithinCap :
      (now : ℕ) (id : String) (m : MemoryStore Num)
      → WithinCap m
      → WithinCap (get_dataset now id m).0
  unfolding get_dataset
  get_dataset-WithinCap now id m h = ground (arith, h, forget-WithinCap id m h)

  check_capacity-ok :
      (d : Dataset Num) (size : ℕ) (m : MemoryStore Num)
      → check_capacity d size m ≡ ok tt
      → (records_in d.sources ≤ m.settings.dataset_max_records)
        × (bytes_excluding d.dataset_id m.sizes + size ≤ m.settings.dataset_store_max_bytes)
  unfolding check_capacity
  check_capacity-ok d size m h = ground arith

  -- what a write promises of the store before, the store after and the answer
  abbrev pub Written : Dataset Num → MemoryStore Num → MemoryStore Num × Result Unit → Type 0
  Written d m (m', refused _) = WithinCap m' × (m' ≡ m)
  Written d m (m', ok _) =
      WithinCap m'
      × (records_in d.sources ≤ m.settings.dataset_max_records)
      × (get d.dataset_id m'.datasets ≡ some d)

  put_checked-Written :
      (json_size : Dataset Num → ℕ) (d : Dataset Num) (m : MemoryStore Num) (r : Result Unit)
      → check_capacity d (json_size d) m ≡ r
      → WithinCap m
      → Written d m (put_checked json_size d m r)
  unfolding put_checked
  put_checked-Written json_size d m (refused e) h cap = (cap, refl)
  put_checked-Written json_size d m (ok tt) h cap =
      let (few, fits) = check_capacity-ok d (json_size d) m h in
      (
        (
          put-Distinct d.dataset_id (json_size d) m.sizes cap.0,
          omega (arith, total_bytes-put d.dataset_id (json_size d) m.sizes cap.0, fits),
        ),
        few,
        get-put_self d.dataset_id d m.datasets,
      )

  -- A write keeps the store within its byte cap, whether it is accepted or not; what is accepted
  -- stays under the record cap and can be read back, and what is refused leaves the store as it was.
  pub put_dataset-Written :
      (json_size : Dataset Num → ℕ) (d : Dataset Num) (m : MemoryStore Num)
      → WithinCap m
      → Written d m (put_dataset json_size d m)
  unfolding put_dataset
  put_dataset-Written json_size d m cap = put_checked-Written json_size d m _ refl cap

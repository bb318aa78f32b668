-- ===== src/Datasets/Sealed.antt =====
-- packages/datasets/src/cloudcause_datasets/{store,assembly}.py: no operation changes a sealed dataset.
use cloudcause.Prelude.{
  ℕ, ◌≡◌, refl, sym, subst, ◌∙◌, ◌⊎◌, inl, inr, String, true, false, Option, none, some, List, [],
  ◌∷◌, string_eq, ◌==◌, Bool-cases, arith,
}
use cloudcause.Prelude.Dict.{get, get-put, get-remove}
use cloudcause.Contracts.Common.{Provider}
use cloudcause.Datasets.Model.{Kind, Dataset, is_sealed, is_expired}
use cloudcause.Datasets.Store.{
  MemoryStore, Settings, Refusal, Result, ok, refused, put_checked, put_dataset, answer, forget,
  forget_all, doomed, evict_expired, get_found, get_dataset, create, new_dataset, with_seal,
  seal_found, seal,
}
use cloudcause.Datasets.Assembly.{
  ParsedSource, attach, refusal, add_tested, add_found, add_source, seal_complete, seal_dataset,
  has_costs,
}

true≢false : true ≡ false → ⊥
true≢false h = ground arith

none≢some : {A : Type 0} {a : A} → none ≡ some a → ⊥
none≢some h = ground arith

some-inj : {A : Type 0} {a b : A} → some a ≡ some b → a ≡ b
some-inj h = ground arith

module _ {Num : Type 0} where
  -- every dataset is stored under its own id
  abbrev pub Keyed : MemoryStore Num → Type 0
  Keyed m = (id : String) (d : Dataset Num) → get id m.datasets ≡ some d → d.dataset_id ≡ id

  -- a sealed dataset of the first store is in the second one unchanged, or is gone
  abbrev pub Frozen : MemoryStore Num → MemoryStore Num → Type 0
  Frozen m m' =
      (id : String) (d : Dataset Num)
      → get id m.datasets ≡ some d
      → is_sealed d ≡ true
      → (get id m'.datasets ≡ some d) ⊎ (get id m'.datasets ≡ none)

  abbrev pub Keeps : MemoryStore Num → MemoryStore Num → Type 0
  Keeps m m' = Keyed m' × Frozen m m'

  stays : (m : MemoryStore Num) → Keyed m → Keeps m m
  stays m key = (key, λ id d h s. inl h)

  forget-Keeps : (id : String) (m : MemoryStore Num) → Keyed m → Keeps m (forget id m).0
  forget-Keeps id m key = (
    λ j d h. ground (arith, get-remove id j m.datasets, key j d),
    λ j d h s. ground (arith, get-remove id j m.datasets),
  )

  -- between the two stores, datasets only disappear
  abbrev Shrinks : MemoryStore Num → MemoryStore Num → Type 0
  Shrinks m m' =
      (id : String) → (get id m'.datasets ≡ get id m.datasets) ⊎ (get id m'.datasets ≡ none)

  Shrinks-Keeps : (m m' : MemoryStore Num) → Shrinks m m' → Keyed m → Keeps m m'
  Shrinks-Keeps m m' less key = (
    λ j d h. elim (less j) [
      | inl same ↦ key j d (sym same ∙ h)
      | inr gone ↦ ground (arith, gone, h)
    ],
    λ j d h s. elim (less j) [ inl same ↦ inl (same ∙ h) | inr gone ↦ inr gone ],
  )

  forget-Shrinks : (id : String) (m : MemoryStore Num) → Shrinks m (forget id m).0
  forget-Shrinks id m j = ground (arith, get-remove id j m.datasets)

  forget_all-Shrinks : (ids : List String) (m : MemoryStore Num) → Shrinks m (forget_all ids m)
  forget_all-Shrinks [] m j = inl refl
  forget_all-Shrinks (id ∷ rest) m j = elim (forget_all-Shrinks rest (forget id m).0 j) [
    | inr gone ↦ inr gone
    | inl same ↦ elim (forget-Shrinks id m j) [
      | inl was ↦ inl (same ∙ was)
      | inr gone ↦ inr (same ∙ gone)
    ]
  ]

  -- a write over nothing, or over a dataset that is not sealed
  put_checked-Keeps :
      (json_size : Dataset Num → ℕ) (d : Dataset Num) (m : MemoryStore Num) (r : Result Unit)
      → ((old : Dataset Num) → get d.dataset_id m.datasets ≡ some old → is_sealed old ≡ false)
      → Keyed m
      → Keeps m (put_checked json_size d m r).0
  unfolding put_checked
  put_checked-Keeps json_size d m (refused e) free key = stays m key
  put_checked-Keeps json_size d m (ok _) free key = (
    λ j old h. elim (Bool-cases (d.dataset_id == j)) [
      | inl same ↦
          let eq : d ≡ old = some-inj (sym (get-put d.dataset_id j d m.datasets ∙ cc same) ∙ h) in
          cc (eq, (string_eq.same_iff d.dataset_id j).0 same)
      | inr other ↦ key j old (sym (get-put d.dataset_id j d m.datasets ∙ cc other) ∙ h)
    ],
    λ j old h s. elim (Bool-cases (d.dataset_id == j)) [
      | inl same ↦
          elim (true≢false
            (sym s ∙ free old (cc (h, (string_eq.same_iff d.dataset_id j).0 same)))) [ ]
      | inr other ↦ inl (get-put d.dataset_id j d m.datasets ∙ cc (other, h))
    ],
  )

  answer-store :
      (json_size : Dataset Num → ℕ) (d : Dataset Num) (w : MemoryStore Num × Result Unit)
      → (answer json_size d w).0 ≡ w.0
  answer-store json_size d (m, refused e) = refl
  answer-store json_size d (m, ok _) = refl

  -- what a look-up answers
  abbrev Looked : String → MemoryStore Num → MemoryStore Num × Result (Dataset Num) → Type 0
  Looked id m (m', refused e) = Shrinks m m'
  Looked id m (m', ok d) = (m' ≡ m) × (get id m.datasets ≡ some d)

  get_found-Looked :
      (now : ℕ) (id : String) (m : MemoryStore Num) (o : Option (Dataset Num))
      → get id m.datasets ≡ o
      → Looked id m (get_found now id m o)
  unfolding get_found
  get_found-Looked now id m none h = λ j. inl refl
  get_found-Looked now id m (some d) h = elim (Bool-cases (is_expired now d)) [
    | inl over ↦ rw over (forget-Shrinks id m)
    | inr valid ↦ rw valid (refl, h)
  ]

  get_dataset-Looked :
      (now : ℕ) (id : String) (m : MemoryStore Num) → Looked id m (get_dataset now id m)
  unfolding get_dataset
  get_dataset-Looked now id m = get_found-Looked now id m (get id m.datasets) refl

  -- the dataset that a look-up found is what is stored, and a write of a successor is over it
  replace-Keeps :
      (json_size : Dataset Num → ℕ) (id : String) (d new : Dataset Num) (m m' : MemoryStore Num)
      → (m' ≡ m)
      → get id m.datasets ≡ some d
      → is_sealed d ≡ false
      → new.dataset_id ≡ d.dataset_id
      → Keyed m
      → Keeps m (answer json_size new (put_dataset json_size new m')).0
  unfolding put_dataset
  replace-Keeps json_size id d new m m' same found open_still name key =
      subst (λ s. Keeps m s) (sym (answer-store json_size new (put_dataset json_size new m')))
        (subst (λ s. Keeps m (put_dataset json_size new s).0) (sym same)
          (put_checked-Keeps json_size new m _
            (λ old h.
              cc (some-inj {a = old} {b = d} (cc (h, found, name, key id d found)), open_still))
            key))

  seal_found-Keeps :
      (json_size : Dataset Num → ℕ) (now : ℕ) (id : String) (m : MemoryStore Num)
      (w : MemoryStore Num × Result (Dataset Num))
      → Looked id m w
      → Keyed m
      → Keeps m (seal_found json_size now w).0
  unfolding seal_found
  seal_found-Keeps json_size now id m (m', refused e) less key = Shrinks-Keeps m m' less key
  seal_found-Keeps json_size now id m (m', ok d) (same, found) key =
      elim (Bool-cases (is_sealed d)) [
        | inl done ↦ rw done (subst (λ s. Keeps m s) (sym same) (stays m key))
        | inr fresh ↦ rw fresh (
            replace-Keeps json_size id d (with_seal json_size now d) m m' same found fresh refl key)
      ]

  seal-Keeps :
      (json_size : Dataset Num → ℕ) (now : ℕ) (id : String) (m : MemoryStore Num)
      → Keyed m
      → Keeps m (seal json_size now id m).0
  unfolding seal
  seal-Keeps json_size now id m key =
      seal_found-Keeps json_size now id m _ (get_dataset-Looked now id m) key

  seal_complete-Keeps :
      (json_size : Dataset Num → ℕ) (later : ℕ) (id : String) (m : MemoryStore Num)
      (w : MemoryStore Num × Result (Dataset Num))
      → Looked id m w
      → Keyed m
      → Keeps m (seal_complete json_size later id w).0
  unfolding seal_complete
  seal_complete-Keeps json_size later id m (m', refused e) less key = Shrinks-Keeps m m' less key
  seal_complete-Keeps json_size later id m (m', ok d) (same, found) key =
      elim (Bool-cases (is_sealed d)) [
        | inl done ↦ rw done (subst (λ s. Keeps m s) (sym same) (stays m key))
        | inr fresh ↦ elim (Bool-cases (has_costs json_size d.sources)) [
          | inl costs ↦ rw fresh (
              rw costs (
                subst (λ s. Keeps m (seal json_size later id s).0) (sym same)
                  (seal-Keeps json_size later id m key)))
          | inr bare ↦ rw fresh (rw bare (subst (λ s. Keeps m s) (sym same) (stays m key)))
        ]
      ]

  refusal-open :
      (settings : Settings) (p : Provider) (k : Kind) (parsed : ParsedSource Num) (d : Dataset Num)
      → refusal settings p k parsed d ≡ none
      → is_sealed d ≡ false
  unfolding refusal
  refusal-open settings p k parsed d h = ground arith

  add_tested-Keeps :
      (json_size : Dataset Num → ℕ) (now : ℕ) (id : String) (p : Provider) (k : Kind)
      (parsed : ParsedSource Num) (size : ℕ) (o : Option Refusal) (d : Dataset Num)
      (m m' : MemoryStore Num)
      → (o ≡ none → is_sealed d ≡ false)
      → (m' ≡ m)
      → get id m.datasets ≡ some d
      → Keyed m
      → Keeps m (add_tested json_size now p k parsed size o d m').0
  unfolding add_tested attach
  add_tested-Keeps json_size now id p k parsed size (some e) d m m' h same found key =
      subst (λ s. Keeps m s) (sym same) (stays m key)
  add_tested-Keeps json_size now id p k parsed size none d m m' h same found key =
      replace-Keeps json_size id d _ m m' same found (h refl) refl key

  add_found-Keeps :
      (json_size : Dataset Num → ℕ) (now : ℕ) (settings : Settings) (id : String) (p : Provider)
      (k : Kind) (parsed : ParsedSource Num) (size : ℕ) (m : MemoryStore Num)
      (w : MemoryStore Num × Result (Dataset Num))
      → Looked id m w
      → Keyed m
      → Keeps m (add_found json_size now settings p k parsed size w).0
  unfolding add_found
  add_found-Keeps json_size now settings id p k parsed size m (m', refused e) less key =
      Shrinks-Keeps m m' less key
  add_found-Keeps json_size now settings id p k parsed size m (m', ok d) (same, found) key =
      add_tested-Keeps json_size now id p k parsed size _ d m m'
        (refusal-open settings p k parsed d) same found key

  get_dataset-Keeps :
      (now : ℕ) (id : String) (m : MemoryStore Num) → Keyed m → Keeps m (get_dataset now id m).0
  get_dataset-Keeps now id m key = go (get_dataset now id m) (get_dataset-Looked now id m)
    where
      go : (w : MemoryStore Num × Result (Dataset Num)) → Looked id m w → Keeps m w.0
      go (m', refused e) less = Shrinks-Keeps m m' less key
      go (m', ok d) found = subst (λ s. Keeps m s) (sym found.0) (stays m key)

  put_checked-other :
      (json_size : Dataset Num → ℕ) (d : Dataset Num) (m : MemoryStore Num) (r : Result Unit)
      (j : String)
      → (d.dataset_id == j) ≡ false
      → get j (put_checked json_size d m r).0.datasets ≡ get j m.datasets
  unfolding put_checked
  put_checked-other json_size d m (refused e) j other = refl
  put_checked-other json_size d m (ok _) j other = get-put d.dataset_id j d m.datasets ∙ cc other

  write_new-Keeps :
      (json_size : Dataset Num → ℕ) (d : Dataset Num) (m m1 : MemoryStore Num)
      → Shrinks m m1
      → get d.dataset_id m.datasets ≡ none
      → Keyed m
      → Keeps m (put_dataset json_size d m1).0
  unfolding put_dataset
  write_new-Keeps json_size d m m1 less fresh key = (
    (put_checked-Keeps json_size d m1 _
        (λ old h. elim (none≢some (gone (less d.dataset_id) ∙ h)) [ ])
        (Shrinks-Keeps m m1 less key).0).0,
    λ j old h s. elim (Bool-cases (d.dataset_id == j)) [
      | inl same ↦
          elim (none≢some {a = old}
            (sym fresh ∙ cc (h, (string_eq.same_iff d.dataset_id j).0 same))) [ ]
      | inr other ↦ elim (less j) [
        | inl kept ↦ inl (put_checked-other json_size d m1 _ j other ∙ kept ∙ h)
        | inr lost ↦ inr (put_checked-other json_size d m1 _ j other ∙ lost)
      ]
    ],
  )
    where
      gone :
          (get d.dataset_id m1.datasets ≡ get d.dataset_id m.datasets)
            ⊎ (get d.dataset_id m1.datasets ≡ none)
          → none ≡ get d.dataset_id m1.datasets
      gone (inl kept) = sym (kept ∙ fresh)
      gone (inr lost) = sym lost

  create-Keeps :
      (json_size : Dataset Num → ℕ) (now : ℕ) (id : String) (m : MemoryStore Num)
      → get id m.datasets ≡ none
      → Keyed m
      → Keeps m (create json_size now id m).0
  unfolding create evict_expired
  create-Keeps json_size now id m fresh key =
      subst (λ s. Keeps m s)
        (sym (answer-store json_size (new_dataset json_size now id m.settings) _))
        (write_new-Keeps json_size (new_dataset json_size now id m.settings) m
          (forget_all (doomed now m.datasets) m) (forget_all-Shrinks (doomed now m.datasets) m)
          fresh key)

  -- the operations of the store; an id that `create` draws is not in use
  pub data Step (json_size : Dataset Num → ℕ) : MemoryStore Num → MemoryStore Num → Type 0 where
    look_up :
        (now : ℕ) (id : String) (m : MemoryStore Num) → Step json_size m (get_dataset now id m).0
    evict : (now : ℕ) (m : MemoryStore Num) → Step json_size m (evict_expired now m).0
    delete : (id : String) (m : MemoryStore Num) → Step json_size m (forget id m).0
    begin :
        (now : ℕ) (id : String) (m : MemoryStore Num)
        → get id m.datasets ≡ none
        → Step json_size m (create json_size now id m).0
    upload :
        (now : ℕ) (settings : Settings) (id : String) (p : Provider) (k : Kind)
        (parsed : ParsedSource Num) (size : ℕ) (m : MemoryStore Num)
        → Step json_size m (add_source json_size now settings id p k parsed size m).0
    finish :
        (now later : ℕ) (id : String) (m : MemoryStore Num)
        → Step json_size m (seal_dataset json_size now later id m).0

  -- In a store that has every dataset under its own id, whatever is done to it, a dataset that is
  -- sealed stays exactly as it is or is gone, and every dataset stays under its own id.
  pub Step-Keeps :
      (json_size : Dataset Num → ℕ) (m m' : MemoryStore Num)
      → Step json_size m m'
      → Keyed m
      → Keeps m m'
  unfolding add_source seal_dataset evict_expired
  Step-Keeps json_size _ _ (look_up now id m) key = get_dataset-Keeps now id m key
  Step-Keeps json_size _ _ (evict now m) key =
      Shrinks-Keeps m (forget_all (doomed now m.datasets) m)
        (forget_all-Shrinks (doomed now m.datasets) m) key
  Step-Keeps json_size _ _ (delete id m) key = forget-Keeps id m key
  Step-Keeps json_size _ _ (begin now id m fresh) key = create-Keeps json_size now id m fresh key
  Step-Keeps json_size _ _ (upload now settings id p k parsed size m) key =
      add_found-Keeps json_size now settings id p k parsed size m _ (get_dataset-Looked now id m)
        key
  Step-Keeps json_size _ _ (finish now later id m) key =
      seal_complete-Keeps json_size later id m _ (get_dataset-Looked now id m) key

-- ===== src/Orchestrator/Available.antt =====
-- orchestrator.py: the providers whose data could be loaded, and those that are skipped.
use mathlib.Core.List.{Perm}
use mathlib.Core.List.Perm
use cloudcause.Prelude.{
  ◌≡◌, refl, sym, ◌∙◌, ap, inl, inr, Bool-cases, arith, Bool, true, false, not, ◌&&◌, List, [], ◌∷◌,
  ◌++◌, map, select, contains, All, All-implies, ◌==◌, if◌then◌else◌,
}
use cloudcause.Contracts.Common.{Provider, provider_eq, DateRange}
use cloudcause.Contracts.Investigation.{ProviderStatus}
use cloudcause.Contracts.Request.{InvestigationRequest}
use cloudcause.Orchestrator.Load.{
  ProviderData, Adapters, Loaded, nothing_loaded, add_loaded, load_from, load_costs,
}
use cloudcause.Contracts.Report.{Fetched, fetched, failed_with}
use cloudcause.Orchestrator.Responses.{has_status, active_providers}

-- the adapter gave data
abbrev pub gave_data : {A : Type 0} → Fetched A → Bool
gave_data (fetched _) = true
gave_data (failed_with _) = false

abbrev pub providers_of_statuses : List ProviderStatus → List Provider
providers_of_statuses statuses = map (λ (s : ProviderStatus). s.provider) statuses

pub partition-Perm :
    (p : Provider → Bool) (xs : List Provider) → Perm (select (λ x. not (p x)) xs ++ select p xs) xs
partition-Perm p [] = Perm.refl []
partition-Perm p (x ∷ xs) = elim (Bool-cases (p x)) [
  | inl kept ↦ rw kept (
      Perm.trans (middle (select (λ y. not (p y)) xs) (select p xs))
        (Perm.cons x (partition-Perm p xs)))
  | inr left_out ↦ rw left_out (Perm.cons x (partition-Perm p xs))
]
  where
    middle : (front back : List Provider) → Perm (front ++ x ∷ back) (x ∷ (front ++ back))
    middle [] back = Perm.refl (x ∷ back)
    middle (a ∷ front) back =
        Perm.trans (Perm.cons a (middle front back)) (Perm.swap x a (front ++ back))

pub map-append :
    (ss ts : List ProviderStatus)
    → providers_of_statuses (ss ++ ts) ≡ (providers_of_statuses ss ++ providers_of_statuses ts)
map-append [] ts = refl
map-append (s ∷ ss) ts = cc (map-append ss ts)

select-cong :
    (p q : Provider → Bool) (xs : List Provider)
    → All (λ x. p x ≡ q x) xs
    → select p xs ≡ select q xs
select-cong p q [] h = refl
select-cong p q (x ∷ xs) h = cc (h.0, select-cong p q xs h.1)

append_nil : {A : Type 0} (xs : List A) → (xs ++ []) ≡ xs
append_nil [] = refl
append_nil (x ∷ xs) = cc (append_nil xs)

append_assoc : {A : Type 0} (xs ys zs : List A) → ((xs ++ ys) ++ zs) ≡ (xs ++ (ys ++ zs))
append_assoc [] ys zs = refl
append_assoc (x ∷ xs) ys zs = cc (append_assoc xs ys zs)

has_status-map :
    (statuses : List ProviderStatus) (q : Provider)
    → has_status statuses q ≡ contains q (providers_of_statuses statuses)
has_status-map [] q = refl
has_status-map (s ∷ rest) q = cc (has_status-map rest q)

contains-select :
    (p : Provider → Bool) (q : Provider) (xs : List Provider)
    → contains q xs ≡ true
    → contains q (select p xs) ≡ p q
contains-select p q xs h = contains_kept p q xs ∙ ap (λ b. b && p q) h
  where
    contains_kept :
        (p : Provider → Bool) (q : Provider) (xs : List Provider)
        → contains q (select p xs) ≡ (contains q xs && p q)
    contains_kept p q [] = refl
    contains_kept p q (x ∷ xs) = elim (Bool-cases (x == q)) [
      | inl same ↦
          ground (arith, contains_kept p q xs, ap p ((provider_eq.same_iff x q).0 same), same)
      | inr different ↦ ground (arith, contains_kept p q xs, different)
    ]

contains-All : (xs : List Provider) → All (λ q. contains q xs ≡ true) xs
contains-All [] = tt
contains-All (x ∷ xs) = (
  ground (arith, (provider_eq.same_iff x x).1 refl),
  All-implies (λ q. contains q xs ≡ true) (λ q. contains q (x ∷ xs) ≡ true) xs
      (λ q h. ground (arith, h)) (contains-All xs),
)

module _ {Num : Type 0} (adapters : Adapters Num) (request : InvestigationRequest)
    (periods : List DateRange) where
  -- the provider's adapter gives data for the request
  abbrev pub is_available : Provider → Bool
  is_available p = gave_data (adapters p request.scenario_id request.dataset_id periods)

  add_loaded-unavailable :
      (p : Provider) (o : Fetched (ProviderData Num)) (l : Loaded Num)
      → providers_of_statuses (add_loaded p request.account_ids periods o l).unavailable
        ≡ (providers_of_statuses l.unavailable ++ (if gave_data o then [] else p ∷ []))
  unfolding add_loaded
  add_loaded-unavailable p (fetched d) l = sym (append_nil (providers_of_statuses l.unavailable))
  add_loaded-unavailable p (failed_with reason) l = map-append l.unavailable _

  load_from-unavailable :
      (ps : List Provider) (l : Loaded Num)
      → providers_of_statuses (load_from adapters request periods ps l).unavailable
        ≡ (providers_of_statuses l.unavailable ++ select (λ p. not (is_available p)) ps)
  unfolding load_from
  load_from-unavailable [] l = sym (append_nil (providers_of_statuses l.unavailable))
  load_from-unavailable (p ∷ ps) l =
      let o : Fetched (ProviderData Num) =
        adapters p request.scenario_id request.dataset_id periods in
      load_from-unavailable ps (add_loaded p request.account_ids periods o l)
      ∙ ap (λ xs. xs ++ select (λ q. not (is_available q)) ps) (add_loaded-unavailable p o l)
      ∙ append_assoc (providers_of_statuses l.unavailable) (if gave_data o then [] else p ∷ [])
          (select (λ q. not (is_available q)) ps)
      ∙ ap (λ xs. providers_of_statuses l.unavailable ++ xs)
          (at_front (is_available p) p (select (λ q. not (is_available q)) ps))
    where
      at_front :
          (b : Bool) (x : Provider) (xs : List Provider)
          → ((if b then [] else x ∷ []) ++ xs) ≡ (if not b then x ∷ xs else xs)
      at_front true x xs = refl
      at_front false x xs = refl

  pub load_costs-unavailable :
      providers_of_statuses (load_costs adapters request periods).unavailable
      ≡ select (λ p. not (is_available p)) request.providers
  unfolding load_costs
  load_costs-unavailable = load_from-unavailable request.providers nothing_loaded

  -- a provider of the request is skipped just if its adapter failed
  has_status-available :
      (unavailable : List ProviderStatus) (ps : List Provider) (q : Provider)
      → providers_of_statuses unavailable ≡ select (λ p. not (is_available p)) ps
      → contains q ps ≡ true
      → has_status unavailable q ≡ not (is_available q)
  has_status-available unavailable ps q h k =
      has_status-map unavailable q
      ∙ ap (contains q) h
      ∙ contains-select (λ p. not (is_available p)) q ps k

  pub active_providers-available :
      active_providers (load_costs adapters request periods).unavailable request.providers
      ≡ select is_available request.providers
  active_providers-available = select-cong _ is_available request.providers (
      All-implies (λ q. contains q request.providers ≡ true)
        (λ q. not (has_status (load_costs adapters request periods).unavailable q) ≡ is_available q)
        request.providers
        (λ q k.
          ap not (
            has_status-available (load_costs adapters request periods).unavailable request.providers
              q load_costs-unavailable k)
          ∙ twice (is_available q))
        (contains-All request.providers))
    where
      twice : (b : Bool) → not (not b) ≡ b
      twice b = ground arith

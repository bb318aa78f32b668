-- ===== src/Anomaly/Allocation.antt =====
-- packages/anomaly/src/cloudcause_anomaly/actors.py: `ActorAllocation` and `allocate_actor_costs`.
use cloudcause.Prelude.{
  ℕ, String, Bool, false, Option, List, [], ◌∷◌, ◌++◌, contains, string_eq, nat_beq, ◌==◌,
  if◌then◌else◌,
}
use cloudcause.Prelude.Dict.{Dict, get, get_or}
use cloudcause.Prelude.Floats.{FloatOps, dec, ◌⊕◌, ◌⊘◌, ◌≼◌, ◌≺◌, round, abs_f}
use cloudcause.Prelude.Sorting.{sort_by}
use cloudcause.Prelude.Text.{text_lt}
use cloudcause.Contracts.Investigation.{truthy}
use cloudcause.Contracts.Records.{CostRecord, AuditEvent}
use cloudcause.Anomaly.Actors.{
  WeightMethod, by_token_count, by_invocation_count, by_mixed, by_none, unattributed_actor,
  actor_tag_key, Index, index_events, matching_events, actor_record, split_record, actor_weights,
}

-- the warnings; the last one names the share that matched no event
pub data ActorWarning (Num : Type 0) : Type 0 where
  invocation_warning mixed_warning : ActorWarning Num
  unmatched_warning : Num → ActorWarning Num

-- `ActorAllocation`
pub record ActorAllocation (Num : Type 0) : Type 0 where
  pub records : List (CostRecord Num)
  pub weight_method : WeightMethod
  pub attributed_cost : Num
  pub unattributed_cost : Num
  pub attributed_magnitude : Num
  pub unattributed_magnitude : Num
  pub actors : List String
  pub warnings : List (ActorWarning Num)

-- the local variables of the loop that adds the parts up
pub record Sums (Num : Type 0) : Type 0 where
  pub attributed : Num
  pub unattributed : Num
  pub attributed_abs : Num
  pub unattributed_abs : Num
  pub actors : List String

-- set(weights) == {UNATTRIBUTED_ACTOR}
abbrev names_nobody {κ} : {V : Type κ} → Dict String V → Bool
names_nobody ((actor, _) ∷ []) = actor == unattributed_actor
names_nobody _ = false

abbrev method_code : WeightMethod → ℕ
method_code by_token_count = 0
method_code by_invocation_count = 1
method_code by_mixed = 2
method_code by_none = 3

abbrev same_method : WeightMethod → WeightMethod → Bool
same_method a b = nat_beq (method_code a) (method_code b)

-- the method of a set of methods, which lists its members as they came
unfoldable pub common_method : List WeightMethod → WeightMethod
common_method [] = by_none
common_method (m ∷ []) = m
common_method (m ∷ n ∷ rest) = if same_method m n then common_method (n ∷ rest) else by_mixed

module _ {Num : Type 0} ⦃F : FloatOps Num⦄ where
  unfoldable pub total_cost : ActorAllocation Num → Num
  total_cost a = round 6 (a.attributed_cost ⊕ a.unattributed_cost)

  unfoldable pub unattributed_share : ActorAllocation Num → Num
  unattributed_share a =
      let total_magnitude = a.attributed_magnitude ⊕ a.unattributed_magnitude in
      if total_magnitude ≼ dec 0 0
      then dec 0 0
      else round 6 (a.unattributed_magnitude ⊘ total_magnitude)

  -- the parts of one record; without weights it is one part, which nobody has
  unfoldable pub parts_of : CostRecord Num → Dict String Num → List (CostRecord Num)
  unfolding actor_record split_record
  parts_of r [] = actor_record r unattributed_actor (dec 1 0) ∷ []
  parts_of r (w ∷ rest) = split_record r (w ∷ rest)

  abbrev note_method : Dict String Num × WeightMethod → List WeightMethod → List WeightMethod
  note_method ([], _) methods = methods
  note_method (w ∷ rest, method) methods =
      if names_nobody (w ∷ rest) then methods else method ∷ methods

  -- the body of the loop over the allocated records
  unfoldable pub count_part : CostRecord Num → Sums Num → Sums Num
  unfolding get
  count_part r s =
      let actor = get_or actor_tag_key unattributed_actor r.tags in
      let known = if contains actor s.actors then s.actors else s.actors ++ actor ∷ [] in
      if actor == unattributed_actor
      then record s {
        unattributed = s.unattributed ⊕ r.effective_cost;
        unattributed_abs = s.unattributed_abs ⊕ abs_f r.effective_cost;
        actors = known;
      }
      else record s {
        attributed = s.attributed ⊕ r.effective_cost;
        attributed_abs = s.attributed_abs ⊕ abs_f r.effective_cost;
        actors = known;
      }

  unfoldable pub count_parts : List (CostRecord Num) → Sums Num → Sums Num
  unfolding count_part
  count_parts [] s = s
  count_parts (r ∷ rest) s = count_parts rest (count_part r s)

  abbrev pub no_sums : Sums Num
  no_sums = record {
    attributed = dec 0 0;
    unattributed = dec 0 0;
    attributed_abs = dec 0 0;
    unattributed_abs = dec 0 0;
    actors = [];
  }

  abbrev method_warnings : WeightMethod → List (ActorWarning Num)
  method_warnings by_invocation_count = invocation_warning ∷ []
  method_warnings by_mixed = mixed_warning ∷ []
  method_warnings _ = []

  -- the summary of the allocated records, and its last warning
  abbrev pub summary : List (CostRecord Num) → WeightMethod → Sums Num → ActorAllocation Num
  summary parts method s = record {
    records = parts;
    weight_method = method;
    attributed_cost = round 6 s.attributed;
    unattributed_cost = round 6 s.unattributed;
    attributed_magnitude = round 6 s.attributed_abs;
    unattributed_magnitude = round 6 s.unattributed_abs;
    actors = sort_by text_lt s.actors;
    warnings = method_warnings method;
  }

  unfoldable pub warn_unmatched : ActorAllocation Num → ActorAllocation Num
  unfolding unattributed_share
  warn_unmatched a =
      if dec 0 0 ≺ a.unattributed_magnitude
      then record a { warnings = a.warnings ++ unmatched_warning (unattributed_share a) ∷ [] }
      else a

  module _ (parse : String → Option Num) where
    unfoldable pub record_weights : Index → CostRecord Num → Dict String Num × WeightMethod
    unfolding actor_weights matching_events
    record_weights index r =
        actor_weights parse (if truthy r.resource_id then matching_events index r else [])

    -- the loop over the records: the parts, and the methods that were used
    unfoldable pub allocate_records : Index → List (CostRecord Num) → List (CostRecord Num)
    unfolding record_weights parts_of
    allocate_records index [] = []
    allocate_records index (r ∷ rest) =
        parts_of r (record_weights index r).0 ++ allocate_records index rest

    unfoldable pub used_methods : Index → List (CostRecord Num) → List WeightMethod
    unfolding record_weights
    used_methods index [] = []
    used_methods index (r ∷ rest) = note_method (record_weights index r) (used_methods index rest)

    -- `allocate_actor_costs`
    unfoldable pub allocate_actor_costs :
        List (CostRecord Num) → List AuditEvent → ActorAllocation Num
    unfolding index_events allocate_records used_methods common_method count_parts sort_by
        warn_unmatched
    allocate_actor_costs records audit_events =
        let index = index_events audit_events [] in
        let parts = allocate_records index records in
        warn_unmatched
          (summary parts (common_method (used_methods index records)) (count_parts parts no_sums))

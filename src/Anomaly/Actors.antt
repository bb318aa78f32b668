-- ===== src/Anomaly/Actors.antt =====
-- packages/anomaly/src/cloudcause_anomaly/actors.py: cost split across the principals of the audit trail.
-- `parse` is Python's `float` of a text, as in `token_count`; an event has the UTC day of its time.
use Prim.Native.String.{len}
use text.Mathlib.Text.{starts_with}
use cloudcause.Prelude.{
  ℕ, String, Bool, not, ◌&&◌, ◌||◌, Option, none, some, List, [], ◌∷◌, ◌++◌, map, contains,
  string_eq, nat_eq, pair_eq, ◌==◌, if◌then◌else◌,
}
use cloudcause.Prelude.Dict.{Dict, get, get_or, put}
use cloudcause.Prelude.Floats.{FloatOps, dec, ◌⊕◌, ◌⊖◌, ◌⊗◌, ◌⊘◌, ◌≼◌, ◌≺◌, round, sum}
use cloudcause.Prelude.Sorting.{sort_by}
use cloudcause.Prelude.Text.{text_lt, has_part, after_last}
use cloudcause.Contracts.Records.{CostRecord, AuditEvent, token_count}
use cloudcause.Anomaly.Daily.{add_to}

abbrev pub unattributed_actor : String
unattributed_actor = "unattributed"

abbrev pub actor_tag_key : String
actor_tag_key = "cloudcause:actor"

-- `WeightMethod`
pub data WeightMethod : Type 0 where
  by_token_count by_invocation_count by_mixed by_none : WeightMethod

-- `_resource_aliases`; each separator takes a byte, so the length of the text is fuel enough
abbrev aliases_with : String → String → List String
aliases_with resource_id tail =
    if (tail == "") || (tail == resource_id) then resource_id ∷ [] else resource_id ∷ tail ∷ []

unfoldable pub resource_aliases : String → List String
unfolding after_last
resource_aliases resource_id =
    let is_ec2_instance = has_part ":ec2:" resource_id && has_part ":instance/" resource_id in
    if not (starts_with resource_id "arn:")
    then resource_id ∷ []
    else if not (is_ec2_instance || has_part ":s3:::" resource_id)
    then resource_id ∷ []
    else aliases_with resource_id
        (after_last (len resource_id) (if is_ec2_instance then "/" else ":") resource_id)

-- event.actor or UNATTRIBUTED_ACTOR
abbrev pub actor_of : AuditEvent → String
actor_of event = elim event.actor [
  | none ↦ unattributed_actor
  | some a ↦ if a == "" then unattributed_actor else a
]

-- the events of each resource on each day
abbrev pub Index : Type 0
Index = Dict (String × ℕ) (List AuditEvent)

abbrev pub at_key : Index → String × ℕ → List AuditEvent
at_key index key = get_or key [] index

abbrev pub append_at : AuditEvent → List String → Index → Index
append_at event [] index = index
append_at event (alias ∷ rest) index =
    append_at event rest
      (put (alias, event.event_day) (at_key index (alias, event.event_day) ++ event ∷ []) index)

abbrev pub index_resources : AuditEvent → List String → Index → Index
index_resources event [] index = index
index_resources event (resource_id ∷ rest) index =
    index_resources event rest (append_at event (resource_aliases resource_id) index)

-- `events_by_resource_day`
unfoldable pub index_events : List AuditEvent → Index → Index
unfolding get put resource_aliases
index_events [] index = index
index_events (event ∷ rest) index =
    index_events rest (index_resources event event.resource_ids index)

-- the inner loop of `_matching_events`: an event whose id was seen is passed over
abbrev pub is_seen : AuditEvent → List AuditEvent → Bool
is_seen event matches = contains event.event_id (map (λ (e : AuditEvent). e.event_id) matches)

abbrev pub add_unseen : List AuditEvent → List AuditEvent → List AuditEvent
add_unseen [] matches = matches
add_unseen (event ∷ rest) matches =
    add_unseen rest (if is_seen event matches then matches else matches ++ event ∷ [])

abbrev pub match_aliases : Index → ℕ → List String → List AuditEvent → List AuditEvent
match_aliases index day [] matches = matches
match_aliases index day (alias ∷ rest) matches =
    match_aliases index day rest (add_unseen (at_key index (alias, day)) matches)

module _ {Num : Type 0} ⦃F : FloatOps Num⦄ where
  abbrev pub resource_text : CostRecord Num → String
  resource_text r = elim r.resource_id [ none ↦ "" | some id ↦ id ]

  -- `_matching_events`
  unfoldable pub matching_events : Index → CostRecord Num → List AuditEvent
  unfolding get resource_aliases
  matching_events index r = match_aliases index r.usage_date (resource_aliases (resource_text r)) []

  -- `_actor_record`
  unfoldable pub actor_record : CostRecord Num → String → Num → CostRecord Num
  unfolding put
  actor_record r actor share = record r {
    billed_cost = round 6 (r.billed_cost ⊗ share);
    effective_cost = round 6 (r.effective_cost ⊗ share);
    usage_quantity = round 6 (r.usage_quantity ⊗ share);
    tags = put actor_tag_key actor r.tags;
  }

  -- sorted by the larger weight, then by the name
  abbrev pub heavier : String × Num → String × Num → Bool
  heavier a b = (b.1 ≺ a.1) || (not (a.1 ≺ b.1) && text_lt a.0 b.0)

  unfoldable pub shares : CostRecord Num → Num → Dict String Num → List (CostRecord Num)
  unfolding actor_record
  shares r total [] = []
  shares r total ((actor, weight) ∷ rest) =
      actor_record r actor (weight ⊘ total) ∷ shares r total rest

  abbrev pub is_zero : Num → Bool
  is_zero a = (a ≼ dec 0 0) && (dec 0 0 ≼ a)

  -- what the first part has of a quantity, with the residual of all the parts
  unfoldable pub absorb : Num → List Num → Num → Num
  absorb source parts first =
      let residual = round 6 (source ⊖ sum parts) in
      if is_zero residual then first else round 6 (first ⊕ residual)

  unfoldable pub settle : CostRecord Num → List (CostRecord Num) → List (CostRecord Num)
  unfolding absorb
  settle r [] = []
  settle r (p ∷ rest) =
      record p {
        billed_cost =
            absorb r.billed_cost (map (λ (q : CostRecord Num). q.billed_cost) (p ∷ rest))
              p.billed_cost;
        effective_cost =
            absorb r.effective_cost (map (λ (q : CostRecord Num). q.effective_cost) (p ∷ rest))
              p.effective_cost;
        usage_quantity =
            absorb r.usage_quantity (map (λ (q : CostRecord Num). q.usage_quantity) (p ∷ rest))
              p.usage_quantity;
      }
      ∷ rest

  -- `_split_record`
  unfoldable pub split_record : CostRecord Num → Dict String Num → List (CostRecord Num)
  unfolding shares settle sort_by actor_record
  split_record r weights =
      let total = sum (map (λ w. w.1) weights) in
      if total ≼ dec 0 0
      then actor_record r unattributed_actor (dec 1 0) ∷ []
      else settle r (shares r total (sort_by heavier weights))

  module _ (parse : String → Option Num) where
    -- the token counts, if every event has a positive one
    abbrev positive_count : AuditEvent → Option Num
    positive_count event = elim (token_count parse event) [
      | none ↦ none
      | some n ↦ if dec 0 0 ≺ n then some n else none
    ]

    abbrev pub count_tokens : List AuditEvent → Dict String Num → Option (Dict String Num)
    count_tokens [] weights = some weights
    count_tokens (event ∷ rest) weights = elim (positive_count event) [
      | none ↦ none
      | some n ↦ count_tokens rest (add_to (actor_of event) n weights)
    ]

    abbrev pub count_events : List AuditEvent → Dict String Num → Dict String Num
    count_events [] weights = weights
    count_events (event ∷ rest) weights =
        count_events rest (add_to (actor_of event) (dec 1 0) weights)

    -- `_actor_weights`
    unfoldable pub actor_weights : List AuditEvent → Dict String Num × WeightMethod
    unfolding token_count add_to
    actor_weights [] = ([], by_none)
    actor_weights (event ∷ rest) = elim (count_tokens (event ∷ rest) []) [
      | some weights ↦ (weights, by_token_count)
      | none ↦ (count_events (event ∷ rest) [], by_invocation_count)
    ]

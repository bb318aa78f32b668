-- ===== src/Anomaly/Join.antt =====
-- actors.py: the events that are joined to a record by `_matching_events`.
use cloudcause.Prelude.{
  ℕ, ◌≡◌, refl, ◌∙◌, ap, String, Bool, true, false, ◌&&◌, ◌||◌, List, [], ◌∷◌, ◌++◌, map, any,
  contains, Bool-cases, inl, inr, arith, string_eq, nat_eq, pair_eq, ◌==◌, if◌then◌else◌,
}
use cloudcause.Prelude.Dict.{get, put, get-put}
use cloudcause.Prelude.Floats.{FloatOps}
use cloudcause.Contracts.Records.{AuditEvent, CostRecord}
use cloudcause.Anomaly.Actors.{
  resource_aliases, Index, at_key, append_at, index_resources, index_events, is_seen, add_unseen,
  match_aliases, matching_events, resource_text,
}

-- one of the events has the id
abbrev pub has_event : String → List AuditEvent → Bool
has_event id events = contains id (map (λ (e : AuditEvent). e.event_id) events)

-- the event has the id, is of the day, and names a resource with the alias
abbrev pub names_alias : String → AuditEvent → Bool
names_alias alias e =
    any (λ resource_id. contains alias (resource_aliases resource_id)) e.resource_ids

abbrev pub is_at : String → ℕ → String → AuditEvent → Bool
is_at id day alias e = (e.event_id == id) && ((e.event_day == day) && names_alias alias e)

has_event-append :
    (id : String) (es fs : List AuditEvent)
    → has_event id (es ++ fs) ≡ (has_event id es || has_event id fs)
has_event-append id [] fs = refl
has_event-append id (e ∷ es) fs = ground (arith, has_event-append id es fs)

at_key-put :
    (index : Index) (key other : String × ℕ) (es : List AuditEvent)
    → at_key (put key es index) other ≡ (if key == other then es else at_key index other)
at_key-put index key other es = ground (arith, get-put key other es index)

-- one more event under a key
put-has_event :
    (id : String) (key other : String × ℕ) (e : AuditEvent) (index : Index)
    → has_event id (at_key (put key (at_key index key ++ e ∷ []) index) other)
      ≡ (has_event id (at_key index other) || ((key == other) && (e.event_id == id)))
put-has_event id key other e index = elim (Bool-cases (key == other)) [
  | inl same ↦ cc (
    same,
    at_key-put index key other (at_key index key ++ e ∷ []),
    has_event-append id (at_key index key) (e ∷ []),
    or_false (e.event_id == id),
    ap (λ k. at_key index k) ((pair_eq.same_iff key other).0 same),
  )
  | inr different ↦ cc (
    different,
    at_key-put index key other (at_key index key ++ e ∷ []),
    or_false (has_event id (at_key index other)),
  )
]
  where
    or_false : (b : Bool) → (b || false) ≡ b
    or_false b = ground arith

append_at-has_event :
    (id alias : String) (day : ℕ) (e : AuditEvent) (aliases : List String) (index : Index)
    → has_event id (at_key (append_at e aliases index) (alias, day)) ≡ (
        has_event id (at_key index (alias, day))
        || ((e.event_id == id) && ((e.event_day == day) && contains alias aliases)))
append_at-has_event id alias day e [] index =
    spread (has_event id (at_key index (alias, day))) (e.event_id == id) (e.event_day == day)
  where
    spread : (a b c : Bool) → a ≡ (a || (b && (c && false)))
    spread a b c = ground arith
append_at-has_event id alias day e (a ∷ rest) index =
    append_at-has_event id alias day e rest
      (put (a, e.event_day) (at_key index (a, e.event_day) ++ e ∷ []) index)
    ∙ ap (λ b. b || ((e.event_id == id) && ((e.event_day == day) && contains alias rest)))
        (put-has_event id (a, e.event_day) (alias, day) e index)
    ∙ spread (has_event id (at_key index (alias, day))) (a == alias) (e.event_day == day)
        (e.event_id == id) (contains alias rest)
  where
    spread :
        (x a d i r : Bool)
        → ((x || ((a && d) && i)) || (i && (d && r))) ≡ (x || (i && (d && (a || r))))
    spread x a d i r = ground arith

index_resources-has_event :
    (id alias : String) (day : ℕ) (e : AuditEvent) (ids : List String) (index : Index)
    → has_event id (at_key (index_resources e ids index) (alias, day)) ≡ (
        has_event id (at_key index (alias, day))
        || ((e.event_id == id)
            && ((e.event_day == day) && any (λ r. contains alias (resource_aliases r)) ids)))
index_resources-has_event id alias day e [] index = append_at-has_event id alias day e [] index
index_resources-has_event id alias day e (r ∷ rest) index =
    index_resources-has_event id alias day e rest (append_at e (resource_aliases r) index)
    ∙ ap
        (λ b.
          b
          || ((e.event_id == id)
              && ((e.event_day == day) && any (λ r. contains alias (resource_aliases r)) rest)))
        (append_at-has_event id alias day e (resource_aliases r) index)
    ∙ spread (has_event id (at_key index (alias, day))) (contains alias (resource_aliases r))
        (e.event_day == day) (e.event_id == id) _
  where
    spread :
        (x a d i r : Bool)
        → ((x || (i && (d && a))) || (i && (d && r))) ≡ (x || (i && (d && (a || r))))
    spread x a d i r = ground arith

or_assoc : (a b c : Bool) → ((a || b) || c) ≡ (a || (b || c))
or_assoc a b c = ground arith

index_events-has_event :
    (id alias : String) (day : ℕ) (es : List AuditEvent) (index : Index)
    → has_event id (at_key (index_events es index) (alias, day))
      ≡ (has_event id (at_key index (alias, day)) || any (is_at id day alias) es)
unfolding index_events
index_events-has_event id alias day [] index = ground arith
index_events-has_event id alias day (e ∷ rest) index =
    index_events-has_event id alias day rest (index_resources e e.resource_ids index)
    ∙ ap (λ b. b || any (is_at id day alias) rest)
        (index_resources-has_event id alias day e e.resource_ids index)
    ∙ or_assoc (has_event id (at_key index (alias, day))) (is_at id day alias e)
        (any (is_at id day alias) rest)

add_unseen-has_event :
    (id : String) (es ms : List AuditEvent)
    → has_event id (add_unseen es ms) ≡ (has_event id ms || has_event id es)
add_unseen-has_event id [] ms = ground arith
add_unseen-has_event id (e ∷ rest) ms = elim (Bool-cases (is_seen e ms)) [
  | inl seen ↦ cc (seen, add_unseen-has_event id rest ms, absorbed seen)
  | inr new ↦ cc (
    new,
    add_unseen-has_event id rest (ms ++ e ∷ []),
    has_event-append id ms (e ∷ []),
    regroup (has_event id ms) (e.event_id == id) (has_event id rest),
  )
]
  where
    regroup : (a b c : Bool) → ((a || (b || false)) || c) ≡ (a || (b || c))
    regroup a b c = ground arith

    absorbed :
        is_seen e ms ≡ true
        → (has_event id ms || has_event id rest)
          ≡ (has_event id ms || ((e.event_id == id) || has_event id rest))
    absorbed seen = ground (arith, string_eq.same_iff e.event_id id, seen)

match_aliases-has_event :
    (id : String) (index : Index) (day : ℕ) (aliases : List String) (ms : List AuditEvent)
    → has_event id (match_aliases index day aliases ms)
      ≡ (has_event id ms || any (λ alias. has_event id (at_key index (alias, day))) aliases)
match_aliases-has_event id index day [] ms = ground arith
match_aliases-has_event id index day (a ∷ rest) ms =
    match_aliases-has_event id index day rest (add_unseen (at_key index (a, day)) ms)
    ∙ ap (λ b. b || any (λ alias. has_event id (at_key index (alias, day))) rest)
        (add_unseen-has_event id (at_key index (a, day)) ms)
    ∙ or_assoc (has_event id ms) (has_event id (at_key index (a, day))) _

-- no two of the events have the same id
abbrev pub HasNoRepeat : List AuditEvent → Type 0
HasNoRepeat [] = Unit
HasNoRepeat (e ∷ rest) = (has_event e.event_id rest ≡ false) × HasNoRepeat rest

append-HasNoRepeat :
    (ms : List AuditEvent) (e : AuditEvent)
    → is_seen e ms ≡ false
    → HasNoRepeat ms
    → HasNoRepeat (ms ++ e ∷ [])
append-HasNoRepeat [] e h k = (refl, tt)
append-HasNoRepeat (m ∷ ms) e h k = (
  has_event-append m.event_id ms (e ∷ [])
      ∙ ground (
        arith,
        h,
        k.0,
        string_eq.same_iff m.event_id e.event_id,
        string_eq.same_iff e.event_id m.event_id,
      ),
  append-HasNoRepeat ms e (ground (arith, h)) k.1,
)

add_unseen-HasNoRepeat : (es ms : List AuditEvent) → HasNoRepeat ms → HasNoRepeat (add_unseen es ms)
add_unseen-HasNoRepeat [] ms h = h
add_unseen-HasNoRepeat (e ∷ rest) ms h = elim (Bool-cases (is_seen e ms)) [
  | inl seen ↦ rw seen (add_unseen-HasNoRepeat rest ms h)
  | inr new ↦ rw new (add_unseen-HasNoRepeat rest (ms ++ e ∷ []) (append-HasNoRepeat ms e new h))
]

match_aliases-HasNoRepeat :
    (index : Index) (day : ℕ) (aliases : List String) (ms : List AuditEvent)
    → HasNoRepeat ms
    → HasNoRepeat (match_aliases index day aliases ms)
match_aliases-HasNoRepeat index day [] ms h = h
match_aliases-HasNoRepeat index day (a ∷ rest) ms h =
    match_aliases-HasNoRepeat index day rest _ (add_unseen-HasNoRepeat (at_key index (a, day)) ms h)

any-cong :
    (p q : String → Bool) → ((x : String) → p x ≡ q x) → (xs : List String) → any p xs ≡ any q xs
any-cong p q h [] = refl
any-cong p q h (x ∷ xs) = cc (h x, any-cong p q h xs)

-- The events that are matched with a record are exactly those of its usage day that name its resource
-- under one of its aliases, told apart by their ids, and none is matched twice, however many aliases
-- or resources it meets the record under.
pub matching_events_lem :
    {Num : Type 0} ⦃F : FloatOps Num⦄ (events : List AuditEvent) (r : CostRecord Num)
    → HasNoRepeat (matching_events (index_events events []) r)
      × ((id : String)
          → has_event id (matching_events (index_events events []) r)
            ≡ any
                (λ alias. any (is_at id r.usage_date alias) events)
                (resource_aliases (resource_text r)))
unfolding matching_events get
matching_events_lem events r = (
  match_aliases-HasNoRepeat (index_events events []) r.usage_date
      (resource_aliases (resource_text r)) [] tt,
  λ id.
      match_aliases-has_event id (index_events events []) r.usage_date
        (resource_aliases (resource_text r)) []
      ∙ any-cong _ _ (λ alias. index_events-has_event id alias r.usage_date events [])
          (resource_aliases (resource_text r)),
)

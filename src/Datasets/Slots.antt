-- ===== src/Datasets/Slots.antt =====
-- packages/datasets/src/cloudcause_datasets/{models,assembly}.py: one source per provider and kind, the
-- number of sources, and one currency.
use cloudcause.Prelude.{
  ℕ, suc, ◌≤◌, ◌≡◌, ◌↔◌, refl, sym, ◌∙◌, ◌⊎◌, inl, inr, String, Bool, true, false, ◌&&◌, Option,
  none, some, List, [], ◌∷◌, All, length, string_eq, ◌==◌, Bool-cases, arith, if◌then◌else◌,
}
use cloudcause.Contracts.Common.{Provider, provider_eq}
use cloudcause.Contracts.Investigation.{truthy}
use cloudcause.Datasets.Model.{
  Kind, kind_eq, Source, Dataset, is_some, is_sealed, in_slot, source_in, replace_source,
}
use cloudcause.Datasets.Store.{Settings}
use cloudcause.Datasets.Assembly.{ParsedSource, build_source, attach, refusal, conflicts}

true≢false : true ≡ false → ⊥
true≢false h = ground arith

and_true : (a b : Bool) → (a && b) ≡ true → (a ≡ true) × (b ≡ true)
and_true a b h = ground arith

module _ {Num : Type 0} where
  -- no two sources have the same provider and kind
  abbrev pub OnePerSlot : List (Source Num) → Type 0
  OnePerSlot [] = Unit
  OnePerSlot (s ∷ rest) =
      (source_in s.summary.provider s.summary.kind rest ≡ none) × OnePerSlot rest

  -- the source has no currency or that of the dataset
  abbrev pub HasCurrency : Option String → Source Num → Type 0
  HasCurrency currency s = (truthy s.summary.currency ≡ true) → s.summary.currency ≡ currency

  abbrev pub IsConsistent : Settings → Dataset Num → Type 0
  IsConsistent settings d =
      OnePerSlot d.sources
      × (length d.sources ≤ settings.upload_max_sources)
      × All (HasCurrency d.currency) d.sources

  in_slot_iff :
      (p : Provider) (k : Kind) (s : Source Num)
      → (in_slot p k s ≡ true) ↔ ((s.summary.provider ≡ p) × (s.summary.kind ≡ k))
  unfolding in_slot
  in_slot_iff p k s = (
    λ h.
        let (a, b) = and_true (s.summary.provider == p) (s.summary.kind == k) h in
        ((provider_eq.same_iff s.summary.provider p).0 a, (kind_eq.same_iff s.summary.kind k).0 b),
    λ h.
        rw ((provider_eq.same_iff s.summary.provider p).1 h.0)
          ((kind_eq.same_iff s.summary.kind k).1 h.1),
  )

  -- two slots that hold the same source are one slot
  in_slot_same :
      (p : Provider) (k : Kind) (s new : Source Num)
      → in_slot new.summary.provider new.summary.kind s ≡ true
      → in_slot p k s ≡ in_slot p k new
  unfolding in_slot
  in_slot_same p k s new h =
      let (a, b) = (in_slot_iff new.summary.provider new.summary.kind s).0 h in cc (a, b)

  in_slot_both :
      (p : Provider) (k : Kind) (s new : Source Num)
      → in_slot p k s ≡ true
      → in_slot p k new ≡ true
      → in_slot new.summary.provider new.summary.kind s ≡ true
  in_slot_both p k s new h g =
      let (a, b) = (in_slot_iff p k s).0 h in
      let (c, d) = (in_slot_iff p k new).0 g in
      (in_slot_iff new.summary.provider new.summary.kind s).1 (a ∙ sym c, b ∙ sym d)

  -- After a source is put into its slot, a look-up of this slot gives the new source and a look-up of
  -- any other slot gives what it gave before.
  pub source_in-replace_source :
      (p : Provider) (k : Kind) (new : Source Num) (ss : List (Source Num))
      → source_in p k (replace_source new ss)
        ≡ (if in_slot p k new then some new else source_in p k ss)
  unfolding source_in replace_source
  source_in-replace_source p k new [] = refl
  source_in-replace_source p k new (s ∷ rest) =
      elim (Bool-cases (in_slot new.summary.provider new.summary.kind s)) [
        | inl same ↦ elim (Bool-cases (in_slot p k new)) [
          | inl mine ↦ cc (same, mine)
          | inr other ↦ cc (same, other, in_slot_same p k s new same)
        ]
        | inr apart ↦ elim (Bool-cases (in_slot p k s)) [
          | inl first ↦ elim (Bool-cases (in_slot p k new)) [
            | inl mine ↦ elim (true≢false (sym (in_slot_both p k s new first mine) ∙ apart)) [ ]
            | inr other ↦ cc (apart, first, other)
          ]
          | inr later ↦ cc (apart, later, source_in-replace_source p k new rest)
        ]
      ]

  replace_source-OnePerSlot :
      (new : Source Num) (ss : List (Source Num))
      → OnePerSlot ss
      → OnePerSlot (replace_source new ss)
  unfolding replace_source source_in
  replace_source-OnePerSlot new [] h = (refl, tt)
  replace_source-OnePerSlot new (s ∷ rest) h =
      elim (Bool-cases (in_slot new.summary.provider new.summary.kind s)) [
        | inl same ↦
            let (a, b) = (in_slot_iff new.summary.provider new.summary.kind s).0 same in
            rw same (cc (a, b, h.0), h.1)
        | inr other ↦ elim (Bool-cases (in_slot s.summary.provider s.summary.kind new)) [
          | inl mine ↦
              let (a, b) = (in_slot_iff s.summary.provider s.summary.kind new).0 mine in
              elim (true≢false (
                sym ((in_slot_iff new.summary.provider new.summary.kind s).1 (sym a, sym b))
                ∙ other)) [ ]
          | inr apart ↦ rw other (
            cc (source_in-replace_source s.summary.provider s.summary.kind new rest, apart, h.0),
            replace_source-OnePerSlot new rest h.1,
          )
        ]
      ]

  length-replace_source :
      (new : Source Num) (ss : List (Source Num))
      → length (replace_source new ss) ≡ (
          if is_some (source_in new.summary.provider new.summary.kind ss)
          then length ss
          else suc (length ss))
  unfolding replace_source source_in
  length-replace_source new [] = refl
  length-replace_source new (s ∷ rest) =
      elim (Bool-cases (in_slot new.summary.provider new.summary.kind s)) [
        | inl same ↦ cc same
        | inr other ↦
            elim (Bool-cases (is_some (source_in new.summary.provider new.summary.kind rest))) [
              | inl there ↦ cc (other, there, length-replace_source new rest)
              | inr absent ↦ cc (other, absent, length-replace_source new rest)
            ]
      ]

  replace_source-All :
      (P : Source Num → Type 0) (new : Source Num) (ss : List (Source Num))
      → P new
      → All P ss
      → All P (replace_source new ss)
  unfolding replace_source
  replace_source-All P new [] h k = (h, tt)
  replace_source-All P new (s ∷ rest) h k =
      elim (Bool-cases (in_slot new.summary.provider new.summary.kind s)) [
        | inl same ↦ rw same (h, k.1)
        | inr other ↦ rw other (k.0, replace_source-All P new rest h k.1)
      ]

  All-implies :
      (P Q : Source Num → Type 0) (ss : List (Source Num))
      → ((s : Source Num) → P s → Q s)
      → All P ss
      → All Q ss
  All-implies P Q [] f h = tt
  All-implies P Q (s ∷ rest) f h = (f s h.0, All-implies P Q rest f h.1)

  -- the new currency is the old one, unless no source had one
  one_currency :
      (given held : Option String) (s : Source Num)
      → conflicts given held ≡ false
      → HasCurrency held s
      → HasCurrency (if truthy given then given else held) s
  one_currency none held s h k t = k t
  one_currency (some g) none s h k t = ground (arith, k t)
  one_currency (some g) (some c) s h k t = ground (arith, k t, string_eq.same_iff g c)

  -- a refusal of `none` is what its three tests say
  refusal-none :
      (settings : Settings) (p : Provider) (k : Kind) (parsed : ParsedSource Num) (d : Dataset Num)
      → refusal settings p k parsed d ≡ none
      → (is_sealed d ≡ false)
        × ((is_some (source_in p k d.sources) ≡ true)
            ⊎ (suc (length d.sources) ≤ settings.upload_max_sources))
        × (conflicts parsed.currency d.currency ≡ false)
  unfolding refusal
  refusal-none settings p k parsed d h = ground arith

  -- An upload that `add_source` accepts leaves a consistent dataset consistent: one source for each provider
  -- and kind, no more sources than the setting allows, and one currency for all of them.
  pub attach-IsConsistent :
      (settings : Settings) (now : ℕ) (p : Provider) (k : Kind) (parsed : ParsedSource Num)
      (byte_size : ℕ) (d : Dataset Num)
      → IsConsistent settings d
      → refusal settings p k parsed d ≡ none
      → IsConsistent settings (attach (build_source now p k parsed byte_size) parsed.currency d)
  unfolding attach build_source
  attach-IsConsistent settings now p k parsed byte_size d (one, few, same) h =
      let new = build_source now p k parsed byte_size in
      let (_, room, fits) = refusal-none settings p k parsed d h in
      (
        replace_source-OnePerSlot new d.sources one,
        within_limit room,
        replace_source-All _ new d.sources (own_currency parsed.currency d.currency)
            (All-implies _ _ d.sources (λ s. one_currency parsed.currency d.currency s fits) same),
      )
    where
      own_currency :
          (given held : Option String)
          → truthy given ≡ true
          → given ≡ (if truthy given then given else held)
      own_currency given held t = cc t

      within_limit :
          (is_some (source_in p k d.sources) ≡ true)
            ⊎ (suc (length d.sources) ≤ settings.upload_max_sources)
          → length (replace_source (build_source now p k parsed byte_size) d.sources)
            ≤ settings.upload_max_sources
      within_limit room =
          ground
            (arith, few, length-replace_source (build_source now p k parsed byte_size) d.sources)

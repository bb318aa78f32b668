-- ===== src/Evidence/Ranking.antt =====
-- packages/evidence/src/cloudcause_evidence/validation.py: `rank_findings`.
use mathlib.Core.List.{Perm}
use cloudcause.Prelude.{Bool, true, false, ◌≡◌, List, [], ◌∷◌, arith, if◌then◌else◌}
use cloudcause.Prelude.Sorting.{sort_by, IsSorted, sort_by-IsSorted, sort_by-Perm}
use cloudcause.Prelude.Floats.{FloatOps, FloatLaws, ◌≺◌, ◌≼◌}
use cloudcause.Contracts.Investigation.{Finding}

module _ {Num : Type 0} ⦃F : FloatOps Num⦄ where
  -- The order of the sort keys (is_uncertain, -actual_cost_increase, -confidence): tuples compare at
  -- the first place where they differ, and -a < -b is b < a.
  unfoldable pub ranks_before : Finding Num → Finding Num → Bool
  ranks_before a b =
      if a.is_uncertain
      then (if b.is_uncertain then by_impact a b else false)
      else if b.is_uncertain
      then true
      else by_impact a b
    where
      by_impact : Finding Num → Finding Num → Bool
      by_impact a b =
          if b.actual_cost_increase ≺ a.actual_cost_increase
          then true
          else if a.actual_cost_increase ≺ b.actual_cost_increase
          then false
          else b.confidence ≺ a.confidence

  unfoldable pub rank_findings : List (Finding Num) → List (Finding Num)
  rank_findings findings = sort_by ranks_before findings

  ranks_before_asym :
      (L : FloatLaws Num) (a b : Finding Num) → ranks_before a b ≡ true → ranks_before b a ≡ false
  unfolding ranks_before
  ranks_before_asym L a b h = ground (
    arith,
    L.total_f a.actual_cost_increase b.actual_cost_increase,
    L.total_f b.actual_cost_increase a.actual_cost_increase,
    L.total_f a.confidence b.confidence,
    L.total_f b.confidence a.confidence,
  )

  -- A finding may stand before another: it is no uncertain one before a certain one; of two that are
  -- alike in this its increase is not the smaller one, and for equal increases neither is its confidence.
  abbrev pub MayPrecede : Finding Num → Finding Num → Type 0
  MayPrecede a b =
      (b.is_uncertain ≡ false → a.is_uncertain ≡ false)
      × (a.is_uncertain ≡ b.is_uncertain
          → ((b.actual_cost_increase ≼ a.actual_cost_increase) ≡ true)
            × ((a.actual_cost_increase ≼ b.actual_cost_increase) ≡ true
                → (b.confidence ≼ a.confidence) ≡ true))

  abbrev pub IsRanked : List (Finding Num) → Type 0
  IsRanked [] = Unit
  IsRanked (a ∷ []) = Unit
  IsRanked (a ∷ b ∷ rest) = MayPrecede a b × IsRanked (b ∷ rest)

  not_before-MayPrecede :
      (L : FloatLaws Num) (a b : Finding Num) → ranks_before b a ≡ false → MayPrecede a b
  unfolding ranks_before
  not_before-MayPrecede L a b h = ground (
    arith,
    h,
    L.total_f a.actual_cost_increase b.actual_cost_increase,
    L.total_f b.actual_cost_increase a.actual_cost_increase,
    L.total_f a.confidence b.confidence,
    L.total_f b.confidence a.confidence,
  )

  IsSorted-IsRanked :
      (L : FloatLaws Num) (fs : List (Finding Num)) → IsSorted ranks_before fs → IsRanked fs
  IsSorted-IsRanked L [] h = tt
  IsSorted-IsRanked L (a ∷ []) h = tt
  IsSorted-IsRanked L (a ∷ b ∷ rest) h =
      (not_before-MayPrecede L a b h.0, IsSorted-IsRanked L (b ∷ rest) h.1)

  -- Ranking reorders the findings and nothing else. Afterwards no uncertain finding stands in front of
  -- a certain one; of two neighbours that are both certain or both uncertain the first does not claim the
  -- smaller increase, and if their increases are equal it does not have the lower confidence.
  pub rank_findings-IsRanked :
      (L : FloatLaws Num) (findings : List (Finding Num))
      → Perm (rank_findings findings) findings × IsRanked (rank_findings findings)
  unfolding rank_findings
  rank_findings-IsRanked L findings = (
    sort_by-Perm ranks_before findings,
    IsSorted-IsRanked L _ (sort_by-IsSorted ranks_before (ranks_before_asym L) findings),
  )

-- ===== src/Evidence/Validate/Corroboration.antt =====
-- validation.py: the caps on the confidence, through the checks that follow them.
use text.Mathlib.TextEquality.{eq_iff}
use cloudcause.Prelude.{String, true, ◌≡◌, List, Option, none, some, arith}
use cloudcause.Prelude.Floats.{FloatOps, FloatLaws, dec, ◌≼◌, min_f}
use cloudcause.Prelude.Bounds.{min_f-le_left, min_f-le_right}
use cloudcause.Contracts.Investigation.{Finding, is_nonempty}
use cloudcause.Evidence.Checks.{
  Work, is_corroborated, check_corroboration, check_cause, missing_cause_sources, fallback_category,
}
use cloudcause.Evidence.Validate.{check_sources}

module _ {Num : Type 0} ⦃F : FloatOps Num⦄ where
  -- a finding of high confidence is corroborated
  abbrev pub Corroborated : Finding Num → Type 0
  Corroborated f = (dec 8 1 ≼ f.confidence) ≡ true → is_corroborated f ≡ true

  -- a finding whose provider supplied no source that can show a cause
  abbrev pub Unexplained : Finding Num → Type 0
  Unexplained f =
      (f.category ≡ fallback_category) × (f.is_uncertain ≡ true) × ((f.confidence ≼ dec 4 1) ≡ true)

module _ {Num : Type 0} ⦃F : FloatOps Num⦄ (L : FloatLaws Num) where
  pub check_corroboration-Corroborated :
      (w : Work Num) → Corroborated (check_corroboration w).working
  unfolding check_corroboration
  check_corroboration-Corroborated w h = ground (
    arith,
    L.tenths_lt 7 8,
    L.trans_f (dec 8 1) (min_f w.working.confidence (dec 7 1)) (dec 7 1),
    min_f-le_right L w.working.confidence (dec 7 1),
  )

  check_cause-Corroborated :
      (available : List String) (w : Work Num)
      → Corroborated w.working
      → Corroborated (check_cause available w).working
  unfolding check_cause
  check_cause-Corroborated available w c h = ground (
    arith,
    c,
    L.trans_f (dec 8 1) (min_f w.working.confidence (dec 4 1)) w.working.confidence,
    min_f-le_left L w.working.confidence (dec 4 1),
  )

  pub check_sources-Corroborated :
      (o : Option (List String)) (w : Work Num)
      → Corroborated w.working
      → Corroborated (check_sources o w).working
  unfolding check_sources
  check_sources-Corroborated none w c = c
  check_sources-Corroborated (some available) w c = check_cause-Corroborated available w c

  pub check_cause-Unexplained :
      (available : List String) (w : Work Num)
      → is_nonempty (missing_cause_sources available) ≡ true
      → Unexplained (check_cause available w).working
  unfolding check_cause
  check_cause-Unexplained available w h = ground (
    arith,
    eq_iff w.working.category fallback_category,
    min_f-le_right L w.working.confidence (dec 4 1),
  )

-- ===== src/Orchestrator/Sources.antt =====
-- orchestrator.py: `_dedupe_sources` and `_report_origin`.
use cloudcause.Prelude.{
  ℕ, ◌≡◌, refl, ◌⊎◌, inl, inr, Bool, true, false, ◌&&◌, List, [], ◌∷◌, ◌++◌, any, All, All-implies,
  All-both, ◌≤◌, Bool-cases, arith, nat_eq, string_eq, ◌==◌, if◌then◌else◌,
}
use cloudcause.Contracts.Common.{provider_eq, DataOrigin, fixture, upload, live}
use cloudcause.Contracts.Request.{Provenance}

abbrev same_source : Provenance → Provenance → Bool
same_source a b =
    (a.provider == b.provider) && ((a.source == b.source) && (a.data_through == b.data_through))

-- the loop over the sources, whose keys are those of the sources that were kept
abbrev dedupe_from : List Provenance → List Provenance → List Provenance
dedupe_from [] unique = unique
dedupe_from (s ∷ rest) unique =
    dedupe_from rest (if any (same_source s) unique then unique else unique ++ s ∷ [])

unfoldable pub dedupe_sources : List Provenance → List Provenance
dedupe_sources sources = dedupe_from sources []

abbrev pub has_origin : DataOrigin → Provenance → Bool
has_origin fixture s = elim s.origin [ fixture ↦ true | _ ↦ false ]
has_origin upload s = elim s.origin [ upload ↦ true | _ ↦ false ]
has_origin live s = elim s.origin [ live ↦ true | _ ↦ false ]

-- `_report_origin`
unfoldable pub report_origin : List Provenance → DataOrigin
report_origin sources =
    if any (has_origin upload) sources
    then upload
    else if any (has_origin fixture) sources
    then fixture
    else if any (has_origin live) sources
    then live
    else fixture

-- how far an origin is verified
abbrev pub verified : DataOrigin → ℕ
verified upload = 0
verified fixture = 1
verified live = 2

none-All :
    (p : Provenance → Bool) (ss : List Provenance) → any p ss ≡ false → All (λ s. p s ≡ false) ss
none-All p [] h = tt
none-All p (s ∷ ss) h = (ground (arith, h), none-All p ss (ground (arith, h)))

-- what the tests that failed leave
at_least_fixture : (s : Provenance) → has_origin upload s ≡ false → 1 ≤ verified s.origin
at_least_fixture s h = ground (arith, h)

at_least_live :
    (s : Provenance)
    → has_origin upload s ≡ false
    → has_origin fixture s ≡ false
    → 2 ≤ verified s.origin
at_least_live s h k = ground (arith, h, k)

-- The origin of a report is verified no further than any of its sources, and is the origin of one of
-- them if there are any: a report with one source that is not live never reads as live.
pub report_origin-Least :
    (sources : List Provenance)
    → All (λ s. verified (report_origin sources) ≤ verified s.origin) sources
      × ((any (has_origin (report_origin sources)) sources ≡ true) ⊎ (sources ≡ []))
unfolding report_origin
report_origin-Least sources = elim (Bool-cases (any (has_origin upload) sources)) [
  | inl uploaded ↦ rw uploaded (
    All-implies (λ s. Unit {0}) (λ s. 0 ≤ verified s.origin) sources (λ s t. omega arith)
        (anything sources),
    inl uploaded,
  )
  | inr no_upload ↦ elim (Bool-cases (any (has_origin fixture) sources)) [
    | inl fixed ↦ rw no_upload (
        rw fixed (
          All-implies _ (λ s. 1 ≤ verified s.origin) sources at_least_fixture
              (none-All (has_origin upload) sources no_upload),
          inl fixed,
        ))
    | inr no_fixture ↦ elim (Bool-cases (any (has_origin live) sources)) [
      | inl alive ↦ rw no_upload (
          rw no_fixture (
            rw alive (
              All-implies _ (λ s. 2 ≤ verified s.origin) sources (λ s h. at_least_live s h.0 h.1)
                  (All-both _ _ sources (none-All (has_origin upload) sources no_upload)
                    (none-All (has_origin fixture) sources no_fixture)),
              inl alive,
            )))
      | inr not_alive ↦ rw no_upload (
          rw no_fixture (
            rw not_alive (
              All-implies _ (λ s. 1 ≤ verified s.origin) sources at_least_fixture
                  (none-All (has_origin upload) sources no_upload),
              inr (no_origin sources no_upload no_fixture not_alive),
            )))
    ]
  ]
]
  where
    no_origin :
        (ss : List Provenance)
        → any (has_origin upload) ss ≡ false
        → any (has_origin fixture) ss ≡ false
        → any (has_origin live) ss ≡ false
        → ss ≡ []
    no_origin [] h k l = refl
    no_origin (s ∷ ss) h k l = ground (arith, h, k, l)

    anything : (ss : List Provenance) → All (λ s. Unit {0}) ss
    anything [] = tt
    anything (s ∷ ss) = (tt, anything ss)

-- ===== src/Focus/Scope.antt =====
-- normalizer.py: the projection to FOCUS is all or nothing.
use cloudcause.Prelude.{
  ℕ, ◌≡◌, refl, String, true, none, some, List, [], ◌∷◌, map, contains, Bool-cases, inl, inr,
  string_eq, if◌then◌else◌,
}
use cloudcause.Contracts.Records.{CostRecord}
use cloudcause.Focus.Versions.{supported_focus_versions, require_supported_focus_version}
use cloudcause.Focus.Normalizer.{projected, to_focus_record, each_focus_record, to_focus_records}

module _ {Num : Type 0} (month_start : ℕ → ℕ) where
  each_focus_record_lem :
      (version : String) (rs : List (CostRecord Num))
      → contains version supported_focus_versions ≡ true
      → each_focus_record month_start version rs ≡ some (map (projected month_start version) rs)
  unfolding to_focus_record require_supported_focus_version
  each_focus_record_lem version [] h = refl
  each_focus_record_lem version (r ∷ rs) h = cc (h, each_focus_record_lem version rs h)

  -- A projection to FOCUS is all or nothing: under a supported version every record is projected, in
  -- order, and under any other version none is, not even where there is no record.
  pub to_focus_records_lem :
      (version : String) (rs : List (CostRecord Num))
      → to_focus_records month_start version rs ≡ (
          if contains version supported_focus_versions
          then some (map (projected month_start version) rs)
          else none)
  unfolding to_focus_records require_supported_focus_version
  to_focus_records_lem version rs = elim (Bool-cases (contains version supported_focus_versions)) [
    | inl supported ↦ cc (supported, each_focus_record_lem version rs supported)
    | inr unsupported ↦ cc unsupported
  ]

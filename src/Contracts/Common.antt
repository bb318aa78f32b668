-- ===== src/Contracts/Common.antt =====
-- packages/contracts/src/cloudcause_contracts/common.py.
use cloudcause.Prelude.{
  ℕ, zero, suc, ◌+◌, ◌-◌, ◌≡◌, ◌↔◌, Bool, true, false, ◌&&◌, Option, none, some, List, [], ◌∷◌,
  arith, leb, ltb, Eq, if◌then◌else◌,
}

-- `Provider`
pub data Provider : Type 0 where
  aws azure gcp : Provider

abbrev provider_beq : Provider → Provider → Bool
provider_beq aws aws = true
provider_beq azure azure = true
provider_beq gcp gcp = true
provider_beq _ _ = false

pub provider_beq_iff : (a b : Provider) → (provider_beq a b ≡ true) ↔ (a ≡ b)
provider_beq_iff a b = ground arith

instance abbrev pub provider_eq : Eq Provider
provider_eq = record { is_same = provider_beq; same_iff = provider_beq_iff }

-- `DataOrigin`
pub data DataOrigin : Type 0 where
  fixture upload live : DataOrigin

-- The two keys that `reconcile_origin` reads and writes; a key that is absent or null is `none`.
pub record OriginFields : Type 0 where
  pub origin : Option DataOrigin
  pub is_fixture : Option Bool

abbrev pub is_fixture_origin : DataOrigin → Bool
is_fixture_origin fixture = true
is_fixture_origin upload = false
is_fixture_origin live = false

-- `reconcile_origin`
unfoldable pub reconcile_origin : OriginFields → OriginFields
reconcile_origin f = elim f.origin [
  | some o ↦ record { origin = some o; is_fixture = some (is_fixture_origin o) }
  | none ↦ elim f.is_fixture [
    | some flag ↦ record { origin = some (if flag then fixture else live); is_fixture = some flag }
    | none ↦ f
  ]
]

-- `DateRange`, both ends included; `date_range` is the constructor with its validator.
pub record DateRange : Type 0 where
  pub start : ℕ
  pub end : ℕ

unfoldable pub date_range : ℕ → ℕ → Option DateRange
date_range start end = if ltb end start then none else some (record { start = start; end = end })

abbrev pub days : DateRange → ℕ
days r = r.end - r.start + 1

abbrev pub within : DateRange → ℕ → Bool
within r day = leb r.start day && leb day r.end

abbrev dates_from : ℕ → ℕ → List ℕ
dates_from day zero = []
dates_from day (suc n) = day ∷ dates_from (day + 1) n

-- `DateRange.dates`
unfoldable pub dates : DateRange → List ℕ
dates r = dates_from r.start (days r)

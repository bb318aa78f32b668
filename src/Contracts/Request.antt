-- ===== src/Contracts/Request.antt =====
-- packages/contracts/src/cloudcause_contracts/{common,investigation}.py: what is asked for, and where
-- data comes from. The question is a text that nothing here reads.
use cloudcause.Prelude.{
  ℕ, String, Bool, Option, none, some, List, [], ◌∷◌, ◌++◌, contains, if◌then◌else◌,
}
use cloudcause.Contracts.Common.{Provider, provider_eq, DataOrigin, DateRange, date_range}
use cloudcause.Contracts.Investigation.{AgentMode, is_live}

-- `Provenance`, the fields that the components read
pub record Provenance : Type 0 where
  pub provider : Provider
  pub source : String
  pub data_through : ℕ
  pub origin : DataOrigin

-- `InvestigationRequest`
pub record InvestigationRequest : Type 0 where
  pub providers : List Provider
  pub start_date : ℕ
  pub end_date : ℕ
  pub comparison_start_date : ℕ
  pub comparison_end_date : ℕ
  pub account_ids : List String
  pub question : String
  pub scenario_id : String
  pub dataset_id : Option String
  pub agent_mode : AgentMode

-- list(dict.fromkeys(value))
abbrev without_repeats : List Provider → List Provider → List Provider
without_repeats [] seen = seen
without_repeats (p ∷ rest) seen =
    without_repeats rest (if contains p seen then seen else seen ++ p ∷ [])

-- `_require_provider`; `none` is the ValueError
unfoldable pub require_provider : List Provider → Option (List Provider)
require_provider [] = none
require_provider (p ∷ rest) = some (without_repeats (p ∷ rest) [])

-- `current_period` and `baseline_period`, which raise where the dates are out of order
unfoldable pub current_period : InvestigationRequest → Option DateRange
unfolding date_range
current_period r = date_range r.start_date r.end_date

unfoldable pub baseline_period : InvestigationRequest → Option DateRange
unfolding date_range
baseline_period r = date_range r.comparison_start_date r.comparison_end_date

abbrev pub live_agents_requested : InvestigationRequest → Bool
live_agents_requested r = is_live r.agent_mode

-- `resolve_agent_mode`: the flag says that the client set the field
unfoldable pub resolve_agent_mode : Bool → InvestigationRequest → AgentMode → InvestigationRequest
resolve_agent_mode was_set r deployment_default =
    if was_set then r else record r { agent_mode = deployment_default }

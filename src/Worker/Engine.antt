-- ===== src/Worker/Engine.antt =====
-- packages/worker_core/src/cloudcause_worker_core/engine.py: `ProviderInvestigator.investigate`. The context
-- that is built, and what the retried live agent comes to, are given; the time taken is not modelled.
use cloudcause.Prelude.{
  ◌≡◌, refl, String, Bool, true, false, not, ◌&&◌, none, some, List, [], ◌∷◌, ◌++◌, map, select,
  any, length, string_eq, ◌==◌, if◌then◌else◌,
}
use cloudcause.Prelude.Dict.{Dict}
use cloudcause.Prelude.Floats.{FloatOps, ◌≺◌}
use cloudcause.Prelude.Sorting.{sort_by}
use cloudcause.Prelude.Text.{◌+++◌, decimal, text_lt}
use cloudcause.Contracts.Common.{Provider, fixture}
use cloudcause.Contracts.Analytics.{AnomalyCandidate}
use cloudcause.Contracts.Investigation.{
  stub_mode, live_mode, WorkerStatus, worker_ok, worker_partial, worker_failed, EvidenceItem,
  Finding,
}
use cloudcause.Contracts.Request.{live_agents_requested}
use cloudcause.Contracts.Report.{Fetched, fetched, failed_with, WorkerRequest, WorkerResponse}
use cloudcause.Contracts.Bundle.{bundle_sources, bundle_origin, available_source_types}
use cloudcause.Playbooks.Spec.{PlaybookSpec, InvestigationContext}
use cloudcause.Playbooks.Build.{run_playbooks}

module _ (Num : Type 0) where
  -- the part of `ProviderInvestigator` that a subclass sets
  pub record Investigator : Type 0 where
    pub provider : Provider
    pub framework : String
    pub playbooks : List (PlaybookSpec Num)

  -- the context, with its warnings and the findings that live attempts recorded by candidate
  pub record EngineContext : Type 0 where
    pub base : InvestigationContext Num
    pub warnings : List String
    pub recorded : Dict String (Finding Num)

  -- the local variables `status`, `findings` and `ctx.warnings` before the response
  pub record Outcome : Type 0 where
    pub status : WorkerStatus
    pub findings : List (Finding Num)
    pub warnings : List String

abbrev is_ok : WorkerStatus → Bool
is_ok worker_ok = true
is_ok _ = false

abbrev fallback_warning : String → String → String
fallback_warning framework reason =
    "live " +++ framework +++ " agent unavailable (" +++ reason
    +++ "); fell back to the deterministic playbooks"

module _ {Num : Type 0} where
  -- the recorded findings whose candidate the last attempt did not report
  abbrev has_candidate : String → Finding Num → Bool
  has_candidate id f = elim f.candidate_id [ none ↦ false | some c ↦ c == id ]

  unfoldable pub merge_recorded :
      List (Finding Num) → Dict String (Finding Num) → List (Finding Num)
  merge_recorded findings recorded =
      findings
      ++ map (λ (e : String × Finding Num). e.1)
          (select (λ (e : String × Finding Num). not (any (has_candidate e.0) findings)) recorded)

  abbrev no_context : Investigator Num → WorkerRequest Num → String → WorkerResponse Num
  no_context self asked message = record {
    investigation_id = asked.investigation_id;
    provider = self.provider;
    status = worker_failed;
    findings = [];
    sources = [];
    warnings = [];
    available_source_types = [];
    agent_mode = stub_mode;
    data_origin = fixture;
    message = message;
  }

module _ {Num : Type 0} ⦃F : FloatOps Num⦄ (lower : String → String)
    (gather : AnomalyCandidate Num → PlaybookSpec Num → List (EvidenceItem Num))
    (self : Investigator Num) where
  -- `run_stub`
  abbrev run_stub : EngineContext Num → List (Finding Num)
  run_stub ctx = run_playbooks lower gather self.playbooks ctx.base none

  abbrev after_live : EngineContext Num → Fetched (List (Finding Num)) → Outcome Num
  after_live ctx (fetched findings) = record {
    status = worker_ok;
    findings = merge_recorded findings ctx.recorded;
    warnings = ctx.warnings;
  }
  after_live ctx (failed_with reason) = record {
    status = worker_partial;
    findings = run_stub ctx;
    warnings = ctx.warnings ++ fallback_warning self.framework reason ∷ [];
  }

  unfoldable pub outcome_of : Bool → EngineContext Num → Fetched (List (Finding Num)) → Outcome Num
  unfolding merge_recorded run_playbooks
  outcome_of true ctx live = after_live ctx live
  outcome_of false ctx live = record {
    status = worker_ok;
    findings = run_stub ctx;
    warnings = ctx.warnings;
  }

  abbrev pub larger_increase : Finding Num → Finding Num → Bool
  larger_increase a b = b.actual_cost_increase ≺ a.actual_cost_increase

  abbrev pub respond : WorkerRequest Num → EngineContext Num → Outcome Num → WorkerResponse Num
  respond asked ctx outcome = record {
    investigation_id = asked.investigation_id;
    provider = self.provider;
    status = outcome.status;
    findings = sort_by larger_increase outcome.findings;
    sources = bundle_sources ctx.base.bundle;
    warnings = outcome.warnings;
    available_source_types = sort_by text_lt (available_source_types ctx.base.bundle);
    agent_mode =
        if live_agents_requested asked.request && is_ok outcome.status
        then live_mode
        else stub_mode;
    data_origin = bundle_origin ctx.base.bundle;
    message =
        self.framework
        +++ " investigator completed with "
        +++ decimal (length outcome.findings)
        +++ " finding(s)";
  }

  -- `investigate`
  unfoldable pub investigate_provider :
      WorkerRequest Num
      → Fetched (EngineContext Num)
      → Fetched (List (Finding Num))
      → WorkerResponse Num
  unfolding outcome_of sort_by available_source_types bundle_origin
  investigate_provider asked (failed_with message) live = no_context self asked message
  investigate_provider asked (fetched ctx) live =
      respond asked ctx (outcome_of (live_agents_requested asked.request) ctx live)

  -- Whatever happens, the answer is for the investigator's own provider.
  pub investigate_provider-provider :
      (asked : WorkerRequest Num) (context : Fetched (EngineContext Num))
      (live : Fetched (List (Finding Num)))
      → (investigate_provider asked context live).provider ≡ self.provider
  unfolding investigate_provider
  investigate_provider-provider asked (failed_with message) live = refl
  investigate_provider-provider asked (fetched ctx) live = refl

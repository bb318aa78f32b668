-- ===== src/Contracts/Report.antt =====
-- packages/contracts/src/cloudcause_contracts/{investigation,report}.py: the plan, what is sent to a
-- worker and comes back, and the report. A text that the code builds from values is a constructor
-- that holds these values; times of creation and the texts of rationale and summary are not modelled.
use cloudcause.Prelude.{ℕ, String, Option, List}
use cloudcause.Contracts.Common.{Provider, DataOrigin, DateRange}
use cloudcause.Contracts.Analytics.{AnomalyCandidate, Reconciliation, PeriodComparison}
use cloudcause.Contracts.Knowledge.{KnowledgeProvenance}
use cloudcause.Contracts.Request.{InvestigationRequest, Provenance}
use cloudcause.Contracts.Investigation.{
  AgentMode, WorkerStatus, Finding, ValidationIssue, ProviderStatus,
}

-- what a call gives, or the text of the exception that it raises
pub data Fetched (A : Type 0) : Type 0 where
  fetched : A → Fetched A
  failed_with : String → Fetched A

module _ (Num : Type 0) where
  -- the question of a task: the change with its currency and the first causes, or that there is none
  pub data TaskQuestion : Type 0 where
    explain_change : Num → String → Provider → List String → TaskQuestion
    confirm_completeness : Provider → TaskQuestion

  -- `ProviderTask`
  pub record ProviderTask : Type 0 where
    pub provider : Provider
    pub question : TaskQuestion
    pub candidate_ids : List String
    pub focus_areas : List String
    pub must_explain : List String
    pub max_findings : ℕ

  -- `InvestigationPlan`
  pub record InvestigationPlan : Type 0 where
    pub investigation_id : String
    pub question : String
    pub current_period : DateRange
    pub baseline_period : DateRange
    pub tasks : List ProviderTask

  -- `WorkerRequest`
  pub record WorkerRequest : Type 0 where
    pub investigation_id : String
    pub provider : Provider
    pub request : InvestigationRequest
    pub task : ProviderTask
    pub candidates : List (AnomalyCandidate Num)

  -- `WorkerResponse`
  pub record WorkerResponse : Type 0 where
    pub investigation_id : String
    pub provider : Provider
    pub status : WorkerStatus
    pub findings : List (Finding Num)
    pub sources : List Provenance
    pub warnings : List String
    pub available_source_types : List String
    pub agent_mode : AgentMode
    pub data_origin : DataOrigin
    pub message : String

  -- the warnings of a report
  pub data ReportWarning : Type 0 where
    skipped_provider : Provider → String → ReportWarning
    worker_warning : Provider → String → ReportWarning
    findings_dropped : ℕ → ReportWarning
    sources_missing : Provider → List String → ReportWarning
    unattributed_change : Num → Num → ReportWarning
    review_overdue_for : List String → ReportWarning

  -- `InvestigationReport`
  pub record InvestigationReport : Type 0 where
    pub investigation_id : String
    pub request : InvestigationRequest
    pub plan : InvestigationPlan
    pub current_period : DateRange
    pub baseline_period : DateRange
    pub total_current_cost : Num
    pub total_baseline_cost : Num
    pub total_absolute_change : Num
    pub total_percent_change : Option Num
    pub currency : String
    pub comparison : PeriodComparison Num
    pub findings : List (Finding Num)
    pub provider_statuses : List ProviderStatus
    pub reconciliation : Reconciliation Num
    pub validation_issues : List ValidationIssue
    pub warnings : List ReportWarning
    pub sources : List Provenance
    pub knowledge : KnowledgeProvenance
    pub data_origin : DataOrigin
    pub agent_mode : AgentMode

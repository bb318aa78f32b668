-- ===== src/Orchestrator/Planner.antt =====
-- planner.py: `build_plan`. `money` is Python's format of a number of money, `+,.2f`; `none` is the
-- ValidationError of a question that is too long.
use Prim.Native.String.{count}
use cloudcause.Prelude.{
  ℕ, String, Bool, Option, none, some, List, [], ◌∷◌, ◌++◌, map, select, take, length, contains,
  max, leb, string_eq, if◌then◌else◌,
}
use cloudcause.Prelude.Sorting.{sort_by}
use cloudcause.Prelude.Text.{text_lt, ◌+++◌}
use cloudcause.Contracts.Common.{Provider, DateRange}
use cloudcause.Contracts.Analytics.{
  AnomalyCandidate, ProviderComparison, PeriodComparison, for_provider, for_provider_in,
}
use cloudcause.Anomaly.Compare.{provider_name}
use cloudcause.Contracts.Investigation.{truthy, is_nonempty}
use cloudcause.Contracts.Request.{InvestigationRequest}
use cloudcause.Contracts.Report.{
  TaskQuestion, explain_change, confirm_completeness, ProviderTask, InvestigationPlan,
}

abbrev pub max_must_explain : ℕ
max_must_explain = 3

-- ProviderTask.question: Field(max_length=1000)
abbrev pub max_question_length : ℕ
max_question_length = 1000

-- the set of the texts that are there and not empty
abbrev pub named : List (Option String) → List String → List String
named [] seen = seen
named (none ∷ rest) seen = named rest seen
named (some name ∷ rest) seen =
    named rest (
      if truthy (some name) then (if contains name seen then seen else seen ++ name ∷ []) else seen)

-- ', '.join(names)
abbrev pub with_commas : List String → String
with_commas [] = ""
with_commas (name ∷ []) = name
with_commas (name ∷ other ∷ rest) = name +++ ", " +++ with_commas (other ∷ rest)

module _ {Num : Type 0} (money : Num → String) where
  -- the text of a question
  abbrev pub rendered : TaskQuestion Num → String
  rendered (explain_change change currency provider keys) =
      "Explain the "
      +++ money change
      +++ " "
      +++ currency
      +++ " change in "
      +++ provider_name provider
      +++ " spending, starting with "
      +++ with_commas keys
      +++ "."
  rendered (confirm_completeness provider) =
      "No material "
      +++ provider_name provider
      +++ " increase was measured. Confirm data completeness and "
      +++ "report that nothing needs explaining."

  -- the question keeps the maximum length of its field, in characters
  abbrev pub fits : TaskQuestion Num → Bool
  fits question = leb (count (rendered question)) max_question_length

  abbrev candidates_of : Option (ProviderComparison Num) → List (AnomalyCandidate Num)
  candidates_of none = []
  candidates_of (some c) = c.candidates

  abbrev keys_of : List (AnomalyCandidate Num) → List String
  keys_of candidates = map (λ (c : AnomalyCandidate Num). c.key) (take max_must_explain candidates)

  abbrev question_for : Provider → Option (ProviderComparison Num) → TaskQuestion Num
  question_for provider none = confirm_completeness provider
  question_for provider (some c) =
      if is_nonempty c.candidates
      then explain_change c.absolute_change c.currency provider (keys_of c.candidates)
      else confirm_completeness provider

  unfoldable pub task_for : Provider → Option (ProviderComparison Num) → ProviderTask Num
  unfolding sort_by
  task_for provider comparison =
      let candidates = candidates_of comparison in
      record {
        provider = provider;
        question = question_for provider comparison;
        candidate_ids = map (λ (c : AnomalyCandidate Num). c.candidate_id) candidates;
        focus_areas =
            sort_by text_lt
              (named (map (λ (c : AnomalyCandidate Num). c.service_name) candidates) []);
        must_explain = keys_of candidates;
        max_findings = max (length candidates) 1;
      }

  -- the check that the constructor of a task makes
  unfoldable pub checked_task : ProviderTask Num → Option (ProviderTask Num)
  checked_task task = if fits task.question then some task else none

  abbrev pub add_task :
      Option (ProviderTask Num)
      → Option (List (ProviderTask Num))
      → Option (List (ProviderTask Num))
  add_task (some task) (some tasks) = some (task ∷ tasks)
  add_task (some task) none = none
  add_task none others = none

  -- the loop over the providers, which a task that is refused ends
  unfoldable pub build_tasks :
      List Provider → PeriodComparison Num → Option (List (ProviderTask Num))
  unfolding task_for checked_task for_provider_in
  build_tasks [] comparison = some []
  build_tasks (p ∷ rest) comparison =
      add_task (checked_task (task_for p (for_provider p comparison))) (build_tasks rest comparison)

  abbrev pub plan_of :
      String
      → InvestigationRequest
      → DateRange
      → DateRange
      → Option (List (ProviderTask Num))
      → Option (InvestigationPlan Num)
  plan_of investigation_id request current baseline none = none
  plan_of investigation_id request current baseline (some tasks) = some (record {
    investigation_id = investigation_id;
    question = request.question;
    current_period = current;
    baseline_period = baseline;
    tasks = tasks;
  })

  -- `build_plan`, for the providers that have data
  unfoldable pub build_plan :
      String
      → InvestigationRequest
      → DateRange
      → DateRange
      → PeriodComparison Num
      → List Provider
      → Option (InvestigationPlan Num)
  unfolding build_tasks
  build_plan investigation_id request current baseline comparison providers =
      plan_of investigation_id request current baseline (build_tasks providers comparison)

-- `providers_with_work`
unfoldable pub providers_with_work : {Num : Type 0} → InvestigationPlan Num → List Provider
providers_with_work {Num} plan =
    map (λ (t : ProviderTask Num). t.provider)
      (select (λ (t : ProviderTask Num). is_nonempty t.candidate_ids) plan.tasks)

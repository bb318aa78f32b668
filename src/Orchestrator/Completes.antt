-- ===== src/Orchestrator/Completes.antt =====
-- orchestrator.py: when a run ends in a report.
use cloudcause.Prelude.{
  ℕ, ◌≡◌, refl, ◌∙◌, ap, inl, inr, Bool-cases, String, Bool, true, false, ◌&&◌, Option, none, some,
  List, [], ◌∷◌, select, any, contains, string_eq,
}
use cloudcause.Prelude.Dict.{Dict}
use cloudcause.Prelude.Floats.{FloatOps}
use cloudcause.Contracts.Common.{Provider, DateRange}
use cloudcause.Contracts.Analytics.{PeriodComparison, for_provider}
use cloudcause.Contracts.Investigation.{is_nonempty}
use cloudcause.Contracts.Request.{InvestigationRequest, current_period, baseline_period}
use cloudcause.Contracts.Report.{ProviderTask, InvestigationPlan}
use cloudcause.Knowledge.Store.{KnowledgeStore}
use cloudcause.Focus.Versions.{supported_focus_versions}
use cloudcause.Focus.Scope.{to_focus_records_lem}
use cloudcause.Orchestrator.Load.{Adapters, Loaded, load_costs}
use cloudcause.Orchestrator.Planner.{
  fits, task_for, add_task, checked_task, build_tasks, plan_of, build_plan,
}
use cloudcause.Orchestrator.Responses.{Client, active_providers}
use cloudcause.Orchestrator.Run.{
  OrchestratorSettings, RunResult, reported, comparison_of, plan_and_report, run_loaded, run,
}
use cloudcause.Orchestrator.Available.{is_available, active_providers-available}

abbrev pub is_reported : {A : Type 0} → RunResult A → Bool
is_reported (reported _) = true
is_reported _ = false

nonempty-select : (p : Provider → Bool) (xs : List Provider) → is_nonempty (select p xs) ≡ any p xs
nonempty-select p [] = refl
nonempty-select p (x ∷ xs) = elim (Bool-cases (p x)) [
  | inl kept ↦ cc kept
  | inr left_out ↦ cc (left_out, nonempty-select p xs)
]

abbrev pub all_of : (Provider → Bool) → List Provider → Bool
all_of p [] = true
all_of p (x ∷ xs) = p x && all_of p xs

abbrev is_some : {A : Type 0} → Option A → Bool
is_some none = false
is_some (some _) = true

module _ {Num : Type 0} (money : Num → String) where
  -- the question for the provider keeps its maximum length
  abbrev pub question_fits : PeriodComparison Num → Provider → Bool
  question_fits comparison p = fits money (task_for money p (for_provider p comparison)).question

  add_task-is_some :
      (task : ProviderTask Num) (others : Option (List (ProviderTask Num)))
      → is_some (add_task money (checked_task money task) others)
        ≡ (fits money task.question && is_some others)
  unfolding checked_task
  add_task-is_some task others = elim (Bool-cases (fits money task.question)) [
    | inl short ↦ rw short (added others)
    | inr long ↦ rw long refl
  ]
    where
      added :
          (o : Option (List (ProviderTask Num)))
          → is_some (add_task money (some task) o) ≡ is_some o
      added none = refl
      added (some _) = refl

  build_tasks-is_some :
      (ps : List Provider) (comparison : PeriodComparison Num)
      → is_some (build_tasks money ps comparison) ≡ all_of (question_fits comparison) ps
  unfolding build_tasks
  build_tasks-is_some [] comparison = refl
  build_tasks-is_some (p ∷ ps) comparison =
      add_task-is_some (task_for money p (for_provider p comparison))
        (build_tasks money ps comparison)
      ∙ ap (λ b. question_fits comparison p && b) (build_tasks-is_some ps comparison)

  build_plan-is_some :
      (id : String) (request : InvestigationRequest) (current baseline : DateRange)
      (comparison : PeriodComparison Num) (ps : List Provider)
      → is_some (build_plan money id request current baseline comparison ps)
        ≡ all_of (question_fits comparison) ps
  unfolding build_plan
  build_plan-is_some id request current baseline comparison ps =
      planned (build_tasks money ps comparison) ∙ build_tasks-is_some ps comparison
    where
      planned :
          (o : Option (List (ProviderTask Num)))
          → is_some (plan_of money id request current baseline o) ≡ is_some o
      planned none = refl
      planned (some _) = refl

run_loaded_completes :
    {Num : Type 0} ⦃F : FloatOps Num⦄ (settings : OrchestratorSettings Num)
    (knowledge : KnowledgeStore) (workers : Dict Provider (Client Num)) (id : String)
    (request : InvestigationRequest) (month_start : ℕ → ℕ) (money : Num → String)
    (current baseline : DateRange) (loaded : Loaded Num)
    → contains settings.focus_version supported_focus_versions ≡ true
    → let active = active_providers loaded.unavailable request.providers in
      is_reported
        (run_loaded month_start money settings knowledge workers id request current baseline loaded)
      ≡ (is_nonempty active
          && is_some (
              build_plan money id request current baseline
                (comparison_of settings request current baseline loaded)
                active))
unfolding run_loaded
run_loaded_completes {Num} settings knowledge workers id request month_start money current baseline
      loaded version =
    elim (Bool-cases (is_nonempty active)) [
      | inl some_active ↦ cc (
        some_active,
        version,
        to_focus_records_lem month_start settings.focus_version loaded.records,
        planned (
            build_plan money id request current baseline
              (comparison_of settings request current baseline loaded) active),
      )
      | inr nobody ↦ cc nobody
    ]
  where
    active : List Provider
    active = active_providers loaded.unavailable request.providers

    planned :
        (o : Option (InvestigationPlan Num))
        → is_reported (
            plan_and_report settings knowledge workers id request current baseline loaded
              (comparison_of settings request current baseline loaded)
              o)
          ≡ is_some o
    planned none = refl
    planned (some plan) = refl

-- A request whose dates are in order, under the supported FOCUS version, ends in a report exactly if the
-- data of one of its providers at least can be loaded and the question of the task for each of the
-- providers that can be loaded, as it is rendered, has at most 1000 characters. No answer or failure of a
-- worker, and no failure of another provider, keeps it from that.
pub run_completes :
    {Num : Type 0} ⦃F : FloatOps Num⦄ (settings : OrchestratorSettings Num)
    (knowledge : KnowledgeStore) (workers : Dict Provider (Client Num)) (adapters : Adapters Num)
    (id : String) (request : InvestigationRequest) (month_start : ℕ → ℕ) (money : Num → String)
    (current baseline : DateRange)
    → current_period request ≡ some current
    → baseline_period request ≡ some baseline
    → contains settings.focus_version supported_focus_versions ≡ true
    → let periods = current ∷ baseline ∷ [] in
      let comparison =
        comparison_of settings request current baseline (load_costs adapters request periods) in
      is_reported (run month_start money settings knowledge workers adapters id request) ≡ (
        any (is_available adapters request periods) request.providers
        && all_of
            (question_fits money comparison)
            (select (is_available adapters request periods) request.providers))
unfolding run
run_completes {Num} settings knowledge workers adapters id request month_start money current
      baseline dated compared version =
    let periods : List DateRange = current ∷ baseline ∷ [] in
    let loaded : Loaded Num = load_costs adapters request periods in
    let comparison : PeriodComparison Num =
      comparison_of settings request current baseline loaded in
    let active = active_providers-available adapters request periods in
    cc (
      dated,
      compared,
      active,
      nonempty-select (is_available adapters request periods) request.providers,
      build_plan-is_some money id request current baseline comparison
          (active_providers loaded.unavailable request.providers),
      run_loaded_completes settings knowledge workers id request month_start money current baseline
          loaded version,
    )

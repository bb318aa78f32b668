-- ===== src/Worker/Tests.antt =====
-- The budget, the retries and a job at concrete inputs. The world of the retries counts the calls.
use cloudcause.Prelude.{
  ℕ, suc, ◌+◌, ◌≡◌, refl, String, true, false, none, List, [], ◌∷◌, ◌++◌, arith,
}
use cloudcause.Prelude.Floats.{dec}
use cloudcause.Prelude.Micro.{Micro, micro_ops, micro_laws}
use cloudcause.Worker.Budget.{AgentCallBudget, reserve_all, reserve_all_lem}
use cloudcause.Worker.Capacity.{Capacity}
use cloudcause.Worker.Retry.{
  Calls, Limits, raised, Tracks, Finished, run_with_retries, run_with_retries-Finished,
}
use cloudcause.Worker.Jobs.{
  InvestigationJob, mark_running, finish, new_job, emit_all, numbered, read_queue, stream,
  stream-emit_all,
}

abbrev budget : AgentCallBudget
budget = record { maximum = 3; used = 1 }

reserve_all_lem_example :
    ((reserve_all 5 budget).0.used ≡ 3)
    × (1 + (reserve_all 5 budget).1 ≡ 3)
    × ((reserve_all 5 budget).0.maximum ≡ 3)
reserve_all_lem_example = reserve_all_lem 5 budget (omega arith)

-- every call fails and may be tried again; the clock stands still
abbrev failing : Calls Micro ℕ Unit Unit
failing = record {
  factory = λ n. (suc n, raised tt);
  classify = λ e. record { retryable = true; delay_seconds = none };
  on_retry = λ n d e w. w;
  sleep = λ d w. w;
  uniform = λ x w. (w, x);
  time = λ w. dec 0 0;
}

abbrev limits : Limits Micro ℕ Unit Unit
limits = record {
  attempts = 3;
  base_seconds = dec 1 0;
  max_seconds = dec 8 0;
  deadline_seconds = dec 60 0;
}

failing-Tracks : Tracks failing limits (λ n. n) (λ n. Unit)
failing-Tracks = record {
  factory_count = λ w. refl;
  factory_fine = λ w f. tt;
  on_retry_count = λ n d e w. refl;
  on_retry_fine = λ n d e w f. tt;
  uniform_count = λ x w. refl;
  uniform_fine = λ x w f. tt;
  sleep_count = λ d w. refl;
  sleep_fine = λ d w h f. tt;
}

run_with_retries-Finished_example :
    Finished failing limits micro_laws failing-Tracks 0 (run_with_retries failing limits 0)
run_with_retries-Finished_example =
    run_with_retries-Finished failing limits micro_laws failing-Tracks 0 tt

abbrev stages : List String
stages = "plan" ∷ "report" ∷ []

abbrev running_job : InvestigationJob
running_job = emit_all 1 stages (mark_running 1 (new_job "a" 1))

abbrev job_replayed : InvestigationJob
job_replayed = emit_all 1 ("ranking" ∷ []) running_job

abbrev finished_job : InvestigationJob
finished_job = finish 1 none job_replayed

stream-emit_all_example :
    (stream false running_job running_job (none ∷ []) ≡ numbered 0 stages ++ read_queue (none ∷ []))
    × (stream true running_job job_replayed (none ∷ [])
        ≡ numbered 0 stages ++ (numbered 0 (stages ++ "ranking" ∷ []) ++ read_queue (none ∷ [])))
    × (stream true running_job finished_job (none ∷ []) ≡ numbered 0 stages)
    × (stream false finished_job finished_job (none ∷ []) ≡ [])
stream-emit_all_example = stream-emit_all "a" 1 stages ("ranking" ∷ []) none (none ∷ [])

abbrev one_slot : Capacity
one_slot = record { maximum = 1; free = 1; waiting = 0; active = 0 }

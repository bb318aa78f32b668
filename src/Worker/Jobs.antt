-- ===== src/Worker/Jobs.antt =====
-- packages/worker_core/src/cloudcause_worker_core/jobs.py: an investigation job, its events, and the store
-- of jobs. An event's message and data are texts, and are not kept; listeners see a job and do not
-- change it.
use cloudcause.Prelude.{
  ℕ, suc, ◌-◌, ◌≡◌, refl, ap, sym, subst, arith, ◌∙◌, String, Bool, true, false, ◌&&◌, ◌||◌, Option,
  none, some, List, [], ◌∷◌, ◌++◌, map, length, take, ltb, leb, string_eq, nat_eq, ◌==◌,
  if◌then◌else◌,
}
use cloudcause.Prelude.Dict.{Dict, put, remove}
use cloudcause.Prelude.Sorting.{sort_by}
use cloudcause.Prelude.Text.{text_lt}

pub data JobStatus : Type 0 where
  queued running completed failed : JobStatus

-- `ProgressEvent`
pub record ProgressEvent : Type 0 where
  pub sequence : ℕ
  pub stage : String

-- `InvestigationJob`, with the fields of its state that change; `none` in the queue ends a stream.
pub record InvestigationJob : Type 0 where
  pub investigation_id : String
  pub created_at : ℕ
  pub updated_at : ℕ
  pub status : JobStatus
  pub stage : String
  pub error : Option String
  pub events : List ProgressEvent
  pub is_restored : Bool
  pub queue : List (Option ProgressEvent)
  pub sequence : ℕ

unfoldable pub new_job : String → ℕ → InvestigationJob
new_job id now = record {
  investigation_id = id;
  created_at = now;
  updated_at = now;
  status = queued;
  stage = "";
  error = none;
  events = [];
  is_restored = false;
  queue = [];
  sequence = 0;
}

-- `emit`
unfoldable pub emit : ℕ → String → InvestigationJob → InvestigationJob
emit now stage job =
    let event : ProgressEvent = record { sequence = suc job.sequence; stage = stage } in
    record {
      investigation_id = job.investigation_id;
      created_at = job.created_at;
      updated_at = now;
      status = job.status;
      stage = stage;
      error = job.error;
      events = job.events ++ event ∷ [];
      is_restored = job.is_restored;
      queue = job.queue ++ some event ∷ [];
      sequence = suc job.sequence;
    }

-- `mark_running` and `finish`; an error that is empty counts as none
abbrev with_status :
    ℕ
    → JobStatus
    → Option String
    → List (Option ProgressEvent)
    → InvestigationJob
    → InvestigationJob
with_status now status error queue job = record {
  investigation_id = job.investigation_id;
  created_at = job.created_at;
  updated_at = now;
  status = status;
  stage = job.stage;
  error = error;
  events = job.events;
  is_restored = job.is_restored;
  queue = queue;
  sequence = job.sequence;
}

unfoldable pub mark_running : ℕ → InvestigationJob → InvestigationJob
mark_running now job = with_status now running job.error job.queue job

unfoldable pub finish : ℕ → Option String → InvestigationJob → InvestigationJob
finish now error job =
    with_status now
      (elim error [ none ↦ completed | some text ↦ if text == "" then completed else failed ]) error
      (job.queue ++ none ∷ []) job

-- `stream`: what a reader that starts now is given, from the stored events and from what is and will
-- be in the queue, up to the end mark
unfoldable pub read_queue : List (Option ProgressEvent) → List ProgressEvent
read_queue [] = []
read_queue (none ∷ rest) = []
read_queue (some event ∷ rest) = event ∷ read_queue rest

abbrev is_over : JobStatus → Bool
is_over completed = true
is_over failed = true
is_over _ = false

-- after the replay, the job as it is then
abbrev after_replay : InvestigationJob → List (Option ProgressEvent) → List ProgressEvent
after_replay job later = if is_over job.status then [] else read_queue (job.queue ++ later)

-- A replay is of the events that are there when the reader starts; the job goes on while they are
-- handed out. Without a replay the two jobs are the same.
unfoldable pub stream :
    Bool → InvestigationJob → InvestigationJob → List (Option ProgressEvent) → List ProgressEvent
unfolding read_queue
stream false job replayed later = after_replay job later
stream true job replayed later = job.events ++ after_replay replayed later

-- `JobStore`, by the id of a job
unfoldable pub create_job : String → ℕ → Dict String InvestigationJob → Dict String InvestigationJob
unfolding new_job put
create_job id now jobs = put id (new_job id now) jobs

-- (created_at, key), in the order of pairs
abbrev older : ℕ × String → ℕ × String → Bool
older a b = ltb a.0 b.0 || ((a.0 == b.0) && text_lt a.1 b.1)

abbrev pub remove_all :
    List (ℕ × String) → Dict String InvestigationJob → Dict String InvestigationJob
remove_all [] jobs = jobs
remove_all (entry ∷ rest) jobs = remove_all rest (remove entry.1 jobs)

-- `prune`
unfoldable pub prune : ℕ → Dict String InvestigationJob → Dict String InvestigationJob
unfolding remove sort_by
prune limit jobs =
    if leb (length jobs) limit
    then jobs
    else remove_all
        (take (length jobs - limit) (sort_by older (map (λ e. (e.1.created_at, e.0)) jobs))) jobs

-- the job after the stages have been reported, at one time
abbrev pub emit_all : ℕ → List String → InvestigationJob → InvestigationJob
emit_all now [] job = job
emit_all now (stage ∷ rest) job = emit_all now rest (emit now stage job)

-- the events of these stages, numbered after n
abbrev pub numbered : ℕ → List String → List ProgressEvent
numbered n [] = []
numbered n (stage ∷ rest) = record { sequence = suc n; stage = stage } ∷ numbered (suc n) rest

append_assoc {ℓ} : {A : Type ℓ} (xs ys zs : List A) → (xs ++ ys) ++ zs ≡ xs ++ (ys ++ zs)
append_assoc [] ys zs = refl
append_assoc (x ∷ xs) ys zs = ap (λ r. x ∷ r) (append_assoc xs ys zs)

append-nil {ℓ} : {A : Type ℓ} (xs : List A) → xs ++ [] ≡ xs
append-nil [] = refl
append-nil (x ∷ xs) = ap (λ r. x ∷ r) (append-nil xs)

emit_all-events :
    (now : ℕ) (stages : List String) (job : InvestigationJob)
    → ((emit_all now stages job).events ≡ job.events ++ numbered job.sequence stages)
      × ((emit_all now stages job).queue
          ≡ job.queue ++ map (λ e. some e) (numbered job.sequence stages))
      × ((emit_all now stages job).status ≡ job.status)
unfolding emit
emit_all-events now [] job = (sym (append-nil job.events), sym (append-nil job.queue), refl)
emit_all-events now (stage ∷ rest) job =
    let event : ProgressEvent = record { sequence = suc job.sequence; stage = stage } in
    let (events, queue, status) = emit_all-events now rest (emit now stage job) in
    (
      events ∙ append_assoc job.events (event ∷ []) (numbered (suc job.sequence) rest),
      queue
          ∙ append_assoc job.queue (some event ∷ [])
              (map (λ e. some e) (numbered (suc job.sequence) rest)),
      status,
    )

read_queue-some :
    (es : List ProgressEvent) (rest : List (Option ProgressEvent))
    → read_queue (map (λ e. some e) es ++ rest) ≡ es ++ read_queue rest
unfolding read_queue
read_queue-some [] rest = refl
read_queue-some (e ∷ es) rest = ap (λ r. e ∷ r) (read_queue-some es rest)

emit_all-append :
    (now : ℕ) (stages more : List String) (job : InvestigationJob)
    → emit_all now (stages ++ more) job ≡ emit_all now more (emit_all now stages job)
emit_all-append now [] more job = refl
emit_all-append now (stage ∷ rest) more job = emit_all-append now rest more (emit now stage job)

finish-is_over :
    (now : ℕ) (error : Option String) (job : InvestigationJob)
    → is_over (finish now error job).status ≡ true
unfolding finish
finish-is_over now none job = refl
finish-is_over now (some text) job = ground arith

-- What the first reader of a running job is given, by the stages that were reported before it starts and
-- during its replay. Without a replay it is given the events, numbered from one in the order of their
-- stages, and then what comes later. With a replay, if the job still runs when the replay is over, it is
-- given the events that were there twice: once from the stored events and once from the queue, which
-- still holds them, with those that were reported during the replay and what comes later behind them.
-- If the job finishes during the replay, it is given the stored events only, and none of those that
-- were reported during the replay. Of a job that is over a reader without a replay is given nothing.
pub stream-emit_all :
    (id : String) (now : ℕ) (stages more : List String) (error : Option String)
    (later : List (Option ProgressEvent))
    → let job = emit_all now stages (mark_running now (new_job id now)) in
      let replayed = emit_all now more job in
      let over = finish now error replayed in
      (stream false job job later ≡ numbered 0 stages ++ read_queue later)
      × (stream true job replayed later
          ≡ numbered 0 stages ++ (numbered 0 (stages ++ more) ++ read_queue later))
      × (stream true job over later ≡ numbered 0 stages)
      × (stream false over over later ≡ [])
unfolding stream new_job mark_running finish
stream-emit_all id now stages more error later =
    let first : InvestigationJob = mark_running now (new_job id now) in
    let (events, queue, status) = emit_all-events now stages first in
    let (_, queue', status') = emit_all-events now (stages ++ more) first in
    let joined = emit_all-append now stages more first in
    let replayed = emit_all now more (emit_all now stages first) in
    (
      rw status (rw queue (read_queue-some (numbered 0 stages) later)),
      subst
          (λ k.
            (emit_all now stages first).events ++ after_replay k later
            ≡ numbered 0 stages ++ (numbered 0 (stages ++ more) ++ read_queue later))
          joined
          (rw status' (
            rw events (
              rw queue' (
                ap (λ r. numbered 0 stages ++ r)
                  (read_queue-some (numbered 0 (stages ++ more)) later))))),
      cc (events, append-nil (numbered 0 stages), finish-is_over now error replayed),
      cc (finish-is_over now error replayed),
    )

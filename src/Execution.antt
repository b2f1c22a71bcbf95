-- ===== src/Execution.antt =====
-- core/application/execution_coordinator.py: the serial coordinator of pipeline work.
-- The thread pool is a list of the tasks that were submitted to it and have not finished: its one
-- worker runs them in that order. Each method that holds the lock is one function on the state;
-- `_run_task` holds it only at its end, and is two functions.
pub mod Serial
pub mod Cancel
pub mod Queue
use video_captioner_z.Base.{
  ℕ, suc, String, Bool, true, false, not, ◌&&◌, ◌||◌, Option, none, some, List, [], ◌∷◌, ◌++◌, map,
  contains, str_eq, ◌==◌, if◌then◌else◌, Result, ok, err, ◌>>=◌, ◌>>◌, raise_if, app_error,
}
use video_captioner_z.Job.{validate_identifier}

pub data BatchCommandKind : Type 0 where
  submit resume_batch retry_job cancel_job cancel_batch pause_batch run_again cancel_local_work :
      BatchCommandKind

-- `_ScheduledTask`; the serial number stands for the identity of the object, and `has_future` says
-- that the future is not `None`. What the operation does is an argument of its run.
pub record ScheduledTask : Type 0 where
  pub serial : ℕ
  pub batch_id : String
  pub kind : BatchCommandKind
  pub job_id : Option String
  pub has_future : Bool

pub record ExecutionCompletion : Type 0 where
  pub batch_id : String
  pub kind : BatchCommandKind
  pub job_id : Option String
  pub is_ok : Bool
  pub code : String

-- `pool` and `is_reported` are the thread pool: the tasks submitted and not finished, and whether
-- the first has put its completion. `next_serial` is the identity of the next task made.
pub record Coordinator : Type 0 where
  pub has_executor : Bool
  pub active : Option ScheduledTask
  pub queued : List ScheduledTask
  pub completions : List ExecutionCompletion
  pub is_shut_down : Bool
  pub pool : List ScheduledTask
  pub is_reported : Bool
  pub next_serial : ℕ

abbrev pub initial : Coordinator
initial = record {
  has_executor = false;
  active = none;
  queued = [];
  completions = [];
  is_shut_down = false;
  pool = [];
  is_reported = false;
  next_serial = 0;
}

-- How `task.operation()` ends: it returns, or raises an `AppError`, another `Exception`, or a
-- `BaseException` that is none.
pub data Outcome : Type 0 where
  returned : Outcome
  raised_app : (code : String) → Outcome
  raised_exception raised_base : Outcome

abbrev pub batch_ids : List ScheduledTask → List String
batch_ids = map (λ t. t.batch_id)

abbrev pub with_active : Option ScheduledTask → List String → List String
with_active none ids = ids
with_active (some t) ids = t.batch_id ∷ ids

-- `_scheduled_ids_unlocked`, as a list of the set's members
unfoldable pub scheduled_ids : Coordinator → List String
scheduled_ids c = with_active c.active (batch_ids c.queued)

-- `_ensure_executor_unlocked`
abbrev pub ensure_executor : Coordinator → Coordinator
ensure_executor c = record c { has_executor = true }

pub start_next : Coordinator → Option ScheduledTask → List ScheduledTask → Result Coordinator
start_next c (some t) queue = ok c
start_next c none [] = ok c
start_next c none (t ∷ queue) = do
  raise_if (not c.has_executor) (app_error "AssertionError" "")
  let task = record t { has_future = true }
  ok (record c { queued = queue; active = some task; pool = c.pool ++ task ∷ [] })

-- `_pump_unlocked`
unfoldable pub pump : Coordinator → Result Coordinator
unfolding start_next
pump c = start_next c c.active c.queued

pub check_job_id : Option String → Result (Unit {0})
check_job_id none = ok tt
check_job_id (some id) = validate_identifier id "job_id"

abbrev pub new_task : ℕ → String → BatchCommandKind → Option String → ScheduledTask
new_task serial id kind job_id = record {
  serial = serial;
  batch_id = id;
  kind = kind;
  job_id = job_id;
  has_future = false;
}

-- `self._queued.append(task)`
abbrev pub enqueue : Coordinator → String → BatchCommandKind → Option String → Coordinator
enqueue c id kind job_id = record c {
  queued = c.queued ++ new_task c.next_serial id kind job_id ∷ [];
  next_serial = suc c.next_serial;
}

-- `schedule`
unfoldable pub schedule :
    Coordinator → String → BatchCommandKind → Option String → Result Coordinator
unfolding check_job_id scheduled_ids pump
schedule c id kind job_id = do
  validate_identifier id "batch_id"
  check_job_id job_id
  raise_if c.is_shut_down (app_error "batch.execution_active" "shutdown")
  raise_if (contains (scheduled_ids c) id) (app_error "batch.operation_conflict" id)
  pump (ensure_executor (enqueue c id kind job_id))

-- The loop of `cancel_queued`: the tasks that stay, and whether one was cancelled. The argument
-- says what `Future.cancel` answers for a task's future.
unfoldable pub split_cancelled :
    (ScheduledTask → Bool) → String → List ScheduledTask → List ScheduledTask × Bool
split_cancelled cancel_future id [] = ([], false)
split_cancelled cancel_future id (t ∷ queue) =
    let (remaining, cancelled) = split_cancelled cancel_future id queue in
    if not (str_eq t.batch_id id)
    then (t ∷ remaining, cancelled)
    else (if t.has_future && not (cancel_future t)
        then (t ∷ remaining, cancelled)
        else (remaining, true))

-- `cancel_queued`
unfoldable pub cancel_queued :
    (ScheduledTask → Bool) → Coordinator → String → Result (Coordinator × Bool)
unfolding split_cancelled
cancel_queued cancel_future c id = do
  validate_identifier id "batch_id"
  let (remaining, cancelled) = split_cancelled cancel_future id c.queued
  ok (record c { queued = remaining }, cancelled)

abbrev pub completion : ScheduledTask → Outcome → ExecutionCompletion
completion t outcome = record {
  batch_id = t.batch_id;
  kind = t.kind;
  job_id = t.job_id;
  is_ok = outcome_ok outcome;
  code = outcome_code outcome;
}
  where
    outcome_ok : Outcome → Bool
    outcome_ok returned = true
    outcome_ok (raised_app code) = false
    outcome_ok raised_exception = false
    outcome_ok raised_base = true

    outcome_code : Outcome → String
    outcome_code returned = "execution.completed"
    outcome_code (raised_app code) = code
    outcome_code raised_exception = "gui.application_bridge_failed"
    outcome_code raised_base = "execution.completed"

-- `_run_task` up to its lock: the operation runs, and its completion is put
unfoldable pub report : Coordinator → ScheduledTask → Outcome → Coordinator
report c t outcome = record c {
  completions = c.completions ++ completion t outcome ∷ [];
  is_reported = true;
}

-- `None` in place of the active task, if it is this object
unfoldable pub clear_active : Option ScheduledTask → ScheduledTask → Option ScheduledTask
clear_active none t = none
clear_active (some a) t = if a.serial == t.serial then none else some a

-- the end of `_run_task`, the rest of the pool's tasks given
unfoldable pub release : Coordinator → ScheduledTask → List ScheduledTask → Result Coordinator
unfolding clear_active pump
release c t rest =
    pump (record c { active = clear_active c.active t; pool = rest; is_reported = false })

-- `drain_completions`
unfoldable pub drain_completions : Coordinator → Coordinator × List ExecutionCompletion
drain_completions c = (record c { completions = [] }, c.completions)

pub is_some : Option ScheduledTask → Bool
is_some none = false
is_some (some t) = true

abbrev pub is_nil : List ScheduledTask → Bool
is_nil [] = true
is_nil (t ∷ ts) = false

-- `shutdown` on the state, without the finalizer: a second call changes nothing
unfoldable pub shutdown : Coordinator → Result Coordinator
unfolding is_some
shutdown c =
    let stop = (do
      raise_if (is_some c.active || not (is_nil c.queued)) (app_error "batch.execution_active" "")
      ok (record c { is_shut_down = true; has_executor = false })) in
    if c.is_shut_down then ok c else stop

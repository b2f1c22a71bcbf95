-- ===== src/Tests/Execution.antt =====
-- Two batches in the serial coordinator: the first runs, the second waits and then starts.
use video_captioner_z.Base.{
  ℕ, String, ◌≡◌, refl, Bool, true, false, none, some, [], ◌∷◌, Result, ok, err, app_error, ◌>>=◌,
  raise_if,
}
use video_captioner_z.Job.{validate_identifier}
use video_captioner_z.Execution.{
  submit, resume_batch, ScheduledTask, Coordinator, initial, returned, schedule, report, release,
  scheduled_ids,
}
use video_captioner_z.Execution.Serial.{
  Step, IsSerial, schedules, reports, Reachable, from_start, after, Reachable-IsSerial,
}
use video_captioner_z.Execution.Queue.{label, QueueStep, Step-QueueStep, StartsNext, release-Starts}

abbrev state_or_initial : Result Coordinator → Coordinator
state_or_initial (ok c) = c
state_or_initial (err e) = initial

abbrev task : ℕ → String → Bool → ScheduledTask
task n id started = record {
  serial = n;
  batch_id = id;
  kind = submit;
  job_id = none;
  has_future = started;
}

abbrev one_batch : Coordinator
one_batch = record initial {
  has_executor = true;
  active = some (task 0 "b1" true);
  pool = task 0 "b1" true ∷ [];
  next_serial = 1;
}

abbrev two_batches : Coordinator
two_batches = record one_batch { queued = task 1 "b2" false ∷ []; next_serial = 2 }

first_scheduled : schedule initial "b1" submit none ≡ ok one_batch
unfolding schedule validate_identifier ◌>>=◌ raise_if
first_scheduled = refl

second_scheduled : schedule one_batch "b2" submit none ≡ ok two_batches
unfolding schedule validate_identifier ◌>>=◌ raise_if
second_scheduled = refl

-- A batch that is scheduled already is refused.
scheduled_twice :
    schedule two_batches "b2" resume_batch none ≡ err (app_error "batch.operation_conflict" "b2")
unfolding schedule validate_identifier ◌>>=◌ raise_if
scheduled_twice = refl

abbrev reported : Coordinator
reported = report two_batches (task 0 "b1" true) returned

two-Reachable : Reachable two_batches
two-Reachable =
    after (after from_start (schedules "b1" submit none first_scheduled))
      (schedules "b2" submit none second_scheduled)

reported-Reachable : Reachable reported
reported-Reachable = after two-Reachable (reports (task 0 "b1" true) [] returned refl refl)

Reachable-IsSerial_example : IsSerial two_batches
Reachable-IsSerial_example = Reachable-IsSerial two-Reachable

reported-IsSerial : IsSerial reported
reported-IsSerial = Reachable-IsSerial reported-Reachable

reported_pool : reported.pool ≡ task 0 "b1" true ∷ []
unfolding report
reported_pool = refl

abbrev second_step : Step one_batch two_batches
second_step = schedules "b2" submit none second_scheduled

Step-QueueStep_example :
    QueueStep (label second_step) (scheduled_ids one_batch) (scheduled_ids two_batches)
Step-QueueStep_example =
    Step-QueueStep
      (Reachable-IsSerial (after from_start (schedules "b1" submit none first_scheduled)))
      second_step

release-Starts_example :
    (d : Coordinator) × (release reported (task 0 "b1" true) [] ≡ ok d)
    × StartsNext reported.queued d.active d.queued
release-Starts_example =
    release-Starts reported (task 0 "b1" true) [] reported-IsSerial reported_pool

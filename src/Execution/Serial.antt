-- ===== src/Execution/Serial.antt =====
-- The serial coordinator: its states are idle or run one task, and each operation keeps them so.
use video_captioner_z.Base.{
  ◌≡◌, refl, sym, subst, ap, ◌∙◌, String, Bool, true, false, not, Option, none, some, List, [], ◌∷◌,
  ◌++◌, contains, distinct, distinct-snoc, All, All-append, inl, inr, ◌⊎◌, ◌||◌, Bool-cases, arith,
  ==_iff, Result, ok, ◌>>=◌, raise_if, bind_returned, check_returned, ok-injective, app_error,
  if◌then◌else◌,
}
use mathlib.Core.List.{map-append}
use video_captioner_z.Job.{validate_identifier}
use video_captioner_z.Execution.Cancel.{contains-without, distinct-without, split_cancelled-Cancels}
use video_captioner_z.Execution.{
  check_job_id, BatchCommandKind, ScheduledTask, Coordinator, initial, Outcome, batch_ids,
  with_active, scheduled_ids, start_next, pump, new_task, enqueue, ensure_executor, schedule,
  split_cancelled, cancel_queued, report, release, clear_active, drain_completions, shutdown,
  is_some, is_nil,
}

-- A coordinator with nothing to do, or one whose pool holds just the active task, under an executor
-- that is not shut down, with tasks of other and distinct batches waiting, none of them submitted.
pub data IsSerial (c : Coordinator) : Type 0 where
  idle : c.active ≡ none → c.queued ≡ [] → c.pool ≡ [] → IsSerial c
  busy :
      (t : ScheduledTask)
      → c.active ≡ some t
      → c.pool ≡ t ∷ []
      → c.has_executor ≡ true
      → c.is_shut_down ≡ false
      → distinct (t.batch_id ∷ batch_ids c.queued) ≡ true
      → All (λ q. q.has_future ≡ false) c.queued
      → IsSerial c

-- One operation of a caller, or one of the two halves of a task's run in the pool's worker.
pub data Step (c : Coordinator) : Coordinator → Type 0 where
  schedules :
      (id : String) (kind : BatchCommandKind) (job_id : Option String) {d : Coordinator}
      → schedule c id kind job_id ≡ ok d
      → Step c d
  cancels :
      (cancel_future : ScheduledTask → Bool) (id : String) (found : Bool) {d : Coordinator}
      → cancel_queued cancel_future c id ≡ ok (d, found)
      → Step c d
  reports :
      (t : ScheduledTask) (rest : List ScheduledTask) (outcome : Outcome)
      → c.pool ≡ t ∷ rest
      → c.is_reported ≡ false
      → Step c (report c t outcome)
  releases :
      (t : ScheduledTask) (rest : List ScheduledTask) {d : Coordinator}
      → c.pool ≡ t ∷ rest
      → c.is_reported ≡ true
      → release c t rest ≡ ok d
      → Step c d
  drains : Step c (drain_completions c).0
  shuts_down : {d : Coordinator} → shutdown c ≡ ok d → Step c d

-- the state after the first waiting task is submitted
abbrev pub started : Coordinator → ScheduledTask → List ScheduledTask → Coordinator
started d t queue =
    let task = record t { has_future = true } in
    record d { queued = queue; active = some task; pool = d.pool ++ task ∷ [] }

pub pump-busy : (d : Coordinator) (t : ScheduledTask) → d.active ≡ some t → pump d ≡ ok d
unfolding pump start_next
pump-busy d t h = ap (λ a. start_next d a d.queued) h

pub pump-empty : (d : Coordinator) → d.active ≡ none → d.queued ≡ [] → pump d ≡ ok d
unfolding pump start_next
pump-empty d h k = ap (λ a. start_next d a d.queued) h ∙ ap (start_next d none) k

pub pump-next :
    (d : Coordinator) (t : ScheduledTask) (queue : List ScheduledTask)
    → d.active ≡ none
    → d.queued ≡ t ∷ queue
    → d.has_executor ≡ true
    → pump d ≡ ok (started d t queue)
unfolding pump start_next ◌>>=◌ raise_if
pump-next d t queue h k e =
    ap (λ a. start_next d a d.queued) h
    ∙ ap (start_next d none) k
    ∙ ap (λ b. raise_if (not b) (app_error "AssertionError" "") >>= λ _. ok (started d t queue)) e

scheduled_ids-busy :
    (c : Coordinator) (t : ScheduledTask)
    → c.active ≡ some t
    → scheduled_ids c ≡ t.batch_id ∷ batch_ids c.queued
unfolding scheduled_ids
scheduled_ids-busy c t h = ap (λ a. with_active a (batch_ids c.queued)) h

-- A pump of a state without an active task, whose waiting tasks are of distinct batches.
pub pump-IsSerial :
    (d : Coordinator) (e : Coordinator)
    → d.active ≡ none
    → d.pool ≡ []
    → d.has_executor ≡ true
    → d.is_shut_down ≡ false
    → (queue : List ScheduledTask) → d.queued ≡ queue
    → distinct (batch_ids queue) ≡ true
    → All (λ q. q.has_future ≡ false) queue
    → pump d ≡ ok e
    → IsSerial e
pump-IsSerial d e a p x s [] q k f h =
    let same : d ≡ e = ok-injective d d e (sym (pump-empty d a q) ∙ h) in
    subst IsSerial same (idle a q p)
pump-IsSerial d e a p x s (t ∷ queue) q k f h =
    let next = started d t queue in
    let same : next ≡ e = ok-injective next next e (sym (pump-next d t queue a q x) ∙ h) in
    subst IsSerial same (
      busy (record t { has_future = true }) refl
        (ap (λ r. r ++ record t { has_future = true } ∷ []) p) x s k f.1)

schedule-IsSerial :
    (c d : Coordinator) (id : String) (kind : BatchCommandKind) (job_id : Option String)
    → IsSerial c
    → schedule c id kind job_id ≡ ok d
    → IsSerial d
unfolding schedule
schedule-IsSerial c d id kind job_id g h =
    let (_, _, h1) = bind_returned (validate_identifier id "batch_id") _ h in
    let (_, _, h2) = bind_returned (check_job_id job_id) _ h1 in
    let (_, up, h3) = bind_returned (raise_if c.is_shut_down _) _ h2 in
    let (_, new, pumped) = bind_returned (raise_if (contains (scheduled_ids c) id) _) _ h3 in
    let running = check_returned c.is_shut_down _ up in
    let fresh = check_returned (contains (scheduled_ids c) id) _ new in
    let next = ensure_executor (enqueue c id kind job_id) in
    let task = new_task c.next_serial id kind job_id in
    elim g [
      | idle a q p ↦
          pump-IsSerial next d a p refl running (task ∷ []) (ap (λ r. r ++ task ∷ []) q) refl
            (refl, tt) pumped
      | busy t a p x s k f ↦
          let same : next ≡ d = ok-injective next next d (sym (pump-busy next t a) ∙ pumped) in
          subst IsSerial same (
            busy t a p refl s
              (ap distinct
                  (ap (λ r. t.batch_id ∷ r) (map-append (λ r. r.batch_id) c.queued (task ∷ [])))
                ∙ distinct-snoc (t.batch_id ∷ batch_ids c.queued) id k
                    (sym (ap (λ r. contains r id) (scheduled_ids-busy c t a)) ∙ fresh))
              (All-append _ c.queued (task ∷ []) f (refl, tt)))
    ]

cancel_queued-IsSerial :
    (c d : Coordinator) (cancel_future : ScheduledTask → Bool) (id : String) (found : Bool)
    → IsSerial c
    → cancel_queued cancel_future c id ≡ ok (d, found)
    → IsSerial d
unfolding cancel_queued split_cancelled
cancel_queued-IsSerial c d cancel_future id found g h =
    let (_, _, h1) = bind_returned (validate_identifier id "batch_id") _ h in
    let split = split_cancelled cancel_future id c.queued in
    let next = record c { queued = split.0 } in
    let same : next ≡ d =
      ap (λ r. r.0) (ok-injective (next, split.1) (next, split.1) (d, found) h1) in
    subst IsSerial same (elim g [
      | idle a q p ↦ idle a (ap (λ r. (split_cancelled cancel_future id r).0) q) p
      | busy t a p x s k f ↦
          let r = split_cancelled-Cancels cancel_future id c.queued f in
          let other = distinct-without id (batch_ids c.queued) (ground (arith, k)) in
          busy t a p x s
            (ap (λ ids. distinct (t.batch_id ∷ ids)) r.left
              ∙ ground (arith, k, contains-without id t.batch_id (batch_ids c.queued), other))
            r.fresh
    ])

report-IsSerial :
    (c : Coordinator) (t : ScheduledTask) (outcome : Outcome)
    → IsSerial c
    → IsSerial (report c t outcome)
unfolding report
report-IsSerial c t outcome (idle a q p) = idle a q p
report-IsSerial c t outcome (busy u a p x s k f) = busy u a p x s k f

-- the pool of a serial coordinator holds the active task alone
pub pool-IsSerial :
    (c : Coordinator) (t : ScheduledTask) (rest : List ScheduledTask)
    → IsSerial c
    → c.pool ≡ t ∷ rest
    → (c.active ≡ some t)
      × (rest ≡ [])
      × (c.has_executor ≡ true)
      × (c.is_shut_down ≡ false)
      × (distinct (t.batch_id ∷ batch_ids c.queued) ≡ true)
      × All (λ q. q.has_future ≡ false) c.queued
pool-IsSerial c t rest (idle a q p) h = absurd (cc)
pool-IsSerial c t rest (busy u a p x s k f) h =
    let same : u ≡ t = cc in
    (
      a ∙ ap some same,
      cc,
      x,
      s,
      ap (λ v. distinct (v.batch_id ∷ batch_ids c.queued)) (sym same) ∙ k,
      f,
    )

pub clear_active_self :
    (c : Coordinator) (t : ScheduledTask) → c.active ≡ some t → clear_active c.active t ≡ none
unfolding clear_active
clear_active_self c t h =
    ap (λ a. clear_active a t) h
    ∙ ap (λ b. if b then none else some t) ((==_iff t.serial t.serial).1 refl)

release-IsSerial :
    (c d : Coordinator) (t : ScheduledTask) (rest : List ScheduledTask)
    → IsSerial c
    → c.pool ≡ t ∷ rest
    → release c t rest ≡ ok d
    → IsSerial d
unfolding release
release-IsSerial c d t rest g p h =
    let (a, r, x, s, k, f) = pool-IsSerial c t rest g p in
    pump-IsSerial (record c { active = clear_active c.active t; pool = rest; is_reported = false })
      d (clear_active_self c t a) r x s c.queued refl (ground (arith, k)) f h

drain-IsSerial : (c : Coordinator) → IsSerial c → IsSerial (drain_completions c).0
unfolding drain_completions
drain-IsSerial c (idle a q p) = idle a q p
drain-IsSerial c (busy t a p x s k f) = busy t a p x s k f

pub shutdown-cases :
    (c d : Coordinator)
    → IsSerial c
    → shutdown c ≡ ok d
    → (c ≡ d)
      ⊎ ((c.active ≡ none)
          × (c.queued ≡ [])
          × (c.pool ≡ [])
          × (record c { is_shut_down = true; has_executor = false } ≡ d))
unfolding shutdown is_some
shutdown-cases c d g h =
    let next = record c { is_shut_down = true; has_executor = false } in
    let stop : Result Coordinator =
      raise_if (is_some c.active || not (is_nil c.queued)) (app_error "batch.execution_active" "")
      >>= λ _. ok next in
    elim (Bool-cases c.is_shut_down) [
      | inl down ↦ inl (ok-injective c c d (sym (ap (λ b. if b then ok c else stop) down) ∙ h))
      | inr up ↦
          let stopped : stop ≡ ok d = sym (ap (λ b. if b then ok c else stop) up) ∙ h in
          let (_, free, h1) =
            bind_returned (raise_if (is_some c.active || not (is_nil c.queued)) _) _ stopped in
          elim g [
            | idle a q p ↦ inr (a, q, p, ok-injective next next d h1)
            | busy t a p x s k f ↦ absurd (
                busy_refused
                  (sym (ap (λ o. is_some o || not (is_nil c.queued)) a) ∙ check_returned _ _ free))
          ]
    ]
  where
    busy_refused : ¬ (true ≡ false)
    busy_refused h = absurd (cc)

shutdown-IsSerial : (c d : Coordinator) → IsSerial c → shutdown c ≡ ok d → IsSerial d
shutdown-IsSerial c d g h = elim (shutdown-cases c d g h) [
  | inl same ↦ subst IsSerial same g
  | inr (a, q, p, same) ↦ subst IsSerial same (idle a q p)
]

pub Step-IsSerial : {c d : Coordinator} → IsSerial c → Step c d → IsSerial d
Step-IsSerial {c = c} {d = d} g (schedules id kind job_id h) =
    schedule-IsSerial c d id kind job_id g h
Step-IsSerial {c = c} {d = d} g (cancels f id found h) = cancel_queued-IsSerial c d f id found g h
Step-IsSerial {c = c} g (reports t rest outcome p r) = report-IsSerial c t outcome g
Step-IsSerial {c = c} {d = d} g (releases t rest p r h) = release-IsSerial c d t rest g p h
Step-IsSerial {c = c} g drains = drain-IsSerial c g
Step-IsSerial {c = c} {d = d} g (shuts_down h) = shutdown-IsSerial c d g h

-- The states that operations in any order lead to.
pub data Reachable : Coordinator → Type 0 where
  from_start : Reachable initial
  after : {c d : Coordinator} → Reachable c → Step c d → Reachable d

-- Every state that the operations reach, in whatever order the callers and the pool's worker take
-- them, is idle with nothing waiting, or runs one task: the pool then holds that task alone, the
-- executor is there and not shut down, the waiting tasks and the active one are of distinct
-- batches, and no waiting task has been submitted.
pub Reachable-IsSerial : {c : Coordinator} → Reachable c → IsSerial c
Reachable-IsSerial from_start = idle refl refl refl
Reachable-IsSerial (after r s) = Step-IsSerial (Reachable-IsSerial r) s

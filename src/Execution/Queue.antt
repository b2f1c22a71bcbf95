-- ===== src/Execution/Queue.antt =====
-- The serial coordinator as a first-in, first-out queue of batch ids.
use video_captioner_z.Base.{
  ◌≡◌, refl, sym, subst, ap, ◌∙◌, String, Bool, true, false, not, Option, none, some, List, [], ◌∷◌,
  ◌++◌, contains, inl, inr, ok, ◌>>=◌, raise_if, bind_returned, check_returned, ok-injective,
}
use mathlib.Core.List.{map-append}
use video_captioner_z.Job.{validate_identifier}
use video_captioner_z.Execution.{
  BatchCommandKind, ScheduledTask, Coordinator, batch_ids, with_active, scheduled_ids, pump,
  start_next, new_task, enqueue, ensure_executor, check_job_id, schedule, split_cancelled,
  cancel_queued, report, release, clear_active, drain_completions,
}
use video_captioner_z.Execution.Cancel.{without, split_cancelled-Cancels}
use video_captioner_z.Execution.Serial.{
  IsSerial, idle, busy, Step, schedules, cancels, reports, releases, drains, shuts_down, pump-empty,
  pump-next, pool-IsSerial, clear_active_self, shutdown-cases, started,
}

-- What an operation is to the queue of batch ids.
pub data Operation : Type 0 where
  scheduling cancelling : String → Operation
  ending : Operation
  other : Operation

pub label : {c d : Coordinator} → Step c d → Operation
label (schedules id kind job_id h) = scheduling id
label (cancels f id found h) = cancelling id
label (reports t rest outcome p r) = other
label (releases t rest p r h) = ending
label drains = other
label (shuts_down h) = other

-- What each operation does to the queue: scheduling a batch adds its id, which is not there, at the
-- end; cancelling a batch removes its id from behind the first; the end of a run removes the first.
pub data QueueStep : Operation → List String → List String → Type 0 where
  join :
      {q : List String} (id : String)
      → contains q id ≡ false
      → QueueStep (scheduling id) q (q ++ id ∷ [])
  take_out_none : {q : List String} (id : String) → q ≡ [] → QueueStep (cancelling id) q q
  take_out :
      {q : List String} (first id : String) (rest : List String)
      → q ≡ first ∷ rest
      → QueueStep (cancelling id) q (first ∷ without id rest)
  leave :
      {q : List String} (id : String) (rest : List String) → q ≡ id ∷ rest → QueueStep ending q rest
  stay : {q : List String} → QueueStep other q q

-- What runs and what waits once a run has ended, the queue before given.
pub data StartsNext : List ScheduledTask → Option ScheduledTask → List ScheduledTask → Type 0 where
  nothing_waits :
      {active : Option ScheduledTask} {queued : List ScheduledTask}
      → active ≡ none
      → queued ≡ []
      → StartsNext [] active queued
  first_starts :
      {t : ScheduledTask} {queue queued : List ScheduledTask} {active : Option ScheduledTask}
      → active ≡ some (record t { has_future = true })
      → queued ≡ queue
      → StartsNext (t ∷ queue) active queued

-- A pump does not change the ids in the queue.
pump-scheduled_ids : (d e : Coordinator) → pump d ≡ ok e → scheduled_ids e ≡ scheduled_ids d
unfolding scheduled_ids pump start_next ◌>>=◌
pump-scheduled_ids d e h = pumped d.active d.queued refl refl h
  where
    pumped :
        (a : Option ScheduledTask) (q : List ScheduledTask)
        → d.active ≡ a
        → d.queued ≡ q
        → start_next d a q ≡ ok e
        → with_active e.active (batch_ids e.queued) ≡ with_active d.active (batch_ids d.queued)
    pumped (some t) q i j k =
        ap (λ c. with_active c.active (batch_ids c.queued)) (sym (ok-injective d d e k))
    pumped none [] i j k =
        ap (λ c. with_active c.active (batch_ids c.queued)) (sym (ok-injective d d e k))
    pumped none (t ∷ q) i j k =
        let (_, _, k1) = bind_returned (raise_if (not d.has_executor) _) _ k in
        let next = started d t q in
        ap (λ c. with_active c.active (batch_ids c.queued)) (sym (ok-injective next next e k1))
        ∙ sym (ap (λ a. with_active a (batch_ids d.queued)) i ∙ ap batch_ids j)

schedule-QueueStep :
    (c d : Coordinator) (id : String) (kind : BatchCommandKind) (job_id : Option String)
    → schedule c id kind job_id ≡ ok d
    → QueueStep (scheduling id) (scheduled_ids c) (scheduled_ids d)
unfolding schedule
schedule-QueueStep c d id kind job_id h =
    let (_, _, h1) = bind_returned (validate_identifier id "batch_id") _ h in
    let (_, _, h2) = bind_returned (check_job_id job_id) _ h1 in
    let (_, _, h3) = bind_returned (raise_if c.is_shut_down _) _ h2 in
    let (_, new, pumped) = bind_returned (raise_if (contains (scheduled_ids c) id) _) _ h3 in
    let next = ensure_executor (enqueue c id kind job_id) in
    subst (QueueStep (scheduling id) (scheduled_ids c))
      (sym (pump-scheduled_ids next d pumped ∙ enqueued c.active))
      (join id (check_returned _ _ new))
  where
    enqueued :
        (a : Option ScheduledTask)
        → with_active a (batch_ids (enqueue c id kind job_id).queued)
          ≡ with_active a (batch_ids c.queued) ++ id ∷ []
    enqueued none =
        map-append (λ t. t.batch_id) c.queued (new_task c.next_serial id kind job_id ∷ [])
    enqueued (some t) =
        ap (λ ids. t.batch_id ∷ ids)
          (map-append (λ r. r.batch_id) c.queued (new_task c.next_serial id kind job_id ∷ []))

cancel_queued-QueueStep :
    (c d : Coordinator) (cancel_future : ScheduledTask → Bool) (id : String) (found : Bool)
    → IsSerial c
    → cancel_queued cancel_future c id ≡ ok (d, found)
    → QueueStep (cancelling id) (scheduled_ids c) (scheduled_ids d)
unfolding cancel_queued scheduled_ids split_cancelled
cancel_queued-QueueStep c d cancel_future id found g h =
    let (_, _, h1) = bind_returned (validate_identifier id "batch_id") _ h in
    let split = split_cancelled cancel_future id c.queued in
    let next = record c { queued = split.0 } in
    let same : next ≡ d =
      ap (λ r. r.0) (ok-injective (next, split.1) (next, split.1) (d, found) h1) in
    subst (λ e. QueueStep (cancelling id) (scheduled_ids c) (scheduled_ids e)) same
      (elim g [
        | idle a q p ↦
            subst
              (λ r.
                QueueStep (cancelling id) (with_active c.active (batch_ids c.queued))
                  (with_active c.active (batch_ids (split_cancelled cancel_future id r).0)))
              (sym q)
              (subst
                (λ r.
                  QueueStep (cancelling id) (with_active c.active (batch_ids r))
                    (with_active c.active []))
                (sym q) (take_out_none id (ap (λ o. with_active o []) a)))
        | busy t a p x s k f ↦
            let left = (split_cancelled-Cancels cancel_future id c.queued f).left in
            subst (QueueStep (cancelling id) _)
              (sym (ap (λ o. with_active o (batch_ids split.0)) a ∙ ap (λ r. t.batch_id ∷ r) left))
              (take_out t.batch_id id (batch_ids c.queued)
                (ap (λ o. with_active o (batch_ids c.queued)) a))
      ])

release-QueueStep :
    (c d : Coordinator) (t : ScheduledTask) (rest : List ScheduledTask)
    → IsSerial c
    → c.pool ≡ t ∷ rest
    → release c t rest ≡ ok d
    → QueueStep ending (scheduled_ids c) (scheduled_ids d)
unfolding release scheduled_ids
release-QueueStep c d t rest g p h =
    let (a, _, _, _, _, _) = pool-IsSerial c t rest g p in
    leave t.batch_id (scheduled_ids d) (
      ap (λ o. with_active o (batch_ids c.queued)) a
      ∙ ap (λ r. t.batch_id ∷ r)
          (sym (
            pump-scheduled_ids _ d h
            ∙ ap (λ o. with_active o (batch_ids c.queued)) (clear_active_self c t a))))

-- Each operation on a serial coordinator does to the scheduled batch ids what it does to a first-in,
-- first-out queue: scheduling a batch adds its id, which was not there, at the end; cancelling a
-- batch removes its id from behind the first, and nothing else; the end of a run removes the first;
-- reporting an outcome, draining the completions and shutting down leave the queue as it is.
pub Step-QueueStep :
    {c d : Coordinator}
    → IsSerial c
    → (s : Step c d) → QueueStep (label s) (scheduled_ids c) (scheduled_ids d)
unfolding scheduled_ids report drain_completions label
Step-QueueStep {c = c} {d = d} g (schedules id kind job_id h) =
    schedule-QueueStep c d id kind job_id h
Step-QueueStep {c = c} {d = d} g (cancels f id found h) = cancel_queued-QueueStep c d f id found g h
Step-QueueStep g (reports t rest outcome p r) = stay
Step-QueueStep {c = c} {d = d} g (releases t rest p r h) = release-QueueStep c d t rest g p h
Step-QueueStep g drains = stay
Step-QueueStep {c = c} {d = d} g (shuts_down h) = elim (shutdown-cases c d g h) [
  | inl same ↦ subst (λ e. QueueStep other (scheduled_ids c) (scheduled_ids e)) same stay
  | inr (a, q, p, same) ↦ subst (λ e. QueueStep other (scheduled_ids c) (scheduled_ids e)) same stay
]

-- In a serial coordinator the end of a run never fails, and it starts the next task at once: if the
-- pool holds a task, then releasing it returns, and either nothing waited and nothing runs, or the
-- first waiting task is the one that runs.
pub release-Starts :
    (c : Coordinator) (t : ScheduledTask) (rest : List ScheduledTask)
    → IsSerial c
    → c.pool ≡ t ∷ rest
    → (d : Coordinator) × (release c t rest ≡ ok d) × StartsNext c.queued d.active d.queued
unfolding release
release-Starts c t rest g p =
    let (a, _, x, _, _, _) = pool-IsSerial c t rest g p in
    let next = record c { active = clear_active c.active t; pool = rest; is_reported = false } in
    started_next next (clear_active_self c t a) x c.queued refl
  where
    started_next :
        (e : Coordinator)
        → e.active ≡ none
        → e.has_executor ≡ true
        → (q : List ScheduledTask) → e.queued ≡ q
        → (d : Coordinator) × (pump e ≡ ok d) × StartsNext q d.active d.queued
    started_next e i x [] j = (e, pump-empty e i j, nothing_waits i j)
    started_next e i x (u ∷ q) j = (started e u q, pump-next e u q i j x, first_starts refl refl)

-- ===== src/Service.antt =====
-- What the durable services share: the journal, the projection at hand, and the calls of what lies
-- outside the program's core.
-- A service is a function on a `World`. A call of the file system, of a stage runner or of the
-- artifact store takes the next of the `answers`: it may return, or raise any error, at any time,
-- before its effect, after it or, for a line of the journal, within it; and a test for a marker
-- file may find it or not.
-- JournalFile has the journal's bytes; here it is the events of its complete lines, with what
-- follows them.
pub mod Preserves
pub mod Coherent
pub mod Append
pub mod Methods
use video_captioner_z.Base.{
  ℕ, suc, String, Bool, true, false, not, Option, none, some, List, [], ◌∷◌, ◌++◌, length, ◌==◌,
  str_eq, Result, ok, err, AppError, app_error, raise_if,
}
use video_captioner_z.Base
use video_captioner_z.Json.{pos, Value, int, str, Fields, field, end}
use video_captioner_z.Artifact.{ArtifactRef}
use video_captioner_z.Stage.{StageName, StageProjection, stage_value}
use video_captioner_z.Job.{ConfigCodec, JobProjection, find_stage}
use video_captioner_z.Batch.{BatchProjection, find_batch_job}
use video_captioner_z.Event.{EventType, JournalEvent, journal_event}
use video_captioner_z.Journal.{apply_event, replay}

pub data Answer : Type 0 where
  done : Answer
  fails fails_late tears : AppError → Answer
  says : Bool → Answer
  gives : List ArtifactRef → Answer
  named : String → Answer

-- What follows the lines that can be read: nothing, a part of a line, or a complete line that is
-- none, since a line was appended to a part of one. A repair removes the part, not the line.
pub data Tail : Type 0 where
  whole torn corrupt : Tail

-- What a write did before it returned or raised.
pub data Written : Type 0 where
  unwritten partly wholly_then : AppError → Written
  wholly : Written

unfoldable pub written : Answer → Written
written (fails e) = unwritten e
written (tears e) = partly e
written (fails_late e) = wholly_then e
written done = wholly
written (says b) = wholly
written (gives refs) = wholly
written (named s) = wholly

-- `log` is what can be read of the journal, and `tail` what follows it; `held` is the projection in
-- the variable `projection` of the method that runs.
-- `committed`, `cancelled` and `reason` are the variables of `StageExecutor.execute`.
pub record World (C : Type 0) : Type 0 where
  pub log : List JournalEvent
  pub tail : Tail
  pub held : BatchProjection C
  pub manifest : Option (BatchProjection C)
  pub answers : List Answer
  pub next_event : ℕ
  pub committed : Bool
  pub cancelled : Bool
  pub reason : String

-- What was written before an error stays written.
abbrev pub Act : Type 0 → Type 0 → Type 0
Act C A = World C → Result A × World C

module _ {C A : Type 0} where
  unfoldable pub returns : A → Act C A
  returns a w = (ok a, w)

  unfoldable pub raises : AppError → Act C A
  raises e w = (err e, w)

  -- a computation that leaves the world alone
  unfoldable pub pure : Result A → Act C A
  pure r w = (r, w)

  unfoldable pub reads : (World C → A) → Act C A
  reads f w = (ok (f w), w)

unfoldable pub writes : {C : Type 0} → (World C → World C) → Act C (Unit {0})
writes f w = (ok tt, f w)

module _ {C A B : Type 0} where
  abbrev pub resume_with : (A → Act C B) → Result A × World C → Result B × World C
  resume_with k (ok a, w) = k a w
  resume_with k (err e, w) = (err e, w)

  infixl 5 ◌>>=◌ ◌>>◌
  unfoldable pub ◌>>=◌ : Act C A → (A → Act C B) → Act C B
  unfolding returns raises pure reads writes
  ◌>>=◌ m k w = resume_with k (m w)

  abbrev pub ◌>>◌ : Act C A → Act C B → Act C B
  m >> k = m >>= λ _. k

module _ {C A : Type 0} where
  abbrev pub recover_with : (AppError → Act C A) → Result A × World C → Result A × World C
  recover_with handler (ok a, w) = (ok a, w)
  recover_with handler (err e, w) = handler e w

  -- `try: m` and `except AppError as e: handler`
  unfoldable pub catches : Act C A → (AppError → Act C A) → Act C A
  catches m handler w = recover_with handler (m w)

module _ {C A : Type 0} where
  abbrev pub returned_from : BatchProjection C → Result A × World C → Result A × World C
  returned_from p (ok a, w) = (ok a, w)
  returned_from p (err e, w) = (err e, record w { held = p })

  -- The body of a method: its variable `projection` is its own. The caller has the value that the
  -- method returns; where it raises, the caller is left with the projection that it had.
  unfoldable pub method : Act C A → Act C A
  method m w = returned_from w.held (m w)

module _ {C : Type 0} where
  abbrev pub pop : List Answer → World C → Result Answer × World C
  pop [] w = (ok done, w)
  pop (a ∷ answers) w = (ok a, record w { answers = answers })

  unfoldable pub next_answer : Act C Answer
  next_answer w = pop w.answers w

  pub obey : Answer → Act C (Unit {0})
  obey (fails e) = raises e
  obey (fails_late e) = raises e
  obey (tears e) = raises e
  obey _ = returns tt

  pub believe : Answer → Act C Bool
  believe (fails e) = raises e
  believe (fails_late e) = raises e
  believe (tears e) = raises e
  believe (says b) = returns b
  believe _ = returns false

  pub accept : Answer → Act C (List ArtifactRef)
  accept (fails e) = raises e
  accept (fails_late e) = raises e
  accept (tears e) = raises e
  accept (gives refs) = returns refs
  accept _ = returns []

  pub word_of : Answer → Act C String
  word_of (fails e) = raises e
  word_of (fails_late e) = raises e
  word_of (tears e) = raises e
  word_of (named s) = returns s
  word_of _ = returns ""

  -- a call that returns nothing of use, a test, a call that produces artifacts, and one that
  -- returns a word
  unfoldable pub call : Act C (Unit {0})
  unfolding next_answer obey
  call = next_answer >>= obey

  unfoldable pub ask : Act C Bool
  unfolding next_answer believe
  ask = next_answer >>= believe

  unfoldable pub produce : Act C (List ArtifactRef)
  unfolding next_answer accept
  produce = next_answer >>= accept

  unfoldable pub ask_word : Act C String
  unfolding next_answer word_of
  ask_word = next_answer >>= word_of

  -- `if b: raise e`
  unfoldable pub raises_if : Bool → AppError → Act C (Unit {0})
  raises_if b e = pure (raise_if b e)

  -- `projection.job(job_id)`
  unfoldable pub job_of : String → Act C (JobProjection C)
  job_of id = do p ← reads (λ w. w.held); pure (find_batch_job id p.jobs)

  unfoldable pub save_manifest : Written → Act C (Unit {0})
  save_manifest (unwritten e) = raises e
  save_manifest (partly e) = raises e
  save_manifest (wholly_then e) = do writes (λ w. record w { manifest = some w.held }); raises e
  save_manifest wholly = writes (λ w. record w { manifest = some w.held })

  -- `manifest.write(projection)`, which replaces the file as a whole
  unfoldable pub write_manifest : Act C (Unit {0})
  unfolding next_answer save_manifest
  write_manifest = do a ← next_answer; save_manifest (written a)

found_stage : String → Option StageProjection → Result StageProjection
found_stage id none = err (app_error "job.stage_unavailable" id)
found_stage id (some s) = ok s

-- `job.stage(name)`
unfoldable pub stage_in : {C : Type 0} → JobProjection C → StageName → Result StageProjection
unfolding found_stage find_stage
stage_in job n = found_stage job.job_id (find_stage n job.stages)

abbrev pub job_payload : String → Fields
job_payload id = field "job_id" (str id) end

-- `_stage_payload`, before the fields that an event adds
abbrev pub stage_payload : String → StageName → ℕ → Fields → Fields
stage_payload id n attempt more =
    field "job_id" (str id)
      (field "stage_name" (str (stage_value n)) (field "attempt" (int (pos attempt)) more))

unfoldable pub first_batch : JournalEvent → List JournalEvent → String
first_batch e [] = e.batch_id
first_batch e (f ∷ log) = f.batch_id

-- the checks of `JsonlJournal.append`
unfoldable pub check_append : List JournalEvent → JournalEvent → Result (Unit {0})
unfolding first_batch
check_append log e =
    Base.◌>>=◌
      (raise_if (not (e.seq == suc (length log))) (app_error "journal.append_failed" "sequence"))
      (λ _.
        raise_if (not (str_eq e.batch_id (first_batch e log)))
          (app_error "journal.append_failed" "batch_identity"))

unfoldable pub is_corrupt : Tail → Bool
is_corrupt corrupt = true
is_corrupt _ = false

abbrev pub corrupt_line : AppError
corrupt_line = app_error "journal.corrupt" "complete_line"

-- the truncation of `_repair_tail`
abbrev pub mended : Tail → Tail
mended torn = whole
mended t = t

module _ {C : Type 0} where
  -- The write of `JsonlJournal.append`. After a write that raised, the journal is read again: the
  -- append returns if the event is there. A line that is written after a part of one makes a
  -- complete line that cannot be read.
  unfoldable pub write_line : JournalEvent → BatchProjection C → Tail → Written → Act C (Unit {0})
  write_line e q whole (unwritten x) = raises x
  write_line e q whole (partly x) = do writes (λ w. record w { tail = torn }); raises x
  write_line e q whole (wholly_then x) = writes (λ w. record w { log = w.log ++ e ∷ []; held = q })
  write_line e q whole wholly = writes (λ w. record w { log = w.log ++ e ∷ []; held = q })
  write_line e q torn (unwritten x) = raises x
  write_line e q torn (partly x) = raises x
  write_line e q torn (wholly_then x) = do
    writes (λ w. record w { tail = corrupt })
    raises corrupt_line
  write_line e q torn wholly = writes (λ w. record w { tail = corrupt; held = q })
  write_line e q corrupt x = raises corrupt_line

  pub repaired : Written → Act C (Unit {0})
  repaired (unwritten x) = raises x
  repaired (partly x) = raises x
  repaired (wholly_then x) = do writes (λ w. record w { tail = mended w.tail }); raises x
  repaired wholly = writes (λ w. record w { tail = mended w.tail })

  -- `_repair_tail`
  unfoldable pub repair_tail : Act C (Unit {0})
  unfolding next_answer repaired
  repair_tail = do a ← next_answer; repaired (written a)

  -- the reading of the lines, which fails at one that is complete and no event
  unfoldable pub check_lines : Act C (Unit {0})
  unfolding is_corrupt
  check_lines = do t ← reads (λ w. w.tail); raises_if (is_corrupt t) corrupt_line

  -- `read_snapshot`: an incomplete tail is left as it is
  unfoldable pub read_snapshot : Act C (Unit {0})
  unfolding call check_lines
  read_snapshot = do call; check_lines

  -- `repair_and_read`
  unfoldable pub repair_and_read : Act C (Unit {0})
  unfolding repair_tail check_lines
  repair_and_read = do repair_tail; check_lines

-- What the services use of a clock and of a source of event ids.
pub record EventFactory : Type 0 where
  pub next_id : ℕ → String
  pub now_utc : ℕ → String
  pub is_timestamp : String → Bool

module _ {C : Type 0} (codec : ConfigCodec C) (factory : EventFactory) where
  -- `event_factory.create(...)`, then `apply_event`
  unfoldable pub propose : World C → EventType → Fields → Result (JournalEvent × BatchProjection C)
  propose w type payload =
      Base.◌>>=◌
        (journal_event factory.is_timestamp (suc w.held.last_event_seq)
          (factory.next_id w.next_event) (factory.now_utc w.next_event) w.held.batch_id type
          payload)
        (λ e. Base.◌>>=◌ (apply_event codec (some w.held) e) (λ q. ok (e, q)))

  -- the same, then the journal's reading of its lines and its checks
  unfoldable pub prepare : World C → EventType → Fields → Result (JournalEvent × BatchProjection C)
  unfolding check_append propose is_corrupt
  prepare w type payload = Base.◌>>=◌ (propose w type payload) (λ x.
      Base.◌>>=◌ (raise_if (is_corrupt w.tail) corrupt_line)
        (λ _. Base.◌>>=◌ (check_append w.log x.0) (λ _. ok x)))

  pub write_event : Result (JournalEvent × BatchProjection C) → Act C (Unit {0})
  write_event (err e) = raises e
  write_event (ok (e, q)) = do
    a ← next_answer
    t ← reads (λ w. w.tail)
    write_line e q t (written a)

  -- `projection = self._append(projection, type, payload)`
  unfoldable pub append_event : EventType → Fields → Act C (Unit {0})
  unfolding prepare write_event
  append_event type payload w =
      write_event (prepare w type payload) (record w { next_event = suc w.next_event })

module _ {C : Type 0} (codec : ConfigCodec C) where
  abbrev pub refreshed : Result (BatchProjection C) → Act C (Unit {0})
  refreshed (ok p) w = (ok tt, record w { held = p })
  refreshed (err e) w = (err e, w)

  unfoldable pub refresh : Act C (Unit {0})
  refresh w = refreshed (replay codec w.log) w

  -- `projection = replay(self.journal.repair_and_read())`
  unfoldable pub reload : Act C (Unit {0})
  unfolding repair_and_read refresh
  reload = do repair_and_read; refresh

module _ {C A : Type 0} where
  abbrev pub then_result : Result A → Result (Unit {0}) × World C → Result A × World C
  then_result r (ok _, w) = (r, w)
  then_result r (err e, w) = (err e, w)

  abbrev pub ended : Act C (Unit {0}) → Result A × World C → Result A × World C
  ended cleanup (r, w) = then_result r (cleanup w)

  -- `try: m` and `finally: cleanup`: an error of the cleanup replaces the result
  unfoldable pub always_after : Act C A → Act C (Unit {0}) → Act C A
  always_after m cleanup w = ended cleanup (m w)

-- ===== src/Lib.antt =====
-- Captioner, a durable batch subtitle generator (Python, src/captioner): the journal from which
-- the state of a batch is replayed, as events and as the bytes of a file; the plans and projections
-- that it replays to; the executor of a stage and the service that runs, resumes, cancels and repairs
-- a batch over the journal; the coordinator that runs one batch at a time; the transcripts and
-- subtitle tracks that the stages hand on, with the segmentation of the words into cues; and the
-- planner of the chunks that are sent to a language model, with their splitting.
--
-- Parts, and the files that model them:
--   Base       shared names, lists, texts as keys, and core/domain/errors.py: `AppError` and the
--              results of code that may raise it
--   Text       what the program uses of `str` and of its regular expressions
--   Json       core/domain/result.py: JSON values and `freeze_json_value`
--   Artifact   core/domain/artifact.py
--   Stage      core/domain/stage.py: stages, profiles, plans
--   Job        core/domain/job.py: identifiers and the job projection; Job/Plan proves what the
--              constructor guarantees
--   Batch      core/domain/batch.py
--   Event, StageEvents, JobEvents, Journal
--              core/domain/journal.py: events and their payloads (Event/Mapping reads and prints
--              an event), what an event does to the stages of a job, to a job, and to the batch
--              (`apply_event`, `replay`); the other modules below them hold the proofs
--   JournalFile
--              adapters/persistence/jsonl_journal.py: the lines of the file, reading, repair and append;
--              JournalFile/Lines and JournalFile/Tail have the lemmas on them, JournalFile/Append the
--              outcome of an append
--   Service    the `World` of the durable services: the journal, the projection at hand, the
--              answers of the outside; Service/Preserves and Service/Methods have the rules for what
--              actions and methods keep, Service/Coherent and Service/Append what that is
--   StageExecutor
--              core/application/stage_executor.py, and core/domain/cache_key.py up to the digest in
--              Pipeline/Run
--   Pipeline   core/application/durable_pipeline.py: status, resume, retry and the updates of a
--              configuration; Pipeline/Run has the loops over jobs and stages,
--              Pipeline/Cancellation the cancel requests, Pipeline/Repair the repair of a batch
--   Chunking   core/policies/llm_chunking.py: windows, the planner's loops (Chunking/Planner) and
--              what a plan satisfies (Chunking/Partition); Chunking/Shrink has `_execute_with_shrink`
--              of core/application/llm_chunk_executor.py, Chunking/Answers what it answers
--   Execution  core/application/execution_coordinator.py: the serial coordinator and its thread pool;
--              Execution/Serial has its states and steps, Execution/Queue its abstract queue
--   Unicode    core/policies/unicode_metrics.py: `normalize_text`
--   Transcript core/domain/transcript.py; Transcript/Correction has the corrected transcripts
--   Subtitle   core/domain/subtitle.py
--   SegmentationPolicy
--              core/policies/segmentation_config.py
--   Segmentation
--              core/policies/segmentation.py: `_hard_partitions`; Segmentation/Candidate the cost of a
--              candidate cue, Segmentation/Solver the dynamic program, Segmentation/Timeline the times
--              of the cues; Segmentation/Optimal and Segmentation/Spans prove what the program finds
--   Integer    the integers and tuples that are costs
--   SubRip     adapters/exporters/srt.py: time stamps, and the writing of a track (SubRip/Export); what
--              `\d` matches, as `int` reads it, is a parameter
--   Recovery   core/application/recovery.py: the batches that are offered after a restart
--              (Recovery/Candidates), and their order (Recovery/Order)
--   Tests      concrete runs, and each property at a concrete input
-- All paths are below src/captioner.
--
-- A frozen dataclass is a record, and `__post_init__` a function that returns the record or the
-- error; `dataclasses.replace` runs it again, and so do the models of its callers. An exception is
-- the `err` of a result. `AppError` is modelled with its code and its `reason` or `field`.
-- A job's configuration is reached through the interface `ConfigCodec` (its decoding, its profile,
-- and the comparison of runtime signatures), of which any implementation may be given.
-- The tokenizer and the request encoder behind the chunk planner are parameters. Its loops recur
-- on the rounds that are left: the inner one has the rounds that its condition allows, the outer
-- one a round for each item, which is enough since a round takes at least one.
-- The coordinator's lock makes each method one step; the thread pool runs what was submitted to it
-- in order, on one thread, and what an operation does is given by how it ends (`Outcome`).
-- The values of a JSON mapping are typed by their constructors, so that Python's type tests are
-- matches. `unicodedata` is a parameter. A time is a natural number once its check has passed.
-- A durable service is a function on a `World`, which it returns also where it raises. Each call of
-- the file system, of a stage runner, of the artifact store or of the manifest takes the next of a
-- list of answers: to return, to raise an error, to find a marker or not, to produce artifacts;
-- past the end of the list a call returns. So a statement on every list of answers covers every
-- order of failures and requests. The variable `projection` belongs to the method that runs: a method
-- that returns hands its own on, and one that raises leaves its caller with the caller's. The
-- journal of a `World` is the events of its lines and a tail: a write may stop within a line, a
-- repair cuts the part off, and a line that is written after a part cannot be read. Ids and times of events come from an `EventFactory`, the versions of runners and the stages' part of the
-- configuration from `StageRunners`.
-- The journal's file is a list of bytes; `json` with its encoding as bytes, and the equality of
-- mappings, are a parameter `JsonText`, whose reading of what it has written is a hypothesis on each
-- event. A write stops after any number of bytes.
-- The measures of a text, its line breaks and the cost of a break in a protected span are an
-- interface of the segmentation. Its inner loop has the rounds of its range, which is at most 96
-- words. The execution of one chunk is a parameter of its splitting, whose fuel is one round for
-- each item and one more; each split makes shorter chunks.
-- Not modelled: the creation of a batch and the writing of markers, which are files; the language
-- model's client and its cache, the transcription engines, line breaking and protected spans, the
-- other files, processes, the network and the user interfaces.
pub mod Base
pub mod Text
pub mod Json
pub mod Artifact
pub mod Stage
pub mod Job
pub mod Batch
pub mod Event
pub mod StageEvents
pub mod JobEvents
pub mod Journal
pub mod Chunking
pub mod Execution
pub mod Subtitle
pub mod Pipeline
pub mod StageExecutor
pub mod Service
pub mod JournalFile
pub mod Integer
pub mod SubRip
pub mod Recovery
pub mod Segmentation
pub mod SegmentationPolicy
pub mod Transcript
pub mod Unicode
mod Tests

-- ===== src/Tests/Sample.antt =====
-- A small configuration codec and the log of a batch with one deterministic job.
use video_captioner_z.Base.{
  ℕ, String, Bool, true, false, List, [], ◌∷◌, Result, ok, err, app_error, str_eq, if◌then◌else◌,
}
use video_captioner_z.Json.{pos, Value, int, str, array, object, nil, cons, Fields, end, field}
use video_captioner_z.Stage.{PipelineProfile, deterministic, fast, quality}
use video_captioner_z.Job.{ConfigCodec}
use video_captioner_z.Event.{
  EventType, batch_created, job_created, job_retry_requested, stage_started, stage_committed,
  stage_failed, job_succeeded, JournalEvent,
}

abbrev pub decode_profile : Value → Result PipelineProfile
decode_profile (str s) = if str_eq s "quality" then ok quality else ok deterministic
decode_profile _ = err (app_error "job.config_invalid" "pipeline_profile")

abbrev pub same_profile : PipelineProfile → PipelineProfile → Bool
same_profile deterministic deterministic = true
same_profile fast fast = true
same_profile quality quality = true
same_profile _ _ = false

-- A configuration that is only a profile.
abbrev pub sample_codec : ConfigCodec PipelineProfile
sample_codec = record { decode = decode_profile; profile = λ p. p; same_signature = same_profile }

abbrev pub event : ℕ → String → EventType → Fields → JournalEvent
event n id type payload = record {
  seq = n;
  event_id = id;
  timestamp_utc = "2026-01-01T00:00:00Z";
  batch_id = "batch-1";
  type = type;
  payload = payload;
}

abbrev pub job_payload : Fields
job_payload = field "job_id" (str "job-1") end

abbrev pub new_job : Fields
new_job =
    field "job_id" (str "job-1")
      (field "input_path" (str "/in/a.mp4") (field "config" (str "deterministic") end))

abbrev pub stage_payload : String → ℕ → Fields
stage_payload name attempt =
    field "job_id" (str "job-1")
      (field "stage_name" (str name) (field "attempt" (int (pos attempt)) end))

abbrev digest : String
digest = "00000000000000000000000000000000000000000000000000000000000000ff"

abbrev artifact : Value
artifact = object (
    field "sha256" (str digest) (
      field "size_bytes" (int (pos 3)) (
        field "kind" (str "media")
          (field "media_type" (str "text/plain") (field "logical_name" (str "a.txt") end)))))

abbrev pub commit_payload : String → ℕ → Fields
commit_payload name attempt = field "job_id" (str "job-1") (
    field "stage_name" (str name) (
      field "attempt" (int (pos attempt)) (
        field "cache_key"
          (str "sha256:00000000000000000000000000000000000000000000000000000000000000ff")
          (field "artifacts" (array (cons artifact nil)) end))))

abbrev pub started : JournalEvent
started = event 3 "e3" stage_started (stage_payload "inspect" 1)

abbrev pub committed_event : JournalEvent
committed_event = event 4 "e4" stage_committed (commit_payload "inspect" 1)

abbrev pub short_log : List JournalEvent
short_log =
    event 1 "e1" batch_created end
    ∷ event 2 "e2" job_created new_job
    ∷ started
    ∷ committed_event
    ∷ []

-- every stage of the deterministic plan is run and committed, and the job succeeds
abbrev pub full_log : List JournalEvent
full_log =
    event 1 "e1" batch_created end
    ∷ event 2 "e2" job_created new_job
    ∷ started
    ∷ committed_event
    ∷ event 5 "e5" stage_started (stage_payload "normalize" 1)
    ∷ event 6 "e6" stage_committed (commit_payload "normalize" 1)
    ∷ event 7 "e7" stage_started (stage_payload "transcribe" 1)
    ∷ event 8 "e8" stage_failed (stage_payload "transcribe" 1)
    ∷ event 9 "e9" job_retry_requested (stage_payload "transcribe" 1)
    ∷ event 10 "e10" stage_started (stage_payload "transcribe" 2)
    ∷ event 11 "e11" stage_committed (commit_payload "transcribe" 2)
    ∷ event 12 "e12" stage_started (stage_payload "segment" 1)
    ∷ event 13 "e13" stage_committed (commit_payload "segment" 1)
    ∷ event 14 "e14" stage_started (stage_payload "export" 1)
    ∷ event 15 "e15" stage_committed (commit_payload "export" 1)
    ∷ event 16 "e16" stage_started (stage_payload "publish" 1)
    ∷ event 17 "e17" stage_committed (commit_payload "publish" 1)
    ∷ event 18 "e18" job_succeeded job_payload
    ∷ []

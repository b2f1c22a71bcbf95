-- ===== src/Event.antt =====
-- core/domain/journal.py: the journal's events and the reading of their payloads.
-- The types are those of `EVENT_TYPES`; the payload is the frozen mapping. The replay reads
-- neither the time nor the schema version, which is 1 in every event that is made.
pub mod Mapping
use video_captioner_z.Base.{
  ℕ, suc, String, Bool, true, false, not, ◌==◌, Result, ok, err, app_error, if◌then◌else◌, ◌>>=◌,
  ◌>>◌, raise_if,
}
use video_captioner_z.Text.{is_blank}
use video_captioner_z.Json.{pos, Value, int, str, Fields, get, freeze_fields}
use video_captioner_z.Job.{validate_identifier}

pub data EventType : Type 0 where
  batch_created batch_config_updated job_created job_config_updated job_retry_requested : EventType
  stage_started stage_interrupted stage_committed stage_failed stage_cancelled : EventType
  stage_invalidated job_succeeded job_failed job_cancelled : EventType

pub record JournalEvent : Type 0 where
  pub seq : ℕ
  pub event_id : String
  pub timestamp_utc : String
  pub batch_id : String
  pub type : EventType
  pub payload : Fields

abbrev pub is_batch_created : EventType → Bool
is_batch_created batch_created = true
is_batch_created _ = false

abbrev pub transition_invalid {ℓ} : {A : Type ℓ} → String → Result A
transition_invalid reason = err (app_error "journal.transition_invalid" reason)

text_or_invalid : String → Value → Result String
text_or_invalid key (str s) = if is_blank s then transition_invalid key else ok s
text_or_invalid key _ = transition_invalid key

-- `_required_str`
unfoldable pub required_str : Fields → String → Result String
unfolding text_or_invalid is_blank get
required_str payload key = text_or_invalid key (get payload key)

positive_or_invalid : String → Value → Result ℕ
positive_or_invalid key (int (pos (suc n))) = ok (suc n)
positive_or_invalid key _ = transition_invalid key

-- `_required_int`
unfoldable pub required_int : Fields → String → Result ℕ
unfolding positive_or_invalid get
required_int payload key = positive_or_invalid key (get payload key)

-- `JournalEvent(...)` with the checks of `__post_init__`; the argument says which texts
-- `datetime.fromisoformat` reads as a time with its zone.
unfoldable pub journal_event :
    (String → Bool) → ℕ → String → String → String → EventType → Fields → Result JournalEvent
unfolding freeze_fields validate_identifier
journal_event is_timestamp seq id timestamp batch type payload = do
  raise_if (seq == 0) (app_error "journal.event_invalid" "schema")
  validate_identifier id "event_id"
  validate_identifier batch "batch_id"
  raise_if (not (is_timestamp timestamp)) (app_error "journal.event_invalid" "timestamp_utc")
  frozen ← freeze_fields payload
  ok (record {
    seq = seq;
    event_id = id;
    timestamp_utc = timestamp;
    batch_id = batch;
    type = type;
    payload = frozen;
  })

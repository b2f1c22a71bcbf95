-- ===== src/Event/Mapping.antt =====
-- core/domain/journal.py: the reading of an event from a mapping, and its printing to one.
use video_captioner_z.Base.{
  ℕ, zero, suc, ◌≡◌, refl, ◌∙◌, ap, String, Bool, true, false, not, List, [], ◌∷◌, same_set, ◌==◌,
  str_eq, if◌then◌else◌, Result, ok, err, app_error, ◌>>=◌, raise_if, bind_returned, ok-injective,
  sym,
}
use video_captioner_z.Job.{validate_identifier}
use video_captioner_z.Json.{
  ℤ, pos, Value, int, str, object, array, null, bool, float, other, Items, cons, nil, Fields,
  is_finite, field, end, freeze_json_value, freeze_items, freeze_fields, get, keys,
}
use video_captioner_z.Event.{
  EventType, batch_created, batch_config_updated, job_created, job_config_updated,
  job_retry_requested, stage_started, stage_interrupted, stage_committed, stage_failed,
  stage_cancelled, stage_invalidated, job_succeeded, job_failed, job_cancelled, JournalEvent,
  journal_event,
}

abbrev pub event_type_value : EventType → String
event_type_value batch_created = "batch.created"
event_type_value batch_config_updated = "batch.config_updated"
event_type_value job_created = "job.created"
event_type_value job_config_updated = "job.config_updated"
event_type_value job_retry_requested = "job.retry_requested"
event_type_value stage_started = "stage.started"
event_type_value stage_interrupted = "stage.interrupted"
event_type_value stage_committed = "stage.committed"
event_type_value stage_failed = "stage.failed"
event_type_value stage_cancelled = "stage.cancelled"
event_type_value stage_invalidated = "stage.invalidated"
event_type_value job_succeeded = "job.succeeded"
event_type_value job_failed = "job.failed"
event_type_value job_cancelled = "job.cancelled"

abbrev pub corrupt : {A : Type 0} → String → Result A
corrupt reason = err (app_error "journal.corrupt" reason)

-- `type in EVENT_TYPES`
unfoldable pub event_type_of : String → Result EventType
event_type_of s =
    if str_eq s "batch.created"
    then ok batch_created
    else if str_eq s "batch.config_updated"
    then ok batch_config_updated
    else if str_eq s "job.created"
    then ok job_created
    else if str_eq s "job.config_updated"
    then ok job_config_updated
    else if str_eq s "job.retry_requested"
    then ok job_retry_requested
    else if str_eq s "stage.started"
    then ok stage_started
    else if str_eq s "stage.interrupted"
    then ok stage_interrupted
    else if str_eq s "stage.committed"
    then ok stage_committed
    else if str_eq s "stage.failed"
    then ok stage_failed
    else if str_eq s "stage.cancelled"
    then ok stage_cancelled
    else if str_eq s "stage.invalidated"
    then ok stage_invalidated
    else if str_eq s "job.succeeded"
    then ok job_succeeded
    else if str_eq s "job.failed"
    then ok job_failed
    else if str_eq s "job.cancelled"
    then ok job_cancelled
    else err (app_error "journal.event_invalid" "type")

-- `to_dict`
abbrev pub event_fields : JournalEvent → Fields
event_fields e = field "schema_version" (int (pos 1)) (
    field "seq" (int (pos e.seq)) (
      field "event_id" (str e.event_id) (
        field "timestamp_utc" (str e.timestamp_utc) (
          field "batch_id" (str e.batch_id) (
            field "type" (str (event_type_value e.type))
              (field "payload" (object e.payload) end))))))

abbrev pub event_keys : List String
event_keys =
    "schema_version" ∷ "seq" ∷ "event_id" ∷ "timestamp_utc" ∷ "batch_id" ∷ "type" ∷ "payload" ∷ []

-- The fields of an event by their types; the sequence number is no number of ℕ in a mapping.
pub record RawEvent : Type 0 where
  pub version : ℤ
  pub seq : ℤ
  pub event_id : String
  pub timestamp_utc : String
  pub batch_id : String
  pub type : String
  pub payload : Fields

-- the type tests of `from_dict`
unfoldable pub raw_event : Value → Value → Value → Value → Value → Value → Value → Result RawEvent
raw_event (int v) (int n) (str e) (str t) (str b) (str k) (object p) = ok (record {
  version = v;
  seq = n;
  event_id = e;
  timestamp_utc = t;
  batch_id = b;
  type = k;
  payload = p;
})
raw_event _ _ _ _ _ _ _ = corrupt "event_schema"

-- `except (TypeError, ValueError, AppError)`: any error but journal.corrupt becomes one
unfoldable pub as_corrupt : {A : Type 0} → Result A → Result A
as_corrupt (ok a) = ok a
as_corrupt (err e) = if str_eq e.code "journal.corrupt" then err e else corrupt "event_schema"

version_one : ℤ → ℤ → Result ℕ
version_one (pos (suc zero)) (pos n) = ok n
version_one _ _ = err (app_error "journal.event_invalid" "schema")

module _ (is_timestamp : String → Bool) where
  -- `freeze_json_value(payload_mapping)`, then the constructor with its checks,
  -- whose errors all become one
  unfoldable pub event_from_raw : RawEvent → Result JournalEvent
  unfolding version_one
  event_from_raw raw = do
    frozen ← freeze_fields raw.payload
    n ← version_one raw.version raw.seq
    type ← event_type_of raw.type
    journal_event is_timestamp n raw.event_id raw.timestamp_utc raw.batch_id type frozen

  -- `JournalEvent.from_dict`
  unfoldable pub event_from_dict : Value → Result JournalEvent
  unfolding as_corrupt event_from_raw raw_event
  event_from_dict (object m) =
      if not (same_set (keys m) event_keys)
      then corrupt "event_fields"
      else as_corrupt (do
        raw ←
            raw_event (get m "schema_version") (get m "seq") (get m "event_id")
              (get m "timestamp_utc") (get m "batch_id") (get m "type") (get m "payload")
        event_from_raw raw)
  event_from_dict _ = corrupt "event_root"

finite_float :
    (x : ℕ) (b : Bool) (w : Value)
    → (if b then ok (float x) else err (app_error "ValueError" "")) ≡ ok w
    → float x ≡ w
finite_float x true w h = ok-injective w (float x) w h
finite_float x false w h = absurd (cc)

-- A validating copy is the value itself.
mutual
  unfolding freeze_json_value freeze_items freeze_fields

  freeze-same : (v w : Value) → freeze_json_value v ≡ ok w → v ≡ w
  freeze-same null w h = ok-injective null null w h
  freeze-same (bool b) w h = ok-injective w (bool b) w h
  freeze-same (int n) w h = ok-injective w (int n) w h
  freeze-same (str s) w h = ok-injective w (str s) w h
  freeze-same (float x) w h = finite_float x (is_finite x) w h
  freeze-same (object m) w h =
      let (f, k, l) = bind_returned (freeze_fields m) _ h in
      ap object (freeze_fields-same m f k) ∙ ok-injective w (object f) w l
  freeze-same (array xs) w h =
      let (f, k, l) = bind_returned (freeze_items xs) _ h in
      ap array (freeze_items-same xs f k) ∙ ok-injective w (array f) w l
  freeze-same other w h = absurd (cc)

  freeze_items-same : (xs ys : Items) → freeze_items xs ≡ ok ys → xs ≡ ys
  freeze_items-same nil ys h = ok-injective ys nil ys h
  freeze_items-same (cons x xs) ys h =
      let (y, k, l) = bind_returned (freeze_json_value x) _ h in
      let (zs, m, n) = bind_returned (freeze_items xs) _ l in
      ap (λ a. cons a xs) (freeze-same x y k)
      ∙ ap (cons y) (freeze_items-same xs zs m)
      ∙ ok-injective ys (cons y zs) ys n

  pub freeze_fields-same : (m n : Fields) → freeze_fields m ≡ ok n → m ≡ n
  freeze_fields-same end n h = ok-injective n end n h
  freeze_fields-same (field k v m) n h =
      let (w, a, b) = bind_returned (freeze_json_value v) _ h in
      let (rest, c, d) = bind_returned (freeze_fields m) _ b in
      ap (λ x. field k x m) (freeze-same v w a)
      ∙ ap (field k w) (freeze_fields-same m rest c)
      ∙ ok-injective n (field k w rest) n d

-- What a mapping must have to be read as an event.
pub record IsMappingOf (e : JournalEvent) (m : Fields) : Type 0 where
  pub same_keys : same_set (keys m) event_keys ≡ true
  pub same_members : (k : String) → get m k ≡ get (event_fields e) k

module _ (is_timestamp : String → Bool) where
  -- the event passes the checks of its constructor
  abbrev pub IsEvent : JournalEvent → Type 0
  IsEvent e =
      journal_event is_timestamp e.seq e.event_id e.timestamp_utc e.batch_id e.type e.payload ≡ ok e

  event_type_of-value : (k : EventType) → event_type_of (event_type_value k) ≡ ok k
  unfolding event_type_of
  event_type_of-value batch_created = refl
  event_type_of-value batch_config_updated = refl
  event_type_of-value job_created = refl
  event_type_of-value job_config_updated = refl
  event_type_of-value job_retry_requested = refl
  event_type_of-value stage_started = refl
  event_type_of-value stage_interrupted = refl
  event_type_of-value stage_committed = refl
  event_type_of-value stage_failed = refl
  event_type_of-value stage_cancelled = refl
  event_type_of-value stage_invalidated = refl
  event_type_of-value job_succeeded = refl
  event_type_of-value job_failed = refl
  event_type_of-value job_cancelled = refl

  raw_of : JournalEvent → RawEvent
  raw_of e = record {
    version = pos 1;
    seq = pos e.seq;
    event_id = e.event_id;
    timestamp_utc = e.timestamp_utc;
    batch_id = e.batch_id;
    type = event_type_value e.type;
    payload = e.payload;
  }

  IsEvent-frozen : (e : JournalEvent) → IsEvent e → freeze_fields e.payload ≡ ok e.payload
  unfolding journal_event
  IsEvent-frozen e h =
      let (_, _, h1) = bind_returned (raise_if (e.seq == 0) _) _ h in
      let (_, _, h2) = bind_returned (validate_identifier e.event_id "event_id") _ h1 in
      let (_, _, h3) = bind_returned (validate_identifier e.batch_id "batch_id") _ h2 in
      let (_, _, h4) = bind_returned (raise_if (not (is_timestamp e.timestamp_utc)) _) _ h3 in
      let (f, frozen, h5) = bind_returned (freeze_fields e.payload) _ h4 in
      frozen ∙ ap ok (sym (freeze_fields-same e.payload f frozen))

  event_from_raw-raw_of :
      (e : JournalEvent) → IsEvent e → event_from_raw is_timestamp (raw_of e) ≡ ok e
  unfolding event_from_raw raw_of version_one ◌>>=◌
  event_from_raw-raw_of e h = rw (IsEvent-frozen e h) (rw (event_type_of-value e.type) h)

  -- An event that passes its checks is read from a mapping that has its members, in any order.
  pub event_from_dict_lem :
      (e : JournalEvent) (m : Fields)
      → IsEvent e
      → IsMappingOf e m
      → event_from_dict is_timestamp (object m) ≡ ok e
  unfolding event_from_dict raw_event as_corrupt get raw_of ◌>>=◌
  event_from_dict_lem e m h k = rw k.same_keys (
      rw (k.same_members "schema_version") (
        rw (k.same_members "seq") (
          rw (k.same_members "event_id") (
            rw (k.same_members "timestamp_utc") (
              rw (k.same_members "batch_id") (
                rw (k.same_members "type")
                  (rw (k.same_members "payload") (ap as_corrupt (event_from_raw-raw_of e h)))))))))

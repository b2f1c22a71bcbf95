-- ===== src/JournalFile.antt =====
-- adapters/persistence/jsonl_journal.py: the journal as the bytes of a file.
-- The reading of the file is taken to succeed. A write may raise `OSError` with any number of the
-- bytes in the file; a crash leaves the same files behind.
pub mod Lines
pub mod Tail
pub mod Append
use video_captioner_z.Base.{
  ℕ, suc, String, Bool, true, false, not, ◌&&◌, ◌||◌, Option, none, some, List, [], ◌∷◌, ◌++◌,
  length, take, any, ◌==◌, ltb, ◌^◌, str_eq, if◌then◌else◌, Result, ok, err, AppError, app_error,
  ◌>>=◌, ◌>>◌, raise_if,
}
use video_captioner_z.Json.{Value, object, Fields}
use video_captioner_z.Event.{JournalEvent}
use video_captioner_z.Event.Mapping.{corrupt, event_type_value, event_fields, event_from_dict}
use video_captioner_z.Service.{first_batch, check_append}

-- What the journal uses of `json`, with the encoding of a text as bytes (`json.dumps(...).encode()`,
-- `json.loads(line.decode())`), of `datetime.fromisoformat`, and of the equality of mappings.
pub record JsonText : Type 0 where
  pub encode : Value → List ℕ
  pub decode : List ℕ → Option Value
  pub is_timestamp : String → Bool
  pub same_mapping : Fields → Fields → Bool

pub data TailStatus : Type 0 where
  clean incomplete : TailStatus

pub record JournalSnapshot : Type 0 where
  pub events : List JournalEvent
  pub tail_status : TailStatus

abbrev pub max_event_line_bytes : ℕ
max_event_line_bytes = 2 ^ 20

unfoldable pub starts_line_feed : List ℕ → Bool
starts_line_feed [] = false
starts_line_feed (b ∷ bs) = b == 10

unfoldable pub add_first : ℕ → List (List ℕ) → List (List ℕ)
add_first b [] = (b ∷ []) ∷ []
add_first b (line ∷ lines) = (b ∷ line) ∷ lines

-- `data.splitlines(keepends=True)` of bytes
unfoldable pub split_lines : List ℕ → List (List ℕ)
unfolding starts_line_feed add_first
split_lines [] = []
split_lines (b ∷ bs) =
    let lines = split_lines bs in
    if (b == 10) || ((b == 13) && not (starts_line_feed bs))
    then (b ∷ []) ∷ lines
    else add_first b lines

-- `line[:-1]`
unfoldable pub drop_last : List ℕ → List ℕ
drop_last [] = []
drop_last (b ∷ []) = []
drop_last (b ∷ c ∷ bs) = b ∷ drop_last (c ∷ bs)

-- `not data or data.endswith(b"\n")`
unfoldable pub is_complete : List ℕ → Bool
is_complete [] = true
is_complete (b ∷ []) = b == 10
is_complete (b ∷ c ∷ bs) = is_complete (c ∷ bs)

unfoldable pub keep_before : ℕ → List ℕ → List ℕ
keep_before b [] = if b == 10 then b ∷ [] else []
keep_before b (c ∷ kept) = b ∷ c ∷ kept

-- `data[: data.rfind(b"\n") + 1]`
unfoldable pub complete_part : List ℕ → List ℕ
unfolding keep_before
complete_part [] = []
complete_part (b ∷ bs) = keep_before b (complete_part bs)

-- `_repair_tail`
unfoldable pub repair_tail : List ℕ → List ℕ
repair_tail content = if is_complete content then content else complete_part content

-- How the writing ends: done, or with an `OSError` before the file is open, or after as many bytes.
pub data Writing : Type 0 where
  whole not_opened : Writing
  fails_after : ℕ → Writing

abbrev pub bytes_of : Option (List ℕ) → List ℕ
bytes_of none = []
bytes_of (some content) = content

unfoldable pub written : Option (List ℕ) → List ℕ → Writing → Option (List ℕ)
written file encoded whole = some (bytes_of file ++ encoded)
written file encoded not_opened = file
written file encoded (fails_after n) = some (bytes_of file ++ take n encoded)

module _ (json : JsonText) where
  -- `canonical_event_bytes`
  unfoldable pub canonical_event_bytes : JournalEvent → Result (List ℕ)
  canonical_event_bytes e = do
    let encoded = json.encode (object (event_fields e)) ++ 10 ∷ []
    raise_if (ltb max_event_line_bytes (length encoded)) (app_error "journal.event_too_large" "")
    ok encoded

  unfoldable pub or_corrupt : Result JournalEvent → Result JournalEvent
  or_corrupt (ok e) = ok e
  or_corrupt (err e) = corrupt "complete_line"

  unfoldable pub read_value : Option Value → Result JournalEvent
  read_value none = corrupt "complete_line"
  read_value (some v) = or_corrupt (event_from_dict json.is_timestamp v)

  unfoldable pub event_of_line : List ℕ → Result JournalEvent
  unfolding or_corrupt read_value
  event_of_line line = read_value (json.decode (drop_last line))

  -- the loop of `_parse_complete_lines`, from the line number and the events before
  unfoldable pub parse_lines : List (List ℕ) → ℕ → List JournalEvent → Result (List JournalEvent)
  parse_lines [] n events = ok events
  parse_lines (line ∷ lines) n events = do
    raise_if (ltb max_event_line_bytes (length line)) (app_error "journal.corrupt" "line_too_large")
    e ← event_of_line line
    raise_if (not (e.seq == n)) (app_error "journal.corrupt" "sequence")
    raise_if (not (str_eq e.batch_id (first_batch e events)))
        (app_error "journal.corrupt" "batch_identity")
    raise_if (any (λ p. str_eq p.event_id e.event_id) events)
        (app_error "journal.corrupt" "duplicate_event_id")
    parse_lines lines (suc n) (events ++ e ∷ [])

  -- `_parse_complete_lines`
  unfoldable pub parse_complete_lines : List ℕ → Result (List JournalEvent)
  parse_complete_lines content = parse_lines (split_lines content) 1 []

  unfoldable pub snapshot : List ℕ → TailStatus → Result JournalSnapshot
  snapshot complete status = do
    events ← parse_complete_lines complete
    ok (record { events = events; tail_status = status })

  -- `read_snapshot`; no file is none
  unfoldable pub read_snapshot : Option (List ℕ) → Result JournalSnapshot
  unfolding snapshot
  read_snapshot none = ok (record { events = []; tail_status = clean })
  read_snapshot (some content) =
      if is_complete content
      then snapshot content clean
      else snapshot (complete_part content) incomplete

  -- `repair_and_read`, with the file that it leaves
  unfoldable pub repair_and_read : Option (List ℕ) → Result (List JournalEvent) × Option (List ℕ)
  repair_and_read none = (ok [], none)
  repair_and_read (some content) =
      let kept = some (repair_tail content) in ((do s ← read_snapshot kept; ok s.events), kept)

  -- `matching[0] != expected`, and the comparison of the numbers
  unfoldable pub same_event : JournalEvent → JournalEvent → Bool
  same_event e f =
      (e.seq == f.seq)
      && str_eq e.event_id f.event_id
      && str_eq e.timestamp_utc f.timestamp_utc
      && str_eq e.batch_id f.batch_id
      && str_eq (event_type_value e.type) (event_type_value f.type)
      && json.same_mapping e.payload f.payload

  unfoldable pub matching : JournalEvent → List JournalEvent → List JournalEvent
  matching expected [] = []
  matching expected (e ∷ es) =
      if str_eq e.event_id expected.event_id then e ∷ matching expected es else matching expected es

  unfoldable pub match_status : JournalEvent → List JournalEvent → Result Bool
  match_status expected [] = ok false
  match_status expected (e ∷ []) =
      if same_event e expected
      then ok true
      else err (app_error "journal.corrupt" "event_identity_conflict")
  match_status expected (e ∷ f ∷ es) = err (app_error "journal.corrupt" "event_identity_conflict")

  unfoldable pub durable_in : JournalEvent → JournalSnapshot → Result Bool
  durable_in expected s = elim s.tail_status [
    | clean ↦ match_status expected (matching expected s.events)
    | incomplete ↦ ok false
  ]

  -- `_event_is_durable`
  unfoldable pub event_is_durable : Option (List ℕ) → JournalEvent → Result Bool
  unfolding durable_in
  event_is_durable file expected = do s ← read_snapshot file; durable_in expected s

  unfoldable pub reconciled : Result Bool → Result (Unit {0})
  reconciled (err e) = err e
  reconciled (ok true) = ok tt
  reconciled (ok false) = err (app_error "journal.append_failed" "write")

  unfoldable pub write_status : Option (List ℕ) → JournalEvent → Writing → Result (Unit {0})
  unfolding reconciled
  write_status file e whole = ok tt
  write_status file e not_opened = reconciled (event_is_durable file e)
  write_status file e (fails_after n) = reconciled (event_is_durable file e)

  -- the checks of `append` and the bytes that it writes
  unfoldable pub prepare_line : Option (List ℕ) → JournalEvent → Result (List ℕ)
  prepare_line file e = do s ← read_snapshot file; check_append s.events e; canonical_event_bytes e

  unfoldable pub write_line :
      Option (List ℕ)
      → JournalEvent
      → Writing
      → Result (List ℕ)
      → Result (Unit {0}) × Option (List ℕ)
  write_line file e w (err raised) = (err raised, file)
  write_line file e w (ok encoded) =
      let after = written file encoded w in (write_status after e w, after)

  -- `append`, with the file that it leaves
  unfoldable pub append :
      Option (List ℕ) → JournalEvent → Writing → Result (Unit {0}) × Option (List ℕ)
  unfolding write_line
  append file e w = write_line file e w (prepare_line file e)

  -- `append_many`, up to its first error
  unfoldable pub append_many :
      Option (List ℕ) → List (JournalEvent × Writing) → Result (Unit {0}) × Option (List ℕ)
  append_many file [] = (ok tt, file)
  append_many file (x ∷ xs) =
      let (status, after) = append file x.0 x.1 in
      elim status [ ok _ ↦ append_many after xs | err e ↦ (err e, after) ]

-- ===== src/Tests/JournalFile.antt =====
-- Runs of the journal's file.
use video_captioner_z.Base.{
  ℕ, zero, suc, ◌≡◌, refl, true, Option, none, some, List, [], ◌∷◌, ◌==◌, if◌then◌else◌, ok, err,
  app_error, ◌>>=◌, raise_if, ◌&&◌,
}
use video_captioner_z.Json.{pos, Value, int, str, object, Fields, field, end, get, freeze_fields}
use video_captioner_z.Event.{JournalEvent, batch_created, job_created, journal_event}
use video_captioner_z.Event.Mapping.{event_fields, event_from_dict}
use video_captioner_z.JournalFile.{
  JsonText, JournalSnapshot, TailStatus, clean, incomplete, Writing, whole, fails_after,
  read_snapshot, repair_and_read, append, max_event_line_bytes,
}
use video_captioner_z.JournalFile.Append.{append_atomic, IsDoneOrUndone}
use video_captioner_z.JournalFile.Tail.{IsWritten, IsNext}
use video_captioner_z.Tests.Sample.{event, new_job}

abbrev first_event : JournalEvent
first_event = event 1 "e1" batch_created end

abbrev second_event : JournalEvent
second_event = event 2 "e2" job_created new_job

-- Two texts: that of the first event, and that of the second.
encode_seq : Value → List ℕ
encode_seq (int (pos (suc zero))) = 65 ∷ []
encode_seq _ = 66 ∷ 67 ∷ []

encode_event : Value → List ℕ
unfolding encode_seq
encode_event (object m) = encode_seq (get m "seq")
encode_event _ = []

decode_event : List ℕ → Option Value
decode_event (a ∷ []) = if a == 65 then some (object (event_fields first_event)) else none
decode_event (a ∷ b ∷ []) =
    if (a == 66) && (b == 67) then some (object (event_fields second_event)) else none
decode_event _ = none

abbrev sample_json : JsonText
sample_json = record {
  encode = encode_event;
  decode = decode_event;
  is_timestamp = λ s. true;
  same_mapping = λ m n. true;
}

-- The second event's line is cut off after one byte; the tail is repaired.
cut_off_append :
    append sample_json (some (65 ∷ 10 ∷ [])) second_event (fails_after 1)
    ≡ (err (app_error "journal.append_failed" "write"), some (65 ∷ 10 ∷ 66 ∷ []))
unfolding encode_event decode_event get freeze_fields journal_event event_from_dict ◌>>=◌ raise_if
    read_snapshot append repair_and_read video_captioner_z.JournalFile.prepare_line
    video_captioner_z.JournalFile.is_complete video_captioner_z.JournalFile.parse_complete_lines
    video_captioner_z.JournalFile.parse_lines video_captioner_z.JournalFile.split_lines
    video_captioner_z.JournalFile.event_of_line video_captioner_z.JournalFile.drop_last
    video_captioner_z.Json.keys video_captioner_z.Event.Mapping.event_type_of
    video_captioner_z.Event.Mapping.as_corrupt video_captioner_z.Event.Mapping.event_from_raw
    video_captioner_z.Event.Mapping.raw_event video_captioner_z.Job.validate_identifier
    video_captioner_z.JournalFile.add_first video_captioner_z.JournalFile.canonical_event_bytes
    video_captioner_z.JournalFile.complete_part video_captioner_z.JournalFile.durable_in
    video_captioner_z.JournalFile.event_is_durable video_captioner_z.JournalFile.match_status
    video_captioner_z.JournalFile.matching video_captioner_z.JournalFile.or_corrupt
    video_captioner_z.JournalFile.read_value video_captioner_z.JournalFile.reconciled
    video_captioner_z.JournalFile.same_event video_captioner_z.JournalFile.snapshot
    video_captioner_z.JournalFile.write_line video_captioner_z.JournalFile.write_status
    video_captioner_z.JournalFile.written video_captioner_z.Service.check_append
    video_captioner_z.Service.first_batch video_captioner_z.JournalFile.starts_line_feed
    video_captioner_z.JournalFile.keep_before
cut_off_append = refl

second_event-IsWritten : IsWritten sample_json second_event
unfolding journal_event encode_event decode_event get ◌>>=◌ raise_if freeze_fields
    video_captioner_z.Json.keys video_captioner_z.Job.validate_identifier
second_event-IsWritten = record {
  valid = refl;
  plain = ((refl, refl), ((refl, refl), tt));
  short = refl;
  members = event_fields second_event;
  mapping = record { same_keys = refl; same_members = λ k. refl };
  decoded = refl;
  same = refl;
}

first_read :
    read_snapshot sample_json (some (65 ∷ 10 ∷ []))
    ≡ ok (record { events = first_event ∷ []; tail_status = clean })
unfolding encode_event decode_event get freeze_fields journal_event event_from_dict ◌>>=◌ raise_if
    read_snapshot append repair_and_read video_captioner_z.JournalFile.prepare_line
    video_captioner_z.JournalFile.is_complete video_captioner_z.JournalFile.parse_complete_lines
    video_captioner_z.JournalFile.parse_lines video_captioner_z.JournalFile.split_lines
    video_captioner_z.JournalFile.event_of_line video_captioner_z.JournalFile.drop_last
    video_captioner_z.Json.keys video_captioner_z.Event.Mapping.event_type_of
    video_captioner_z.Event.Mapping.as_corrupt video_captioner_z.Event.Mapping.event_from_raw
    video_captioner_z.Event.Mapping.raw_event video_captioner_z.Job.validate_identifier
    video_captioner_z.JournalFile.add_first video_captioner_z.JournalFile.canonical_event_bytes
    video_captioner_z.JournalFile.complete_part video_captioner_z.JournalFile.durable_in
    video_captioner_z.JournalFile.event_is_durable video_captioner_z.JournalFile.match_status
    video_captioner_z.JournalFile.matching video_captioner_z.JournalFile.or_corrupt
    video_captioner_z.JournalFile.read_value video_captioner_z.JournalFile.reconciled
    video_captioner_z.JournalFile.same_event video_captioner_z.JournalFile.snapshot
    video_captioner_z.JournalFile.write_line video_captioner_z.JournalFile.write_status
    video_captioner_z.JournalFile.written video_captioner_z.Service.check_append
    video_captioner_z.Service.first_batch video_captioner_z.JournalFile.starts_line_feed
    video_captioner_z.JournalFile.keep_before
first_read = refl

second_event-IsNext : IsNext sample_json (first_event ∷ []) second_event
unfolding video_captioner_z.Service.check_append video_captioner_z.Service.first_batch ◌>>=◌
    raise_if
second_event-IsNext = record { accepted = refl; fresh = refl }

append_atomic_example :
    IsDoneOrUndone sample_json
      (first_event ∷ [])
      second_event
      (append sample_json (some (65 ∷ 10 ∷ [])) second_event (fails_after 1))
append_atomic_example =
    append_atomic sample_json (first_event ∷ []) second_event second_event-IsWritten
      second_event-IsNext (some (65 ∷ 10 ∷ [])) (fails_after 1) first_read

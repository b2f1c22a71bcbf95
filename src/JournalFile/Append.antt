-- ===== src/JournalFile/Append.antt =====
-- adapters/persistence/jsonl_journal.py: an append is done whole or, once the tail is repaired, not at
-- all, wherever the writing stops.
use video_captioner_z.Base.{
  ℕ, ◌≡◌, refl, ap, ◌⊎◌, true, false, inl, inr, Option, none, some, List, [], ◌∷◌, ◌++◌, length,
  take, any, leb, leb→le, str_eq, Bool-cases, Result, ok, err, app_error, ◌>>=◌, raise_if, eq_refl,
  length-append, ok-injective, arith,
}
use video_captioner_z.Json.{object}
use video_captioner_z.Event.{JournalEvent}
use video_captioner_z.Event.Mapping.{event_fields, event_type_value}
use video_captioner_z.JournalFile.{
  JsonText, clean, JournalSnapshot, is_complete, canonical_event_bytes, parse_lines,
  parse_complete_lines, read_snapshot, repair_and_read, same_event, matching, match_status,
  durable_in, event_is_durable, Writing, whole, not_opened, fails_after, written, reconciled,
  write_status, prepare_line, write_line, append, split_lines,
}
use video_captioner_z.JournalFile.Lines.{take-plain, take_within, take_whole}
use video_captioner_z.JournalFile.Tail.{
  line_of, IsWritten, IsNext, read-clean, read_complete, parse-appended, complete-appended,
  durable-part, repair_complete, repair-part,
}

module _ (json : JsonText) where
  matching-fresh :
      (es : List JournalEvent) (e : JournalEvent)
      → any (λ p. str_eq p.event_id e.event_id) es ≡ false
      → matching json e es ≡ []
  unfolding matching
  matching-fresh [] e h = refl
  matching-fresh (f ∷ es) e h = elim (Bool-cases (str_eq f.event_id e.event_id)) [
    | inl c ↦ absurd (cc (rw c at h))
    | inr c ↦ rw c (matching-fresh es e (rw c at h))
  ]

  matching-snoc :
      (es : List JournalEvent) (e : JournalEvent)
      → any (λ p. str_eq p.event_id e.event_id) es ≡ false
      → matching json e (es ++ e ∷ []) ≡ e ∷ []
  unfolding matching
  matching-snoc [] e h = rw (eq_refl e.event_id) refl
  matching-snoc (f ∷ es) e h = elim (Bool-cases (str_eq f.event_id e.event_id)) [
    | inl c ↦ absurd (cc (rw c at h))
    | inr c ↦ rw c (matching-snoc es e (rw c at h))
  ]

  same_event_refl :
      (e : JournalEvent) → json.same_mapping e.payload e.payload ≡ true → same_event json e e ≡ true
  unfolding same_event
  same_event_refl e h = rw (eq_refl e.event_id) (
      rw (eq_refl e.timestamp_utc)
        (rw (eq_refl e.batch_id) (rw (eq_refl (event_type_value e.type)) (rw h (ground arith)))))

  -- the outcome of an append that stored the event, and of one that did not
  abbrev pub IsDoneOrUndone :
      List JournalEvent → JournalEvent → Result (Unit {0}) × Option (List ℕ) → Type 0
  IsDoneOrUndone es e r =
      ((r.0 ≡ ok tt) × ((repair_and_read json r.1).0 ≡ ok (es ++ e ∷ [])))
      ⊎ ((r.0 ≡ err (app_error "journal.append_failed" "write"))
          × ((repair_and_read json r.1).0 ≡ ok es))

  module _ (es : List JournalEvent) (e : JournalEvent) (w : IsWritten json e)
      (k : IsNext json es e) where
    not_yet_durable : match_status json e (matching json e es) ≡ ok false
    unfolding match_status
    not_yet_durable = rw (matching-fresh es e k.fresh) refl

    now_durable : match_status json e (matching json e (es ++ e ∷ [])) ≡ ok true
    unfolding match_status
    now_durable = rw (matching-snoc es e k.fresh) (rw (same_event_refl e w.same) refl)

    stored_whole :
        (content : List ℕ)
        → is_complete content ≡ true
        → parse_complete_lines json content ≡ ok es
        → (repair_and_read json (some (content ++ line_of json e))).0 ≡ ok (es ++ e ∷ [])
    stored_whole content c h =
        repair_complete json (content ++ line_of json e) (es ++ e ∷ [])
          (complete-appended json content e) (parse-appended json content es e c h w k)

    durable_whole :
        (content : List ℕ)
        → is_complete content ≡ true
        → parse_complete_lines json content ≡ ok es
        → event_is_durable json (some (content ++ line_of json e)) e ≡ ok true
    unfolding event_is_durable durable_in ◌>>=◌
    durable_whole content c h =
        rw
          (read_complete json (content ++ line_of json e) (es ++ e ∷ [])
            (complete-appended json content e) (parse-appended json content es e c h w k))
          now_durable

    cut_off :
        (content : List ℕ) (n : ℕ)
        → is_complete content ≡ true
        → parse_complete_lines json content ≡ ok es
        → IsDoneOrUndone es e (
          reconciled json (event_is_durable json (some (content ++ take n (line_of json e))) e),
          some (content ++ take n (line_of json e)),
        )
    unfolding reconciled
    cut_off content n c h =
        let bytes = json.encode (object (event_fields e)) in
        elim (Bool-cases (leb n (length bytes))) [
          | inl few ↦
              let p = take-plain n bytes w.plain in
              rw (take_within n bytes 10 (leb→le _ _ few)) (
                inr (
                  rw (durable-part json content (take n bytes) es e c h p not_yet_durable) refl,
                  repair-part json content (take n bytes) es c h p,
                ))
          | inr many ↦
              rw (take_whole n (line_of json e) (ground (arith, length-append bytes (10 ∷ []))))
                (inl (rw (durable_whole content c h) refl, stored_whole content c h))
        ]

    prepare_line-line_of :
        (file : Option (List ℕ))
        → read_snapshot json file ≡ ok (record { events = es; tail_status = clean })
        → prepare_line json file e ≡ ok (line_of json e)
    unfolding prepare_line canonical_event_bytes ◌>>=◌ raise_if
    prepare_line-line_of file h = rw h (rw k.accepted (rw w.short refl))

    append_to :
        (content : List ℕ) (v : Writing)
        → is_complete content ≡ true
        → parse_complete_lines json content ≡ ok es
        → IsDoneOrUndone es e (write_line json (some content) e v (ok (line_of json e)))
    unfolding write_line write_status written reconciled event_is_durable durable_in ◌>>=◌
    append_to content whole c h = inl (refl, stored_whole content c h)
    append_to content not_opened c h = inr (
      rw (read_complete json content es c h) (rw not_yet_durable refl),
      repair_complete json content es c h,
    )
    append_to content (fails_after n) c h = cut_off content n c h

    -- no file yet, so no events
    append_first :
        (v : Writing)
        → [] ≡ es
        → IsDoneOrUndone es e (write_line json none e v (ok (line_of json e)))
    unfolding write_line write_status written reconciled event_is_durable durable_in read_snapshot
        repair_and_read ◌>>=◌ parse_complete_lines split_lines parse_lines is_complete
    append_first whole h = inl (refl, stored_whole [] refl (ap ok h))
    append_first not_opened h = inr (rw h (rw not_yet_durable refl), ap ok h)
    append_first (fails_after n) h = cut_off [] n refl (ap ok h)

    -- Let a file, or no file, be read clean as `es`, and let the journal accept the next event `e`,
    -- which `json` writes on one line. However the writing of `e` ends, `append` reports success and
    -- the file is then read as `es` followed by `e`, or it raises journal.append_failed and the file
    -- is then repaired and read as `es`.
    pub append_atomic :
        (file : Option (List ℕ)) (v : Writing)
        → read_snapshot json file ≡ ok (record { events = es; tail_status = clean })
        → IsDoneOrUndone es e (append json file e v)
    unfolding append read_snapshot
    append_atomic none v h =
        rw (prepare_line-line_of none h)
          (append_first v (ap (λ s. s.events) (ok-injective first first last h)))
      where
        first : JournalSnapshot
        first = record { events = []; tail_status = clean }

        last : JournalSnapshot
        last = record { events = es; tail_status = clean }
    append_atomic (some content) v h =
        let (c, parsed) = read-clean json content es h in
        rw (prepare_line-line_of (some content) h) (append_to content v c parsed)

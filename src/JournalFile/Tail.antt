-- ===== src/JournalFile/Tail.antt =====
-- adapters/persistence/jsonl_journal.py: what is read of a file that a line, or a part of it, follows.
use video_captioner_z.Base.{
  ℕ, suc, ◌≡◌, refl, sym, ap, ◌∙◌, true, false, not, inl, inr, some, List, [], ◌∷◌, ◌++◌, length,
  any, ◌==◌, ltb, str_eq, Bool-cases, ok, ◌>>=◌, raise_if, bind_returned, check_returned,
  ok-injective, length-append, arith,
}
use mathlib.Core.List.{append_assoc, append-nil}
use video_captioner_z.Json.{object, Fields}
use video_captioner_z.Event.{JournalEvent}
use video_captioner_z.Event.Mapping.{event_fields, IsMappingOf, IsEvent, event_from_dict_lem}
use video_captioner_z.Service.{first_batch, check_append}
use video_captioner_z.JournalFile.{
  JsonText, clean, JournalSnapshot, max_event_line_bytes, split_lines, is_complete, complete_part,
  or_corrupt, read_value, event_of_line, parse_lines, parse_complete_lines, snapshot, read_snapshot,
  repair_tail, repair_and_read, matching, match_status, durable_in, event_is_durable,
}
use video_captioner_z.JournalFile.Lines.{
  IsPlain, split_lines-append, split_lines-line, is_complete-snoc, is_complete-plain,
  complete_part-append, drop_last-snoc,
}

module _ (json : JsonText) where
  abbrev pub line_of : JournalEvent → List ℕ
  line_of e = json.encode (object (event_fields e)) ++ 10 ∷ []

  -- The event has passed its checks, and `json` writes it on one line of the size allowed, and reads
  -- that as a mapping with the event's members.
  pub record IsWritten (e : JournalEvent) : Type 0 where
    pub valid : IsEvent json.is_timestamp e
    pub plain : IsPlain (json.encode (object (event_fields e)))
    pub short : ltb max_event_line_bytes (length (line_of e)) ≡ false
    pub members : Fields
    pub mapping : IsMappingOf e members
    pub decoded : json.decode (json.encode (object (event_fields e))) ≡ some (object members)
    pub same : json.same_mapping e.payload e.payload ≡ true

  -- the event continues the log, as the replay's and the journal's checks demand
  pub record IsNext (es : List JournalEvent) (e : JournalEvent) : Type 0 where
    pub accepted : check_append es e ≡ ok tt
    pub fresh : any (λ p. str_eq p.event_id e.event_id) es ≡ false

  event_of_line-line_of : (e : JournalEvent) → IsWritten e → event_of_line json (line_of e) ≡ ok e
  unfolding event_of_line or_corrupt read_value
  event_of_line-line_of e h =
      rw (drop_last-snoc (json.encode (object (event_fields e))) 10) (
        rw h.decoded
          (rw (event_from_dict_lem json.is_timestamp e h.members h.valid h.mapping) refl))

  -- The new line is read as the event, after the events before.
  parse_line_of :
      (es : List JournalEvent) (e : JournalEvent)
      → IsWritten e
      → IsNext es e
      → parse_lines json (line_of e ∷ []) (suc (length es)) es ≡ ok (es ++ e ∷ [])
  unfolding parse_lines check_append ◌>>=◌ raise_if
  parse_line_of es e h k =
      let (_, seq, k1) = bind_returned (raise_if (not (e.seq == suc (length es))) _) _ k.accepted in
      let in_order = check_returned _ _ seq in
      let same_batch = check_returned _ _ k1 in
      rw h.short (rw (event_of_line-line_of e h) (rw in_order (rw same_batch (rw k.fresh refl))))

  parse_lines-snoc :
      (ls : List (List ℕ)) (l : List ℕ) (n : ℕ) (before es : List JournalEvent)
      → n ≡ suc (length before)
      → parse_lines json ls n before ≡ ok es
      → parse_lines json (ls ++ l ∷ []) n before ≡ parse_lines json (l ∷ []) (suc (length es)) es
  unfolding parse_lines ◌>>=◌ raise_if
  parse_lines-snoc [] l n before es c h =
      ap (λ m. parse_lines json (l ∷ []) m before) c
      ∙ ap (λ xs. parse_lines json (l ∷ []) (suc (length xs)) xs) (ok-injective es before es h)
  parse_lines-snoc (k ∷ ls) l n before es c h =
      let (_, short, h1) = bind_returned (raise_if (ltb max_event_line_bytes (length k)) _) _ h in
      let (f, line, h2) = bind_returned (event_of_line json k) _ h1 in
      let (_, seq, h3) = bind_returned (raise_if (not (f.seq == n)) _) _ h2 in
      let (_, batch, h4) =
        bind_returned (raise_if (not (str_eq f.batch_id (first_batch f before))) _) _ h3 in
      let (_, fresh, h5) =
        bind_returned (raise_if (any (λ p. str_eq p.event_id f.event_id) before) _) _ h4 in
      rw (check_returned _ _ short) (
        rw line (
          rw (check_returned _ _ seq) (
            rw (check_returned _ _ batch) (
              rw (check_returned _ _ fresh) (
                parse_lines-snoc ls l (suc n) (before ++ f ∷ []) es
                  (omega (arith, length-append before (f ∷ []), c)) h5)))))

  -- What a clean snapshot says of the bytes, and conversely.
  pub read-clean :
      (content : List ℕ) (es : List JournalEvent)
      → read_snapshot json (some content) ≡ ok (record { events = es; tail_status = clean })
      → (is_complete content ≡ true) × (parse_complete_lines json content ≡ ok es)
  unfolding read_snapshot snapshot
  read-clean content es h = elim (Bool-cases (is_complete content)) [
    | inl c ↦
        let (xs, parsed, k) = bind_returned (parse_complete_lines json content) _ (rw c at h) in
        (c, parsed ∙ ap ok (ap (λ s. s.events) (ok-injective (snap xs) (snap xs) (snap es) k)))
    | inr c ↦
        let (xs, parsed, k) =
          bind_returned (parse_complete_lines json (complete_part content)) _ (rw c at h) in
        absurd (cc)
  ]
    where
      snap : List JournalEvent → JournalSnapshot
      snap xs = record { events = xs; tail_status = clean }

  pub read_complete :
      (content : List ℕ) (es : List JournalEvent)
      → is_complete content ≡ true
      → parse_complete_lines json content ≡ ok es
      → read_snapshot json (some content) ≡ ok (record { events = es; tail_status = clean })
  unfolding read_snapshot snapshot ◌>>=◌
  read_complete content es c h = rw c (rw h refl)

  pub parse-appended :
      (content : List ℕ) (es : List JournalEvent) (e : JournalEvent)
      → is_complete content ≡ true
      → parse_complete_lines json content ≡ ok es
      → IsWritten e
      → IsNext es e
      → parse_complete_lines json (content ++ line_of e) ≡ ok (es ++ e ∷ [])
  unfolding parse_complete_lines
  parse-appended content es e c h w k = rw (split_lines-append content (line_of e) c) (
      rw (split_lines-line (json.encode (object (event_fields e))) w.plain) (
        parse_lines-snoc (split_lines content) (line_of e) 1 [] es refl h ∙ parse_line_of es e w k))

  pub complete-appended :
      (content : List ℕ) (e : JournalEvent) → is_complete (content ++ line_of e) ≡ true
  complete-appended content e =
      ap is_complete (sym (append_assoc content (json.encode (object (event_fields e))) (10 ∷ [])))
      ∙ is_complete-snoc (content ++ json.encode (object (event_fields e)))

  -- A part of a line is cut off.
  repair_tail-part :
      (content part : List ℕ)
      → is_complete content ≡ true
      → IsPlain part
      → repair_tail (content ++ part) ≡ content
  unfolding repair_tail
  repair_tail-part content [] c h = rw (append-nil content) (rw c refl)
  repair_tail-part content (b ∷ part) c h =
      rw (is_complete-plain content part b h) (complete_part-append content (b ∷ part) c h)

  -- and is no event until then
  pub durable-part :
      (content part : List ℕ) (es : List JournalEvent) (e : JournalEvent)
      → is_complete content ≡ true
      → parse_complete_lines json content ≡ ok es
      → IsPlain part
      → match_status json e (matching json e es) ≡ ok false
      → event_is_durable json (some (content ++ part)) e ≡ ok false
  unfolding event_is_durable read_snapshot snapshot durable_in ◌>>=◌
  durable-part content [] es e c h p m = rw (append-nil content) (rw c (rw h m))
  durable-part content (b ∷ part) es e c h p m =
      rw (is_complete-plain content part b p)
        (rw (complete_part-append content (b ∷ part) c p) (rw h refl))

  pub repair_complete :
      (content : List ℕ) (es : List JournalEvent)
      → is_complete content ≡ true
      → parse_complete_lines json content ≡ ok es
      → (repair_and_read json (some content)).0 ≡ ok es
  unfolding repair_and_read repair_tail ◌>>=◌
  repair_complete content es c h = rw c (rw (read_complete content es c h) refl)

  pub repair-part :
      (content part : List ℕ) (es : List JournalEvent)
      → is_complete content ≡ true
      → parse_complete_lines json content ≡ ok es
      → IsPlain part
      → (repair_and_read json (some (content ++ part))).0 ≡ ok es
  unfolding repair_and_read ◌>>=◌
  repair-part content part es c h p =
      rw (repair_tail-part content part c p) (rw (read_complete content es c h) refl)

-- ===== src/Transcript/Correction.antt =====
-- core/domain/transcript.py: corrected transcripts, their checks, and their reading and printing.
use video_captioner_z.Base.{
  ◌≡◌, refl, ap, ◌∙◌, String, Bool, true, false, not, ◌&&◌, ◌||◌, List, [], ◌∷◌, ◌++◌, All,
  distinct, same_set, ◌==◌, str_eq, if◌then◌else◌, Result, ok, err, AppError, app_error, ◌>>=◌,
  ◌>>◌, raise_if,
}
use video_captioner_z.Text.{is_blank}
use video_captioner_z.Json.{
  ℤ, pos, negsuc, Value, int, str, array, object, Items, cons, nil, field, end, get, keys,
  items_list,
}
use video_captioner_z.Unicode.{UnicodeData, is_canonical}
use video_captioner_z.Transcript.{are_bad_ids, is_empty, check_text}

abbrev bad : String → AppError
bad reason = app_error "transcript.correction_invalid" reason

pub record CorrectedSpan : Type 0 where
  pub source_word_ids : List String
  pub corrected_text : String

pub record CorrectedTranscript : Type 0 where
  pub transcript_id : String
  pub spans : List CorrectedSpan
  pub source_word_ids : List String
  pub schema_version : ℤ

abbrev pub span_word_ids : List CorrectedSpan → List String
span_word_ids [] = []
span_word_ids (s ∷ spans) = s.source_word_ids ++ span_word_ids spans

-- `xs == ys`
unfoldable pub same_texts : List String → List String → Bool
same_texts [] [] = true
same_texts [] (y ∷ ys) = false
same_texts (x ∷ xs) [] = false
same_texts (x ∷ xs) (y ∷ ys) = str_eq x y && same_texts xs ys

is_version_one : ℤ → Bool
is_version_one (pos n) = n == 1
is_version_one (negsuc n) = false

-- `tuple(self.source_word_ids) or span_ids`
abbrev given_or : List String → List String → List String
given_or [] ids = ids
given_or (x ∷ xs) ids = x ∷ xs

-- `CorrectedTranscript(...)` with its checks
unfoldable pub corrected_transcript :
    String → List CorrectedSpan → List String → ℤ → Result CorrectedTranscript
unfolding check_text is_version_one same_texts
corrected_transcript id spans word_ids version = do
  check_text id
  raise_if (not (is_version_one version)) (bad "schema_version")
  raise_if (is_empty spans) (bad "empty")
  let span_ids = span_word_ids spans
  let expected = given_or word_ids span_ids
  raise_if (is_empty expected || not (distinct expected)) (bad "order")
  raise_if (not (same_texts span_ids expected))
      (bad (if same_set span_ids expected then "order" else "missing_or_extra"))
  ok (record {
    transcript_id = id;
    spans = spans;
    source_word_ids = expected;
    schema_version = version;
  })

-- `_required_string_sequence`
unfoldable pub required_strings : List Value → Result (List String)
required_strings [] = ok []
required_strings (str s ∷ vs) = do rest ← required_strings vs; ok (s ∷ rest)
required_strings (_ ∷ vs) = err (bad "strings")

-- a sequence that is no text
pub sequence_of : String → Value → Result (List Value)
unfolding items_list
sequence_of reason (array xs) = ok (items_list xs)
sequence_of reason _ = err (bad reason)

pub text_of : Value → Result String
text_of (str s) = ok s
text_of _ = err (bad "corrected_text")

pub header_of : Value → Value → Result (String × ℤ)
header_of (str id) (int version) = ok (id, version)
header_of _ _ = err (bad "types")

or_control : Result Bool → Result Bool
or_control (ok b) = ok b
or_control (err e) = err (bad "control")

module _ (unicode : UnicodeData) where
  -- `CorrectedSpan(...)` with its checks
  unfoldable pub corrected_span : List String → String → Result CorrectedSpan
  unfolding are_bad_ids is_blank or_control
  corrected_span ids text = do
    raise_if (are_bad_ids ids) (bad "duplicate_or_empty")
    raise_if (is_blank text) (bad "corrected_text")
    canonical ← or_control (is_canonical unicode text)
    raise_if (not canonical) (bad "not_canonical")
    ok (record { source_word_ids = ids; corrected_text = text })

  -- one round of the loop over the spans
  unfoldable pub span_from : Value → Result CorrectedSpan
  unfolding sequence_of text_of required_strings get keys
  span_from (object item) = do
    raise_if (not (same_set (keys item) ("source_word_ids" ∷ "corrected_text" ∷ [])))
        (bad "span_fields")
    raw_ids ← sequence_of "source_word_ids" (get item "source_word_ids")
    text ← text_of (get item "corrected_text")
    ids ← required_strings raw_ids
    corrected_span ids text
  span_from _ = err (bad "spans")

  unfoldable pub spans_from : List Value → Result (List CorrectedSpan)
  unfolding span_from
  spans_from [] = ok []
  spans_from (v ∷ vs) = do s ← span_from v; rest ← spans_from vs; ok (s ∷ rest)

  -- `CorrectedTranscript.from_mapping`
  unfoldable pub correction_from : Value → Result CorrectedTranscript
  unfolding spans_from header_of sequence_of required_strings get keys corrected_transcript
  correction_from (object raw) = do
    raise_if
        (not (
          same_set (keys raw)
            ("schema_version" ∷ "transcript_id" ∷ "source_word_ids" ∷ "spans" ∷ [])))
        (bad "fields")
    (id, version) ← header_of (get raw "transcript_id") (get raw "schema_version")
    raw_spans ← sequence_of "spans" (get raw "spans")
    spans ← spans_from raw_spans
    raw_ids ← sequence_of "source_word_ids" (get raw "source_word_ids")
    ids ← required_strings raw_ids
    corrected_transcript id spans ids version
  correction_from _ = err (bad "object")

unfoldable pub string_items : List String → Items
string_items [] = nil
string_items (s ∷ ss) = cons (str s) (string_items ss)

abbrev pub span_dict : CorrectedSpan → Value
span_dict s = object (
    field "source_word_ids" (array (string_items s.source_word_ids))
      (field "corrected_text" (str s.corrected_text) end))

unfoldable pub span_items : List CorrectedSpan → Items
unfolding string_items
span_items [] = nil
span_items (s ∷ spans) = cons (span_dict s) (span_items spans)

-- `to_dict`
unfoldable pub to_dict : CorrectedTranscript → Value
unfolding string_items span_items
to_dict t = object (
    field "schema_version" (int t.schema_version) (
      field "transcript_id" (str t.transcript_id) (
        field "source_word_ids" (array (string_items t.source_word_ids))
          (field "spans" (array (span_items t.spans)) end))))

required_strings-items :
    (ss : List String) → required_strings (items_list (string_items ss)) ≡ ok ss
unfolding required_strings items_list string_items ◌>>=◌
required_strings-items [] = refl
required_strings-items (s ∷ ss) = ap (λ r. r >>= λ rest. ok (s ∷ rest)) (required_strings-items ss)

module _ (unicode : UnicodeData) where
  -- The span passes its own checks.
  abbrev pub IsMade : CorrectedSpan → Type 0
  IsMade s = corrected_span unicode s.source_word_ids s.corrected_text ≡ ok s

  span_from-dict : (s : CorrectedSpan) → IsMade s → span_from unicode (span_dict s) ≡ ok s
  unfolding span_from sequence_of text_of get keys ◌>>=◌ raise_if
  span_from-dict s h =
      ap (λ r. r >>= λ ids. corrected_span unicode ids s.corrected_text)
        (required_strings-items s.source_word_ids)
      ∙ h

  spans_from-items :
      (spans : List CorrectedSpan)
      → All IsMade spans
      → spans_from unicode (items_list (span_items spans)) ≡ ok spans
  unfolding spans_from items_list span_items ◌>>=◌
  spans_from-items [] h = refl
  spans_from-items (s ∷ spans) h =
      ap
        (λ r.
          r >>= λ x. spans_from unicode (items_list (span_items spans)) >>= λ rest. ok (x ∷ rest))
        (span_from-dict s h.0)
      ∙ ap (λ r. r >>= λ rest. ok (s ∷ rest)) (spans_from-items spans h.1)

  -- A corrected transcript that passes its checks, and whose spans pass theirs, is read back from
  -- its dictionary as it was.
  pub correction_from-to_dict :
      (t : CorrectedTranscript)
      → All IsMade t.spans
      → corrected_transcript t.transcript_id t.spans t.source_word_ids t.schema_version ≡ ok t
      → correction_from unicode (to_dict t) ≡ ok t
  unfolding correction_from to_dict header_of sequence_of get keys ◌>>=◌ raise_if
  correction_from-to_dict t h made =
      let ids = required_strings (items_list (string_items t.source_word_ids)) in
      ap
        (λ r. r >>= λ spans.
          ids >>= λ ws. corrected_transcript t.transcript_id spans ws t.schema_version)
        (spans_from-items t.spans h)
      ∙ ap (λ r. r >>= λ ws. corrected_transcript t.transcript_id t.spans ws t.schema_version)
          (required_strings-items t.source_word_ids)
      ∙ made

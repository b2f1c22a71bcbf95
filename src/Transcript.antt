-- ===== src/Transcript.antt =====
-- core/domain/transcript.py: words, segments and transcripts, made only if their checks hold.
-- Times are given as any value, and are natural numbers once they are checked.
pub mod Alignment
pub mod Correction
use video_captioner_z.Base.{
  ℕ, String, Bool, true, false, not, ◌&&◌, ◌||◌, Option, none, some, List, [], ◌∷◌, ◌++◌, map, any,
  contains, distinct, same_set, ltb, leb, ◌==◌, str_eq, if◌then◌else◌, Result, ok, err, AppError,
  app_error, ◌>>=◌, ◌>>◌, raise_if,
}
use video_captioner_z.Text.{is_blank}
use video_captioner_z.Json.{ℤ, pos, negsuc, Value, null, int, float, object, Fields, freeze_fields}

abbrev pub invalid : String → AppError
invalid reason = app_error "transcript.invalid" reason

-- `_text`
unfoldable pub check_text : String → Result (Unit {0})
unfolding is_blank
check_text value = raise_if (is_blank value) (invalid "empty")

-- `_integer_ms`
pub integer_ms : Value → Result ℤ
integer_ms (int n) = ok n
integer_ms _ = err (invalid "integer_ms")

pub ordered_times : ℤ → ℤ → Result (ℕ × ℕ)
ordered_times (pos a) (pos b) = do raise_if (ltb b a) (invalid "timestamp"); ok (a, b)
ordered_times _ _ = err (invalid "timestamp")

-- `_time_range`
unfoldable pub time_range : Value → Value → Result (ℕ × ℕ)
unfolding integer_ms ordered_times
time_range start_ms end_ms = do a ← integer_ms start_ms; b ← integer_ms end_ms; ordered_times a b

-- `0 <= x <= 1`: the bits of a float between 0 and 1 are those up to 1.0's, and -0.0
is_confidence : Value → Bool
is_confidence null = true
is_confidence (int (pos n)) = leb n 1
is_confidence (float bits) = leb bits 0x3ff0000000000000 || (bits == 0x8000000000000000)
is_confidence _ = false

-- `_confidence`
unfoldable pub check_confidence : Value → Result (Unit {0})
unfolding is_confidence
check_confidence value = raise_if (not (is_confidence value)) (invalid "confidence")

pub record WordToken : Type 0 where
  pub id : String
  pub text : String
  pub start_ms : ℕ
  pub end_ms : ℕ
  pub confidence : Value
  pub speaker_id : Option String

-- `WordToken(...)` with its checks
unfoldable pub word_token :
    String → String → Value → Value → Value → Option String → Result WordToken
unfolding check_text time_range check_confidence
word_token id text start_ms end_ms confidence speaker = do
  check_text id
  check_text text
  (a, b) ← time_range start_ms end_ms
  check_confidence confidence
  ok (record {
    id = id;
    text = text;
    start_ms = a;
    end_ms = b;
    confidence = confidence;
    speaker_id = speaker;
  })

pub record TranscriptSegment : Type 0 where
  pub id : String
  pub word_ids : List String
  pub raw_text : String
  pub start_ms : ℕ
  pub end_ms : ℕ
  pub confidence : Value

abbrev pub is_empty {ℓ} : {A : Type ℓ} → List A → Bool
is_empty [] = true
is_empty (x ∷ xs) = false

-- the test of `source_word_ids` and `word_ids`: empty, repeated or blank ids
unfoldable pub are_bad_ids : List String → Bool
unfolding is_blank
are_bad_ids ids = is_empty ids || not (distinct ids) || any is_blank ids

-- `TranscriptSegment(...)` with its checks
unfoldable pub transcript_segment :
    String → List String → String → Value → Value → Value → Result TranscriptSegment
unfolding check_text time_range check_confidence are_bad_ids
transcript_segment id word_ids raw_text start_ms end_ms confidence = do
  check_text id
  raise_if (are_bad_ids word_ids) (invalid "duplicate_or_empty")
  check_text raw_text
  (a, b) ← time_range start_ms end_ms
  check_confidence confidence
  ok (record {
    id = id;
    word_ids = word_ids;
    raw_text = raw_text;
    start_ms = a;
    end_ms = b;
    confidence = confidence;
  })

pub record Transcript : Type 0 where
  pub id : String
  pub language : String
  pub words : List WordToken
  pub segments : List TranscriptSegment
  pub engine_id : String
  pub model_id : String
  pub metadata : Fields

-- `by_id[word_id]`; the ids of the words are distinct
unfoldable pub find_word : String → List WordToken → Result WordToken
find_word id [] = err (invalid "missing_reference")
find_word id (w ∷ words) = if str_eq w.id id then ok w else find_word id words

-- the loop over `pairwise(segments)`: one starts before the last one starts or ends
unfoldable pub overlaps : List TranscriptSegment → Bool
overlaps [] = false
overlaps (s ∷ []) = false
overlaps (s ∷ t ∷ rest) =
    ltb t.start_ms s.start_ms || ltb t.start_ms s.end_ms || overlaps (t ∷ rest)

module _ (words : List WordToken) where
  -- the loop over a segment's words, and over the segments: the set `assigned` in order of entry
  unfoldable pub assign_words : TranscriptSegment → List String → List String → Result (List String)
  unfolding find_word
  assign_words segment [] assigned = ok assigned
  assign_words segment (id ∷ ids) assigned = do
    word ← find_word id words
    raise_if (contains assigned id) (invalid "multiple_assignment")
    raise_if (ltb word.start_ms segment.start_ms || ltb segment.end_ms word.end_ms)
        (invalid "word_outside_segment")
    assign_words segment ids (assigned ++ id ∷ [])

  unfoldable pub assign_segments : List TranscriptSegment → List String → Result (List String)
  unfolding assign_words
  assign_segments [] assigned = ok assigned
  assign_segments (s ∷ segments) assigned = do
    now ← assign_words s s.word_ids assigned
    assign_segments segments now

pub frozen_or_invalid : Result Fields → Result Fields
frozen_or_invalid (ok frozen) = ok frozen
frozen_or_invalid (err e) = err (invalid "metadata")

-- `Transcript(...)` with its checks
unfoldable pub transcript :
    String
    → String
    → List WordToken
    → List TranscriptSegment
    → String
    → String
    → Fields
    → Result Transcript
unfolding check_text overlaps assign_segments freeze_fields frozen_or_invalid
transcript id language words segments engine_id model_id metadata = do
  check_text id
  check_text language
  check_text engine_id
  check_text model_id
  raise_if (is_empty words) (invalid "empty")
  raise_if (is_empty segments) (invalid "empty")
  let word_ids = map (λ (w : WordToken). w.id) words
  raise_if (not (distinct word_ids)) (invalid "duplicate_ids")
  raise_if (not (distinct (map (λ (s : TranscriptSegment). s.id) segments)))
      (invalid "duplicate_ids")
  raise_if (overlaps segments) (invalid "overlap_or_order")
  assigned ← assign_segments words segments []
  raise_if (not (same_set assigned word_ids)) (invalid "unassigned_word")
  frozen ← frozen_or_invalid (freeze_fields metadata)
  ok (record {
    id = id;
    language = language;
    words = words;
    segments = segments;
    engine_id = engine_id;
    model_id = model_id;
    metadata = frozen;
  })

-- ===== src/Transcript/Alignment.antt =====
-- core/domain/transcript.py: how the words of a transcript stand in its segments.
use video_captioner_z.Base.{
  ◌≤◌, ◌≡◌, refl, sym, ap, ◌∙◌, subst, String, true, false, not, ◌||◌, List, [], ◌∷◌, ◌++◌, map,
  contains, distinct, distinct-snoc, same_set, ltb, All, arith, ok, raise_if, bind_returned,
  check_returned, not-false, ok-injective,
}
use mathlib.Core.List.{append_assoc, append-nil}
use video_captioner_z.Json.{Fields, freeze_fields}
use video_captioner_z.Transcript.{
  WordToken, TranscriptSegment, Transcript, check_text, is_empty, find_word, overlaps, assign_words,
  assign_segments, frozen_or_invalid, transcript,
}

-- the word ids of the segments, one segment after the other
abbrev pub all_word_ids : List TranscriptSegment → List String
all_word_ids [] = []
all_word_ids (s ∷ segments) = s.word_ids ++ all_word_ids segments

-- The word with the id is among the words, and is spoken within the segment.
pub record IsWithin (words : List WordToken) (segment : TranscriptSegment) (id : String)
    : Type 0 where
  pub word : WordToken
  pub found : find_word id words ≡ ok word
  pub starts : segment.start_ms ≤ word.start_ms
  pub ends : word.end_ms ≤ segment.end_ms

-- Every word stands in just one segment, within its times, and the segments follow one another.
pub record IsAligned (t : Transcript) : Type 0 where
  pub unique : distinct (map (λ (w : WordToken). w.id) t.words) ≡ true
  pub once : distinct (all_word_ids t.segments) ≡ true
  pub every : same_set (all_word_ids t.segments) (map (λ (w : WordToken). w.id) t.words) ≡ true
  pub within : All (λ s. All (IsWithin t.words s) s.word_ids) t.segments
  pub ordered : overlaps t.segments ≡ false

module _ (words : List WordToken) where
  assign_words-IsWithin :
      (s : TranscriptSegment) (ids assigned now : List String)
      → assign_words words s ids assigned ≡ ok now
      → distinct assigned ≡ true
      → (now ≡ assigned ++ ids) × (distinct now ≡ true) × All (IsWithin words s) ids
  unfolding assign_words
  assign_words-IsWithin s [] assigned now h d =
      let same : assigned ≡ now = ok-injective assigned assigned now h in
      (sym same ∙ sym (append-nil assigned), ap distinct (sym same) ∙ d, tt)
  assign_words-IsWithin s (id ∷ ids) assigned now h d =
      let (word, found, h1) = bind_returned (find_word id words) _ h in
      let (_, new, h2) = bind_returned (raise_if (contains assigned id) _) _ h1 in
      let (_, inside, h3) =
        bind_returned (raise_if (ltb word.start_ms s.start_ms || ltb s.end_ms word.end_ms) _) _
          h2 in
      let fits = check_returned _ _ inside in
      let fresh = distinct-snoc assigned id d (check_returned _ _ new) in
      let (e, k, rest) = assign_words-IsWithin s ids (assigned ++ id ∷ []) now h3 fresh in
      (
        e ∙ append_assoc assigned (id ∷ []) ids,
        k,
        (
          record {
            word = word;
            found = found;
            starts = ground (arith, fits);
            ends = ground (arith, fits);
          },
          rest,
        ),
      )

  assign_segments-IsWithin :
      (segments : List TranscriptSegment) (assigned now : List String)
      → assign_segments words segments assigned ≡ ok now
      → distinct assigned ≡ true
      → (now ≡ assigned ++ all_word_ids segments)
        × (distinct now ≡ true)
        × All (λ s. All (IsWithin words s) s.word_ids) segments
  unfolding assign_segments
  assign_segments-IsWithin [] assigned now h d =
      let same : assigned ≡ now = ok-injective assigned assigned now h in
      (sym same ∙ sym (append-nil assigned), ap distinct (sym same) ∙ d, tt)
  assign_segments-IsWithin (s ∷ segments) assigned now h d =
      let (mid, first, h1) = bind_returned (assign_words words s s.word_ids assigned) _ h in
      let (e, k, inside) = assign_words-IsWithin s s.word_ids assigned mid first d in
      let (f, l, rest) = assign_segments-IsWithin segments mid now h1 k in
      (
        f
            ∙ ap (λ ids. ids ++ all_word_ids segments) e
            ∙ append_assoc assigned s.word_ids (all_word_ids segments),
        l,
        (inside, rest),
      )

-- If a transcript is made, then its words have distinct ids, each stands in exactly one segment
-- and is spoken within the times of that segment, and no segment starts before the one before it
-- starts or ends.
pub transcript-IsAligned :
    (id language : String) (words : List WordToken) (segments : List TranscriptSegment)
    (engine_id model_id : String) (metadata : Fields) (t : Transcript)
    → transcript id language words segments engine_id model_id metadata ≡ ok t
    → IsAligned t
unfolding transcript
transcript-IsAligned id language words segments engine_id model_id metadata t h =
    let (_, _, h1) = bind_returned (check_text id) _ h in
    let (_, _, h2) = bind_returned (check_text language) _ h1 in
    let (_, _, h3) = bind_returned (check_text engine_id) _ h2 in
    let (_, _, h4) = bind_returned (check_text model_id) _ h3 in
    let (_, _, h5) = bind_returned (raise_if (is_empty words) _) _ h4 in
    let (_, _, h6) = bind_returned (raise_if (is_empty segments) _) _ h5 in
    let word_ids = map (λ (w : WordToken). w.id) words in
    let (_, unique, h7) = bind_returned (raise_if (not (distinct word_ids)) _) _ h6 in
    let (_, _, h8) =
      bind_returned (raise_if (not (distinct (map (λ (s : TranscriptSegment). s.id) segments))) _) _
        h7 in
    let (_, ordered, h9) = bind_returned (raise_if (overlaps segments) _) _ h8 in
    let (assigned, loop, h10) = bind_returned (assign_segments words segments []) _ h9 in
    let (_, every, h11) = bind_returned (raise_if (not (same_set assigned word_ids)) _) _ h10 in
    let (frozen, _, made) = bind_returned (frozen_or_invalid (freeze_fields metadata)) _ h11 in
    let (e, once, within) = assign_segments-IsWithin words segments [] assigned loop refl in
    let made_of : Transcript = record {
      id = id;
      language = language;
      words = words;
      segments = segments;
      engine_id = engine_id;
      model_id = model_id;
      metadata = frozen;
    } in
    subst IsAligned (ok-injective made_of made_of t made) (record {
      unique = not-false _ (check_returned _ _ unique);
      once = ap distinct (sym e) ∙ once;
      every = ap (λ ids. same_set ids word_ids) (sym e) ∙ not-false _ (check_returned _ _ every);
      within = within;
      ordered = check_returned _ _ ordered;
    })

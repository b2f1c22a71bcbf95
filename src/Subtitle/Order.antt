-- ===== src/Subtitle/Order.antt =====
-- core/domain/subtitle.py: the times of a track's cues, and the words that they hold.
use video_captioner_z.Base.{
  ◌≢◌, Any, ◌≤◌, ◌<◌, ◌≡◌, refl, sym, ap, ◌∙◌, subst, String, true, false, not, Option, List, [],
  ◌∷◌, ◌++◌, map, any, contains, distinct, distinct-snoc, length, All, All-weaken, arith, ok,
  raise_if, bind_returned, check_returned, not-false, ok-injective,
}
use mathlib.Core.List.{append_assoc, append-nil}
use video_captioner_z.Json.{Value}
use video_captioner_z.Text.{codes, is_space}
use video_captioner_z.Transcript.{are_bad_ids, is_empty}
use video_captioner_z.Subtitle.{
  SubtitleCue, SubtitleTrack, require_text, check_revision, is_bad_line, has_overlap, assign_once,
  all_source_ids, check_language, subtitle_track,
}

-- A cue is shown for some time.
abbrev pub IsTimed : SubtitleCue → Type 0
IsTimed c = c.start_ms < c.end_ms

-- The tests that a cue passes when it is made, as the rest of the program uses them.
pub record IsCue (c : SubtitleCue) : Type 0 where
  pub timed : IsTimed c
  pub words : are_bad_ids c.source_word_ids ≡ false
  pub some_line : is_empty c.lines ≡ false
  pub few_lines : length c.lines ≤ 2
  pub good_lines : any is_bad_line c.lines ≡ false

-- A text has a character that shows.
abbrev pub IsVisible : String → Type 0
IsVisible s = Any (λ c. is_space c ≡ false) (codes s)

-- No text stands twice.
abbrev pub AreDistinct : List String → Type 0
AreDistinct [] = Unit
AreDistinct (x ∷ xs) = All (λ y. x ≢ y) xs × AreDistinct xs

-- A line shows something, and has neither a line feed nor a carriage return.
abbrev pub IsLine : String → Type 0
IsLine line = IsVisible line × All (λ c. (c ≢ 10) × (c ≢ 13)) (codes line)

-- What a cue shows, and for how long.
pub record IsShown (c : SubtitleCue) : Type 0 where
  pub timed : IsTimed c
  pub some_word : 0 < length c.source_word_ids
  pub words : AreDistinct c.source_word_ids
  pub visible_words : All IsVisible c.source_word_ids
  pub some_line : 0 < length c.lines
  pub few_lines : length c.lines ≤ 2
  pub good_lines : All IsLine c.lines

-- Each cue ends before any later one starts.
abbrev pub InOrder : List SubtitleCue → Type 0
InOrder [] = Unit
InOrder (c ∷ cues) = All (λ d. c.end_ms ≤ d.start_ms) cues × InOrder cues

-- neighbours that do not overlap make a sequence in order, since each cue takes some time
pub has_overlap-InOrder :
    (cues : List SubtitleCue) → All IsTimed cues → has_overlap cues ≡ false → InOrder cues
unfolding has_overlap
has_overlap-InOrder [] t h = (tt)
has_overlap-InOrder (c ∷ []) t h = (tt, tt)
has_overlap-InOrder (c ∷ d ∷ rest) t h =
    let near : (c.end_ms ≤ d.start_ms) × (has_overlap (d ∷ rest) ≡ false) = ground (arith, h) in
    let later = has_overlap-InOrder (d ∷ rest) t.1 near.1 in
    let timed : d.start_ms < d.end_ms = t.1.0 in
    (
      (
        near.0,
        All-weaken (λ e. d.end_ms ≤ e.start_ms) (λ e. c.end_ms ≤ e.start_ms) rest
            (λ e k. omega (arith, k, near.0, timed)) later.0,
      ),
      later,
    )

assign_once-distinct :
    (ids assigned now : List String)
    → assign_once ids assigned ≡ ok now
    → distinct assigned ≡ true
    → (now ≡ assigned ++ ids) × (distinct now ≡ true)
unfolding assign_once
assign_once-distinct [] assigned now h d =
    let same : assigned ≡ now = ok-injective assigned assigned now h in
    (sym same ∙ sym (append-nil assigned), ap distinct (sym same) ∙ d)
assign_once-distinct (id ∷ ids) assigned now h d =
    let (_, new, h1) = bind_returned (raise_if (contains assigned id) _) _ h in
    let (e, k) =
      assign_once-distinct ids (assigned ++ id ∷ []) now h1
        (distinct-snoc assigned id d (check_returned _ _ new)) in
    (e ∙ append_assoc assigned (id ∷ []) ids, k)

-- The cues of a track: distinct ids, one after the other in time, no word in two of them.
pub record IsSequence (t : SubtitleTrack) : Type 0 where
  pub unique : distinct (map (λ (c : SubtitleCue). c.id) t.cues) ≡ true
  pub ordered : InOrder t.cues
  pub once : distinct (all_source_ids t.cues) ≡ true

-- If a track is made of cues each of which starts before it ends, then the cues have distinct ids,
-- every cue ends before any later cue starts, and no word id stands twice in the whole track.
pub subtitle_track-IsSequence :
    (id transcript_id : String) (language : Option String) (cues : List SubtitleCue)
    (revision : Value) (signature : String) (t : SubtitleTrack)
    → All IsTimed cues
    → subtitle_track id transcript_id language cues revision signature ≡ ok t
    → IsSequence t
unfolding subtitle_track
subtitle_track-IsSequence id transcript_id language cues revision signature t timed h =
    let (_, _, h1) = bind_returned (require_text id) _ h in
    let (_, _, h2) = bind_returned (require_text transcript_id) _ h1 in
    let (_, _, h3) = bind_returned (check_language language) _ h2 in
    let (number, _, h4) = bind_returned (check_revision revision) _ h3 in
    let (_, unique, h5) =
      bind_returned (raise_if (not (distinct (map (λ (c : SubtitleCue). c.id) cues))) _) _ h4 in
    let (_, ordered, h6) = bind_returned (raise_if (has_overlap cues) _) _ h5 in
    let (assigned, loop, h7) = bind_returned (assign_once (all_source_ids cues) []) _ h6 in
    let (_, _, made) = bind_returned (require_text signature) _ h7 in
    let (e, once) = assign_once-distinct (all_source_ids cues) [] assigned loop refl in
    let track : SubtitleTrack = record {
      id = id;
      source_transcript_id = transcript_id;
      language = language;
      cues = cues;
      revision = number;
      policy_signature = signature;
    } in
    subst IsSequence (ok-injective track track t made) (record {
      unique = not-false _ (check_returned _ _ unique);
      ordered = has_overlap-InOrder cues timed (check_returned _ _ ordered);
      once = ap distinct (sym e) ∙ once;
    })

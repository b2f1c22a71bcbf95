-- ===== src/SubRip/Export.antt =====
-- adapters/exporters/srt.py: the writing of a track as SubRip text, a list of code points.
use video_captioner_z.Base.{
  ℕ, suc, ◌<◌, ◌≡◌, refl, subst, String, Bool, false, not, ◌||◌, Option, none, some, List, [], ◌∷◌,
  ◌++◌, All, map, any, leb, ltb, distinct, Result, ok, app_error, ◌>>=◌, ◌>>◌, raise_if,
  bind_returned, check_returned, ok-injective, arith,
}
use video_captioner_z.Text.{codes, is_blank}
use video_captioner_z.Json.{pos, Value}
use video_captioner_z.Transcript.{is_empty}
use video_captioner_z.Subtitle.{
  SubtitleCue, SubtitleTrack, is_bad_line, has_overlap, assign_once, all_source_ids, check_language,
  check_revision, require_text, subtitle_track,
}
use video_captioner_z.Subtitle.Order.{IsCue}
use video_captioner_z.SubRip.{decimal, stamp_of, format_timestamp}

-- the order check, after the times of the cue before; at first they are -1
unfoldable pub is_out_of_order : Option (ℕ × ℕ) → SubtitleCue → Bool
is_out_of_order none c = leb c.end_ms c.start_ms
is_out_of_order (some p) c = leb c.start_ms p.0 || ltb c.start_ms p.1 || leb c.end_ms c.start_ms

abbrev on_lines : List String → List ℕ
on_lines [] = []
on_lines (line ∷ lines) = 10 ∷ (codes line ++ on_lines lines)

-- ` --> `
abbrev arrow : List ℕ
arrow = 32 ∷ 45 ∷ 45 ∷ 62 ∷ 32 ∷ []

abbrev block : ℕ → List ℕ → List ℕ → List String → List ℕ
block number start stop lines =
    decimal number number ++ 10 ∷ (start ++ arrow ++ stop ++ on_lines lines)

-- the loop of `serialize`, with the number of the cue
unfoldable pub blocks_from : ℕ → Option (ℕ × ℕ) → List SubtitleCue → Result (List (List ℕ))
unfolding is_out_of_order
blocks_from number previous [] = ok []
blocks_from number previous (c ∷ cues) = do
  raise_if (is_out_of_order previous c) (app_error "export.srt_invalid" "cue_order")
  raise_if (is_empty c.lines || any is_blank c.lines) (app_error "export.srt_invalid" "cue_text")
  start ← format_timestamp (pos c.start_ms)
  stop ← format_timestamp (pos c.end_ms)
  blocks ← blocks_from (suc number) (some (c.start_ms, c.end_ms)) cues
  ok (block number start stop c.lines ∷ blocks)

join_blocks : List (List ℕ) → List ℕ
join_blocks [] = []
join_blocks (b ∷ []) = b ++ 10 ∷ []
join_blocks (b ∷ c ∷ blocks) = b ++ 10 ∷ 10 ∷ join_blocks (c ∷ blocks)

-- `serialize`
unfoldable pub serialize : SubtitleTrack → Result (List ℕ)
unfolding blocks_from join_blocks
serialize track = do blocks ← blocks_from 1 none track.cues; ok (join_blocks blocks)

-- A line that is not bad is not blank.
some_blank : (lines : List String) → any is_bad_line lines ≡ false → any is_blank lines ≡ false
unfolding is_bad_line
some_blank [] h = refl
some_blank (line ∷ lines) h = ground (arith, some_blank lines)

abbrev Fits : Option (ℕ × ℕ) → List SubtitleCue → Type 0
Fits previous [] = Unit {0}
Fits previous (c ∷ cues) = is_out_of_order previous c ≡ false

Fits-after :
    (c : SubtitleCue) (cues : List SubtitleCue)
    → c.start_ms < c.end_ms
    → All IsCue cues
    → has_overlap (c ∷ cues) ≡ false
    → Fits (some (c.start_ms, c.end_ms)) cues
unfolding has_overlap is_out_of_order
Fits-after c [] h k o = tt
Fits-after c (d ∷ cues) h k o = let later = (k.0).timed in ground arith

later_overlap :
    (c : SubtitleCue) (cues : List SubtitleCue)
    → has_overlap (c ∷ cues) ≡ false
    → has_overlap cues ≡ false
unfolding has_overlap
later_overlap c [] h = refl
later_overlap c (d ∷ cues) h = ground arith

blocks_from_cues :
    (number : ℕ) (previous : Option (ℕ × ℕ)) (cues : List SubtitleCue)
    → All IsCue cues
    → has_overlap cues ≡ false
    → Fits previous cues
    → (blocks : List (List ℕ)) × (blocks_from number previous cues ≡ ok blocks)
unfolding blocks_from format_timestamp ◌>>=◌ raise_if
blocks_from_cues number previous [] h o f = ([], refl)
blocks_from_cues number previous (c ∷ cues) h o f =
    let cue = h.0 in
    let (blocks, rest) =
      blocks_from_cues (suc number) (some (c.start_ms, c.end_ms)) cues h.1 (later_overlap c cues o)
        (Fits-after c cues cue.timed h.1 o) in
    let lines : (is_empty c.lines || any is_blank c.lines) ≡ false =
      ground (arith, cue.some_line, some_blank c.lines cue.good_lines) in
    (
      block number (stamp_of c.start_ms) (stamp_of c.end_ms) c.lines ∷ blocks,
      rw f (rw lines (rw rest refl)),
    )

Fits-first : (cues : List SubtitleCue) → All IsCue cues → Fits none cues
unfolding is_out_of_order
Fits-first [] h = tt
Fits-first (c ∷ cues) h = let timed = (h.0).timed in ground arith

-- A track that passed its checks, of cues that passed theirs, is written as SubRip text.
pub serialize_made :
    (id transcript_id : String) (language : Option String) (cues : List SubtitleCue)
    (revision : Value) (signature : String) (track : SubtitleTrack)
    → All IsCue cues
    → subtitle_track id transcript_id language cues revision signature ≡ ok track
    → (text : List ℕ) × (serialize track ≡ ok text)
unfolding subtitle_track serialize ◌>>=◌
serialize_made id transcript_id language cues revision signature track h made =
    let (_, _, h1) = bind_returned (require_text id) _ made in
    let (_, _, h2) = bind_returned (require_text transcript_id) _ h1 in
    let (_, _, h3) = bind_returned (check_language language) _ h2 in
    let (number, _, h4) = bind_returned (check_revision revision) _ h3 in
    let (_, _, h5) =
      bind_returned (raise_if (not (distinct (map (λ (c : SubtitleCue). c.id) cues))) _) _ h4 in
    let (_, ordered, h6) = bind_returned (raise_if (has_overlap cues) _) _ h5 in
    let (_, _, h7) = bind_returned (assign_once (all_source_ids cues) []) _ h6 in
    let (_, _, same) = bind_returned (require_text signature) _ h7 in
    let whole : SubtitleTrack = record {
      id = id;
      source_transcript_id = transcript_id;
      language = language;
      cues = cues;
      revision = number;
      policy_signature = signature;
    } in
    let (blocks, written) =
      blocks_from_cues 1 none cues h (check_returned _ _ ordered) (Fits-first cues h) in
    subst (λ t. (text : List ℕ) × (serialize t ≡ ok text)) (ok-injective whole whole track same)
      (join_blocks blocks, rw written refl)

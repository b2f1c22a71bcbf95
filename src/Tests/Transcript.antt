-- ===== src/Tests/Transcript.antt =====
-- A transcript of two words, and a track of two cues.
use video_captioner_z.Base.{
  ℕ, String, ◌≡◌, refl, arith, none, List, [], ◌∷◌, All, ok, err, app_error, ◌>>=◌, raise_if, false,
}
use video_captioner_z.Json.{pos, null, int, end, freeze_fields}
use video_captioner_z.Unicode.{UnicodeData}
use video_captioner_z.Transcript.{
  WordToken, TranscriptSegment, Transcript, word_token, transcript, check_text, overlaps,
  assign_segments,
}
use video_captioner_z.Transcript.Alignment.{IsAligned, transcript-IsAligned}
use video_captioner_z.SubRip.Export.{serialize, serialize_made}
use video_captioner_z.Subtitle.{SubtitleCue, SubtitleTrack, subtitle_track, is_bad_line}
use video_captioner_z.Text.{is_blank}
use video_captioner_z.Subtitle.Order.{IsTimed, IsCue, IsSequence, subtitle_track-IsSequence}

abbrev pub word : String → ℕ → ℕ → WordToken
word i a b = record {
  id = i;
  text = "word";
  start_ms = a;
  end_ms = b;
  confidence = null;
  speaker_id = none;
}

abbrev segment : String → List String → ℕ → ℕ → TranscriptSegment
segment i ids a b = record {
  id = i;
  word_ids = ids;
  raw_text = "words";
  start_ms = a;
  end_ms = b;
  confidence = null;
}

abbrev two_words : List WordToken
two_words = word "w1" 0 10 ∷ word "w2" 10 20 ∷ []

abbrev one_segment : List TranscriptSegment
one_segment = segment "s1" ("w1" ∷ "w2" ∷ []) 0 20 ∷ []

abbrev sample : Transcript
sample = record {
  id = "t";
  language = "en";
  words = two_words;
  segments = one_segment;
  engine_id = "e";
  model_id = "m";
  metadata = end;
}

word_made : word_token "w1" "word" (int (pos 0)) (int (pos 10)) null none ≡ ok (word "w1" 0 10)
unfolding word_token ◌>>=◌ raise_if
word_made = refl

transcript_made : transcript "t" "en" two_words one_segment "e" "m" end ≡ ok sample
unfolding transcript check_text assign_segments overlaps freeze_fields ◌>>=◌ raise_if
transcript_made = refl

-- A word that is spoken outside its segment is refused.
word_outside :
    transcript "t" "en" two_words (segment "s1" ("w1" ∷ "w2" ∷ []) 0 15 ∷ []) "e" "m" end
    ≡ err (app_error "transcript.invalid" "word_outside_segment")
unfolding transcript check_text assign_segments overlaps freeze_fields ◌>>=◌ raise_if
word_outside = refl

transcript-IsAligned_example : IsAligned sample
transcript-IsAligned_example =
    transcript-IsAligned "t" "en" two_words one_segment "e" "m" end sample transcript_made

-- texts that are in normal form, without controls
abbrev pub plain : UnicodeData
plain = record { nfc = λ s. s; is_control = λ c. false }

abbrev cue : String → ℕ → ℕ → String → SubtitleCue
cue i a b w = record {
  id = i;
  start_ms = a;
  end_ms = b;
  source_word_ids = w ∷ [];
  source_text = "a word";
  translated_text = none;
  lines = "a word" ∷ [];
}

abbrev two_cues : List SubtitleCue
two_cues = cue "c1" 0 10 "w1" ∷ cue "c2" 10 20 "w2" ∷ []

abbrev track : SubtitleTrack
track = record {
  id = "track";
  source_transcript_id = "t";
  language = none;
  cues = two_cues;
  revision = 0;
  policy_signature = "p";
}

track_made : subtitle_track "track" "t" none two_cues (int (pos 0)) "p" ≡ ok track
unfolding subtitle_track ◌>>=◌ raise_if
track_made = refl

two_cues-IsTimed : All IsTimed two_cues
two_cues-IsTimed = (omega arith, (omega arith, tt))

subtitle_track-IsSequence_example : IsSequence track
subtitle_track-IsSequence_example =
    subtitle_track-IsSequence "track" "t" none two_cues (int (pos 0)) "p" track two_cues-IsTimed
      track_made

two_cues-IsCue : All IsCue two_cues
unfolding video_captioner_z.Transcript.are_bad_ids is_bad_line is_blank
two_cues-IsCue = (
  record {
    timed = omega arith;
    words = refl;
    some_line = refl;
    few_lines = omega arith;
    good_lines = refl;
  },
  (
    record {
      timed = omega arith;
      words = refl;
      some_line = refl;
      few_lines = omega arith;
      good_lines = refl;
    },
    tt,
  ),
)

serialize_made_example : (text : List ℕ) × (serialize track ≡ ok text)
serialize_made_example =
    serialize_made "track" "t" none two_cues (int (pos 0)) "p" track two_cues-IsCue track_made

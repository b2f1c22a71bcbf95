-- ===== src/Tests/Correction.antt =====
-- A correction of two words that is printed and read back, and words that a long pause parts.
use video_captioner_z.Base.{◌≡◌, refl, ◌>>=◌, raise_if, List, [], ◌∷◌, All, ok}
use video_captioner_z.Json.{pos}
use video_captioner_z.Unicode.{is_canonical}
use video_captioner_z.Transcript.{WordToken}
use video_captioner_z.Transcript.Correction.{
  CorrectedSpan, CorrectedTranscript, corrected_transcript, corrected_span, IsMade, correction_from,
  to_dict, correction_from-to_dict,
}
use video_captioner_z.Segmentation.{hard_partitions}
use video_captioner_z.Segmentation.Partitions.{
  concat, IsClose, Separated, hard_partitions-Separated,
}
use video_captioner_z.Tests.Transcript.{plain, word}

abbrev spans : List CorrectedSpan
spans =
    record { source_word_ids = "w1" ∷ []; corrected_text = "one" }
    ∷ record { source_word_ids = "w2" ∷ "w3" ∷ []; corrected_text = "two three" }
    ∷ []

abbrev correction : CorrectedTranscript
correction = record {
  transcript_id = "t";
  spans = spans;
  source_word_ids = "w1" ∷ "w2" ∷ "w3" ∷ [];
  schema_version = pos 1;
}

spans-IsMade : All (IsMade plain) spans
unfolding corrected_span is_canonical ◌>>=◌ raise_if
spans-IsMade = (refl, (refl, tt))

correction_made : corrected_transcript "t" spans ("w1" ∷ "w2" ∷ "w3" ∷ []) (pos 1) ≡ ok correction
unfolding corrected_transcript ◌>>=◌ raise_if
correction_made = refl

correction_from-to_dict_example : correction_from plain (to_dict correction) ≡ ok correction
correction_from-to_dict_example =
    correction_from-to_dict plain correction spans-IsMade correction_made

abbrev three_words : List WordToken
three_words = word "w1" 0 10 ∷ word "w2" 10 20 ∷ word "w3" 90 99 ∷ []

abbrev two_parts : List (List WordToken)
two_parts = (word "w1" 0 10 ∷ word "w2" 10 20 ∷ []) ∷ (word "w3" 90 99 ∷ []) ∷ []

parted : hard_partitions 70 three_words ≡ ok two_parts
unfolding hard_partitions
parted = refl

hard_partitions-Separated_example :
    (concat two_parts ≡ three_words) × All (IsClose 70) two_parts × Separated 70 two_parts
hard_partitions-Separated_example = hard_partitions-Separated 70 three_words two_parts parted

-- ===== src/Tests/Chunking.antt =====
-- A run of the planner on three items.
use video_captioner_z.Base.{
  ℕ, suc, map, ap, sym, ok-injective, arith, Result, String, ◌≡◌, refl, Option, some, List, [], ◌∷◌,
  ok, err, app_error, length, ◌>>=◌, raise_if,
}
use video_captioner_z.Text.{codes}
use video_captioner_z.Chunking.{ChunkingConfig, ChunkItem, LlmChunk, none_given, item_ids}
use video_captioner_z.Chunking.Answers.{execute_with_shrink_ids}
use video_captioner_z.Chunking.Shrink.{execute_with_shrink, after_attempt, execute_with_shrink_lem}
use video_captioner_z.Chunking.Planner.{plan_chunks, count_all}
use video_captioner_z.Chunking.Partition.{IsPlan, plan_chunks-IsPlan}

abbrev item : String → String → ℕ → ℕ → ChunkItem
item i t a b = record { id = i; text = t; start_ms = a; end_ms = b }

abbrev three_items : List ChunkItem
three_items = item "a" "one" 0 10 ∷ item "b" "four" 10 20 ∷ item "c" "seven" 20 30 ∷ []

-- at most two items and nine tokens, with one item of context on either side
abbrev small_config : ChunkingConfig
small_config = record {
  max_items = 2;
  max_input_tokens = 9;
  context_before_items = 1;
  context_after_items = 1;
  max_audio_context_duration_ms = some 20;
}

-- a token for each character
abbrev count_characters : String → Option ℕ
count_characters s = some (length (codes s))

abbrev chunk : ℕ → List ChunkItem → List ChunkItem → LlmChunk
chunk k xs ctx = record { index = k; items = xs; context = ctx }

-- The first chunk has no room for context, the second takes its neighbour before.
abbrev planned : List LlmChunk
planned =
    chunk 0 (item "a" "one" 0 10 ∷ item "b" "four" 10 20 ∷ []) []
    ∷ chunk 1 (item "c" "seven" 20 30 ∷ []) (item "b" "four" 10 20 ∷ [])
    ∷ []

plan_run : plan_chunks three_items small_config count_characters none_given ≡ ok planned
unfolding plan_chunks ◌>>=◌ raise_if
plan_run = refl

-- An item over the token limit is refused.
too_large :
    plan_chunks (item "a" "ten letters" 0 10 ∷ []) small_config count_characters none_given
    ≡ err (app_error "llm.item_too_large" "a")
unfolding plan_chunks ◌>>=◌ raise_if
too_large = refl

plan_chunks-IsPlan_example :
    (counts : List ℕ) × (count_all count_characters three_items ≡ ok counts)
    × IsPlan three_items counts small_config none_given planned
plan_chunks-IsPlan_example =
    plan_chunks-IsPlan three_items small_config count_characters none_given planned plan_run

answer_one : List ChunkItem → ℕ → Result (List String) × ℕ
answer_one (i ∷ []) n = (ok (i.id ∷ []), suc n)
answer_one _ n = (err (app_error "llm.output_truncated" ""), suc n)

-- A model that cuts off every answer to more than one item; the state counts the requests.
abbrev one_at_a_time : LlmChunk → ℕ → Result (List String) × ℕ
one_at_a_time c n = answer_one c.items n

answer_one_ids :
    (items : List ChunkItem) (n : ℕ) (xs : List String)
    → (answer_one items n).0 ≡ ok xs
    → map (λ x. x) xs ≡ item_ids items
unfolding answer_one
answer_one_ids [] n xs h = absurd (cc)
answer_one_ids (i ∷ []) n xs h = ap (map (λ x. x)) (sym (ok-injective xs (i.id ∷ []) xs h))
answer_one_ids (i ∷ j ∷ items) n xs h = absurd (cc)

-- A chunk of three items takes five requests.
split_run :
    execute_with_shrink three_items small_config count_characters none_given one_at_a_time
      (chunk 0 three_items [])
      0
    ≡ (ok ("a" ∷ "b" ∷ "c" ∷ []), 5)
unfolding execute_with_shrink answer_one video_captioner_z.Chunking.Shrink.shrink ◌>>=◌ raise_if
    video_captioner_z.Chunking.Shrink.is_range video_captioner_z.Chunking.position
    video_captioner_z.Chunking.Planner.plan_chunk_range
split_run = refl

execute_with_shrink_ids_example : map (λ x. x) ("a" ∷ "b" ∷ "c" ∷ []) ≡ item_ids three_items
execute_with_shrink_ids_example =
    execute_with_shrink_ids three_items small_config count_characters none_given (λ x. x)
      one_at_a_time (λ c s xs h. answer_one_ids c.items s xs h) refl (chunk 0 three_items []) 0
      ("a" ∷ "b" ∷ "c" ∷ []) (record { start = 0; stop = 3; within = omega arith; items = refl })
      (ap (λ (r : Result (List String) × ℕ). r.0) split_run)

execute_with_shrink_lem_example :
    execute_with_shrink three_items small_config count_characters none_given one_at_a_time
      (chunk 0 three_items [])
      0
    ≡ after_attempt three_items small_config count_characters none_given one_at_a_time
        (execute_with_shrink three_items small_config count_characters none_given one_at_a_time)
        (chunk 0 three_items [])
        (one_at_a_time (chunk 0 three_items []) 0)
execute_with_shrink_lem_example =
    execute_with_shrink_lem three_items small_config count_characters none_given one_at_a_time
      (chunk 0 three_items []) 0

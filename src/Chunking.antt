-- ===== src/Chunking.antt =====
-- core/policies/llm_chunking.py: the greedy, forward-only planner of LLM chunks.
-- The token counter and the estimate of a complete request are parameters: the first calls a
-- tokenizer, the second encodes a request that a caller's factory builds.
pub mod Shrink
pub mod Answers
pub mod Planner
pub mod Window
pub mod Partition
use video_captioner_z.Base.{
  ℕ, zero, suc, ◌+◌, ◌-◌, max, min, String, Bool, true, false, not, ◌&&◌, ◌||◌, Option, none, some,
  List, [], ◌∷◌, ◌++◌, map, length, take, drop, any, all, contains, distinct, ltb, leb, ◌==◌,
  str_eq, if◌then◌else◌, Result, ok, err, app_error, ◌>>=◌, ◌>>◌, raise_if,
}
use mathlib.Core.List.{reverse}
use mathlib.Core.Option

-- The context counts cannot be negative here, a check of the code that is left out.
pub record ChunkingConfig : Type 0 where
  pub max_items : ℕ
  pub max_input_tokens : ℕ
  pub context_before_items : ℕ
  pub context_after_items : ℕ
  pub max_audio_context_duration_ms : Option ℕ

is_zero_limit : Option ℕ → Bool
is_zero_limit none = false
is_zero_limit (some n) = n == 0

-- the checks of `ChunkingConfig.__post_init__`
unfoldable pub check_config : ChunkingConfig → Result (Unit {0})
unfolding is_zero_limit
check_config c = do
  raise_if ((c.max_items == 0) || (c.max_input_tokens == 0))
      (app_error "llm.chunk_config_invalid" "positive_budget")
  raise_if (is_zero_limit c.max_audio_context_duration_ms)
      (app_error "llm.chunk_config_invalid" "audio_duration")

pub record ChunkItem : Type 0 where
  pub id : String
  pub text : String
  pub start_ms : ℕ
  pub end_ms : ℕ

-- `end_ms - start_ms`; an item is made with `start_ms <= end_ms`
abbrev pub duration_ms : ChunkItem → ℕ
duration_ms i = i.end_ms - i.start_ms

pub record LlmChunk : Type 0 where
  pub index : ℕ
  pub items : List ChunkItem
  pub context : List ChunkItem

abbrev pub item_ids : List ChunkItem → List String
item_ids = map (λ i. i.id)

unfoldable pub is_empty : List ChunkItem → Bool
is_empty [] = true
is_empty (i ∷ is) = false

-- `LlmChunk(index, items, context)` with its checks
unfoldable pub llm_chunk : ℕ → List ChunkItem → List ChunkItem → Result LlmChunk
unfolding is_empty
llm_chunk index items context = do
  raise_if (is_empty items) (app_error "llm.chunk_invalid" "empty")
  raise_if (not (distinct (item_ids items)) || any (contains (item_ids context)) (item_ids items))
      (app_error "llm.chunk_invalid" "context_output_overlap")
  ok (record { index = index; items = items; context = context })

-- `request_factory`, `response_schema` and `request_estimator`: no factory, a factory without the
-- others, or the estimate of the request that is built for a chunk.
pub data RequestBudget : Type 0 where
  none_given incomplete : RequestBudget
  complete : (LlmChunk → Result ℕ) → RequestBudget

-- `xs[a:b]`
abbrev pub slice : {A : Type 0} → List A → ℕ → ℕ → List A
slice xs a b = take (b - a) (drop a xs)

abbrev sum : List ℕ → ℕ
sum [] = 0
sum (n ∷ ns) = n + sum ns

-- `positions[id]`: the ids are distinct, so the dictionary's last index is the first
unfoldable pub position : List ChunkItem → String → ℕ
position [] id = 0
position (i ∷ is) id = if str_eq i.id id then 0 else suc (position is id)

abbrev at : List ℕ → ℕ → ℕ
at [] i = 0
at (n ∷ ns) zero = n
at (n ∷ ns) (suc i) = at ns i

-- the largest and the smallest of the ends of a window
abbrev latest : List ChunkItem → ℕ
latest [] = 0
latest (i ∷ is) = max i.end_ms (latest is)

abbrev earliest : ChunkItem → List ChunkItem → ℕ
earliest i [] = i.start_ms
earliest i (j ∷ js) = min i.start_ms (earliest j js)

abbrev span_ms : List ChunkItem → ℕ
span_ms [] = 0
span_ms (i ∷ is) = latest (i ∷ is) - earliest i is

-- `_within_audio_budget`
unfoldable pub within_audio_budget : List ChunkItem → List ChunkItem → ChunkingConfig → Bool
within_audio_budget core context config = within config.max_audio_context_duration_ms
  where
    within : Option ℕ → Bool
    within none = true
    within (some limit) = leb (span_ms (context ++ core)) limit

module _ (ordered : List ChunkItem) (counts : List ℕ) (config : ChunkingConfig)
    (budget : RequestBudget) where
  -- `_context_indexes`, and the sum of the token counts at them
  unfoldable pub context_tokens : ℕ → ℕ → List ChunkItem → Result ℕ
  unfolding position
  context_tokens core_start core_end context = do
    let indexes = map (λ (i : ChunkItem). position ordered i.id) context
    raise_if (any (λ i. leb core_start i && ltb i core_end) indexes)
        (app_error "llm.chunk_invalid" "context_output_overlap")
    ok (sum (map (at counts) indexes))

  complete_tokens : RequestBudget → ℕ → List ChunkItem → List ChunkItem → Result ℕ
  unfolding llm_chunk
  complete_tokens none_given total core context = ok total
  complete_tokens incomplete total core context =
      err (app_error "llm.chunk_config_invalid" "request_budget")
  complete_tokens (complete estimate) total core context = do
    candidate ← llm_chunk 0 core context
    estimate candidate

  -- one round of the loop of `_fit_window`: does the window with this context fit?
  unfoldable pub window_fits : ℕ → ℕ → List ChunkItem → Result Bool
  unfolding context_tokens complete_tokens within_audio_budget
  window_fits core_start core_end context = do
    let core = slice ordered core_start core_end
    let own = sum (slice counts core_start core_end)
    others ← context_tokens core_start core_end context
    tokens ← complete_tokens budget (own + others) core context
    ok (leb tokens config.max_input_tokens && within_audio_budget core context config)

  -- The loop of `_fit_window`: the farthest context before goes first, then the farthest after.
  -- `after` is held in reverse, so that `after.pop()` takes its head.
  unfoldable pub trim_context :
      ℕ → ℕ → List ChunkItem → List ChunkItem → Result (Option (List ChunkItem))
  unfolding window_fits
  trim_context s e [] [] = do fits ← window_fits s e []; ok (if fits then some [] else none)
  trim_context s e [] (a ∷ after) = do
    let context = reverse (a ∷ after)
    fits ← window_fits s e context
    let rest = trim_context s e [] after
    if fits then ok (some context) else rest
  trim_context s e (b ∷ before) after = do
    let context = (b ∷ before) ++ reverse after
    fits ← window_fits s e context
    let rest = trim_context s e before after
    if fits then ok (some context) else rest

  -- `_fit_window`
  unfoldable pub fit_window : ℕ → ℕ → Result (Option (List ChunkItem × List ChunkItem))
  unfolding trim_context
  fit_window s e =
      let before = slice ordered (s - config.context_before_items) s in
      let after = slice ordered e (e + config.context_after_items) in
      let trimmed = trim_context s e before (reverse after) in
      if ltb config.max_input_tokens (sum (slice counts s e))
      then ok none
      else do context ← trimmed; ok (Option.map (λ c. (slice ordered s e, c)) context)

-- ===== src/Chunking/Planner.antt =====
-- core/policies/llm_chunking.py: the loops of the planner and its two entry points.
use video_captioner_z.Base.{
  ℕ, zero, suc, ◌+◌, ◌-◌, min, String, Bool, false, not, ◌||◌, Option, none, some, List, [], ◌∷◌,
  length, distinct, ltb, leb, if◌then◌else◌, Result, ok, err, app_error, ◌>>=◌, ◌>>◌, raise_if,
}
use video_captioner_z.Chunking.{
  ChunkingConfig, ChunkItem, LlmChunk, RequestBudget, duration_ms, item_ids, llm_chunk, fit_window,
}

-- the chunk's two parts, or the error of an item that fits no window
unfoldable pub found :
    Option (List ChunkItem × List ChunkItem) → Result (List ChunkItem × List ChunkItem)
found none = err (app_error "llm.item_too_large" "")
found (some w) = ok w

module _ (ordered : List ChunkItem) (counts : List ℕ) (config : ChunkingConfig)
    (budget : RequestBudget) where
  -- The inner loop of `plan_chunks`, over the rounds left: `end <= len(ordered)` and
  -- `end - start <= max_items` hold in each.
  unfoldable pub grow :
      ℕ
      → ℕ
      → ℕ
      → Option (List ChunkItem × List ChunkItem)
      → Result (Option (List ChunkItem × List ChunkItem))
  unfolding fit_window
  grow zero s e best = ok best
  grow (suc rounds) s e best = do
    candidate ← fit_window ordered counts config budget s e
    elim candidate [ none ↦ ok best | some c ↦ grow rounds s (suc e) (some c) ]

  -- the outer loop, the first argument bounding its rounds; the second is `len(chunks)`
  unfoldable pub plan_from : ℕ → ℕ → ℕ → Result (List LlmChunk)
  unfolding grow found llm_chunk
  plan_from zero k s = ok []
  plan_from (suc fuel) k s =
      let rest = λ (core : List ChunkItem). plan_from fuel (suc k) (s + length core) in
      if ltb s (length ordered)
      then (do
        best ← grow (min (length ordered) (s + config.max_items) - s) s (suc s) none
        (core, context) ← found best
        chunk ← llm_chunk k core context
        chunks ← rest core
        ok (chunk ∷ chunks))
      else ok []

-- `_count` for each item: `none` stands for a counter that returns no natural number
unfoldable pub count_all : (String → Option ℕ) → List ChunkItem → Result (List ℕ)
count_all counter [] = ok []
count_all counter (i ∷ is) = do n ← counted (counter i.text); ns ← count_all counter is; ok (n ∷ ns)
  where
    counted : Option ℕ → Result ℕ
    counted none = err (app_error "llm.token_count_invalid" i.id)
    counted (some n) = ok n

over_limit : Option ℕ → ℕ → Bool
over_limit none d = false
over_limit (some limit) d = ltb limit d

-- `_validate_item_budgets`, which `plan_chunks` has once more in its body
unfoldable pub validate_item_budgets : ChunkingConfig → List ChunkItem → List ℕ → Result (Unit {0})
unfolding over_limit
validate_item_budgets config (i ∷ is) (n ∷ ns) = do
  raise_if (ltb config.max_input_tokens n) (app_error "llm.item_too_large" i.id)
  raise_if (over_limit config.max_audio_context_duration_ms (duration_ms i))
      (app_error "llm.item_too_large" i.id)
  validate_item_budgets config is ns
validate_item_budgets config _ _ = ok tt

-- `plan_chunks`
unfoldable pub plan_chunks :
    List ChunkItem → ChunkingConfig → (String → Option ℕ) → RequestBudget → Result (List LlmChunk)
unfolding count_all validate_item_budgets plan_from
plan_chunks [] config counter budget = ok []
plan_chunks (i ∷ is) config counter budget = do
  let ordered = i ∷ is
  raise_if (not (distinct (item_ids ordered))) (app_error "llm.chunk_items_invalid" "duplicate_ids")
  counts ← count_all counter ordered
  validate_item_budgets config ordered counts
  plan_from ordered counts config budget (length ordered) 0 0

-- `plan_chunk_range`; the indexes of the code cannot be negative here
unfoldable pub plan_chunk_range :
    List ChunkItem
    → ℕ
    → ℕ
    → ChunkingConfig
    → (String → Option ℕ)
    → ℕ
    → RequestBudget
    → Result LlmChunk
unfolding count_all validate_item_budgets fit_window llm_chunk found
plan_chunk_range ordered s e config counter index budget = do
  raise_if (leb e s || ltb (length ordered) e) (app_error "llm.chunk_invalid" "range")
  raise_if (not (distinct (item_ids ordered))) (app_error "llm.chunk_items_invalid" "duplicate_ids")
  counts ← count_all counter ordered
  validate_item_budgets config ordered counts
  candidate ← fit_window ordered counts config budget s e
  (core, context) ← found candidate
  llm_chunk index core context

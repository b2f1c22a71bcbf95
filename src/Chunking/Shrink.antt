-- ===== src/Chunking/Shrink.antt =====
-- core/application/llm_chunk_executor.py: `_execute_with_shrink`, which splits a chunk whose answer is
-- cut off or has the wrong ids. The execution of one chunk, on a state that holds the client and the
-- cache, is a parameter.
use video_captioner_z.Base.{
  ℕ, zero, suc, ◌+◌, ◌-◌, ◌*◌, ◌/◌, ◌≤◌, ◌<◌, ◌≡◌, refl, sym, ap, ◌∙◌, subst, String, Bool, true,
  not, ◌&&◌, ◌||◌, Option, List, [], ◌∷◌, ◌++◌, map, length, ◌==◌, leb, ltb, if◌then◌else◌,
  Bool-cases, inl, inr, Result, ok, err, app_error, ◌>>=◌, ◌>>◌, raise_if, not-false, length-map,
  distinct, bind_returned, contains, arith, some, none, ok-injective, length-take, drop,
  check_returned,
}
use video_captioner_z.Chunking.{
  ChunkingConfig, ChunkItem, LlmChunk, RequestBudget, item_ids, is_empty, llm_chunk, fit_window,
  position, slice,
}
use video_captioner_z.Chunking.Window.{Holds, IsWindow, fit_window-IsWindow}
use video_captioner_z.Chunking.Planner.{found, count_all, validate_item_budgets, plan_chunk_range}

-- `_SHRINK_ERRORS`
abbrev pub shrink_errors : List String
shrink_errors =
    "llm.id_mismatch" ∷ "llm.missing_id" ∷ "llm.extra_id" ∷ "llm.duplicate_id"
    ∷ "llm.context_id_returned" ∷ "llm.output_truncated" ∷ []

abbrev pub first_index : List ℕ → ℕ
first_index [] = 0
first_index (i ∷ is) = i

-- `indexes[-1] + 1`
abbrev pub index_end : List ℕ → ℕ
index_end [] = 0
index_end (i ∷ []) = suc i
index_end (i ∷ j ∷ is) = index_end (j ∷ is)

-- `indexes == tuple(range(indexes[0], indexes[-1] + 1))`: each index is one more than the one before
unfoldable pub is_range : List ℕ → Bool
is_range [] = true
is_range (i ∷ []) = true
is_range (i ∷ j ∷ is) = (j == suc i) && is_range (j ∷ is)

module _ (ordered : List ChunkItem) (config : ChunkingConfig) (counter : String → Option ℕ)
    (budget : RequestBudget) where
  -- `_plan_range`, of a planner with the limits of the request
  abbrev plan_range : ℕ → ℕ → ℕ → Result LlmChunk
  plan_range start stop index = plan_chunk_range ordered start stop config counter index budget

  abbrev indexes_of : LlmChunk → List ℕ
  indexes_of chunk = map (λ (i : ChunkItem). position ordered i.id) chunk.items

  -- the two parts of a chunk
  unfoldable pub halves : LlmChunk → Result (LlmChunk × LlmChunk)
  halves chunk = do
    let indexes = indexes_of chunk
    let start = first_index indexes
    let midpoint = start + length indexes / 2
    raise_if (not (is_range indexes)) (app_error "llm.id_mismatch" "non_contiguous_chunk")
    left ← plan_range start midpoint (chunk.index * 2)
    right ← plan_range midpoint (index_end indexes) (chunk.index * 2 + 1)
    ok (left, right)

  module _ {S R : Type 0} (execute_chunk : LlmChunk → S → Result (List R) × S) where
    abbrev Run : Type 0
    Run = LlmChunk → S → Result (List R) × S

    abbrev pub prepend : List R → Result (List R) × S → Result (List R) × S
    prepend xs (ok ys, s) = (ok (xs ++ ys), s)
    prepend xs (err e, s) = (err e, s)

    abbrev pub then_right : Run → LlmChunk → Result (List R) × S → Result (List R) × S
    then_right run right (ok xs, s) = prepend xs (run right s)
    then_right run right (err e, s) = (err e, s)

    abbrev pub run_halves : Run → Result (LlmChunk × LlmChunk) → S → Result (List R) × S
    run_halves run (ok (left, right)) s = then_right run right (run left s)
    run_halves run (err e) s = (err e, s)

    -- The body: what follows the execution of the chunk, the recursive calls being `run`.
    abbrev pub after_attempt : Run → LlmChunk → Result (List R) × S → Result (List R) × S
    after_attempt run chunk (ok xs, s) = (ok xs, s)
    after_attempt run chunk (err e, s) =
        if not (contains shrink_errors e.code) || ltb (length chunk.items) 2
        then (err e, s)
        else run_halves run (halves chunk) s

    -- the recursion, with fuel
    unfoldable pub shrink : ℕ → Run
    unfolding halves
    shrink zero chunk s = (err (app_error "fuel" ""), s)
    shrink (suc fuel) chunk s = after_attempt (shrink fuel) chunk (execute_chunk chunk s)

    -- `_execute_with_shrink`, with fuel for each item
    unfoldable pub execute_with_shrink : Run
    execute_with_shrink chunk = shrink (suc (length chunk.items)) chunk

-- The parts of a chunk have fewer items.
module _ (ordered : List ChunkItem) (config : ChunkingConfig) (counter : String → Option ℕ)
    (budget : RequestBudget) where
  pub index_end-is_range :
      (i : ℕ) (is : List ℕ) → is_range (i ∷ is) ≡ true → index_end (i ∷ is) ≡ i + length (i ∷ is)
  unfolding is_range
  index_end-is_range i [] h = omega arith
  index_end-is_range i (j ∷ is) h =
      let next : j ≡ suc i = ground arith in
      let rest : is_range (j ∷ is) ≡ true = ground arith in
      omega (arith, index_end-is_range j is rest, next)

  pub plan_range-items :
      (start stop index : ℕ) (c : LlmChunk)
      → plan_chunk_range ordered start stop config counter index budget ≡ ok c
      → c.items ≡ slice ordered start stop
  unfolding plan_chunk_range found llm_chunk
  plan_range-items start stop index c h =
      let (_, _, h1) =
        bind_returned (raise_if (leb stop start || ltb (length ordered) stop) _) _ h in
      let (_, _, h2) = bind_returned (raise_if (not (distinct (item_ids ordered))) _) _ h1 in
      let (counts, _, h3) = bind_returned (count_all counter ordered) _ h2 in
      let (_, _, h4) = bind_returned (validate_item_budgets config ordered counts) _ h3 in
      let (o, window, h5) =
        bind_returned (fit_window ordered counts config budget start stop) _ h4 in
      let (w, is_window, h6) = bind_returned (found o) _ h5 in
      let (_, _, h7) = bind_returned (raise_if (is_empty w.0) _) _ h6 in
      let (_, _, h8) = bind_returned (raise_if _ _) _ h7 in
      let fits = (fit_window-IsWindow ordered counts config budget start stop).at o window in
      ap (λ (x : LlmChunk). x.items) (sym (ok-injective c _ c h8)) ∙ core counts o w is_window fits
    where
      core :
          (counts : List ℕ) (o : Option (List ChunkItem × List ChunkItem))
          (w : List ChunkItem × List ChunkItem)
          → found o ≡ ok w
          → Holds (IsWindow ordered counts config budget start stop) o
          → w.0 ≡ slice ordered start stop
      core counts none w h fits = absurd (cc)
      core counts (some v) w h fits =
          ap (λ (x : List ChunkItem × List ChunkItem). x.0) (sym (ok-injective v v w h)) ∙ fits.core

  plan_range-length :
      (start stop index : ℕ) (c : LlmChunk)
      → plan_chunk_range ordered start stop config counter index budget ≡ ok c
      → length c.items ≤ stop - start
  plan_range-length start stop index c h =
      let items = ap length (plan_range-items start stop index c h) in
      omega (arith, items, length-take (stop - start) (drop start ordered))

  halves_shorter :
      (chunk left right : LlmChunk)
      → halves ordered config counter budget chunk ≡ ok (left, right)
      → 2 ≤ length chunk.items
      → (length left.items < length chunk.items) × (length right.items < length chunk.items)
  unfolding halves
  halves_shorter chunk left right h two =
      let indexes = map (λ (i : ChunkItem). position ordered i.id) chunk.items in
      let start = first_index indexes in
      let midpoint = start + length indexes / 2 in
      let (_, contiguous, h1) = bind_returned (raise_if (not (is_range indexes)) _) _ h in
      let (l, planned_left, h2) =
        bind_returned
          (plan_chunk_range ordered start midpoint config counter (chunk.index * 2) budget) _ h1 in
      let (r, planned_right, h3) =
        bind_returned
          (plan_chunk_range ordered midpoint (index_end indexes) config counter
            (chunk.index * 2 + 1) budget)
          _ h2 in
      let same : (l, r) ≡ (left, right) =
        ok-injective {A = LlmChunk × LlmChunk} (l, r) (l, r) (left, right) h3 in
      let left_length = plan_range-length start midpoint (chunk.index * 2) l planned_left in
      let right_length =
        plan_range-length midpoint (index_end indexes) (chunk.index * 2 + 1) r planned_right in
      let ends = ends_at indexes (not-false (is_range indexes) (check_returned _ _ contiguous)) in
      let size = length-map (λ (i : ChunkItem). position ordered i.id) chunk.items in
      subst
        (λ (x : LlmChunk × LlmChunk).
          (length x.0.items < length chunk.items) × (length x.1.items < length chunk.items))
        same (omega arith, omega arith)
    where
      ends_at : (is : List ℕ) → is_range is ≡ true → index_end is ≤ first_index is + length is
      ends_at [] h = omega arith
      ends_at (i ∷ is) h = omega (arith, index_end-is_range i is h)

  module _ {S R : Type 0} (execute_chunk : LlmChunk → S → Result (List R) × S) where
    abbrev body :
        (LlmChunk → S → Result (List R) × S) → LlmChunk → Result (List R) × S → Result (List R) × S
    body = after_attempt ordered config counter budget execute_chunk

    abbrev run_with : ℕ → LlmChunk → S → Result (List R) × S
    run_with = shrink ordered config counter budget execute_chunk

    -- The body calls itself on chunks of fewer items only.
    body_same :
        (run other : LlmChunk → S → Result (List R) × S) (chunk : LlmChunk)
        (attempt : Result (List R) × S)
        → ((c : LlmChunk) (s : S) → length c.items < length chunk.items → run c s ≡ other c s)
        → body run chunk attempt ≡ body other chunk attempt
    body_same run other chunk (ok xs, s) h = refl
    body_same run other chunk (err e, s) h =
        elim (Bool-cases (not (contains shrink_errors e.code) || ltb (length chunk.items) 2)) [
          | inl stops ↦ rw stops refl
          | inr splits ↦
              rw splits (both (halves ordered config counter budget chunk) refl (ground arith))
        ]
      where
        right_same :
            (right : LlmChunk) (first : Result (List R) × S)
            → length right.items < length chunk.items
            → then_right ordered config counter budget execute_chunk run right first
              ≡ then_right ordered config counter budget execute_chunk other right first
        right_same right (ok xs, s) shorter =
            ap (prepend ordered config counter budget execute_chunk xs) (h right s shorter)
        right_same right (err raised, s) shorter = refl

        both :
            (parts : Result (LlmChunk × LlmChunk))
            → halves ordered config counter budget chunk ≡ parts
            → 2 ≤ length chunk.items
            → run_halves ordered config counter budget execute_chunk run parts s
              ≡ run_halves ordered config counter budget execute_chunk other parts s
        both (err raised) k two = refl
        both (ok (left, right)) k two =
            let (shorter_left, shorter_right) = halves_shorter chunk left right k two in
            ap (then_right ordered config counter budget execute_chunk run right)
              (h left s shorter_left)
            ∙ right_same right (other left s) shorter_right

    enough_fuel :
        (f g : ℕ) (chunk : LlmChunk) (s : S)
        → length chunk.items < f
        → length chunk.items < g
        → run_with f chunk s ≡ run_with g chunk s
    unfolding shrink
    enough_fuel zero g chunk s h k = absurd (omega arith)
    enough_fuel (suc f) zero chunk s h k = absurd (omega arith)
    enough_fuel (suc f) (suc g) chunk s h k =
        body_same (run_with f) (run_with g) chunk (execute_chunk chunk s)
          (λ c t shorter. enough_fuel f g c t (omega arith) (omega arith))

    -- The splitting ends: with fuel for each item of the chunk, the execution satisfies the recursive
    -- equation of the code, whatever the execution of one chunk returns.
    pub execute_with_shrink_lem :
        (chunk : LlmChunk) (s : S)
        → execute_with_shrink ordered config counter budget execute_chunk chunk s
          ≡ after_attempt ordered config counter budget execute_chunk
              (execute_with_shrink ordered config counter budget execute_chunk)
              chunk
              (execute_chunk chunk s)
    unfolding execute_with_shrink shrink
    execute_with_shrink_lem chunk s =
        body_same (run_with (length chunk.items)) (λ c. run_with (suc (length c.items)) c) chunk
          (execute_chunk chunk s)
          (λ c t shorter.
            enough_fuel (length chunk.items) (suc (length c.items)) c t shorter (omega arith))

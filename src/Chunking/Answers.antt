-- ===== src/Chunking/Answers.antt =====
-- core/application/llm_chunk_executor.py: the answers to the parts of a chunk are those to its items.
use video_captioner_z.Base.{
  ℕ, zero, suc, ◌+◌, ◌-◌, ◌*◌, ◌/◌, ◌≤◌, ◌≡◌, refl, sym, ap, ◌∙◌, subst, String, true, not, ◌||◌,
  Option, List, [], ◌∷◌, ◌++◌, map, length, take, drop, contains, distinct, str_eq, eq_iff, ltb,
  Bool-cases, inl, inr, Result, ok, err, raise_if, bind_returned, check_returned, not-false,
  ok-injective, length-map, length-take, length-drop, drop-drop, arith,
}
use mathlib.Core.List.{map-append}
use video_captioner_z.Chunking.{
  ChunkingConfig, ChunkItem, LlmChunk, RequestBudget, item_ids, position, slice,
}
use video_captioner_z.Chunking.Planner.{plan_chunk_range}
use video_captioner_z.Chunking.Shrink.{
  shrink_errors, first_index, index_end, is_range, halves, prepend, then_right, run_halves,
  after_attempt, shrink, execute_with_shrink, index_end-is_range, plan_range-items,
}

contains_dropped :
    (s : ℕ) (xs : List ChunkItem) (i : ChunkItem) (rest : List ChunkItem)
    → drop s xs ≡ i ∷ rest
    → contains (item_ids xs) i.id ≡ true
contains_dropped zero [] i rest h = absurd (cc)
contains_dropped zero (x ∷ xs) i rest h =
    let first : x ≡ i = cc in rw ((eq_iff x.id i.id).1 (ap (λ (y : ChunkItem). y.id) first)) refl
contains_dropped (suc s) [] i rest h = absurd (cc)
contains_dropped (suc s) (x ∷ xs) i rest h = ground (arith, contains_dropped s xs i rest h)

-- The item at an index has that position.
position_dropped :
    (s : ℕ) (xs : List ChunkItem) (i : ChunkItem) (rest : List ChunkItem)
    → distinct (item_ids xs) ≡ true
    → drop s xs ≡ i ∷ rest
    → position xs i.id ≡ s
unfolding position
position_dropped zero [] i rest d h = absurd (cc)
position_dropped zero (x ∷ xs) i rest d h =
    let first : x ≡ i = cc in rw ((eq_iff x.id i.id).1 (ap (λ (y : ChunkItem). y.id) first)) refl
position_dropped (suc s) [] i rest d h = absurd (cc)
position_dropped (suc s) (x ∷ xs) i rest d h = elim (Bool-cases (str_eq x.id i.id)) [
  | inl same ↦
      let held = contains_dropped s xs i rest h in
      let equal : x.id ≡ i.id = (eq_iff x.id i.id).0 same in
      absurd (ground (arith, held, ap (contains (item_ids xs)) equal))
  | inr other ↦ rw other (ap suc (position_dropped s xs i rest (ground arith) h))
]

take_twice : (a b : ℕ) (xs : List ChunkItem) → take a xs ++ take b (drop a xs) ≡ take (a + b) xs
take_twice zero b xs = ap (λ n. take n xs) (omega arith)
take_twice (suc a) zero [] =
    let total : suc (a + zero) ≡ suc a + zero = omega arith in
    ap (λ n. take {A = ChunkItem} n []) total
take_twice (suc a) (suc b) [] =
    let total : suc (a + suc b) ≡ suc a + suc b = omega arith in
    ap (λ n. take {A = ChunkItem} n []) total
take_twice (suc a) b (x ∷ xs) =
    let total : suc (a + b) ≡ suc a + b = omega arith in
    ap (λ ys. x ∷ ys) (take_twice a b xs) ∙ ap (λ n. take n (x ∷ xs)) total

slice_halves :
    (xs : List ChunkItem) (s m e : ℕ) → s ≤ m → m ≤ e → slice xs s m ++ slice xs m e ≡ slice xs s e
slice_halves xs s m e h k =
    let starts : s + (m - s) ≡ m = omega arith in
    let total : (m - s) + (e - m) ≡ e - s = omega arith in
    ap (λ n. slice xs s m ++ take (e - m) (drop n xs)) (sym starts)
    ∙ ap (λ ys. slice xs s m ++ take (e - m) ys) (sym (drop-drop (m - s) s xs))
    ∙ take_twice (m - s) (e - m) (drop s xs)
    ∙ ap (λ n. take n (drop s xs)) total

module _ (ordered : List ChunkItem) (config : ChunkingConfig) (counter : String → Option ℕ)
    (budget : RequestBudget) where
  -- the items of a chunk are a range of all of them
  pub record IsRangeOf (chunk : LlmChunk) : Type 0 where
    pub start : ℕ
    pub stop : ℕ
    pub within : stop ≤ length ordered
    pub items : chunk.items ≡ slice ordered start stop

  first_index_range :
      (items ys : List ChunkItem) (s k : ℕ)
      → distinct (item_ids ordered) ≡ true
      → drop s ordered ≡ ys
      → items ≡ take k ys
      → 1 ≤ length items
      → first_index (map (λ (i : ChunkItem). position ordered i.id) items) ≡ s
  first_index_range [] ys s k d h t n = absurd (omega arith)
  first_index_range (i ∷ items) ys s zero d h t n = absurd (cc)
  first_index_range (i ∷ items) [] s (suc k) d h t n = absurd (cc)
  first_index_range (i ∷ items) (y ∷ ys) s (suc k) d h t n =
      let first : i ≡ y = cc in
      position_dropped s ordered i ys d (h ∙ ap (λ (z : ChunkItem). z ∷ ys) (sym first))

  index_end_range :
      (is : List ℕ) → is_range is ≡ true → 1 ≤ length is → index_end is ≡ first_index is + length is
  index_end_range [] h n = absurd (omega arith)
  index_end_range (i ∷ is) h n = index_end-is_range ordered config counter budget i is h

  -- The parts of such a chunk are such chunks, and make up its items.
  record AreHalves (chunk left right : LlmChunk) : Type 0 where
    left_range : IsRangeOf left
    right_range : IsRangeOf right
    parts : left.items ++ right.items ≡ chunk.items

  halves-AreHalves :
      (chunk left right : LlmChunk)
      → distinct (item_ids ordered) ≡ true
      → IsRangeOf chunk
      → 2 ≤ length chunk.items
      → halves ordered config counter budget chunk ≡ ok (left, right)
      → AreHalves chunk left right
  unfolding halves
  halves-AreHalves chunk left right d c two h =
      let indexes = map (λ (i : ChunkItem). position ordered i.id) chunk.items in
      let start = first_index indexes in
      let midpoint = start + length indexes / 2 in
      let (_, contiguous, h1) = bind_returned (raise_if (not (is_range indexes)) _) _ h in
      let (l, planned_left, h2) =
        bind_returned
          (plan_chunk_range ordered start midpoint config counter (chunk.index * 2) budget) _ h1 in
      let (r, planned_right, h3) =
        bind_returned
          (plan_chunk_range ordered midpoint (index_end indexes) config counter
            (chunk.index * 2 + 1) budget)
          _ h2 in
      let same : (l, r) ≡ (left, right) =
        ok-injective {A = LlmChunk × LlmChunk} (l, r) (l, r) (left, right) h3 in
      let left_items =
        plan_range-items ordered config counter budget start midpoint (chunk.index * 2) l
          planned_left in
      let right_items =
        plan_range-items ordered config counter budget midpoint (index_end indexes)
          (chunk.index * 2 + 1) r planned_right in
      let size = length-map (λ (i : ChunkItem). position ordered i.id) chunk.items in
      let starts : start ≡ c.start =
        first_index_range chunk.items (drop c.start ordered) c.start (c.stop - c.start) d refl
          c.items (omega arith) in
      let ends =
        index_end_range indexes (not-false (is_range indexes) (check_returned _ _ contiguous))
          (omega arith) in
      let taken = ap length c.items ∙ length-take (c.stop - c.start) (drop c.start ordered) in
      let left_over = length-drop c.start ordered in
      let inside = c.within in
      let stops : index_end indexes ≡ c.stop = omega arith in
      subst (λ (x : LlmChunk × LlmChunk). AreHalves chunk x.0 x.1) same
        (record {
          left_range = record {
            start = start;
            stop = midpoint;
            within = omega arith;
            items = left_items;
          };
          right_range = record {
            start = midpoint;
            stop = index_end indexes;
            within = omega arith;
            items = right_items;
          };
          parts =
              ap (λ ys. ys ++ r.items) left_items
              ∙ ap (λ ys. slice ordered start midpoint ++ ys) right_items
              ∙ slice_halves ordered start midpoint (index_end indexes) (omega arith) (omega arith)
              ∙ ap (λ n. slice ordered n (index_end indexes)) starts
              ∙ ap (slice ordered c.start) stops
              ∙ sym c.items;
        })

  module _ {S R : Type 0} (id_of : R → String) (execute_chunk : LlmChunk → S → Result (List R) × S)
      (answers : (c : LlmChunk) (s : S) (xs : List R)
        → (execute_chunk c s).0 ≡ ok xs
        → map id_of xs ≡ item_ids c.items)
      (unique : distinct (item_ids ordered) ≡ true) where
    -- the answers that are returned, if any, are those to the items
    abbrev HasIds : List ChunkItem → Result (List R) × S → Type 0
    HasIds items r = (xs : List R) → r.0 ≡ ok xs → map id_of xs ≡ item_ids items

    then_right-HasIds :
        (run : LlmChunk → S → Result (List R) × S) (left right : LlmChunk)
        (first : Result (List R) × S)
        → HasIds left.items first
        → ((s : S) → HasIds right.items (run right s))
        → HasIds
            (left.items ++ right.items)
            (then_right ordered config counter budget execute_chunk run right first)
    then_right-HasIds run left right (err e, s) h k = λ xs m. absurd (cc)
    then_right-HasIds run left right (ok ys, s) h k = appended (run right s) (k s)
      where
        appended :
            (r : Result (List R) × S)
            → HasIds right.items r
            → HasIds
                (left.items ++ right.items)
                (prepend ordered config counter budget execute_chunk ys r)
        appended (err e, t) k = λ xs m. absurd (cc)
        appended (ok zs, t) k = λ xs m.
            ap (map id_of) (sym (ok-injective xs (ys ++ zs) xs m))
            ∙ map-append id_of ys zs
            ∙ ap (λ ids. ids ++ map id_of zs) (h ys refl)
            ∙ ap (λ ids. item_ids left.items ++ ids) (k zs refl)
            ∙ sym (map-append (λ (i : ChunkItem). i.id) left.items right.items)

    module _ (run : LlmChunk → S → Result (List R) × S)
        (runs : (c : LlmChunk) (s : S) → IsRangeOf c → HasIds c.items (run c s)) where
      run_halves-HasIds :
          (chunk : LlmChunk) (o : Result (LlmChunk × LlmChunk)) (s : S)
          → IsRangeOf chunk
          → halves ordered config counter budget chunk ≡ o
          → 2 ≤ length chunk.items
          → HasIds chunk.items (run_halves ordered config counter budget execute_chunk run o s)
      run_halves-HasIds chunk (err e) s c h two = λ xs m. absurd (cc)
      run_halves-HasIds chunk (ok (left, right)) s c h two =
          let both = halves-AreHalves chunk left right unique c two h in
          subst
            (λ items.
              HasIds items
                (then_right ordered config counter budget execute_chunk run right (run left s)))
            both.parts
            (then_right-HasIds run left right (run left s) (runs left s both.left_range)
              (λ t. runs right t both.right_range))

      after_attempt-HasIds :
          (chunk : LlmChunk) (attempt : Result (List R) × S)
          → IsRangeOf chunk
          → HasIds chunk.items attempt
          → HasIds chunk.items
              (after_attempt ordered config counter budget execute_chunk run chunk attempt)
      after_attempt-HasIds chunk (ok ys, s) c h = h
      after_attempt-HasIds chunk (err e, s) c h =
          elim (Bool-cases (not (contains shrink_errors e.code) || ltb (length chunk.items) 2)) [
            | inl stops ↦ rw stops h
            | inr splits ↦ rw splits (
                run_halves-HasIds chunk (halves ordered config counter budget chunk) s c refl
                  (ground arith))
          ]

    shrink-HasIds :
        (fuel : ℕ) (chunk : LlmChunk) (s : S)
        → IsRangeOf chunk
        → HasIds chunk.items (shrink ordered config counter budget execute_chunk fuel chunk s)
    unfolding shrink
    shrink-HasIds zero chunk s c = λ xs h. absurd (cc)
    shrink-HasIds (suc fuel) chunk s c =
        after_attempt-HasIds (shrink ordered config counter budget execute_chunk fuel)
          (shrink-HasIds fuel) chunk (execute_chunk chunk s) c (answers chunk s)

    -- Let the items have distinct ids, and let the execution of a chunk, where it returns, answer each
    -- of the chunk's items in order. Then so does the execution with its splits, for a chunk whose
    -- items are a range of all of them.
    pub execute_with_shrink_ids :
        (chunk : LlmChunk) (s : S) (xs : List R)
        → IsRangeOf chunk
        → (execute_with_shrink ordered config counter budget execute_chunk chunk s).0 ≡ ok xs
        → map id_of xs ≡ item_ids chunk.items
    unfolding execute_with_shrink
    execute_with_shrink_ids chunk s xs c h = shrink-HasIds (suc (length chunk.items)) chunk s c xs h

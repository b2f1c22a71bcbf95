-- ===== src/Chunking/Partition.antt =====
-- core/policies/llm_chunking.py: the chunks that the planner returns cut the items into
-- consecutive runs, each within the limits.
use video_captioner_z.Base.{
  ℕ, zero, suc, ◌+◌, ◌-◌, ◌≤◌, ◌<◌, ◌≡◌, refl, subst, ap, sym, ◌∙◌, Bool, true, false, Option, none,
  some, List, [], ◌∷◌, ◌++◌, length, take, drop, length-take, length-drop, drop-drop, drop_all,
  take-append-drop, min, ltb, any, contains, ltb→lt, bind_returned, raise_if, arith, if◌then◌else◌,
  String, Result, ok, Ensures, Ensures-ok, Ensures-err, Ensures-bind, Ensures-raise_if,
}
use video_captioner_z.Chunking.{
  ChunkingConfig, ChunkItem, LlmChunk, RequestBudget, item_ids, llm_chunk, slice,
  within_audio_budget,
}
use video_captioner_z.Chunking.Planner.{
  grow, found, plan_from, count_all, validate_item_budgets, plan_chunks,
}
use video_captioner_z.Chunking.Window.{
  Holds, IsWindow, fit_window-IsWindow, TokensFit, Fits-budgets,
}

-- the items of the chunks, one chunk after the other
abbrev pub all_items : List LlmChunk → List ChunkItem
all_items [] = []
all_items (c ∷ cs) = c.items ++ all_items cs

module _ (ordered : List ChunkItem) (counts : List ℕ) (config : ChunkingConfig)
    (budget : RequestBudget) where
  -- A chunk numbered `k` of the items from `s` on: at least one item and at most `max_items`,
  -- consecutive, within the token budget and the audio budget, and no item is its own context.
  pub record IsPlanned (k s : ℕ) (c : LlmChunk) : Type 0 where
    pub index : c.index ≡ k
    pub run : c.items ≡ slice ordered s (s + length c.items)
    pub some_items : 0 < length c.items
    pub few_items : length c.items ≤ config.max_items
    pub inside : s + length c.items ≤ length ordered
    pub tokens :
        TokensFit ordered counts config.max_input_tokens budget s
          (s + length c.items)
          c.items
          c.context
    pub audio : within_audio_budget c.items c.context config ≡ true
    pub apart : any (contains (item_ids c.context)) (item_ids c.items) ≡ false

  -- The chunks are planned one behind the other, from the item at `s` to the last.
  abbrev pub Covers : ℕ → ℕ → List LlmChunk → Type 0
  Covers k s [] = length ordered ≤ s
  Covers k s (c ∷ cs) = IsPlanned k s c × Covers (suc k) (s + length c.items) cs

  record IsBest (s : ℕ) (w : List ChunkItem × List ChunkItem) : Type 0 where
    ends : ℕ
    window : IsWindow ordered counts config budget s ends w
    later : s < ends
    limit : ends ≤ min (length ordered) (s + config.max_items)

  grow-IsBest :
      (rounds s e : ℕ) (best : Option (List ChunkItem × List ChunkItem))
      → s < e
      → rounds + e ≤ suc (min (length ordered) (s + config.max_items))
      → Holds (IsBest s) best
      → Ensures (Holds (IsBest s)) (grow ordered counts config budget rounds s e best)
  unfolding grow
  grow-IsBest zero s e best l r h = Ensures-ok best h
  grow-IsBest (suc rounds) s e best l r h = Ensures-bind _ _ (λ o f.
      go o ((fit_window-IsWindow ordered counts config budget s e).at o f) (λ c w.
        grow-IsBest rounds s (suc e) (some c) (omega arith) (omega arith)
          (record { ends = e; window = w; later = l; limit = omega arith })))
    where
      go :
          (o : Option (List ChunkItem × List ChunkItem))
          → Holds (IsWindow ordered counts config budget s e) o
          → ((c : List ChunkItem × List ChunkItem)
              → IsWindow ordered counts config budget s e c
              → Ensures
                  (Holds (IsBest s))
                  (grow ordered counts config budget rounds s (suc e) (some c)))
          → Ensures (Holds (IsBest s)) (elim o [
            | none ↦ ok best
            | some c ↦ grow ordered counts config budget rounds s (suc e) (some c)
          ])
      go none w k = Ensures-ok best h
      go (some c) w k = k c w

  length-slice : (s e : ℕ) → s ≤ e → e ≤ length ordered → length (slice ordered s e) ≡ e - s
  length-slice s e l h = omega (arith, length-take (e - s) (drop s ordered), length-drop s ordered)

  llm_chunk-apart :
      (k : ℕ) (core context : List ChunkItem)
      → Ensures
          (λ c.
            (c ≡ record { index = k; items = core; context = context })
            × (any (contains (item_ids context)) (item_ids core) ≡ false))
          (llm_chunk k core context)
  unfolding llm_chunk
  llm_chunk-apart k core context =
      Ensures-raise_if _ _ _ (λ _. Ensures-raise_if _ _ _ (λ h. Ensures-ok _ (refl, ground arith)))

  best-IsPlanned :
      (k s : ℕ) (core context : List ChunkItem)
      → IsBest s (core, context)
      → any (contains (item_ids context)) (item_ids core) ≡ false
      → IsPlanned k s (record { index = k; items = core; context = context })
  best-IsPlanned k s core context b a =
      let e = b.ends in
      let w = b.window in
      let size : length core ≡ e - s =
        ap length w.core ∙ length-slice s e (omega (arith, b.later)) (omega (arith, b.limit)) in
      let last : s + length core ≡ e = omega (arith, size, b.later) in
      let (tokens, audio) = Fits-budgets ordered counts config budget s e context w.fits in
      record {
        index = refl;
        run = w.core ∙ ap (slice ordered s) (sym last);
        some_items = omega (arith, size, b.later);
        few_items = omega (arith, size, b.later, b.limit);
        inside = omega (arith, last, b.limit);
        tokens =
            subst (λ e. TokensFit ordered counts config.max_input_tokens budget s e core context)
              (sym last)
              (subst
                (λ items. TokensFit ordered counts config.max_input_tokens budget s e items context)
                (sym w.core) tokens);
        audio = subst (λ items. within_audio_budget items context config ≡ true) (sym w.core) audio;
        apart = a;
      }

  found-Holds :
      (s : ℕ) (o : Option (List ChunkItem × List ChunkItem))
      → Holds (IsBest s) o
      → Ensures (IsBest s) (found o)
  unfolding found
  found-Holds s none h = Ensures-err _
  found-Holds s (some w) h = Ensures-ok w h

  if_more :
      (k s : ℕ) (b : Bool) (r : Result (List LlmChunk))
      → (b ≡ false → length ordered ≤ s)
      → (b ≡ true → Ensures (Covers k s) r)
      → Ensures (Covers k s) (if b then r else ok [])
  if_more k s true r e h = h refl
  if_more k s false r e h = Ensures-ok [] (e refl)

  -- one round of the outer loop
  round-IsPlanned :
      (k s : ℕ) (o : Option (List ChunkItem × List ChunkItem)) (w : List ChunkItem × List ChunkItem)
      (c : LlmChunk)
      → s < length ordered
      → grow ordered counts config budget
          (min (length ordered) (s + config.max_items) - s)
          s
          (suc s)
          none
        ≡ ok o
      → found o ≡ ok w
      → llm_chunk k w.0 w.1 ≡ ok c
      → IsPlanned k s c × (c.items ≡ w.0)
  round-IsPlanned k s o w c l g f h =
      let best = (grow-IsBest _ s (suc s) none (omega arith) (omega arith) tt).at o g in
      let b = (found-Holds s o best).at w f in
      let (same, apart) = (llm_chunk-apart k w.0 w.1).at c h in
      (
        subst (IsPlanned k s) (sym same) (best-IsPlanned k s w.0 w.1 b apart),
        ap (λ c. c.items) same,
      )

  cons-Covers :
      (k s : ℕ) (c : LlmChunk) (core : List ChunkItem) (cs : List LlmChunk)
      → IsPlanned k s c
      → c.items ≡ core
      → Covers (suc k) (s + length core) cs
      → Covers k s (c ∷ cs)
  cons-Covers k s c core cs p e h =
      (p, subst (λ items. Covers (suc k) (s + length items) cs) (sym e) h)

  plan_from-Covers :
      (fuel k s : ℕ)
      → length ordered ≤ s + fuel
      → Ensures (Covers k s) (plan_from ordered counts config budget fuel k s)
  unfolding plan_from
  plan_from-Covers zero k s l = Ensures-ok [] (omega arith)
  plan_from-Covers (suc fuel) k s l =
      if_more k s (ltb s (length ordered)) _ (λ h. ground arith)
        (λ more. Ensures-bind _ _ (λ o g. Ensures-bind _ _ (λ w f. Ensures-bind _ _ (λ c h.
          Ensures-bind _ _ (λ cs r.
            let (p, e) = round-IsPlanned k s o w c (ltb→lt _ _ more) g f h in
            Ensures-ok _ (
              cons-Covers k s c w.0 cs p e (
                (plan_from-Covers fuel (suc k) (s + length w.0)
                    (omega (arith, ap length e, p.some_items))).at
                  cs r)))))))

  -- Chunks that cover the items from `s` on hold just those, in their order.
  Covers-partition : (k s : ℕ) (cs : List LlmChunk) → Covers k s cs → all_items cs ≡ drop s ordered
  Covers-partition k s [] h = sym (drop_all s ordered h)
  Covers-partition k s (c ∷ cs) h =
      let n = length c.items in
      let p : IsPlanned k s c = h.0 in
      let run : c.items ≡ take n (drop s ordered) =
        p.run ∙ ap (λ m. take m (drop s ordered)) (omega arith) in
      ap (λ r. c.items ++ r) (Covers-partition (suc k) (s + n) cs h.1)
      ∙ ap (λ r. r ++ drop (s + n) ordered) run
      ∙ ap (λ r. take n (drop s ordered) ++ r) (sym (drop-drop n s ordered))
      ∙ take-append-drop n (drop s ordered)

-- What a plan of the items is: each item stands in exactly one chunk, in order, and the chunks are
-- numbered from 0 and keep the limits.
pub record IsPlan (items : List ChunkItem) (counts : List ℕ) (config : ChunkingConfig)
    (budget : RequestBudget) (chunks : List LlmChunk) : Type 0 where
  pub partition : all_items chunks ≡ items
  pub covers : Covers items counts config budget 0 0 chunks

-- If the planner returns, then the chunks, one after the other, hold exactly the items given, in
-- their order; they are numbered from 0; each has at least one and at most `max_items` items; its
-- tokens, or those of the complete request where a factory is given, are within
-- `max_input_tokens`, its span with the context is within the audio limit, and no item of it
-- stands in its context. The counts are those that the counter gives for the items.
pub plan_chunks-IsPlan :
    (items : List ChunkItem) (config : ChunkingConfig) (counter : String → Option ℕ)
    (budget : RequestBudget) (chunks : List LlmChunk)
    → plan_chunks items config counter budget ≡ ok chunks
    → (counts : List ℕ) × (count_all counter items ≡ ok counts)
      × IsPlan items counts config budget chunks
unfolding plan_chunks
plan_chunks-IsPlan [] config counter budget chunks h =
    let e : [] ≡ chunks = cc in
    (
      [],
      unfold count_all in refl,
      subst (IsPlan [] [] config budget) e (record { partition = refl; covers = omega arith }),
    )
plan_chunks-IsPlan (i ∷ is) config counter budget chunks h =
    let ordered : List ChunkItem = i ∷ is in
    let (_, _, h1) = bind_returned (raise_if _ _) _ h in
    let (counts, counted, h2) = bind_returned (count_all counter ordered) _ h1 in
    let (_, _, h3) = bind_returned (validate_item_budgets config ordered counts) _ h2 in
    let covers =
      (plan_from-Covers ordered counts config budget (length ordered) 0 0 (omega arith)).at chunks
        h3 in
    (
      counts,
      counted,
      record {
        partition = Covers-partition ordered counts config budget 0 0 chunks covers;
        covers = covers;
      },
    )

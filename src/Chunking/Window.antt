-- ===== src/Chunking/Window.antt =====
-- core/policies/llm_chunking.py: what a window that `_fit_window` returns satisfies.
use video_captioner_z.Base.{
  ℕ, ◌+◌, ◌≤◌, ◌≡◌, refl, subst, Bool, true, false, Option, none, some, List, [], ◌∷◌, map, ltb,
  arith, if◌then◌else◌, Result, ok, bind_returned, Ensures-raise_if, Ensures, Ensures-ok,
  Ensures-bind,
}
use mathlib.Core.Option
use video_captioner_z.Chunking.{
  ChunkingConfig, ChunkItem, RequestBudget, none_given, incomplete, complete, llm_chunk, slice, sum,
  at, position, within_audio_budget, context_tokens, complete_tokens, window_fits, trim_context,
  fit_window,
}

-- What holds of the value of an option, if it has one.
abbrev pub Holds {ℓ κ} : {A : Type ℓ} → (A → Type κ) → Option A → Type κ
Holds P none = Unit
Holds P (some a) = P a

module _ (ordered : List ChunkItem) (counts : List ℕ) (config : ChunkingConfig)
    (budget : RequestBudget) where
  abbrev pub Fits : ℕ → ℕ → List ChunkItem → Type 0
  Fits s e context = window_fits ordered counts config budget s e context ≡ ok true

  if_Fits :
      (s e : ℕ) (context : List ChunkItem) (rest : Result (Option (List ChunkItem))) (b : Bool)
      → window_fits ordered counts config budget s e context ≡ ok b
      → Ensures (Holds (Fits s e)) rest
      → Ensures (Holds (Fits s e)) (if b then ok (some context) else rest)
  if_Fits s e context rest true h r = Ensures-ok _ h
  if_Fits s e context rest false h r = r

  last-Fits :
      (s e : ℕ) (b : Bool)
      → window_fits ordered counts config budget s e [] ≡ ok b
      → Holds (Fits s e) (if b then some [] else none)
  last-Fits s e true h = h
  last-Fits s e false h = tt

  trim_context-Fits :
      (s e : ℕ) (before after : List ChunkItem)
      → Ensures (Holds (Fits s e)) (trim_context ordered counts config budget s e before after)
  unfolding trim_context
  trim_context-Fits s e [] [] = Ensures-bind _ _ (λ b h. Ensures-ok _ (last-Fits s e b h))
  trim_context-Fits s e [] (a ∷ after) =
      Ensures-bind _ _ (λ b h. if_Fits s e _ _ b h (trim_context-Fits s e [] after))
  trim_context-Fits s e (b ∷ before) after =
      Ensures-bind _ _ (λ f h. if_Fits s e _ _ f h (trim_context-Fits s e before after))

  -- What a window that is returned satisfies: its core is the range asked for, within the token
  -- budget, and it fits with its context.
  pub record IsWindow (s e : ℕ) (w : List ChunkItem × List ChunkItem) : Type 0 where
    pub core : w.0 ≡ slice ordered s e
    pub own : sum (slice counts s e) ≤ config.max_input_tokens
    pub fits : Fits s e w.1

  map-IsWindow :
      (s e : ℕ) (o : Option (List ChunkItem))
      → sum (slice counts s e) ≤ config.max_input_tokens
      → Holds (Fits s e) o
      → Holds (IsWindow s e) (Option.map (λ c. (slice ordered s e, c)) o)
  map-IsWindow s e none t h = tt
  map-IsWindow s e (some c) t h = record { core = refl; own = t; fits = h }

  if_over :
      (s e : ℕ) (b : Bool) (r : Result (Option (List ChunkItem × List ChunkItem)))
      → (b ≡ false → Ensures (Holds (IsWindow s e)) r)
      → Ensures (Holds (IsWindow s e)) (if b then ok none else r)
  if_over s e true r h = Ensures-ok _ tt
  if_over s e false r h = h refl

  pub fit_window-IsWindow :
      (s e : ℕ) → Ensures (Holds (IsWindow s e)) (fit_window ordered counts config budget s e)
  unfolding fit_window
  fit_window-IsWindow s e =
      if_over s e (ltb config.max_input_tokens (sum (slice counts s e))) _ (λ t.
        Ensures-bind _ _ (λ o h.
          Ensures-ok _ (map-IsWindow s e o (ground arith) ((trim_context-Fits s e _ _).at o h))))

-- The tokens of a window, by the kind of budget: those of its items, or those of the request that
-- is built for it.
abbrev pub TokensFit :
    List ChunkItem → List ℕ → ℕ → RequestBudget → ℕ → ℕ → List ChunkItem → List ChunkItem → Type 0
TokensFit ordered counts limit none_given s e core context =
    sum (slice counts s e)
      + sum (map (at counts) (map (λ (i : ChunkItem). position ordered i.id) context))
    ≤ limit
TokensFit ordered counts limit incomplete s e core context = ⊥
TokensFit ordered counts limit (complete estimate) s e core context =
    (t : ℕ) × (estimate (record { index = 0; items = core; context = context }) ≡ ok t)
    × (t ≤ limit)

context_tokens-eq :
    (ordered : List ChunkItem) (counts : List ℕ) (config : ChunkingConfig) (budget : RequestBudget)
    (s e : ℕ) (context : List ChunkItem)
    → Ensures
        (λ n. n ≡ sum (map (at counts) (map (λ (i : ChunkItem). position ordered i.id) context)))
        (context_tokens ordered counts config budget s e context)
unfolding context_tokens
context_tokens-eq ordered counts config budget s e context =
    Ensures-raise_if _ _ _ (λ _. Ensures-ok _ refl)

llm_chunk-eq :
    (k : ℕ) (core context : List ChunkItem)
    → Ensures
        (λ c. c ≡ record { index = k; items = core; context = context })
        (llm_chunk k core context)
unfolding llm_chunk
llm_chunk-eq k core context =
    Ensures-raise_if _ _ _ (λ _. Ensures-raise_if _ _ _ (λ _. Ensures-ok _ refl))

module _ (ordered : List ChunkItem) (counts : List ℕ) (config : ChunkingConfig)
    (budget : RequestBudget) where
  complete_tokens-TokensFit :
      (b : RequestBudget) (s e others tokens : ℕ) (core context : List ChunkItem)
      → others ≡ sum (map (at counts) (map (λ (i : ChunkItem). position ordered i.id) context))
      → complete_tokens ordered counts config budget b
          (sum (slice counts s e) + others)
          core
          context
        ≡ ok tokens
      → tokens ≤ config.max_input_tokens
      → TokensFit ordered counts config.max_input_tokens b s e core context
  unfolding complete_tokens
  complete_tokens-TokensFit none_given s e others tokens core context o h l = ground arith
  complete_tokens-TokensFit incomplete s e others tokens core context o h l = cc
  complete_tokens-TokensFit (complete estimate) s e others tokens core context o h l =
      let (c, hc, t) = bind_returned (llm_chunk 0 core context) estimate h in
      (tokens, subst (λ c. estimate c ≡ ok tokens) ((llm_chunk-eq 0 core context).at c hc) t, l)

  -- A window that fits is within the token budget and within the audio budget.
  pub Fits-budgets :
      (s e : ℕ) (context : List ChunkItem)
      → Fits ordered counts config budget s e context
      → TokensFit ordered counts config.max_input_tokens budget s e (slice ordered s e) context
        × (within_audio_budget (slice ordered s e) context config ≡ true)
  unfolding window_fits
  Fits-budgets s e context h =
      let (others, ho, h1) =
        bind_returned (context_tokens ordered counts config budget s e context) _ h in
      let (tokens, ht, h2) =
        bind_returned (complete_tokens ordered counts config budget budget _ _ context) _ h1 in
      let same = (context_tokens-eq ordered counts config budget s e context).at others ho in
      let within : (tokens ≤ config.max_input_tokens)
          × (within_audio_budget (slice ordered s e) context config ≡ true) =
        ground arith in
      (complete_tokens-TokensFit budget s e others tokens _ context same ht within.0, within.1)

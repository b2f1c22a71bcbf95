-- ===== src/Segmentation/Partitions.antt =====
-- core/policies/segmentation.py: the hard partitions hold every word, and are cut at hard gaps only.
use video_captioner_z.Base.{
  ℕ, ◌≡◌, refl, sym, ap, ◌∙◌, Bool, true, false, not, ◌&&◌, arith, List, [], ◌∷◌, ◌++◌, All, ok,
  if◌then◌else◌, ok-injective, subst,
}
use mathlib.Core.List.{append_assoc}
use video_captioner_z.Transcript.{WordToken}
use video_captioner_z.Segmentation.{is_hard_gap, partition_from, hard_partitions}

abbrev pub concat : List (List WordToken) → List WordToken
concat [] = []
concat (p ∷ ps) = p ++ concat ps

module _ (hard_gap_ms : ℕ) where
  -- no two neighbours have a hard gap between them
  abbrev pub close_after : WordToken → List WordToken → Bool
  close_after last [] = true
  close_after last (w ∷ words) = not (is_hard_gap hard_gap_ms last w) && close_after w words

  abbrev last_of : WordToken → List WordToken → WordToken
  last_of w [] = w
  last_of w (v ∷ words) = last_of v words

  -- A partition has a first word, and no hard gap within.
  pub record IsClose (p : List WordToken) : Type 0 where
    pub first : WordToken
    pub others : List WordToken
    pub parts : p ≡ first ∷ others
    pub close : close_after first others ≡ true

  -- There is a hard gap between each partition and the next.
  pub data Separated : List (List WordToken) → Type 0 where
    only : {p : List WordToken} → Separated (p ∷ [])
    cut :
        (first : WordToken) (others : List WordToken) (w : WordToken) (words : List WordToken)
        {ps : List (List WordToken)}
        → is_hard_gap hard_gap_ms (last_of first others) w ≡ true
        → Separated ((w ∷ words) ∷ ps)
        → Separated ((first ∷ others) ∷ (w ∷ words) ∷ ps)

  close_after-snoc :
      (first : WordToken) (others : List WordToken) (w : WordToken)
      → close_after first others ≡ true
      → is_hard_gap hard_gap_ms (last_of first others) w ≡ false
      → close_after first (others ++ w ∷ []) ≡ true
  close_after-snoc first [] w h g = ground (arith, g)
  close_after-snoc first (v ∷ others) w h g = ground (arith, h, g, close_after-snoc v others w)

  last_of-snoc :
      (first : WordToken) (others : List WordToken) (w : WordToken)
      → last_of first (others ++ w ∷ []) ≡ w
  last_of-snoc first [] w = refl
  last_of-snoc first (v ∷ others) w = last_of-snoc v others w

  -- Partitions of a slice and of the words after it, the slice beginning the first of them.
  pub record Cuts (first : WordToken) (others words : List WordToken) (ps : List (List WordToken))
      : Type 0 where
    pub whole : concat ps ≡ (first ∷ others) ++ words
    pub close : All IsClose ps
    pub rest : List WordToken
    pub later : List (List WordToken)
    pub starts : ps ≡ (first ∷ rest) ∷ later
    pub separated : Separated ps

  partition_from-Cuts :
      (words : List WordToken) (first : WordToken) (others : List WordToken)
      → close_after first others ≡ true
      → Cuts first others words
          (partition_from hard_gap_ms (first ∷ others) (last_of first others) words)
  unfolding partition_from
  partition_from-Cuts [] first others h = record {
    whole = refl;
    close = (record { first = first; others = others; parts = refl; close = h }, tt);
    rest = others;
    later = [];
    starts = refl;
    separated = only;
  }
  partition_from-Cuts (w ∷ words) first others h =
      by_gap (partition_from-Cuts words w [] refl)
        (partition_from-Cuts words first (others ++ w ∷ []))
        (is_hard_gap hard_gap_ms (last_of first others) w) refl
    where
      by_gap :
          Cuts w [] words (partition_from hard_gap_ms (w ∷ []) w words)
          → (close_after first (others ++ w ∷ []) ≡ true
              → Cuts first (others ++ w ∷ []) words (
                  partition_from hard_gap_ms
                    (first ∷ others ++ w ∷ [])
                    (last_of first (others ++ w ∷ []))
                    words))
          → (gap : Bool) → is_hard_gap hard_gap_ms (last_of first others) w ≡ gap
          → Cuts first others (w ∷ words) (
              if gap
              then (first ∷ others) ∷ partition_from hard_gap_ms (w ∷ []) w words
              else partition_from hard_gap_ms ((first ∷ others) ++ w ∷ []) w words)
      by_gap next more true g = record {
        whole = ap (λ r. (first ∷ others) ++ r) next.whole;
        close = (record { first = first; others = others; parts = refl; close = h }, next.close);
        rest = others;
        later = partition_from hard_gap_ms (w ∷ []) w words;
        starts = refl;
        separated =
            subst (λ ps. Separated ((first ∷ others) ∷ ps)) (sym next.starts)
              (cut first others w next.rest g (subst Separated next.starts next.separated));
      }
      by_gap next more false g =
          let longer : Cuts first (others ++ w ∷ []) words
              (partition_from hard_gap_ms ((first ∷ others) ++ w ∷ []) w words) =
            subst
              (λ last.
                Cuts first (others ++ w ∷ []) words
                  (partition_from hard_gap_ms ((first ∷ others) ++ w ∷ []) last words))
              (last_of-snoc first others w) (more (close_after-snoc first others w h g)) in
          record {
            whole = longer.whole ∙ append_assoc (first ∷ others) (w ∷ []) words;
            close = longer.close;
            rest = longer.rest;
            later = longer.later;
            starts = longer.starts;
            separated = longer.separated;
          }

  -- If the words are partitioned, then the partitions, one after the other, are the words, each
  -- has at least one word and no hard gap within, and there is a hard gap between each and the next.
  pub hard_partitions-Separated :
      (words : List WordToken) (ps : List (List WordToken))
      → hard_partitions hard_gap_ms words ≡ ok ps
      → (concat ps ≡ words) × All IsClose ps × Separated ps
  unfolding hard_partitions
  hard_partitions-Separated [] ps h = absurd (cc)
  hard_partitions-Separated (w ∷ words) ps h =
      let cuts = partition_from-Cuts words w [] refl in
      let made = partition_from hard_gap_ms (w ∷ []) w words in
      subst (λ r. (concat r ≡ w ∷ words) × All IsClose r × Separated r)
        (ok-injective made made ps h) (cuts.whole, cuts.close, cuts.separated)

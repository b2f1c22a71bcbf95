-- ===== src/Segmentation/Optimal.antt =====
-- core/policies/segmentation.py: the path that the dynamic program finds costs no more than any other.
use video_captioner_z.Base.{
  ℕ, zero, suc, ◌+◌, ◌-◌, ◌≤◌, ◌<◌, min, ◌≡◌, refl, sym, ap, ◌∙◌, subst, Bool, true, false, inl,
  inr, some, List, [], ◌∷◌, ◌++◌, ◌==◌, ==_iff, ltb, ltb→lt, Bool-cases, Option-cases, ok, arith,
}
use video_captioner_z.Json.{ℤ}
use video_captioner_z.Integer.{less, add_all, less_irrefl, less_trans, less-add_all}
use video_captioner_z.Segmentation.Solver.{
  CuePath, zero_cost, max_candidate_words, Best, better_of, offer, extended, try_ends, try_start,
  try_starts, at_origin, found, solve,
}
use video_captioner_z.Segmentation.Better.{
  IsAtMost, better_of_cheap, better_of_cheaper, better_of_either, some-injective,
}

module _ (cost : ℕ → ℕ → List ℤ) (exceeded : ℕ → ℕ → Bool) (count : ℕ) where
  -- A candidate that the windows allow: it has at most 96 words, and no shorter one from the same
  -- start ends the window.
  pub record IsAllowed (start stop : ℕ) : Type 0 where
    pub some_word : start < stop
    pub within : stop ≤ count
    pub few : stop ≤ start + max_candidate_words
    pub not_ended :
        (between : ℕ) → start < between → between < stop → exceeded start between ≡ false

  -- The ends of allowed candidates that cover the words up to an index, with their cost.
  pub data Cover : List ℕ → ℕ → List ℤ → Type 0 where
    nothing : Cover [] 0 zero_cost
    one_more :
        {ends : List ℕ} {start stop : ℕ} {total : List ℤ}
        → Cover ends start total
        → IsAllowed start stop
        → Cover (ends ++ stop ∷ []) stop (add_all total (cost start stop))

  -- the best path to an index costs at most as much
  pub record Reaches (best : Best) (stop : ℕ) (total : List ℤ) : Type 0 where
    pub path : CuePath
    pub is_best : best stop ≡ some path
    pub cheap : IsAtMost path.cost total

  module _ (p : CuePath) (stop : ℕ) (best : Best) where
    offer_new : Reaches (offer p stop best) stop p.cost
    unfolding offer
    offer_new = record {
      path = better_of p (best stop);
      is_best = rw ((==_iff stop stop).1 refl) refl;
      cheap = better_of_cheap p (best stop);
    }

    offer_keeps :
        (j : ℕ) (total : List ℤ) → Reaches best j total → Reaches (offer p stop best) j total
    unfolding offer
    offer_keeps j total h = elim (Bool-cases (j == stop)) [
      | inl same ↦ record {
        path = better_of p (best j);
        is_best = rw same refl;
        cheap = rw h.is_best (
            less_trans total h.path.cost (better_of p (some h.path)).cost h.cheap
              (better_of_cheaper p h.path));
      }
      | inr other ↦ record { path = h.path; is_best = rw other h.is_best; cheap = h.cheap }
    ]

    offer_sound :
        Cover p.ends stop p.cost
        → ((j : ℕ) (q : CuePath) → best j ≡ some q → Cover q.ends j q.cost)
        → (j : ℕ) (q : CuePath) → offer p stop best j ≡ some q
        → Cover q.ends j q.cost
    unfolding offer
    offer_sound c h j q k = elim (Bool-cases (j == stop)) [
      | inl same ↦
          let at_stop : stop ≡ j = ground arith in
          let chosen : some (better_of p (best j)) ≡ some q = rw same at k in
          subst (λ (r : CuePath). Cover r.ends j r.cost)
            (some-injective q (better_of p (best j)) q chosen)
            (better_of_either (λ r. Cover r.ends j r.cost) p (best j)
              (subst (λ i. Cover p.ends i p.cost) at_stop c) (h j))
      | inr other ↦ h j q (rw other at k)
    ]

  -- What holds of `best` once every start before `s` has been tried.
  record Invariant (s : ℕ) (best : Best) : Type 0 where
    origin : Reaches best 0 zero_cost
    sound : (j : ℕ) (p : CuePath) → best j ≡ some p → Cover p.ends j p.cost
    reached :
        {ends : List ℕ} {i j : ℕ} {total : List ℤ}
        → Cover ends i total
        → IsAllowed i j
        → i < s
        → Reaches best j (add_all total (cost i j))

  optimal :
      (s : ℕ) (best : Best) {ends : List ℕ} {i : ℕ} {total : List ℤ}
      → Invariant s best
      → Cover ends i total
      → i ≤ s
      → Reaches best i total
  optimal s best h nothing k = h.origin
  optimal s best h (one_more c a) k = let fewer = a.some_word in h.reached c a (omega arith)

  -- What holds while the ends after the start `s`, those before `e`, have been tried.
  record Trying (s e : ℕ) (best : Best) : Type 0 where
    before : Invariant s best
    tried :
        {ends : List ℕ} {j : ℕ} {total : List ℤ}
        → Cover ends s total
        → IsAllowed s j
        → j < e
        → Reaches best j (add_all total (cost s j))

  module _ (s : ℕ) (prior : CuePath) (covers : Cover prior.ends s prior.cost)
      (cheapest : (ends : List ℕ) (total : List ℤ)
        → Cover ends s total
        → IsAtMost prior.cost total) where
    offer-Trying :
        (e : ℕ) (best : Best)
        → IsAllowed s e
        → Trying s e best
        → Trying s (suc e) (offer (extended cost exceeded prior s e) e best)
    offer-Trying e best a h =
        let new = extended cost exceeded prior s e in
        record {
          before = record {
            origin = offer_keeps new e best 0 zero_cost h.before.origin;
            sound = offer_sound new e best (one_more covers a) h.before.sound;
            reached = λ {ends} {i} {j} {total} c b k.
                offer_keeps new e best j (add_all total (cost i j)) (h.before.reached c b k);
          };
          tried = λ {ends} {j} {total} c b k. elim (Bool-cases (j == e)) [
            | inl same ↦
                let here : e ≡ j = ground arith in
                let r = offer_new new e best in
                subst (λ n. Reaches (offer new e best) n (add_all total (cost s n))) here
                  (record {
                    path = r.path;
                    is_best = r.is_best;
                    cheap =
                        less_trans (add_all total (cost s e)) (add_all prior.cost (cost s e))
                          r.path.cost
                          (less-add_all total prior.cost (cost s e) (cheapest ends total c))
                          r.cheap;
                  })
            | inr other ↦
                offer_keeps new e best j (add_all total (cost s j)) (h.tried c b (ground arith))
          ];
        }

    -- Once no further end is allowed, the start is done with.
    finish :
        (e : ℕ) (best : Best)
        → ((j : ℕ) → IsAllowed s j → j < e)
        → Trying s e best
        → Invariant (suc s) best
    finish e best last h = record {
      origin = h.before.origin;
      sound = h.before.sound;
      reached = λ {ends} {i} {j} {total} c a k. elim (Bool-cases (i == s)) [
        | inl same ↦
            let here : s ≡ i = ground arith in
            let moved : i ≡ s = sym here in
            subst (λ n. Reaches best j (add_all total (cost n j))) here
              (h.tried (subst (λ n. Cover ends n total) moved c)
                (subst (λ n. IsAllowed n j) moved a) (last j (subst (λ n. IsAllowed n j) moved a)))
        | inr other ↦ h.before.reached c a (ground arith)
      ];
    }

    try_ends-Invariant :
        (rounds e : ℕ) (best : Best)
        → s < e
        → e + rounds ≡ suc (min count (s + max_candidate_words))
        → ((between : ℕ) → s < between → between < e → exceeded s between ≡ false)
        → Trying s e best
        → Invariant (suc s) (try_ends cost exceeded prior s e rounds best)
    unfolding try_ends
    try_ends-Invariant zero e best later k w h =
        finish e best (λ j a. let n = a.within in let m = a.few in omega arith) h
    try_ends-Invariant (suc rounds) e best later k w h =
        let a : IsAllowed s e = record {
          some_word = later;
          within = omega arith;
          few = omega arith;
          not_ended = w;
        } in
        let offered = offer (extended cost exceeded prior s e) e best in
        elim (Bool-cases (exceeded s e)) [
          | inl ended ↦ rw ended (
              finish (suc e) offered (λ j b. within_window j e later ended b)
                (offer-Trying e best a h))
          | inr goes_on ↦ rw goes_on (
              try_ends-Invariant rounds (suc e) offered (omega arith) (omega arith)
                (λ n x y. next_end e w goes_on n x y) (offer-Trying e best a h))
        ]
      where
        within_window : (j e : ℕ) → s < e → exceeded s e ≡ true → IsAllowed s j → j < suc e
        within_window j e after ended b = elim (Bool-cases (ltb e j)) [
          | inl more ↦ absurd (cc (b.not_ended e after (ltb→lt e j more)))
          | inr no_more ↦ ground arith
        ]

        next_end :
            (e : ℕ)
            → ((between : ℕ) → s < between → between < e → exceeded s between ≡ false)
            → exceeded s e ≡ false
            → (n : ℕ) → s < n
            → n < suc e
            → exceeded s n ≡ false
        next_end e w goes_on n x y = elim (Bool-cases (n == e)) [
          | inl same ↦ subst (λ m. exceeded s m ≡ false) ((==_iff e n).0 (ground arith)) goes_on
          | inr other ↦ w n x (ground arith)
        ]

  try_start-Invariant :
      (s : ℕ) (best : Best)
      → s < count
      → Invariant s best
      → Invariant (suc s) (try_start cost exceeded count s (best s) best)
  unfolding try_start
  try_start-Invariant s best more h = elim (Option-cases (best s)) [
    | inl nowhere ↦ rw nowhere (record {
      origin = h.origin;
      sound = h.sound;
      reached = λ {ends} {i} {j} {total} c a k. elim (Bool-cases (i == s)) [
        | inl same ↦
            let r = optimal s best h c (ground arith) in
            let here : i ≡ s = ground arith in absurd (cc (r.is_best, nowhere, ap best here))
        | inr other ↦ h.reached c a (ground arith)
      ];
    })
    | inr found_path ↦
        let (prior, is_prior) = found_path in
        rw is_prior (
          try_ends-Invariant s prior (h.sound s prior is_prior)
            (λ ends total c.
              let r = optimal s best h c (omega arith) in
              subst (λ (p : CuePath). IsAtMost p.cost total)
                (some-injective prior r.path prior (sym r.is_best ∙ is_prior)) r.cheap)
            (min count (s + max_candidate_words) - s) (suc s) best (omega arith) (omega arith)
            (λ n x y. absurd (omega arith))
            (record {
              before = h;
              tried = λ {ends} {j} {total} c a k. let n = a.some_word in absurd (omega arith);
            }))
  ]

  try_starts-Invariant :
      (rounds s : ℕ) (best : Best)
      → s + rounds ≡ count
      → Invariant s best
      → Invariant count (try_starts cost exceeded count s rounds best)
  unfolding try_starts
  try_starts-Invariant zero s best k h = subst (λ n. Invariant n best) (omega arith) h
  try_starts-Invariant (suc rounds) s best k h =
      try_starts-Invariant rounds (suc s) (try_start cost exceeded count s (best s) best)
        (omega arith) (try_start-Invariant s best (omega arith) h)

  at_origin-Invariant : Invariant 0 (at_origin cost exceeded)
  at_origin-Invariant = record {
    origin = record {
      path = record { cost = zero_cost; ends = [] };
      is_best = refl;
      cheap = less_irrefl zero_cost;
    };
    sound = covered;
    reached = λ {ends} {i} {j} {total} c a k. absurd (omega arith);
  }
    where
      covered : (j : ℕ) (p : CuePath) → at_origin cost exceeded j ≡ some p → Cover p.ends j p.cost
      covered j p h = elim (Bool-cases (j == 0)) [
        | inl same ↦
            let here : 0 ≡ j = ground arith in
            let chosen : some nowhere ≡ some p = rw same at h in
            subst (λ n. Cover p.ends n p.cost) here
              (subst (λ (q : CuePath). Cover q.ends 0 q.cost) (some-injective p nowhere p chosen)
                nothing)
        | inr other ↦ absurd (cc (rw other at h))
      ]
        where
          nowhere : CuePath
          nowhere = record { cost = zero_cost; ends = [] }

  -- One word after the other is a cover.
  single_words : (i : ℕ) → i ≤ count → (ends : List ℕ) × (total : List ℤ) × Cover ends i total
  single_words zero h = ([], zero_cost, nothing)
  single_words (suc i) h =
      let (ends, total, c) = single_words i (omega arith) in
      (
        ends ++ suc i ∷ [],
        add_all total (cost i (suc i)),
        one_more c (record {
          some_word = omega arith;
          within = h;
          few = omega arith;
          not_ended = λ n x y. absurd (omega arith);
        }),
      )

  -- The dynamic program over the words always returns a path. It covers the words by candidates that
  -- the windows allow, its cost is theirs, and no other such cover costs less.
  pub solve_optimal :
      (p : CuePath) × (solve cost exceeded count ≡ ok p)
      × Cover p.ends count p.cost
      × ((ends : List ℕ) (total : List ℤ) → Cover ends count total → less total p.cost ≡ false)
  unfolding solve found
  solve_optimal =
      let best = try_starts cost exceeded count 0 count (at_origin cost exceeded) in
      let h =
        try_starts-Invariant count 0 (at_origin cost exceeded) (omega arith) at_origin-Invariant in
      let (ends, total, c) = single_words count (omega arith) in
      let r = optimal count best h c (omega arith) in
      (
        r.path,
        ap (found cost exceeded) r.is_best,
        h.sound count r.path r.is_best,
        λ es t d.
            let q = optimal count best h d (omega arith) in
            subst (λ (p : CuePath). IsAtMost p.cost t)
              (some-injective r.path q.path r.path (sym q.is_best ∙ r.is_best)) q.cheap,
      )

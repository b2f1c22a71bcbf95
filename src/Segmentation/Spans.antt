-- ===== src/Segmentation/Spans.antt =====
-- core/policies/segmentation.py: the spans that `_solve_partition` cuts are the words.
use video_captioner_z.Base.{
  ℕ, zero, suc, ◌-◌, ◌≤◌, ◌<◌, ◌≡◌, refl, Bool, sym, ap, ◌∙◌, List, [], ◌∷◌, ◌++◌, length, take,
  drop, ok, ◌>>=◌, All, All-append, subst, arith,
}
use mathlib.Core.List.{append_assoc, append-nil}
use video_captioner_z.Json.{ℤ}
use video_captioner_z.Transcript.{WordToken}
use video_captioner_z.SegmentationPolicy.{SegmentationPolicyConfig}
use video_captioner_z.Segmentation.Partitions.{concat}
use video_captioner_z.Segmentation.Candidate.{Measures, candidate_cost, window_exceeded}
use video_captioner_z.Segmentation.Solver.{cut_spans, solve_partition}
use video_captioner_z.Segmentation.Timeline.{HasWords}
use video_captioner_z.Segmentation.Optimal.{Cover, nothing, one_more, solve_optimal}

concat-append : (xs ys : List (List WordToken)) → concat (xs ++ ys) ≡ concat xs ++ concat ys
concat-append [] ys = refl
concat-append (x ∷ xs) ys =
    ap (λ r. x ++ r) (concat-append xs ys) ∙ sym (append_assoc x (concat xs) (concat ys))

-- the last end, or where the spans start
abbrev last_end : ℕ → List ℕ → ℕ
last_end start [] = start
last_end start (stop ∷ ends) = last_end stop ends

last_end-snoc : (start : ℕ) (ends : List ℕ) (stop : ℕ) → last_end start (ends ++ stop ∷ []) ≡ stop
last_end-snoc start [] stop = refl
last_end-snoc start (e ∷ ends) stop = last_end-snoc e ends stop

cut_spans-snoc :
    (words : List WordToken) (start : ℕ) (ends : List ℕ) (stop : ℕ)
    → cut_spans words start (ends ++ stop ∷ [])
      ≡ cut_spans words start ends
        ++ take (stop - last_end start ends) (drop (last_end start ends) words) ∷ []
unfolding cut_spans
cut_spans-snoc words start [] stop = refl
cut_spans-snoc words start (e ∷ ends) stop =
    ap (λ r. take (e - start) (drop start words) ∷ r) (cut_spans-snoc words e ends stop)

take_nil : (n : ℕ) → take {A = WordToken} n [] ≡ []
take_nil zero = refl
take_nil (suc n) = refl

take_then :
    (i j : ℕ) (words : List WordToken)
    → i < j
    → take i words ++ take (j - i) (drop i words) ≡ take j words
take_then zero j words h = ap (λ n. take n words) (omega arith)
take_then (suc i) zero words h = absurd (omega arith)
take_then (suc i) (suc j) [] h = take_nil (suc j - suc i)
take_then (suc i) (suc j) (w ∷ words) h =
    ap (λ r. w ∷ r)
      (ap (λ n. take i words ++ take n (drop i words)) (omega arith)
        ∙ take_then i j words (omega arith))

slice-HasWords :
    (words : List WordToken) (i j : ℕ)
    → i < j
    → i < length words
    → HasWords (take (j - i) (drop i words))
slice-HasWords [] i j h k = absurd (omega arith)
slice-HasWords (w ∷ words) i zero h k = absurd (omega arith)
slice-HasWords (w ∷ words) zero (suc j) h k =
    let all_of : suc j ≡ suc j - zero = omega arith in
    subst (λ n. HasWords (take n (w ∷ words))) all_of tt
slice-HasWords (w ∷ words) (suc i) (suc j) h k =
    let shifted : j - i ≡ suc j - suc i = omega arith in
    subst (λ n. HasWords (take n (drop i words))) shifted
      (slice-HasWords words i j (omega arith) (omega arith))

take_all : (n : ℕ) (words : List WordToken) → length words ≤ n → take n words ≡ words
take_all zero [] h = refl
take_all zero (w ∷ words) h = absurd (omega arith)
take_all (suc n) [] h = refl
take_all (suc n) (w ∷ words) h = ap (λ r. w ∷ r) (take_all n words (omega arith))

module _ (cost : ℕ → ℕ → List ℤ) (exceeded : ℕ → ℕ → Bool) (count : ℕ)
    (words : List WordToken) where
  last_end-Cover :
      {ends : List ℕ} {i : ℕ} {total : List ℤ}
      → Cover cost exceeded count ends i total
      → last_end 0 ends ≡ i
  last_end-Cover nothing = refl
  last_end-Cover (one_more {ends = ends} {stop = stop} c a) = last_end-snoc 0 ends stop

  cut_spans-Cover :
      {ends : List ℕ} {i : ℕ} {total : List ℤ}
      → Cover cost exceeded count ends i total
      → concat (cut_spans words 0 ends) ≡ take i words
  unfolding cut_spans
  cut_spans-Cover nothing = refl
  cut_spans-Cover (one_more {ends = ends} {start = start} {stop = stop} c a) =
      ap concat (cut_spans-snoc words 0 ends stop)
      ∙ concat-append (cut_spans words 0 ends) _
      ∙ ap (λ r. concat (cut_spans words 0 ends) ++ r) (append-nil _)
      ∙ ap (λ n. concat (cut_spans words 0 ends) ++ take (stop - n) (drop n words))
          (last_end-Cover c)
      ∙ ap (λ r. r ++ take (stop - start) (drop start words)) (cut_spans-Cover c)
      ∙ take_then start stop words a.some_word

  cut_spans-HasWords :
      {ends : List ℕ} {i : ℕ} {total : List ℤ}
      → count ≤ length words
      → Cover cost exceeded count ends i total
      → All HasWords (cut_spans words 0 ends)
  unfolding cut_spans
  cut_spans-HasWords n nothing = tt
  cut_spans-HasWords n (one_more {ends = ends} {start = start} {stop = stop} c a) =
      let starts = last_end-Cover c in
      let early = a.some_word in
      let within = a.within in
      subst (All HasWords) (sym (cut_spans-snoc words 0 ends stop)) (
        All-append HasWords (cut_spans words 0 ends) _ (cut_spans-HasWords n c)
          (slice-HasWords words (last_end 0 ends) stop (omega arith) (omega arith), tt))

-- `_solve_partition` returns spans, none of them empty, whose words, in order, are the words that it
-- was given.
pub solve_partition_words :
    (measures : Measures) (config : SegmentationPolicyConfig) (offsets : List ℕ)
    (words : List WordToken)
    → (spans : List (List WordToken)) × (solve_partition measures config offsets words ≡ ok spans)
      × (concat spans ≡ words)
      × All HasWords spans
unfolding solve_partition ◌>>=◌
solve_partition_words measures config offsets words =
    let cost = candidate_cost measures config words offsets in
    let exceeded = window_exceeded measures config words offsets in
    let (p, solved, c, _) = solve_optimal cost exceeded (length words) in
    (
      cut_spans words 0 p.ends,
      rw solved refl,
      cut_spans-Cover cost exceeded (length words) words c
          ∙ take_all (length words) words (omega arith),
      cut_spans-HasWords cost exceeded (length words) words (omega arith) c,
    )

-- ===== src/JournalFile/Lines.antt =====
-- adapters/persistence/jsonl_journal.py: the lines of a file that a line, or a part of it, is added to.
use video_captioner_z.Base.{
  ℕ, zero, suc, ◌≤◌, ◌≡◌, refl, sym, ap, ◌∙◌, Bool, true, false, not, ◌&&◌, ◌||◌, List, [], ◌∷◌,
  ◌++◌, length, take, ◌==◌, All, if◌then◌else◌, arith,
}
use video_captioner_z.JournalFile.{
  starts_line_feed, add_first, split_lines, drop_last, is_complete, keep_before, complete_part,
}

-- no line ends within the bytes
abbrev pub IsPlain : List ℕ → Type 0
IsPlain = All (λ b. ((b == 10) ≡ false) × ((b == 13) ≡ false))

-- one round of the splitting: whether the byte ends a line, and the lines after it
abbrev split_step : Bool → ℕ → List (List ℕ) → List (List ℕ)
split_step c b lines = if c then (b ∷ []) ∷ lines else add_first b lines

split_step-append :
    (c : Bool) (b : ℕ) (line : List ℕ) (xs ys : List (List ℕ))
    → split_step c b ((line ∷ xs) ++ ys) ≡ split_step c b (line ∷ xs) ++ ys
unfolding add_first
split_step-append true b line xs ys = refl
split_step-append false b line xs ys = refl

-- what does not come to an end has a first line
split_lines-cons :
    (b : ℕ) (bs : List ℕ)
    → (line : List ℕ) × (lines : List (List ℕ)) × (split_lines (b ∷ bs) ≡ line ∷ lines)
unfolding split_lines
split_lines-cons b bs =
    by_cases ((b == 10) || ((b == 13) && not (starts_line_feed bs))) (split_lines bs)
  where
    by_cases :
        (c : Bool) (rest : List (List ℕ))
        → (line : List ℕ) × (lines : List (List ℕ)) × (split_step c b rest ≡ line ∷ lines)
    by_cases true rest = (b ∷ [], rest, refl)
    by_cases false [] = (b ∷ [], [], refl)
    by_cases false (l ∷ rest) = (b ∷ l, rest, refl)

-- Bytes that follow complete lines are split apart from them.
pub split_lines-append :
    (xs ys : List ℕ)
    → is_complete xs ≡ true
    → split_lines (xs ++ ys) ≡ split_lines xs ++ split_lines ys
unfolding split_lines is_complete
split_lines-append [] ys h = refl
split_lines-append (b ∷ []) ys h = rw h refl
split_lines-append (b ∷ c ∷ xs) ys h =
    let ends = (b == 10) || ((b == 13) && not (c == 10)) in
    let (line, lines, same) = split_lines-cons c xs in
    ap (split_step ends b) (split_lines-append (c ∷ xs) ys h ∙ ap (λ ls. ls ++ split_lines ys) same)
    ∙ split_step-append ends b line lines (split_lines ys)
    ∙ ap (λ ls. split_step ends b ls ++ split_lines ys) (sym same)

-- A plain line with its line feed is one line.
pub split_lines-line :
    (xs : List ℕ) → IsPlain xs → split_lines (xs ++ 10 ∷ []) ≡ (xs ++ 10 ∷ []) ∷ []
unfolding split_lines
split_lines-line [] h = refl
split_lines-line (b ∷ xs) h = rw h.0.0 (rw h.0.1 (rw (split_lines-line xs h.1) refl))

pub is_complete-snoc : (xs : List ℕ) → is_complete (xs ++ 10 ∷ []) ≡ true
unfolding is_complete
is_complete-snoc [] = refl
is_complete-snoc (b ∷ []) = refl
is_complete-snoc (b ∷ c ∷ xs) = is_complete-snoc (c ∷ xs)

pub is_complete-plain :
    (xs ys : List ℕ) (b : ℕ) → IsPlain (b ∷ ys) → is_complete (xs ++ b ∷ ys) ≡ false
unfolding is_complete
is_complete-plain [] [] b h = h.0.0
is_complete-plain [] (c ∷ ys) b h = is_complete-plain [] ys c h.1
is_complete-plain (a ∷ []) ys b h = is_complete-plain [] ys b h
is_complete-plain (a ∷ c ∷ xs) ys b h = is_complete-plain (c ∷ xs) ys b h

complete_part-plain : (xs : List ℕ) → IsPlain xs → complete_part xs ≡ []
unfolding complete_part keep_before
complete_part-plain [] h = refl
complete_part-plain (b ∷ xs) h = rw (complete_part-plain xs h.1) (rw h.0.0 refl)

keep_before-cons : (b c : ℕ) (xs : List ℕ) → keep_before b (c ∷ xs) ≡ b ∷ c ∷ xs
unfolding keep_before
keep_before-cons b c xs = refl

-- The complete part of complete lines and a plain rest is those lines.
pub complete_part-append :
    (xs ys : List ℕ) → is_complete xs ≡ true → IsPlain ys → complete_part (xs ++ ys) ≡ xs
unfolding complete_part is_complete keep_before
complete_part-append [] ys h k = complete_part-plain ys k
complete_part-append (b ∷ []) ys h k = rw (complete_part-plain ys k) (rw h refl)
complete_part-append (b ∷ c ∷ xs) ys h k =
    ap (keep_before b) (complete_part-append (c ∷ xs) ys h k) ∙ keep_before-cons b c xs

pub drop_last-snoc : (xs : List ℕ) (b : ℕ) → drop_last (xs ++ b ∷ []) ≡ xs
unfolding drop_last
drop_last-snoc [] b = refl
drop_last-snoc (a ∷ []) b = refl
drop_last-snoc (a ∷ c ∷ xs) b = ap (λ ys. a ∷ ys) (drop_last-snoc (c ∷ xs) b)

pub take-plain : (n : ℕ) (xs : List ℕ) → IsPlain xs → IsPlain (take n xs)
take-plain zero xs h = tt
take-plain (suc n) [] h = tt
take-plain (suc n) (b ∷ xs) h = (h.0, take-plain n xs h.1)

-- A cut within a line, before its line feed or after all of it.
pub take_within : (n : ℕ) (xs : List ℕ) (b : ℕ) → n ≤ length xs → take n (xs ++ b ∷ []) ≡ take n xs
take_within zero xs b h = refl
take_within (suc n) [] b h = absurd (omega arith)
take_within (suc n) (a ∷ xs) b h = ap (λ ys. a ∷ ys) (take_within n xs b (omega arith))

pub take_whole : (n : ℕ) (xs : List ℕ) → length xs ≤ n → take n xs ≡ xs
take_whole zero [] h = refl
take_whole zero (a ∷ xs) h = absurd (omega arith)
take_whole (suc n) [] h = refl
take_whole (suc n) (a ∷ xs) h = ap (λ ys. a ∷ ys) (take_whole n xs (omega arith))

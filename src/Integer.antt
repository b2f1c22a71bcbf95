-- ===== src/Integer.antt =====
-- Python's `int` as far as the costs of the segmentation use it: addition, order, and the comparison
-- of tuples.
use video_captioner_z.Base.{
  ℕ, suc, ◌+◌, ◌-◌, ◌≡◌, refl, Bool, true, false, not, ◌&&◌, ◌||◌, List, [], ◌∷◌, leb, ltb,
  if◌then◌else◌, Bool-cases, inl, inr, arith,
}
use video_captioner_z.Json.{ℤ, pos, negsuc}

-- `m - n`
abbrev difference : ℕ → ℕ → ℤ
difference m n = if leb n m then pos (m - n) else negsuc (n - suc m)

infixl 60 ◌+ℤ◌
unfoldable pub ◌+ℤ◌ : ℤ → ℤ → ℤ
pos a +ℤ pos b = pos (a + b)
pos a +ℤ negsuc b = difference a (suc b)
negsuc a +ℤ pos b = difference b (suc a)
negsuc a +ℤ negsuc b = negsuc (suc (a + b))

unfoldable pub ltb_ℤ : ℤ → ℤ → Bool
ltb_ℤ (pos a) (pos b) = ltb a b
ltb_ℤ (pos a) (negsuc b) = false
ltb_ℤ (negsuc a) (pos b) = true
ltb_ℤ (negsuc a) (negsuc b) = ltb b a

pub ltb_asym : (x y : ℤ) → ltb_ℤ x y ≡ true → ltb_ℤ y x ≡ false
unfolding ltb_ℤ
ltb_asym (pos a) (pos b) h = ground arith
ltb_asym (pos a) (negsuc b) h = absurd (cc)
ltb_asym (negsuc a) (pos b) h = refl
ltb_asym (negsuc a) (negsuc b) h = ground arith

-- `z ≤ y` and `y ≤ x` give `z ≤ x`
pub ltb_trans : (x y z : ℤ) → ltb_ℤ x y ≡ false → ltb_ℤ y z ≡ false → ltb_ℤ x z ≡ false
unfolding ltb_ℤ
ltb_trans (pos a) (pos b) (pos c) h k = ground arith
ltb_trans (pos a) (pos b) (negsuc c) h k = refl
ltb_trans (pos a) (negsuc b) (pos c) h k = absurd (cc)
ltb_trans (pos a) (negsuc b) (negsuc c) h k = refl
ltb_trans (negsuc a) (pos b) (pos c) h k = absurd (cc)
ltb_trans (negsuc a) (pos b) (negsuc c) h k = absurd (cc)
ltb_trans (negsuc a) (negsuc b) (pos c) h k = absurd (cc)
ltb_trans (negsuc a) (negsuc b) (negsuc c) h k = ground arith

pub ltb_add : (x y z : ℤ) → ltb_ℤ (x +ℤ z) (y +ℤ z) ≡ ltb_ℤ x y
unfolding ltb_ℤ ◌+ℤ◌
ltb_add (pos a) (pos b) (pos c) = ground arith
ltb_add (pos a) (pos b) (negsuc c) = ground arith
ltb_add (pos a) (negsuc b) (pos c) = ground arith
ltb_add (pos a) (negsuc b) (negsuc c) = ground arith
ltb_add (negsuc a) (pos b) (pos c) = ground arith
ltb_add (negsuc a) (pos b) (negsuc c) = ground arith
ltb_add (negsuc a) (negsuc b) (pos c) = ground arith
ltb_add (negsuc a) (negsuc b) (negsuc c) = ground arith

-- `xs < ys` of tuples of numbers
unfoldable pub less : List ℤ → List ℤ → Bool
less [] [] = false
less [] (y ∷ ys) = true
less (x ∷ xs) [] = false
less (x ∷ xs) (y ∷ ys) = ltb_ℤ x y || (not (ltb_ℤ y x) && less xs ys)

pub less_asym : (xs ys : List ℤ) → less xs ys ≡ true → less ys xs ≡ false
unfolding less
less_asym [] [] h = absurd (cc)
less_asym [] (y ∷ ys) h = refl
less_asym (x ∷ xs) [] h = absurd (cc)
less_asym (x ∷ xs) (y ∷ ys) h = ground (arith, ltb_asym x y, less_asym xs ys)

pub less_trans : (xs ys zs : List ℤ) → less xs ys ≡ false → less ys zs ≡ false → less xs zs ≡ false
unfolding less
less_trans [] [] zs h k = k
less_trans [] (y ∷ ys) zs h k = absurd (cc)
less_trans (x ∷ xs) [] [] h k = refl
less_trans (x ∷ xs) [] (z ∷ zs) h k = absurd (cc)
less_trans (x ∷ xs) (y ∷ ys) [] h k = refl
less_trans (x ∷ xs) (y ∷ ys) (z ∷ zs) h k = ground (
  arith,
  ltb_asym x y,
  ltb_asym y x,
  ltb_asym y z,
  ltb_asym z y,
  ltb_asym x z,
  ltb_asym z x,
  ltb_trans x y z,
  ltb_trans z y x,
  ltb_trans y z x,
  ltb_trans y x z,
  ltb_trans z x y,
  ltb_trans x z y,
  less_trans xs ys zs,
)

-- `tuple(a + b for a, b in zip(xs, ys))`
unfoldable pub add_all : List ℤ → List ℤ → List ℤ
add_all [] ys = []
add_all (x ∷ xs) [] = []
add_all (x ∷ xs) (y ∷ ys) = (x +ℤ y) ∷ add_all xs ys

-- Adding the same tuple keeps the order.
pub less-add_all :
    (xs ys zs : List ℤ) → less xs ys ≡ false → less (add_all xs zs) (add_all ys zs) ≡ false
unfolding less add_all
less-add_all [] [] zs h = refl
less-add_all [] (y ∷ ys) zs h = absurd (cc)
less-add_all (x ∷ xs) [] [] h = refl
less-add_all (x ∷ xs) [] (z ∷ zs) h = refl
less-add_all (x ∷ xs) (y ∷ ys) [] h = refl
less-add_all (x ∷ xs) (y ∷ ys) (z ∷ zs) h =
    ground (arith, ltb_add x y z, ltb_add y x z, less-add_all xs ys zs)

pub less_irrefl : (xs : List ℤ) → less xs xs ≡ false
less_irrefl xs = elim (Bool-cases (less xs xs)) [ inl h ↦ less_asym xs xs h | inr h ↦ h ]

-- ===== src/Segmentation/Better.antt =====
-- core/policies/segmentation.py: the better of two paths.
use video_captioner_z.Base.{◌≡◌, refl, false, inl, inr, Option, none, some, List, Bool-cases, arith}
use video_captioner_z.Json.{ℤ}
use video_captioner_z.Integer.{less, less_asym, less_irrefl}
use video_captioner_z.Segmentation.Solver.{CuePath, is_better, better_of}

pub some-injective : {A : Type 0} (d a b : A) → some a ≡ some b → a ≡ b
some-injective d a b h = cc

-- the first tuple is not greater than the second
abbrev pub IsAtMost : List ℤ → List ℤ → Type 0
IsAtMost a b = less b a ≡ false

pub better_of_cheap : (p : CuePath) (o : Option CuePath) → IsAtMost (better_of p o).cost p.cost
unfolding better_of is_better
better_of_cheap p none = less_irrefl p.cost
better_of_cheap p (some q) = elim (Bool-cases (is_better p q)) [
  | inl b ↦ rw b (less_irrefl p.cost)
  | inr b ↦ rw b (ground arith)
]

pub better_of_cheaper : (p q : CuePath) → IsAtMost (better_of p (some q)).cost q.cost
unfolding better_of is_better
better_of_cheaper p q = elim (Bool-cases (is_better p q)) [
  | inl b ↦ rw b (ground (arith, less_asym p.cost q.cost))
  | inr b ↦ rw b (less_irrefl q.cost)
]

-- what a property of both paths gives of the better one
pub better_of_either :
    (P : CuePath → Type 0) (p : CuePath) (o : Option CuePath)
    → P p
    → ((q : CuePath) → o ≡ some q → P q)
    → P (better_of p o)
unfolding better_of
better_of_either P p none h k = h
better_of_either P p (some q) h k = elim (Bool-cases (is_better p q)) [
  | inl b ↦ rw b h
  | inr b ↦ rw b (k q refl)
]

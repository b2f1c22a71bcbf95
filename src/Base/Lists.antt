-- ===== src/Base/Lists.antt =====
-- Lists measured by native numbers, under the library's names, and predicates on lists.
use Prim.Native.Nat.{ℕ, zero, suc, ◌+◌, ◌-◌, ◌≤◌, min}
use native.Mathlib.Nat.{add-zero, suc-add}
use mathlib.Core.Path.{◌≡◌, refl, ap}
use mathlib.Core.Bool.{Bool, true, false, ◌&&◌, ◌||◌}
use mathlib.Core.List.{List, [], ◌∷◌, ◌++◌, map}
use mathlib.Core.Option.{Option, none, some}
use mathlib.Core.Logic.{inl, inr}
use native.Mathlib.Omega.{arith}
use video_captioner_z.Base.Tests.{Bool-cases}

module _ {ℓ} {A : Type ℓ} where
  abbrev pub length : List A → ℕ
  length [] = 0
  length (x ∷ xs) = suc (length xs)

  abbrev pub get_elem? : List A → ℕ → Option A
  get_elem? [] i = none
  get_elem? (x ∷ xs) zero = some x
  get_elem? (x ∷ xs) (suc i) = get_elem? xs i

  abbrev pub take : ℕ → List A → List A
  take zero xs = []
  take (suc n) [] = []
  take (suc n) (x ∷ xs) = x ∷ take n xs

  abbrev pub drop : ℕ → List A → List A
  drop zero xs = xs
  drop (suc n) [] = []
  drop (suc n) (x ∷ xs) = drop n xs

  -- Python's `any` and `all` over a sequence.
  abbrev pub any : (A → Bool) → List A → Bool
  any p [] = false
  any p (x ∷ xs) = p x || any p xs

  abbrev pub all : (A → Bool) → List A → Bool
  all p [] = true
  all p (x ∷ xs) = p x && all p xs

  pub length-append : (xs ys : List A) → length (xs ++ ys) ≡ length xs + length ys
  length-append [] ys = omega arith
  length-append (x ∷ xs) ys = omega (arith, length-append xs ys)

  pub take-append-drop : (n : ℕ) (xs : List A) → take n xs ++ drop n xs ≡ xs
  take-append-drop zero xs = refl
  take-append-drop (suc n) [] = refl
  take-append-drop (suc n) (x ∷ xs) = ap (λ r. x ∷ r) (take-append-drop n xs)

  pub length-take : (n : ℕ) (xs : List A) → length (take n xs) ≡ min n (length xs)
  length-take zero xs = omega arith
  length-take (suc n) [] = omega arith
  length-take (suc n) (x ∷ xs) = omega (arith, length-take n xs)

  pub length-drop : (n : ℕ) (xs : List A) → length (drop n xs) ≡ length xs - n
  length-drop zero xs = omega arith
  length-drop (suc n) [] = omega arith
  length-drop (suc n) (x ∷ xs) = omega (arith, length-drop n xs)

  pub drop-drop : (m n : ℕ) (xs : List A) → drop m (drop n xs) ≡ drop (n + m) xs
  drop-drop m zero xs = ap (λ k. drop k xs) (omega arith)
  drop-drop zero (suc n) [] = rw add-zero
  drop-drop (suc m) (suc n) [] = rw suc-add
  drop-drop m (suc n) (x ∷ xs) = rw suc-add (drop-drop m n xs)

  pub drop_all : (n : ℕ) (xs : List A) → length xs ≤ n → drop n xs ≡ []
  drop_all zero [] h = refl
  drop_all zero (x ∷ xs) h = absurd (omega arith)
  drop_all (suc n) [] h = refl
  drop_all (suc n) (x ∷ xs) h = drop_all n xs (omega arith)

pub length-map {ℓ κ} :
    {A : Type ℓ} {B : Type κ} (f : A → B) (xs : List A) → length (map f xs) ≡ length xs
length-map f [] = refl
length-map f (x ∷ xs) = ap suc (length-map f xs)

-- A predicate by recursion computes to tuples, which the tactics read and build.
abbrev pub All {ℓ κ} : {A : Type ℓ} → (A → Type κ) → List A → Type κ
All P [] = Unit
All P (x ∷ xs) = P x × All P xs

module _ {ℓ κ} {A : Type ℓ} (P : A → Type κ) where
  pub All-append : (xs ys : List A) → All P xs → All P ys → All P (xs ++ ys)
  All-append [] ys h k = k
  All-append (x ∷ xs) ys h k = (h.0, All-append xs ys h.1 k)

  pub All-map {μ} : {B : Type μ} (f : B → A) (xs : List B) → ((x : B) → P (f x)) → All P (map f xs)
  All-map f [] h = tt
  All-map f (x ∷ xs) h = (h x, All-map f xs h)

  pub All-weaken {μ} : (Q : A → Type μ) (xs : List A) → ((x : A) → P x → Q x) → All P xs → All Q xs
  All-weaken Q [] f h = tt
  All-weaken Q (x ∷ xs) f h = (f x h.0, All-weaken Q xs f h.1)

  -- `P x` for every `x` of which the test says yes.
  pub All-of_all :
      (p : A → Bool) (xs : List A) → ((x : A) → p x ≡ true → P x) → all p xs ≡ true → All P xs
  All-of_all p [] f h = tt
  All-of_all p (x ∷ xs) f h = elim (Bool-cases (p x)) [
    | inl e ↦ (f x e, All-of_all p xs f (rw e at h))
    | inr e ↦ absurd (cc (rw e at h))
  ]

  -- `P x` for every `x`, where the test says no of each.
  pub All-of_none :
      (p : A → Bool) (xs : List A) → ((x : A) → p x ≡ false → P x) → any p xs ≡ false → All P xs
  All-of_none p [] f h = tt
  All-of_none p (x ∷ xs) f h = elim (Bool-cases (p x)) [
    | inl e ↦ absurd (cc (rw e at h))
    | inr e ↦ (f x e, All-of_none p xs f (rw e at h))
  ]

-- The predicate holds of an element.
pub data Any {ℓ κ} {A : Type ℓ} (P : A → Type κ) : List A → Type (ℓ ⊔ κ) where
  at_head : {x : A} {xs : List A} → P x → Any P (x ∷ xs)
  in_tail : {x : A} {xs : List A} → Any P xs → Any P (x ∷ xs)

module _ {ℓ κ} {A : Type ℓ} (P : A → Type κ) where
  pub Any-of_any :
      (p : A → Bool) (xs : List A) → ((x : A) → p x ≡ true → P x) → any p xs ≡ true → Any P xs
  Any-of_any p [] f h = absurd (cc)
  Any-of_any p (x ∷ xs) f h = elim (Bool-cases (p x)) [
    | inl e ↦ at_head (f x e)
    | inr e ↦ in_tail (Any-of_any p xs f (rw e at h))
  ]

  pub any-of_Any :
      (p : A → Bool) (xs : List A) → ((x : A) → P x → p x ≡ true) → Any P xs → any p xs ≡ true
  any-of_Any p [] f t = elim t [ ]
  any-of_Any p (x ∷ xs) f (at_head h) = rw (f x h)
  any-of_Any p (x ∷ xs) f (in_tail t) = elim (Bool-cases (p x)) [
    | inl e ↦ rw e
    | inr e ↦ rw e (any-of_Any p xs f t)
  ]

-- The lists have one length, and the relation holds at each position.
pub data Pairs {ℓ κ μ} {A : Type ℓ} {B : Type κ} (R : A → B → Type μ)
    : List A → List B → Type (ℓ ⊔ κ ⊔ μ) where
  done : Pairs R [] []
  next :
      {x : A} {y : B} {xs : List A} {ys : List B}
      → R x y
      → Pairs R xs ys
      → Pairs R (x ∷ xs) (y ∷ ys)

module _ {ℓ μ} {A : Type ℓ} (R : A → A → Type μ) where
  pub Pairs-refl : ((x : A) → R x x) → (xs : List A) → Pairs R xs xs
  Pairs-refl r [] = done
  Pairs-refl r (x ∷ xs) = next (r x) (Pairs-refl r xs)

module _ {ℓ κ μ ν} {A : Type ℓ} {B : Type κ} (R : A → B → Type μ) where
  pub Pairs-weaken :
      (S : A → B → Type ν) {xs : List A} {ys : List B}
      → ((x : A) (y : B) → R x y → S x y)
      → Pairs R xs ys
      → Pairs S xs ys
  Pairs-weaken S f done = done
  Pairs-weaken S f (next {x = x} {y = y} h t) = next (f x y h) (Pairs-weaken S f t)

  -- What holds of the first list is carried to the second.
  pub All-Pairs :
      (P : A → Type ν) (Q : B → Type ν) {xs : List A} {ys : List B}
      → ((x : A) (y : B) → R x y → P x → Q y)
      → Pairs R xs ys
      → All P xs
      → All Q ys
  All-Pairs P Q f done h = tt
  All-Pairs P Q f (next {x = x} {y = y} r t) h = (f x y r h.0, All-Pairs P Q f t h.1)

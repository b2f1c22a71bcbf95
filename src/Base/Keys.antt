-- ===== src/Base/Keys.antt =====
-- Membership and distinctness of texts, as Python's `in` and `len(set(xs)) == len(xs)`.
use Prim.Native.String.{String}
use mathlib.Core.Bool.{Bool, true, false, ◌&&◌, ◌||◌, not}
use mathlib.Core.Path.{◌≡◌, refl}
use mathlib.Core.List.{List, [], ◌∷◌, ◌++◌}
use native.Mathlib.Omega.{arith}
use text.Mathlib.TextEquality.{eq_iff}
use text.Mathlib.Text.{◌==◌}
use video_captioner_z.Base.Lists.{all}

abbrev pub contains : List String → String → Bool
contains [] k = false
contains (x ∷ xs) k = x == k || contains xs k

-- `len(set(xs)) == len(xs)`
abbrev pub distinct : List String → Bool
distinct [] = true
distinct (x ∷ xs) = not (contains xs x) && distinct xs

-- `set(xs) == set(ys)`
abbrev pub same_set : List String → List String → Bool
same_set xs ys = all (contains ys) xs && all (contains xs) ys

pub contains-snoc :
    (ids : List String) (k x : String) → contains (ids ++ k ∷ []) x ≡ (contains ids x || (k == x))
contains-snoc [] k x = ground arith
contains-snoc (y ∷ ys) k x = ground (arith, contains-snoc ys k x)

pub distinct-snoc :
    (ids : List String) (k : String)
    → distinct ids ≡ true
    → contains ids k ≡ false
    → distinct (ids ++ k ∷ []) ≡ true
distinct-snoc [] k d c = refl
distinct-snoc (x ∷ xs) k d c =
    ground (arith, contains-snoc xs k x, eq_iff x k, eq_iff k x, distinct-snoc xs k)

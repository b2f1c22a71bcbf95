-- ===== src/Base/Outcome.antt =====
-- core/domain/errors.py: `AppError`, and the results of code that may raise it.
use mathlib.Core.Path.{◌≡◌, refl, subst}
use mathlib.Core.Bool.{Bool, true, false}
use Prim.Native.String.{String}

-- The machine code of the error, and its `reason` or `field` parameter.
pub record AppError : Type 0 where
  pub code : String
  pub reason : String

abbrev pub app_error : String → String → AppError
app_error c r = record { code = c; reason = r }

pub data Result {ℓ} (A : Type ℓ) : Type ℓ where
  ok : A → Result A
  err : AppError → Result A

-- An error ends the block: what follows is not run.
infixl 5 ◌>>=◌ ◌>>◌
unfoldable pub ◌>>=◌ {μ ν} :
    {Val : Type μ} {Next : Type ν} → Result Val → (Val → Result Next) → Result Next
err raised >>= rest = err raised
ok value >>= rest = rest value

abbrev pub ◌>>◌ {ν} : {Next : Type ν} → Result (Unit {0}) → Result Next → Result Next
check >> rest = check >>= λ _. rest

-- `if b: raise e`
unfoldable pub raise_if : Bool → AppError → Result (Unit {0})
raise_if true e = err e
raise_if false e = ok tt

-- What holds of the value, if the code returns one.
pub record Ensures {ℓ κ} {A : Type ℓ} (P : A → Type κ) (r : Result A) : Type (ℓ ⊔ κ) where
  pub at : (a : A) → r ≡ ok a → P a

pub ok-injective {ℓ} : {A : Type ℓ} (d a b : A) → ok a ≡ ok b → a ≡ b
ok-injective d a b h = cc

module _ {ℓ κ} {A : Type ℓ} {P : A → Type κ} where
  pub Ensures-ok : (a : A) → P a → Ensures P (ok a)
  Ensures-ok a h = record { at = λ b e. subst P (ok-injective a a b e) h }

  pub Ensures-err : (e : AppError) → Ensures P (err e)
  Ensures-err e = record { at = λ b h. absurd (cc) }

  pub Ensures-weaken {μ} :
      (Q : A → Type μ) (r : Result A) → ((a : A) → P a → Q a) → Ensures P r → Ensures Q r
  Ensures-weaken Q r f h = record { at = λ a e. f a (h.at a e) }

  pub Ensures-raise_if :
      (b : Bool) (e : AppError) (f : Unit {0} → Result A)
      → (b ≡ false → Ensures P (f tt))
      → Ensures P (raise_if b e >>= f)
  unfolding ◌>>=◌ raise_if
  Ensures-raise_if true e f h = Ensures-err e
  Ensures-raise_if false e f h = h refl

module _ {ℓ κ} {A B : Type ℓ} {P : B → Type κ} where
  -- The rest of the block may use that `m` returned `a`.
  pub Ensures-bind :
      (m : Result A) (f : A → Result B)
      → ((a : A) → m ≡ ok a → Ensures P (f a))
      → Ensures P (m >>= f)
  unfolding ◌>>=◌
  Ensures-bind (err raised) f h = Ensures-err raised
  Ensures-bind (ok value) f h = h value refl

pub ruleset ensures_rules = (Ensures-ok, Ensures-err, Ensures-raise_if, Ensures-bind)

-- A block that returned got past its first line.
pub bind_returned {μ ν} :
    {Val : Type μ} {Next : Type ν} (first : Result Val) (rest : Val → Result Next) {out : Next}
    → (first >>= rest) ≡ ok out
    → (value : Val) × (first ≡ ok value) × (rest value ≡ ok out)
unfolding ◌>>=◌
bind_returned (err raised) rest returned = absurd (cc)
bind_returned (ok value) rest returned = (value, refl, returned)

pub check_returned : (b : Bool) (e : AppError) → raise_if b e ≡ ok tt → b ≡ false
unfolding raise_if
check_returned true e h = absurd (cc)
check_returned false e h = refl

-- ===== src/SegmentationPolicy/Mapping.antt =====
-- core/policies/segmentation_config.py: what is read back of a printed policy, and which policies
-- are read at all.
use video_captioner_z.Base.{
  ℕ, ◌≤◌, ◌≡◌, refl, sym, ap, subst, ◌∙◌, String, zero, suc, Bool, true, false, not, ◌==◌, arith,
  Result, ok, err, app_error, ◌>>=◌, raise_if, if◌then◌else◌, Ensures, Ensures-ok, Ensures-raise_if,
  ensures_rules, same_set,
}
use video_captioner_z.Json.{pos, negsuc, Value, int, Fields, get, keys}
use video_captioner_z.SegmentationPolicy.{
  SegmentationPolicyConfig, exceeds, is_not_one, is_bad_policy, policy_config, mapping_int,
  natural_of, positive_int, nonnegative_int, read_policy, config_invalid, legacy_policy,
  legacy_fields, policy_fields, read_legacy, from_mapping, to_mapping,
}

-- A policy that passes its checks is read back from its mapping, field by field.
pub from_mapping-to_mapping :
    (c : SegmentationPolicyConfig) → is_bad_policy c ≡ false → from_mapping (to_mapping c) ≡ ok c
unfolding from_mapping to_mapping get keys mapping_int policy_config read_policy config_invalid
    ◌>>=◌ raise_if
from_mapping-to_mapping c h =
    ap (λ b. config_invalid (raise_if b (app_error "ValueError" "") >>= λ _. ok c)) h

-- The policy of three legacy values passes the checks.
legacy_policy-good :
    (max_duration max_text_units hard_gap : ℕ)
    → 1 ≤ max_duration
    → 1 ≤ max_text_units
    → is_bad_policy (legacy_policy max_duration max_text_units hard_gap) ≡ false
unfolding is_bad_policy exceeds is_not_one
legacy_policy-good m u g h k = ground arith

-- A policy within its bounds, or the error that the callers expect.
pub data Read (r : Result SegmentationPolicyConfig) : Type 0 where
  policy : (c : SegmentationPolicyConfig) → is_bad_policy c ≡ false → r ≡ ok c → Read r
  refused : r ≡ err (app_error "job.config_invalid" "segmentation") → Read r

data ReadNatural (r : Result ℕ) : Type 0 where
  natural : (n : ℕ) → r ≡ ok n → ReadNatural r
  no_natural : r ≡ err (app_error "job.config_invalid" "segmentation") → ReadNatural r

natural_of-cases : (v : Value) → ReadNatural (natural_of v)
unfolding natural_of
natural_of-cases (int (pos n)) = natural n refl
natural_of-cases (int (negsuc n)) = no_natural refl
natural_of-cases Value.other = no_natural refl
natural_of-cases (Value.object m) = no_natural refl
natural_of-cases (Value.array xs) = no_natural refl
natural_of-cases (Value.str t) = no_natural refl
natural_of-cases (Value.float x) = no_natural refl
natural_of-cases (Value.bool b) = no_natural refl
natural_of-cases Value.null = no_natural refl

data ReadPositive (r : Result ℕ) : Type 0 where
  positive : (n : ℕ) → 1 ≤ n → r ≡ ok n → ReadPositive r
  no_positive : r ≡ err (app_error "job.config_invalid" "segmentation") → ReadPositive r

abbrev refusal {ℓ} : {A : Type ℓ} → Result A
refusal = err (app_error "job.config_invalid" "segmentation")

abbrev checked_positive : Result ℕ → Result ℕ
checked_positive r =
    r >>= λ n. raise_if (n == 0) (app_error "job.config_invalid" "segmentation") >>= λ _. ok n

positive_check : (n : ℕ) → ReadPositive (checked_positive (ok n))
unfolding ◌>>=◌ raise_if
positive_check zero = no_positive refl
positive_check (suc n) =
    let some_left : (suc n == 0) ≡ false = ground arith in
    positive (suc n) (omega arith) (
      ap (λ b. raise_if b (app_error "job.config_invalid" "segmentation") >>= λ _. ok (suc n))
        some_left)

positive_int-cases : (m : Fields) (k : String) → ReadPositive (positive_int m k)
unfolding positive_int ◌>>=◌
positive_int-cases m k = elim (natural_of-cases (get m k)) [
  | natural n e ↦ subst ReadPositive (sym (ap checked_positive e)) (positive_check n)
  | no_natural e ↦ no_positive (ap checked_positive e)
]

nonnegative_int-cases : (m : Fields) (k : String) → ReadNatural (nonnegative_int m k)
unfolding nonnegative_int
nonnegative_int-cases m k = natural_of-cases (get m k)

read_legacy-Read : (m : Fields) → Read (read_legacy m)
unfolding read_legacy policy_config ◌>>=◌ raise_if
read_legacy-Read m =
    from_three (positive_int m "max_duration_ms") (positive_int m "max_text_units")
      (nonnegative_int m "hard_gap_ms") (positive_int-cases m "max_duration_ms")
      (positive_int-cases m "max_text_units") (nonnegative_int-cases m "hard_gap_ms")
  where
    made : Result ℕ → Result ℕ → Result ℕ → Result SegmentationPolicyConfig
    made a b c = a >>= λ x. b >>= λ y. c >>= λ z. policy_config (legacy_policy x y z)

    from_three :
        (a b c : Result ℕ) → ReadPositive a → ReadPositive b → ReadNatural c → Read (made a b c)
    from_three a b c (no_positive e) q r = refused (ap (λ t. made t b c) e)
    from_three a b c (positive x h e) (no_positive f) r =
        refused (ap (λ t. made t b c) e ∙ ap (λ t. made (ok x) t c) f)
    from_three a b c (positive x h e) (positive y k f) (no_natural g) =
        refused (ap (λ t. made t b c) e ∙ ap (λ t. made (ok x) t c) f ∙ ap (made (ok x) (ok y)) g)
    from_three a b c (positive x h e) (positive y k f) (natural z g) =
        let good = legacy_policy-good x y z h k in
        policy (legacy_policy x y z) good (
          ap (λ t. made t b c) e
          ∙ ap (λ t. made (ok x) t c) f
          ∙ ap (made (ok x) (ok y)) g
          ∙ ap (λ b. raise_if b (app_error "ValueError" "") >>= λ _. ok (legacy_policy x y z)) good)

policy_config-good :
    (c : SegmentationPolicyConfig) → Ensures (λ d. is_bad_policy d ≡ false) (policy_config c)
unfolding policy_config
policy_config-good c = Ensures-raise_if (is_bad_policy c) _ _ (λ good. Ensures-ok c good)

read_policy-good : (m : Fields) → Ensures (λ d. is_bad_policy d ≡ false) (read_policy m)
unfolding read_policy
read_policy-good m = search (ensures_rules, policy_config-good) depth 40

config_invalid-Read :
    (r : Result SegmentationPolicyConfig)
    → Ensures (λ d. is_bad_policy d ≡ false) r
    → Read (config_invalid r)
unfolding config_invalid
config_invalid-Read (ok c) h = policy c (h.at c refl) refl
config_invalid-Read (err e) h = refused refl

-- Whatever the mapping holds, reading it returns a policy within all its bounds, or fails with the
-- error `job.config_invalid`: no `TypeError` or `ValueError` gets out, not even of the legacy
-- fields, whose policy is made outside the `try`.
pub from_mapping-Read : (m : Fields) → Read (from_mapping m)
unfolding from_mapping ◌>>=◌ raise_if
from_mapping-Read m = chosen (same_set (keys m) legacy_fields) (same_set (keys m) policy_fields)
  where
    chosen :
        (legacy current : Bool)
        → Read (
            if legacy
            then read_legacy m
            else (raise_if (not current) (app_error "job.config_invalid" "segmentation") >>= λ _.
                config_invalid (read_policy m)))
    chosen true current = read_legacy-Read m
    chosen false true = config_invalid-Read (read_policy m) (read_policy-good m)
    chosen false false = refused refl

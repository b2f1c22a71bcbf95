-- ===== src/Json.antt =====
-- core/domain/result.py: JSON values, and the validating copy of them.
-- Arrays stand for Python's lists and tuples alike, and an object for a mapping with text keys:
-- so `thaw_json_value`, which copies tuples to lists and mapping proxies to dicts, is the identity.

use video_captioner_z.Base.{
  ℕ, ◌/◌, ◌%◌, ◌^◌, String, Bool, not, List, [], ◌∷◌, ◌==◌, str_eq, if◌then◌else◌, Result, ok, err,
  app_error, ◌>>=◌,
}

-- `negsuc n` is -(n + 1).
pub data ℤ : Type 0 where
  pos : ℕ → ℤ
  negsuc : ℕ → ℤ

mutual
  -- The pairs of a mapping, in its order.
  pub data Fields : Type 0 where
    field : (key : String) (value : Value) (others : Fields) → Fields
    end : Fields

  -- A float is given by its 64 bits; `other` is any object that is no JSON value.
  pub data Value : Type 0 where
    other : Value
    object : (members : Fields) → Value
    array : (elements : Items) → Value
    str : (text : String) → Value
    int : (number : ℤ) → Value
    float : (bits : ℕ) → Value
    bool : (truth : Bool) → Value
    null : Value

  pub data Items : Type 0 where
    cons : (element : Value) (others : Items) → Items
    nil : Items

-- `math.isfinite`: the exponent's eleven bits are not all set.
unfoldable pub is_finite : ℕ → Bool
is_finite bits = not ((bits / 2 ^ 52) % 2048 == 2047)

unfoldable mutual
  unfolding is_finite

  pub freeze_json_value : Value → Result Value
  freeze_json_value null = ok null
  freeze_json_value (bool b) = ok (bool b)
  freeze_json_value (int n) = ok (int n)
  freeze_json_value (str s) = ok (str s)
  freeze_json_value (float x) =
      if is_finite x then ok (float x) else err (app_error "ValueError" "")
  freeze_json_value (object m) = do frozen ← freeze_fields m; ok (object frozen)
  freeze_json_value (array xs) = do frozen ← freeze_items xs; ok (array frozen)
  freeze_json_value other = err (app_error "TypeError" "")

  pub freeze_items : Items → Result Items
  freeze_items nil = ok nil
  freeze_items (cons x xs) = do y ← freeze_json_value x; ys ← freeze_items xs; ok (cons y ys)

  pub freeze_fields : Fields → Result Fields
  freeze_fields end = ok end
  freeze_fields (field k v m) = do
    w ← freeze_json_value v
    rest ← freeze_fields m
    ok (field k w rest)

-- `raw.get(key)`, with `None` for a missing key, as in Python
unfoldable pub get : Fields → String → Value
get end k = null
get (field j v m) k = if str_eq j k then v else get m k

-- the keys of a mapping
unfoldable pub keys : Fields → List String
keys end = []
keys (field k v m) = k ∷ keys m

unfoldable pub items_list : Items → List Value
items_list nil = []
items_list (cons x xs) = x ∷ items_list xs

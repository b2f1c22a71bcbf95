-- ===== src/Artifact.antt =====
-- core/domain/artifact.py: content-addressed artifact references and their decoding.
use video_captioner_z.Base.{
  ℕ, String, Bool, not, ◌||◌, List, [], ◌∷◌, ◌==◌, same_set, any, Result, ok, err, app_error, ◌>>=◌,
  ◌>>◌, raise_if,
}
use video_captioner_z.Text.{codes, is_blank, is_alnum, is_word, is_sha256_hex}
use video_captioner_z.Json.{
  ℤ, pos, negsuc, Value, int, str, object, Items, nil, cons, field, end, get, keys,
}

pub record ArtifactRef : Type 0 where
  pub sha256 : String
  pub size_bytes : ℕ
  pub kind : String
  pub media_type : String
  pub logical_name : String

-- `[A-Za-z0-9][A-Za-z0-9._-]*`
unfoldable pub is_safe_name : String → Bool
unfolding is_word is_alnum
is_safe_name s = is_word (λ c. is_alnum c || (c == b'.') || (c == b'_') || (c == b'-')) (codes s)

-- the checks of `ArtifactRef.__post_init__`; a negative size is caught where the size is read
unfoldable pub artifact_ref : String → ℤ → String → String → String → Result ArtifactRef
unfolding is_sha256_hex is_blank is_safe_name
artifact_ref sha256 (negsuc n) kind media_type logical_name = do
  raise_if (not (is_sha256_hex sha256)) (app_error "artifact.invalid" "sha256")
  err (app_error "artifact.invalid" "size_bytes")
artifact_ref sha256 (pos n) kind media_type logical_name = do
  raise_if (not (is_sha256_hex sha256)) (app_error "artifact.invalid" "sha256")
  raise_if (is_blank kind) (app_error "artifact.invalid" "kind")
  raise_if (is_blank media_type || not (any (λ c. c == b'/') (codes media_type)))
      (app_error "artifact.invalid" "media_type")
  raise_if (not (is_safe_name logical_name)) (app_error "artifact.invalid" "logical_name")
  ok (record {
    sha256 = sha256;
    size_bytes = n;
    kind = kind;
    media_type = media_type;
    logical_name = logical_name;
  })

abbrev artifact_fields : List String
artifact_fields = "sha256" ∷ "size_bytes" ∷ "kind" ∷ "media_type" ∷ "logical_name" ∷ []

-- the type tests on the five values, then `cls(...)`
artifact_from_values : Value → Value → Value → Value → Value → Result ArtifactRef
unfolding artifact_ref
artifact_from_values (str s) (int n) (str k) (str m) (str l) = artifact_ref s n k m l
artifact_from_values _ _ _ _ _ = err (app_error "artifact.invalid" "types")

-- `ArtifactRef.from_dict`
unfoldable pub artifact_from_dict : Value → Result ArtifactRef
unfolding artifact_from_values get keys
artifact_from_dict (object raw) = do
  raise_if (not (same_set (keys raw) artifact_fields)) (app_error "artifact.invalid" "object")
  artifact_from_values (get raw "sha256") (get raw "size_bytes") (get raw "kind")
      (get raw "media_type") (get raw "logical_name")
artifact_from_dict _ = err (app_error "artifact.invalid" "object")

unfoldable pub artifacts_from : List Value → Result (List ArtifactRef)
unfolding artifact_from_dict
artifacts_from [] = ok []
artifacts_from (v ∷ vs) = do a ← artifact_from_dict v; rest ← artifacts_from vs; ok (a ∷ rest)

-- `ArtifactRef.to_dict`
unfoldable pub artifact_value : ArtifactRef → Value
artifact_value a = object (
    field "sha256" (str a.sha256) (
      field "size_bytes" (int (pos a.size_bytes)) (
        field "kind" (str a.kind)
          (field "media_type" (str a.media_type) (field "logical_name" (str a.logical_name) end)))))

unfoldable pub artifact_items : List ArtifactRef → Items
unfolding artifact_value
artifact_items [] = nil
artifact_items (a ∷ refs) = cons (artifact_value a) (artifact_items refs)

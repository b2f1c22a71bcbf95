-- ===== src/Unicode.antt =====
-- core/policies/unicode_metrics.py: the canonical form of a rendered text, on code points.
-- `unicodedata` is a parameter: its NFC form and its category of controls.
use video_captioner_z.Base.{
  ℕ, String, Bool, true, false, ◌&&◌, ◌||◌, List, [], ◌∷◌, map, any, ◌==◌, if◌then◌else◌, Result,
  ok, app_error, ◌>>=◌, ◌>>◌, raise_if,
}
use video_captioner_z.Text.{codes, is_space}

pub record UnicodeData : Type 0 where
  pub nfc : List ℕ → List ℕ
  pub is_control : ℕ → Bool

-- `.replace("\r", " ").replace("\n", " ").replace("\t", " ")`
unfoldable pub blank_breaks : List ℕ → List ℕ
blank_breaks = map (λ c. if (c == 13) || (c == 10) || (c == 9) then b' ' else c)

-- `regex.sub(r"\s+", " ", value)`; the flag says that a run of spaces is being read
unfoldable pub collapse : Bool → List ℕ → List ℕ
unfolding is_space
collapse seen [] = []
collapse true (c ∷ cs) = if is_space c then collapse true cs else c ∷ collapse false cs
collapse false (c ∷ cs) = if is_space c then b' ' ∷ collapse true cs else c ∷ collapse false cs

-- `value.lstrip()` and `value.rstrip()`
unfoldable pub strip_start : List ℕ → List ℕ
unfolding is_space
strip_start [] = []
strip_start (c ∷ cs) = if is_space c then strip_start cs else c ∷ cs

unfoldable pub strip_end : List ℕ → List ℕ
unfolding is_space
strip_end [] = []
strip_end (c ∷ cs) = drop_blank c (strip_end cs)
  where
    drop_blank : ℕ → List ℕ → List ℕ
    drop_blank c [] = if is_space c then [] else c ∷ []
    drop_blank c (d ∷ ds) = c ∷ d ∷ ds

module _ (unicode : UnicodeData) where
  -- `normalize_text`
  unfoldable pub normalize_text : List ℕ → Result (List ℕ)
  unfolding blank_breaks collapse strip_start strip_end
  normalize_text text = do
    let value = blank_breaks (unicode.nfc text)
    raise_if (any unicode.is_control value) (app_error "subtitle.control_character" "control")
    ok (strip_end (strip_start (collapse false value)))

  same_codes : List ℕ → List ℕ → Bool
  same_codes [] [] = true
  same_codes [] (y ∷ ys) = false
  same_codes (x ∷ xs) [] = false
  same_codes (x ∷ xs) (y ∷ ys) = (x == y) && same_codes xs ys

  -- `normalize_text(text) == text`
  unfoldable pub is_canonical : String → Result Bool
  unfolding normalize_text same_codes
  is_canonical text = do value ← normalize_text (codes text); ok (same_codes value (codes text))

-- ===== src/Text.antt =====
-- What the program uses of Python's `str` and of its regular expressions: a text is walked as the
-- list of its code points.
use Prim.Native.Char.{code}
use video_captioner_z.Base.{
  ℕ, String, Bool, true, false, not, ◌&&◌, ◌||◌, List, [], ◌∷◌, leb, ◌==◌, all, any, length,
}

abbrev pub codes : String → List ℕ
codes String.[] = []
codes (String.◌∷◌ c s) = code c ∷ codes s

-- `str.isspace` of one character
unfoldable pub is_space : ℕ → Bool
is_space c =
    (leb 9 c && leb c 13)
    || (leb 28 c && leb c 32)
    || (c == 0x85)
    || (c == 0xa0)
    || (c == 0x1680)
    || (leb 0x2000 c && leb c 0x200a)
    || (leb 0x2028 c && leb c 0x2029)
    || (c == 0x202f)
    || (c == 0x205f)
    || (c == 0x3000)

-- `not s.strip()`
unfoldable pub is_blank : String → Bool
unfolding is_space
is_blank s = all is_space (codes s)

starts_with_space : List ℕ → Bool
starts_with_space [] = false
starts_with_space (c ∷ cs) = is_space c

ends_with_space : List ℕ → Bool
ends_with_space [] = false
ends_with_space (c ∷ []) = is_space c
ends_with_space (c ∷ d ∷ cs) = ends_with_space (d ∷ cs)

-- `s == s.strip()`
unfoldable pub is_trimmed : String → Bool
unfolding starts_with_space ends_with_space is_space
is_trimmed s = not (starts_with_space (codes s)) && not (ends_with_space (codes s))

-- `s.startswith(p)` on code points
unfoldable pub starts_with : List ℕ → List ℕ → Bool
starts_with s [] = true
starts_with [] (p ∷ ps) = false
starts_with (c ∷ s) (p ∷ ps) = (c == p) && starts_with s ps

-- `p in s`
unfoldable pub is_within : List ℕ → List ℕ → Bool
unfolding starts_with
is_within p [] = starts_with [] p
is_within p (c ∷ s) = starts_with (c ∷ s) p || is_within p s

unfoldable pub is_alnum : ℕ → Bool
is_alnum c = (leb b'A' c && leb c b'Z') || (leb b'a' c && leb c b'z') || (leb b'0' c && leb c b'9')

unfoldable pub is_lower_hex : ℕ → Bool
is_lower_hex c = (leb b'0' c && leb c b'9') || (leb b'a' c && leb c b'f')

-- `[A-Za-z0-9]X*`, for the class `X` that `rest` decides
unfoldable pub is_word : (ℕ → Bool) → List ℕ → Bool
unfolding is_alnum
is_word rest [] = false
is_word rest (c ∷ cs) = is_alnum c && all rest cs

-- `[0-9a-f]{64}`
unfoldable pub is_sha256_hex : String → Bool
unfolding is_lower_hex
is_sha256_hex s = (length (codes s) == 64) && all is_lower_hex (codes s)

-- `Path(s).is_absolute()` on POSIX
unfoldable pub is_absolute_path : String → Bool
unfolding starts_with
is_absolute_path s = starts_with (codes s) (b'/' ∷ [])

-- A drive of `PureWindowsPath(s)`: `c:`, or the two slashes of a share.
unfoldable pub has_windows_drive : List ℕ → Bool
has_windows_drive [] = false
has_windows_drive (a ∷ []) = false
has_windows_drive (a ∷ b ∷ s) =
    (b == b':') || (((a == b'/') || (a == 92)) && ((b == b'/') || (b == 92)))

-- `any(ord(c) < 32 or ord(c) == 127 for c in s)`
unfoldable pub has_control : List ℕ → Bool
has_control s = any (λ c. leb c 31 || (c == 127)) s

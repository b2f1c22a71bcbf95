-- ===== src/SubRip.antt =====
-- adapters/exporters/srt.py: the time stamps of a SubRip file, as lists of code points.
pub mod Stamps
pub mod Export
use video_captioner_z.Base.{
  ℕ, zero, suc, ◌+◌, ◌*◌, ◌/◌, ◌%◌, Bool, true, false, not, ◌&&◌, ◌||◌, Option, none, some, List,
  [], ◌∷◌, ◌++◌, leb, ltb, ◌==◌, if◌then◌else◌, Result, ok, err, app_error, ◌>>=◌, ◌>>◌, raise_if,
}
use video_captioner_z.Json.{ℤ, pos, negsuc}

abbrev pub digit : ℕ → ℕ
digit d = 48 + d

-- `str(n)`, with a round for each digit
unfoldable pub decimal : ℕ → ℕ → List ℕ
decimal zero n = digit (n % 10) ∷ []
decimal (suc rounds) n =
    let front = decimal rounds (n / 10) in
    if ltb n 10 then digit n ∷ [] else front ++ digit (n % 10) ∷ []

-- `f"{n:02d}"`
unfoldable pub two_or_more : ℕ → List ℕ
two_or_more n = if ltb n 10 then 48 ∷ digit n ∷ [] else decimal n n

-- the same of a number below 100, and `f"{n:03d}"` of one below 1000
abbrev pub two : ℕ → List ℕ
two n = digit (n / 10) ∷ digit (n % 10) ∷ []

abbrev pub three : ℕ → List ℕ
three n = digit (n / 100) ∷ digit (n / 10 % 10) ∷ digit (n % 10) ∷ []

abbrev pub stamp_of : ℕ → List ℕ
stamp_of ms =
    let rest = ms % 3600000 in
    let less = rest % 60000 in
    let minutes_on =
      58 ∷ (two (rest / 60000) ++ 58 ∷ two (less / 1000) ++ 44 ∷ three (less % 1000)) in
    two_or_more (ms / 3600000) ++ minutes_on

-- `format_timestamp` of an integer
unfoldable pub format_timestamp : ℤ → Result (List ℕ)
format_timestamp (negsuc n) = err (app_error "export.srt_invalid" "negative_timestamp")
format_timestamp (pos ms) = ok (stamp_of ms)

abbrev pub bad_stamp : {A : Type 0} → Result A
bad_stamp = err (app_error "export.srt_invalid" "timestamp")

abbrev pub or_stop : {T : Type 0} → Option ℕ → (ℕ → T) → T → T
or_stop none go_on stop = stop
or_stop (some d) go_on stop = go_on d

-- The value of a character that `\d` matches.
module _ (digit_value : ℕ → Option ℕ) where
  -- the digits that a text starts with: their number, their value, and the text after them
  unfoldable pub read_digits : ℕ → ℕ → List ℕ → ℕ × ℕ × List ℕ
  read_digits count value [] = (count, value, [])
  read_digits count value (c ∷ cs) =
      or_stop (digit_value c) (λ d. read_digits (suc count) (10 * value + d) cs)
        (count, value, c ∷ cs)

  abbrev pub value_of : Option ℕ → Result ℕ
  value_of none = bad_stamp
  value_of (some d) = ok d

  abbrev pub read_digit : ℕ → Result ℕ
  read_digit c = value_of (digit_value c)

  -- the minutes, the seconds and the milliseconds, with what stands between them
  unfoldable pub read_rest : ℕ → List ℕ → Result ℕ
  read_rest hours (p ∷ m ∷ n ∷ q ∷ s ∷ t ∷ r ∷ x ∷ y ∷ z ∷ []) = do
    raise_if (not ((p == 58) && (q == 58) && (r == 44)))
        (app_error "export.srt_invalid" "timestamp")
    m ← read_digit m
    n ← read_digit n
    s ← read_digit s
    t ← read_digit t
    x ← read_digit x
    y ← read_digit y
    z ← read_digit z
    let minutes = 10 * m + n
    let seconds = 10 * s + t
    raise_if (leb 60 minutes || leb 60 seconds) (app_error "export.srt_invalid" "timestamp")
    ok (((hours * 60 + minutes) * 60 + seconds) * 1000 + (100 * x + 10 * y + z))
  read_rest hours _ = bad_stamp

  -- `_parse_timestamp`
  unfoldable pub parse_timestamp : List ℕ → Result ℕ
  unfolding read_digits read_rest
  parse_timestamp text =
      let (count, hours, rest) = read_digits 0 0 text in
      if ltb count 2 then bad_stamp else read_rest hours rest

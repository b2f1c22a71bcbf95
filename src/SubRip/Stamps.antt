-- ===== src/SubRip/Stamps.antt =====
-- adapters/exporters/srt.py: a time stamp is read back as the time that it was made of.
use video_captioner_z.Base.{
  ℕ, zero, suc, ◌+◌, ◌*◌, ◌/◌, ◌%◌, ◌≤◌, ◌<◌, ◌≡◌, refl, ap, ◌∙◌, false, ◌||◌, Bool-cases, inl, inr,
  Option, none, some, List, [], ◌∷◌, ◌++◌, leb, ltb, ok, ◌>>=◌, raise_if, arith,
}
use mathlib.Core.List.{append_assoc}
use video_captioner_z.Json.{pos}
use video_captioner_z.SubRip.{
  digit, decimal, two_or_more, two, three, stamp_of, format_timestamp, read_digits, read_rest,
  parse_timestamp,
}

-- What the reading of a time stamp relies on: the values of the digits, and that a colon is none.
pub record IsDigits (digit_value : ℕ → Option ℕ) : Type 0 where
  pub digits : (d : ℕ) → d < 10 → digit_value (48 + d) ≡ some d
  pub colon : digit_value 58 ≡ none

module _ (digit_value : ℕ → Option ℕ) (known : IsDigits digit_value) where
  read_digits-digit :
      (count value d : ℕ) (cs : List ℕ)
      → d < 10
      → read_digits digit_value count value (digit d ∷ cs)
        ≡ read_digits digit_value (suc count) (10 * value + d) cs
  unfolding read_digits
  read_digits-digit count value d cs h = rw (known.digits d h) refl

  read_digits-end :
      (count value : ℕ) (cs : List ℕ)
      → read_digits digit_value count value (58 ∷ cs) ≡ (count, value, 58 ∷ cs)
  unfolding read_digits
  read_digits-end count value cs = rw known.colon refl

  -- A number that is printed is read back, with at least as many digits as it is large.
  read_digits-decimal :
      (rounds n : ℕ) (cs : List ℕ)
      → n ≤ rounds
      → (count : ℕ) × (1 ≤ count)
        × (10 ≤ n → 2 ≤ count)
        × (read_digits digit_value 0 0 (decimal rounds n ++ cs)
            ≡ read_digits digit_value count n cs)
  unfolding decimal
  read_digits-decimal zero n cs h =
      let value : 10 * 0 + n % 10 ≡ n = omega arith in
      (
        1,
        omega arith,
        λ k. absurd (omega arith),
        read_digits-digit 0 0 (n % 10) cs (omega arith)
            ∙ ap (λ v. read_digits digit_value 1 v cs) value,
      )
  read_digits-decimal (suc rounds) n cs h = elim (Bool-cases (ltb n 10)) [
    | inl small ↦
        let value : 10 * 0 + n ≡ n = omega arith in
        let below : n < 10 = ground arith in
        (
          1,
          omega arith,
          λ k. absurd (omega arith),
          rw small
              (read_digits-digit 0 0 n cs below ∙ ap (λ v. read_digits digit_value 1 v cs) value),
        )
    | inr large ↦
        let above : 10 ≤ n = ground arith in
        let (count, more, _, front) =
          read_digits-decimal rounds (n / 10) (digit (n % 10) ∷ cs) (omega arith) in
        let value : 10 * (n / 10) + n % 10 ≡ n = omega arith in
        (
          suc count,
          omega arith,
          λ k. omega arith,
          rw large (
              ap (read_digits digit_value 0 0)
                (append_assoc (decimal rounds (n / 10)) (digit (n % 10) ∷ []) cs)
              ∙ front
              ∙ read_digits-digit count (n / 10) (n % 10) cs (omega arith)
              ∙ ap (λ v. read_digits digit_value (suc count) v cs) value),
        )
  ]

  -- The hours are read back, with at least two digits.
  read_digits-hours :
      (h : ℕ) (cs : List ℕ)
      → (count : ℕ) × (2 ≤ count)
        × (read_digits digit_value 0 0 (two_or_more h ++ 58 ∷ cs) ≡ (count, h, 58 ∷ cs))
  unfolding two_or_more
  read_digits-hours h cs = elim (Bool-cases (ltb h 10)) [
    | inl small ↦
        let below : h < 10 = ground arith in
        let value : 10 * (10 * 0 + 0) + h ≡ h = omega arith in
        (
          2,
          omega arith,
          rw small (
              read_digits-digit 0 0 0 (digit h ∷ 58 ∷ cs) (omega arith)
              ∙ read_digits-digit 1 (10 * 0 + 0) h (58 ∷ cs) below
              ∙ ap (λ v. read_digits digit_value 2 v (58 ∷ cs)) value
              ∙ read_digits-end 2 h cs),
        )
    | inr large ↦
        let above : 10 ≤ h = ground arith in
        let (count, _, two_digits, front) = read_digits-decimal h h (58 ∷ cs) (omega arith) in
        (count, two_digits above, rw large (front ∙ read_digits-end count h cs))
  ]

  read_rest-parts :
      (h m s x : ℕ)
      → m < 60
      → s < 60
      → x < 1000
      → read_rest digit_value h (58 ∷ two m ++ 58 ∷ two s ++ 44 ∷ three x)
        ≡ ok (((h * 60 + m) * 60 + s) * 1000 + x)
  unfolding read_rest ◌>>=◌ raise_if
  read_rest-parts h m s x below_m below_s below_x =
      let minutes : 10 * (m / 10) + m % 10 ≡ m = omega arith in
      let seconds : 10 * (s / 10) + s % 10 ≡ s = omega arith in
      let millis : 100 * (x / 100) + 10 * (x / 10 % 10) + x % 10 ≡ x = omega arith in
      let in_hour : (leb 60 m || leb 60 s) ≡ false = ground arith in
      rw (known.digits (m / 10) (omega arith)) (
        rw (known.digits (m % 10) (omega arith)) (
          rw (known.digits (s / 10) (omega arith)) (
            rw (known.digits (s % 10) (omega arith)) (
              rw (known.digits (x / 100) (omega arith)) (
                rw (known.digits (x / 10 % 10) (omega arith)) (
                  rw (known.digits (x % 10) (omega arith))
                    (rw minutes (rw seconds (rw millis (rw in_hour refl))))))))))

  enough_digits :
      (count h ms : ℕ) (text rest : List ℕ)
      → 2 ≤ count
      → read_digits digit_value 0 0 text ≡ (count, h, rest)
      → read_rest digit_value h rest ≡ ok ms
      → parse_timestamp digit_value text ≡ ok ms
  unfolding parse_timestamp
  enough_digits count h ms text rest more start k =
      let two_digits : ltb count 2 ≡ false = ground arith in rw start (rw two_digits k)

  -- A time that is not negative is formatted, and the time stamp is parsed as that time.
  pub parse_timestamp-format_timestamp :
      (ms : ℕ)
      → (text : List ℕ) × (format_timestamp (pos ms) ≡ ok text)
        × (parse_timestamp digit_value text ≡ ok ms)
  unfolding format_timestamp
  parse_timestamp-format_timestamp ms =
      let rest = ms % 3600000 in
      let less = rest % 60000 in
      let tail = two (rest / 60000) ++ 58 ∷ two (less / 1000) ++ 44 ∷ three (less % 1000) in
      let (count, more, start) = read_digits-hours (ms / 3600000) tail in
      let parts =
        read_rest-parts (ms / 3600000) (rest / 60000) (less / 1000) (less % 1000) (omega arith)
          (omega arith) (omega arith) in
      let total : ((ms / 3600000 * 60 + rest / 60000) * 60 + less / 1000) * 1000 + less % 1000
          ≡ ms =
        omega arith in
      (
        stamp_of ms,
        refl,
        enough_digits count (ms / 3600000) ms (stamp_of ms) (58 ∷ tail) more start
            (parts ∙ ap ok total),
      )

-- ===== src/Tests/SubRip.antt =====
-- A SubRip time stamp that is printed and read.
use video_captioner_z.Base.{
  ℕ, ◌-◌, ◌≡◌, refl, ◌&&◌, leb, Option, none, some, List, if◌then◌else◌, ok, arith,
}
use video_captioner_z.Text.{codes}
use video_captioner_z.Json.{pos}
use video_captioner_z.SubRip.{format_timestamp, parse_timestamp}
use video_captioner_z.SubRip.Stamps.{IsDigits, parse_timestamp-format_timestamp}

ascii_digit : ℕ → Option ℕ
ascii_digit c = if leb 48 c && leb c 57 then some (c - 48) else none

ascii_digit-IsDigits : IsDigits ascii_digit
unfolding ascii_digit
ascii_digit-IsDigits = record { digits = λ d h. ground arith; colon = refl }

one_hour : format_timestamp (pos 3723004) ≡ ok (codes "01:02:03,004")
unfolding format_timestamp video_captioner_z.SubRip.two_or_more
one_hour = refl

parse_timestamp-format_timestamp_example :
    (text : List ℕ) × (format_timestamp (pos 3723004) ≡ ok text)
    × (parse_timestamp ascii_digit text ≡ ok 3723004)
parse_timestamp-format_timestamp_example =
    parse_timestamp-format_timestamp ascii_digit ascii_digit-IsDigits 3723004

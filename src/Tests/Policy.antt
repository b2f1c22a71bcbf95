-- ===== src/Tests/Policy.antt =====
-- The default policy, printed and read back, and a mapping of the legacy form.
use video_captioner_z.Base.{◌≡◌, refl, false, ok, ◌>>=◌, raise_if}
use video_captioner_z.Json.{pos, int, Fields, field, end}
use video_captioner_z.SegmentationPolicy.{
  default_policy, is_bad_policy, legacy_policy, from_mapping, to_mapping,
}
use video_captioner_z.SegmentationPolicy.Mapping.{Read, from_mapping-to_mapping, from_mapping-Read}

default_good : is_bad_policy default_policy ≡ false
unfolding is_bad_policy
default_good = refl

from_mapping-to_mapping_example : from_mapping (to_mapping default_policy) ≡ ok default_policy
from_mapping-to_mapping_example = from_mapping-to_mapping default_policy default_good

abbrev legacy_mapping : Fields
legacy_mapping =
    field "hard_gap_ms" (int (pos 200))
      (field "max_text_units" (int (pos 30)) (field "max_duration_ms" (int (pos 5000)) end))

legacy_read : from_mapping legacy_mapping ≡ ok (legacy_policy 5000 30 200)
unfolding from_mapping ◌>>=◌ raise_if
legacy_read = refl

from_mapping-Read_example : Read (from_mapping legacy_mapping)
from_mapping-Read_example = from_mapping-Read legacy_mapping

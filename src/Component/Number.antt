-- ===== src/Component/Number.antt =====
-- name-component.cpp: components that hold a number, plain or behind a marker byte. (Timestamps,
-- which stand on the clock library, are left out.)
pub mod RoundTrip
use ndn_cxx_logging.Base.{
  ℕ, ◌-◌, Bool, true, false, not, ◌&&◌, ◌||◌, List, [], ◌∷◌, ◌==◌, if◌then◌else◌, length, drop,
  Result, ok, err, ◌>>=◌,
}
use ndn_cxx_logging.Base.Bytes.{add64}
use ndn_cxx_logging.Tlv.{Error, read_non_negative_integer}
use ndn_cxx_logging.Encoder
use ndn_cxx_logging.Encoder.{Encoder}
use ndn_cxx_logging.Estimator
use ndn_cxx_logging.Block.{Block, fields, value, value_size, has_value, of_encoder}
use ndn_cxx_logging.BlockHelpers.{make_non_negative_integer_block, read_non_negative_integer_block}
use ndn_cxx_logging.Component.{
  name_component, segment_marker, segment_offset_marker, version_marker, sequence_number_marker,
  timestamp_marker,
}

-- Component::empty
abbrev pub empty : Block → Bool
empty c = not (has_value c) || value_size c == 0

unfoldable pub is_number : Block → Bool
is_number c = value_size c == 1 || value_size c == 2 || value_size c == 4 || value_size c == 8

-- `value()[0] == marker`, where there is a first byte.
abbrev pub first_is : List ℕ → ℕ → Bool
first_is [] marker = false
first_is (b ∷ bytes) marker = b == marker

unfoldable pub is_number_with_marker : Block → ℕ → Bool
is_number_with_marker c marker =
    not (empty c)
    && first_is (value c) marker
    && (value_size c == 2 || value_size c == 3 || value_size c == 5 || value_size c == 9)

unfoldable pub is_version : Block → Bool
is_version c = is_number_with_marker c version_marker

unfoldable pub is_segment : Block → Bool
is_segment c = is_number_with_marker c segment_marker

unfoldable pub is_segment_offset : Block → Bool
is_segment_offset c = is_number_with_marker c segment_offset_marker

unfoldable pub is_timestamp : Block → Bool
is_timestamp c = is_number_with_marker c timestamp_marker

unfoldable pub is_sequence_number : Block → Bool
is_sequence_number c = is_number_with_marker c sequence_number_marker

unfoldable pub to_number : Block → Result Error ℕ
to_number c = if is_number c then read_non_negative_integer_block c else err Error.not_a_number

unfoldable pub to_number_with_marker : Block → ℕ → Result Error ℕ
to_number_with_marker c marker =
    if is_number_with_marker c marker
    then (do
      (n, rest) ← read_non_negative_integer (value_size c - 1) (drop 1 (fields c).value)
      ok n)
    else err Error.no_marker

unfoldable pub to_version : Block → Result Error ℕ
to_version c = to_number_with_marker c version_marker

unfoldable pub to_segment : Block → Result Error ℕ
to_segment c = to_number_with_marker c segment_marker

unfoldable pub to_segment_offset : Block → Result Error ℕ
to_segment_offset c = to_number_with_marker c segment_offset_marker

unfoldable pub to_sequence_number : Block → Result Error ℕ
to_sequence_number c = to_number_with_marker c sequence_number_marker

unfoldable pub from_number : ℕ → Result Error Block
from_number n = make_non_negative_integer_block name_component n

unfoldable pub from_number_with_marker : ℕ → ℕ → Result Error Block
from_number_with_marker marker n =
    let value_length =
      add64 (Estimator.prepend_non_negative_integer n)
        (Estimator.prepend_byte_array (marker ∷ [])) in
    let total_length =
      add64 (add64 value_length (Estimator.prepend_var_number value_length))
        (Estimator.prepend_var_number name_component) in
    let e1 = (Encoder.prepend_non_negative_integer (Encoder.create total_length 0) n).0 in
    let e2 = (Encoder.prepend_byte_array e1 (marker ∷ [])).0 in
    let e3 = (Encoder.prepend_var_number e2 value_length).0 in
    of_encoder (Encoder.prepend_var_number e3 name_component).0

unfoldable pub from_version : ℕ → Result Error Block
from_version version = from_number_with_marker version_marker version

unfoldable pub from_segment : ℕ → Result Error Block
from_segment segment_no = from_number_with_marker segment_marker segment_no

unfoldable pub from_segment_offset : ℕ → Result Error Block
from_segment_offset offset = from_number_with_marker segment_offset_marker offset

unfoldable pub from_sequence_number : ℕ → Result Error Block
from_sequence_number seq_no = from_number_with_marker sequence_number_marker seq_no

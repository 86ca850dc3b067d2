-- ===== src/BlockHelpers.antt =====
-- src/encoding/block-helpers.cpp: blocks from values and values from blocks.
pub mod Make
use ndn_cxx_logging.Base.{ℕ, List, length, Result, ok, err, ◌>>=◌}
use ndn_cxx_logging.Base.Bytes.{add64}
use ndn_cxx_logging.Tlv.{Error, read_non_negative_integer}
use ndn_cxx_logging.Encoder
use ndn_cxx_logging.Encoder.{Encoder}
use ndn_cxx_logging.Estimator
use ndn_cxx_logging.Block.{Block, fields, of_encoder, value}

-- EncodingImpl<TAG>, what the encoding templates call.
pub record EncodingImpl : Type 1 where
  pub State : Type 0
  pub prepend_byte_array : State → List ℕ → State × ℕ
  pub prepend_var_number : State → ℕ → State × ℕ
  pub prepend_non_negative_integer : State → ℕ → State × ℕ
  pub prepend_byte_array_block : State → ℕ → List ℕ → State × ℕ

-- EncodingImpl<EncoderTag>
abbrev pub encoder_impl : EncodingImpl
encoder_impl = record {
  State = Encoder;
  prepend_byte_array = Encoder.prepend_byte_array;
  prepend_var_number = Encoder.prepend_var_number;
  prepend_non_negative_integer = Encoder.prepend_non_negative_integer;
  prepend_byte_array_block = Encoder.prepend_byte_array_block;
}

-- EncodingImpl<EstimatorTag>
abbrev pub estimator_impl : EncodingImpl
estimator_impl = record {
  State = Unit {0};
  prepend_byte_array = λ s array. (s, Estimator.prepend_byte_array array);
  prepend_var_number = λ s n. (s, Estimator.prepend_var_number n);
  prepend_non_negative_integer = λ s n. (s, Estimator.prepend_non_negative_integer n);
  prepend_byte_array_block = λ s t array. (s, Estimator.prepend_byte_array_block t array);
}

module _ (impl : EncodingImpl) where
  open impl use {
    State, prepend_byte_array, prepend_var_number, prepend_non_negative_integer,
    prepend_byte_array_block,
  }

  abbrev pub prepend_non_negative_integer_block : State → ℕ → ℕ → State × ℕ
  prepend_non_negative_integer_block s t n =
      let (s1, value_length) = prepend_non_negative_integer s n in
      let (s2, length_size) = prepend_var_number s1 value_length in
      let (s3, type_size) = prepend_var_number s2 t in
      (s3, add64 (add64 value_length length_size) type_size)

  abbrev pub prepend_empty_block : State → ℕ → State × ℕ
  prepend_empty_block s t =
      let (s1, length_size) = prepend_var_number s 0 in
      let (s2, type_size) = prepend_var_number s1 t in (s2, add64 length_size type_size)

  abbrev pub prepend_string_block : State → ℕ → List ℕ → State × ℕ
  prepend_string_block s t str =
      let (s1, value_length) = prepend_byte_array s str in
      let (s2, length_size) = prepend_var_number s1 value_length in
      let (s3, type_size) = prepend_var_number s2 t in
      (s3, add64 (add64 value_length length_size) type_size)

unfoldable pub make_non_negative_integer_block : ℕ → ℕ → Result Error Block
make_non_negative_integer_block t n =
    let total_length = (prepend_non_negative_integer_block estimator_impl tt t n).1 in
    of_encoder
      (prepend_non_negative_integer_block encoder_impl (Encoder.create total_length 0) t n).0

unfoldable pub make_empty_block : ℕ → Result Error Block
make_empty_block t =
    let total_length = (prepend_empty_block estimator_impl tt t).1 in
    of_encoder (prepend_empty_block encoder_impl (Encoder.create total_length 0) t).0

unfoldable pub make_string_block : ℕ → List ℕ → Result Error Block
make_string_block t str =
    let total_length = (prepend_string_block estimator_impl tt t str).1 in
    of_encoder (prepend_string_block encoder_impl (Encoder.create total_length 0) t str).0

unfoldable pub make_binary_block : ℕ → List ℕ → Result Error Block
make_binary_block t value =
    let total_length = Estimator.prepend_byte_array_block t value in
    of_encoder (Encoder.prepend_byte_array_block (Encoder.create total_length 0) t value).0

-- readNonNegativeInteger(block): the number alone, since `begin` is a local.
unfoldable pub read_non_negative_integer_block : Block → Result Error ℕ
read_non_negative_integer_block b = do
  (n, rest) ← read_non_negative_integer (length (fields b).value) (fields b).value
  ok n

unfoldable pub read_string : Block → List ℕ
read_string b = value b

-- ===== src/BlockHelpers/Make.antt =====
-- The blocks that the functions of encoding/block-helpers.cpp make: the estimate is exact, so the
-- encoder's buffer becomes the block's wire.
use ndn_cxx_logging.Base.{
  ℕ, ◌+◌, ◌^◌, ◌≤◌, ◌<◌, ◌≡◌, refl, ◌∙◌, List, [], ◌++◌, length, arith, ok, ◌>>=◌,
}
use ndn_cxx_logging.Base.Bytes.{length-host_to_be, add64}
use ndn_cxx_logging.Tlv.{size_of_var_number, read_non_negative_integer}
use ndn_cxx_logging.Tlv.Format.{var_number, tlv, size_of_var_number_bounds}
use ndn_cxx_logging.Tlv.RoundTrip.{load_be-append}
use ndn_cxx_logging.Encoder
use ndn_cxx_logging.Encoder.{Encoder}
use ndn_cxx_logging.Encoder.Room.{Holds, create-Holds}
use ndn_cxx_logging.Encoder.Numbers.{
  non_negative_integer, prepend_byte_array_block-Holds, prepend_var_number-Holds,
  prepend_non_negative_integer_lem,
}
use ndn_cxx_logging.Estimator
use ndn_cxx_logging.Estimator.Agree.{prepend_var_number-size, prepend_non_negative_integer-length}
use ndn_cxx_logging.Block.Wire.{whole, of_encoder-Holds}
use ndn_cxx_logging.BlockHelpers.{
  make_non_negative_integer_block, make_empty_block, make_string_block, make_binary_block,
  read_non_negative_integer_block, read_string,
}
use mathlib.Core.List.{append-nil}
use mathlib.Core.Path.{subst}

-- The estimate, as the sum in which the encoder uses it up.
estimate_lem :
    (t : ℕ) (value : List ℕ)
    → length value < 2 ^ 63
    → Estimator.prepend_byte_array_block t value
      ≡ length value + (size_of_var_number (length value) + (size_of_var_number t + 0))
unfolding Estimator.prepend_byte_array_block
estimate_lem t value h = omega (
  arith,
  prepend_var_number-size (length value),
  prepend_var_number-size t,
  size_of_var_number_bounds (length value),
  size_of_var_number_bounds t,
)

pub make_binary_block-whole :
    (t : ℕ) (value : List ℕ)
    → t < 2 ^ 32
    → length value < 2 ^ 63
    → make_binary_block t value ≡ ok (whole t value)
unfolding make_binary_block
make_binary_block-whole t value ht hv =
    let total = Estimator.prepend_byte_array_block t value in
    let start = Encoder.create total 0 in
    let room = subst (λ k. Holds start k [] 0) (estimate_lem t value hv) (create-Holds total) in
    of_encoder-Holds _ t value ht (omega arith) (
      subst (λ b. Holds (Encoder.prepend_byte_array_block start t value).0 0 b 0)
        (append-nil (tlv t value)) (prepend_byte_array_block-Holds start 0 [] 0 t value room))

make_string_block-binary :
    (t : ℕ) (str : List ℕ) → make_string_block t str ≡ make_binary_block t str
unfolding make_string_block make_binary_block Encoder.prepend_byte_array_block
    Estimator.prepend_byte_array_block Encoder.prepend_byte_array Estimator.prepend_byte_array
make_string_block-binary t str = refl

make_non_negative_integer_block-binary :
    (t n : ℕ) → make_non_negative_integer_block t n ≡ make_binary_block t (non_negative_integer n)
unfolding make_non_negative_integer_block make_binary_block Encoder.prepend_byte_array_block
    Estimator.prepend_byte_array_block
make_non_negative_integer_block-binary t n =
    rw (prepend_non_negative_integer-length, prepend_non_negative_integer_lem)
      (unfold Encoder.prepend_byte_array in refl)

empty_estimate :
    (t : ℕ)
    → add64 (Estimator.prepend_var_number 0) (Estimator.prepend_var_number t)
      ≡ size_of_var_number 0 + (size_of_var_number t + 0)
empty_estimate t = omega (
  arith,
  prepend_var_number-size 0,
  prepend_var_number-size t,
  size_of_var_number_bounds 0,
  size_of_var_number_bounds t,
)

make_empty_block-whole : (t : ℕ) → t < 2 ^ 32 → make_empty_block t ≡ ok (whole t [])
unfolding make_empty_block
make_empty_block-whole t ht =
    let total = add64 (Estimator.prepend_var_number 0) (Estimator.prepend_var_number t) in
    let start = Encoder.create total 0 in
    let room = subst (λ k. Holds start k [] 0) (empty_estimate t) (create-Holds total) in
    of_encoder-Holds _ t [] ht (omega arith) (
      prepend_var_number-Holds _ 0 (var_number 0 ++ []) 0 t
        (prepend_var_number-Holds start (size_of_var_number t + 0) [] 0 0 room))

non_negative_integer-length-le : (n : ℕ) → length (non_negative_integer n) ≤ 8
unfolding non_negative_integer
non_negative_integer-length-le n =
    ground (arith, length-host_to_be 2 n, length-host_to_be 4 n, length-host_to_be 8 n)

pub make_non_negative_integer_block-whole :
    (t n : ℕ)
    → t < 2 ^ 32
    → make_non_negative_integer_block t n ≡ ok (whole t (non_negative_integer n))
make_non_negative_integer_block-whole t n ht =
    make_non_negative_integer_block-binary t n
    ∙ make_binary_block-whole t (non_negative_integer n) ht
        (omega (arith, non_negative_integer-length-le n))

-- Every block that the helpers make holds exactly its encoding: the type, the value, and a wire that
-- is the shortest TLV of both and fills the buffer. This holds for every type of 32 bits and every
-- value shorter than 2^63 bytes, so the constructor that parses the encoder's bytes does not throw.
pub make_block_wire :
    (t n : ℕ) (value : List ℕ)
    → t < 2 ^ 32
    → length value < 2 ^ 63
    → (make_binary_block t value ≡ ok (whole t value))
      × (make_string_block t value ≡ ok (whole t value))
      × (make_empty_block t ≡ ok (whole t []))
      × (make_non_negative_integer_block t n ≡ ok (whole t (non_negative_integer n)))
make_block_wire t n value ht hv = (
  make_binary_block-whole t value ht hv,
  make_string_block-binary t value ∙ make_binary_block-whole t value ht hv,
  make_empty_block-whole t ht,
  make_non_negative_integer_block-whole t n ht,
)

pub read_non_negative_integer-append :
    (n : ℕ) (rest : List ℕ)
    → n < 2 ^ 64
    → read_non_negative_integer (length (non_negative_integer n)) (non_negative_integer n ++ rest)
      ≡ ok (n, rest)
unfolding read_non_negative_integer non_negative_integer
read_non_negative_integer-append n rest h = ground (
  arith,
  length-host_to_be 2 n,
  length-host_to_be 4 n,
  length-host_to_be 8 n,
  load_be-append 2 n rest,
  load_be-append 4 n rest,
  load_be-append 8 n rest,
)

-- A uint64 that `makeNonNegativeIntegerBlock` puts into a block is what `readNonNegativeInteger`
-- reads from it, and a string that `makeStringBlock` puts into a block is what `readString` reads.
-- For types of 32 bits and strings shorter than 2^63 bytes.
pub read_block-make :
    (t n : ℕ) (str : List ℕ)
    → t < 2 ^ 32
    → n < 2 ^ 64
    → length str < 2 ^ 63
    → ((do b ← make_non_negative_integer_block t n; read_non_negative_integer_block b) ≡ ok n)
      × ((do b ← make_string_block t str; ok (read_string b)) ≡ ok str)
unfolding read_string read_non_negative_integer_block
read_block-make t n str ht hn hs = (
  rw (make_non_negative_integer_block-whole t n ht)
      (ground (arith, append-nil (non_negative_integer n), read_non_negative_integer-append n [])),
  rw (make_string_block-binary t str, make_binary_block-whole t str ht hs) refl,
)

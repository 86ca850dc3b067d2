-- ===== src/Estimator/Agree.antt =====
-- encoding/estimator.cpp against encoding/encoder.cpp: the same templates run over both.
use ndn_cxx_logging.Base.{
  ℕ, ◌≤◌, ◌≡◌, refl, List, length, take, length-take, arith, Bool-cases, inl, inr,
}
use ndn_cxx_logging.Base.Bytes.{length-host_to_be}
use ndn_cxx_logging.Tlv.{size_of_var_number}
use ndn_cxx_logging.Encoder
use ndn_cxx_logging.Encoder.{Encoder}
use ndn_cxx_logging.Encoder.Numbers.{non_negative_integer}
use ndn_cxx_logging.Estimator.{
  prepend_byte, append_byte, prepend_byte_array, append_byte_array, prepend_var_number,
  append_var_number, prepend_non_negative_integer, append_non_negative_integer,
  prepend_byte_array_block, append_byte_array_block, prepend_block, append_block, prepend_range,
  append_range,
}
use ndn_cxx_logging.Encoder.Blocks
use ndn_cxx_logging.Block.{Block, fields, type, value, has_wire}

pub prepend_var_number-size : (n : ℕ) → prepend_var_number n ≡ size_of_var_number n
unfolding prepend_var_number size_of_var_number
prepend_var_number-size n = refl

pub prepend_non_negative_integer-length :
    (n : ℕ) → prepend_non_negative_integer n ≡ length (non_negative_integer n)
unfolding prepend_non_negative_integer non_negative_integer
prepend_non_negative_integer-length n =
    ground (arith, length-host_to_be 2 n, length-host_to_be 4 n, length-host_to_be 8 n)

pub var_number-agree :
    (e : Encoder) (n : ℕ)
    → ((Encoder.prepend_var_number e n).1 ≡ prepend_var_number n)
      × ((Encoder.append_var_number e n).1 ≡ append_var_number n)
unfolding Encoder.prepend_var_number Encoder.append_var_number append_var_number
var_number-agree e n = ground arith

non_negative_integer-agree :
    (e : Encoder) (n : ℕ)
    → ((Encoder.prepend_non_negative_integer e n).1 ≡ prepend_non_negative_integer n)
      × ((Encoder.append_non_negative_integer e n).1 ≡ append_non_negative_integer n)
unfolding Encoder.prepend_non_negative_integer Encoder.append_non_negative_integer
    append_non_negative_integer Encoder.prepend_byte Encoder.append_byte Encoder.prepend_byte_array
    Encoder.append_byte_array
non_negative_integer-agree e n =
    ground (arith, length-host_to_be 2 n, length-host_to_be 4 n, length-host_to_be 8 n)

prepend_byte_array_block-agree :
    (e : Encoder) (type : ℕ) (array : List ℕ)
    → (Encoder.prepend_byte_array_block e type array).1 ≡ prepend_byte_array_block type array
unfolding Encoder.prepend_byte_array_block Encoder.prepend_byte_array prepend_byte_array_block
prepend_byte_array_block-agree e type array = omega (
  arith,
  (var_number-agree (Encoder.prepend_byte_array e array).0 (length array)).0,
  (var_number-agree
      (Encoder.prepend_var_number (Encoder.prepend_byte_array e array).0 (length array)).0 type).0,
)

append_byte_array_block-agree :
    (e : Encoder) (type : ℕ) (array : List ℕ)
    → (Encoder.append_byte_array_block e type array).1 ≡ append_byte_array_block type array
unfolding Encoder.append_byte_array_block Encoder.append_byte_array append_byte_array_block
    append_var_number
append_byte_array_block-agree e type array = omega (
  arith,
  (var_number-agree e type).1,
  (var_number-agree (Encoder.append_var_number e type).0 (length array)).1,
)

block-agree :
    (e : Encoder) (block : Block)
    → (fields block).size ≤ length (fields block).wire
    → ((Blocks.prepend_block e block).1 ≡ prepend_block block)
      × ((Blocks.append_block e block).1 ≡ append_block block)
unfolding Blocks.prepend_block Blocks.append_block append_block Encoder.prepend_byte_array
    Encoder.append_byte_array append_byte_array_block
block-agree e block h =
    let cut : length (take (fields block).size (fields block).wire) ≡ (fields block).size =
      omega (arith, length-take (fields block).size (fields block).wire) in
    elim (Bool-cases (has_wire block)) [
      | inl wired ↦ rw (wired, cut) (refl, refl)
      | inr unwired ↦ rw unwired (
        prepend_byte_array_block-agree e (type block) (value block),
        append_byte_array_block-agree e (type block) (value block),
      )
    ]

-- Every number that an `Estimator` call returns is the number that the `Encoder` call of the same
-- name returns, whatever the encoder's state; for a block, if its wire has as many bytes as its size says.
pub estimator-agree :
    (e : Encoder) (b n type : ℕ) (array : List ℕ) (block : Block)
    → (fields block).size ≤ length (fields block).wire
    → ((Encoder.prepend_byte e b).1 ≡ prepend_byte b)
      × ((Encoder.append_byte e b).1 ≡ append_byte b)
      × ((Encoder.prepend_byte_array e array).1 ≡ prepend_byte_array array)
      × ((Encoder.append_byte_array e array).1 ≡ append_byte_array array)
      × ((Encoder.prepend_var_number e n).1 ≡ prepend_var_number n)
      × ((Encoder.append_var_number e n).1 ≡ append_var_number n)
      × ((Encoder.prepend_non_negative_integer e n).1 ≡ prepend_non_negative_integer n)
      × ((Encoder.append_non_negative_integer e n).1 ≡ append_non_negative_integer n)
      × ((Encoder.prepend_byte_array_block e type array).1 ≡ prepend_byte_array_block type array)
      × ((Encoder.append_byte_array_block e type array).1 ≡ append_byte_array_block type array)
      × ((Blocks.prepend_block e block).1 ≡ prepend_block block)
      × ((Blocks.append_block e block).1 ≡ append_block block)
      × ((Encoder.prepend_range e array).1 ≡ prepend_range array)
      × ((Encoder.append_range e array).1 ≡ append_range array)
unfolding Encoder.prepend_range prepend_range Encoder.append_range append_range Encoder.prepend_byte
    prepend_byte Encoder.append_byte append_byte Encoder.prepend_byte_array
    Encoder.append_byte_array append_byte_array
estimator-agree e b n type array block h = (
  refl,
  refl,
  refl,
  refl,
  (var_number-agree e n).0,
  (var_number-agree e n).1,
  (non_negative_integer-agree e n).0,
  (non_negative_integer-agree e n).1,
  prepend_byte_array_block-agree e type array,
  append_byte_array_block-agree e type array,
  (block-agree e block h).0,
  (block-agree e block h).1,
  refl,
  refl,
)

-- ===== src/Estimator.antt =====
-- src/encoding/estimator.hpp and estimator.cpp: the size of an encoding without a buffer.
-- An Estimator has no state, so each call is the number that it returns.
pub mod Agree
use ndn_cxx_logging.Base.{ℕ, List, ltb, leb, if◌then◌else◌, length}
use ndn_cxx_logging.Base.Bytes.{add64}
use ndn_cxx_logging.Block.{Block, fields, type, value, has_wire}
use ndn_cxx_logging.Tlv.{max_uint8, max_uint16, max_uint32}

unfoldable pub prepend_byte : ℕ → ℕ
prepend_byte value = 1

unfoldable pub append_byte : ℕ → ℕ
append_byte value = 1

unfoldable pub prepend_byte_array : List ℕ → ℕ
prepend_byte_array array = length array

unfoldable pub append_byte_array : List ℕ → ℕ
unfolding prepend_byte_array
append_byte_array array = prepend_byte_array array

unfoldable pub prepend_var_number : ℕ → ℕ
prepend_var_number n =
    if ltb n 253 then 1 else if leb n max_uint16 then 3 else if leb n max_uint32 then 5 else 9

unfoldable pub append_var_number : ℕ → ℕ
unfolding prepend_var_number
append_var_number n = prepend_var_number n

unfoldable pub prepend_non_negative_integer : ℕ → ℕ
prepend_non_negative_integer n =
    if leb n max_uint8 then 1 else if leb n max_uint16 then 2 else if leb n max_uint32 then 4 else 8

unfoldable pub append_non_negative_integer : ℕ → ℕ
unfolding prepend_non_negative_integer
append_non_negative_integer n = prepend_non_negative_integer n

unfoldable pub prepend_byte_array_block : ℕ → List ℕ → ℕ
unfolding prepend_var_number
prepend_byte_array_block type array =
    add64 (add64 (length array) (prepend_var_number (length array))) (prepend_var_number type)

unfoldable pub append_byte_array_block : ℕ → List ℕ → ℕ
unfolding prepend_byte_array_block
append_byte_array_block type array = prepend_byte_array_block type array

unfoldable pub prepend_block : Block → ℕ
unfolding prepend_byte_array_block
prepend_block block =
    if has_wire block
    then (fields block).size
    else prepend_byte_array_block (type block) (value block)

unfoldable pub append_block : Block → ℕ
unfolding prepend_block
append_block block = prepend_block block

-- The bytes of [first, last)
unfoldable pub prepend_range : List ℕ → ℕ
prepend_range bytes = length bytes

unfoldable pub append_range : List ℕ → ℕ
unfolding prepend_range
append_range bytes = prepend_range bytes

-- ===== src/Encoder.antt =====
-- src/encoding/encoder.hpp and encoder.cpp: a buffer that grows at both ends.
-- An iterator into the buffer is its distance from the buffer's begin. `size_t` is 64 bits wide.
pub mod Room
pub mod Content
pub mod Numbers
pub mod Blocks
use ndn_cxx_logging.Base.{
  ℕ, ◌+◌, ◌-◌, ◌*◌, ◌%◌, ◌^◌, Bool, true, false, List, [], ◌∷◌, ltb, leb, if◌then◌else◌, length,
  replicate, overlay, slice,
}
use ndn_cxx_logging.Base.Bytes.{host_to_be, add64}
use ndn_cxx_logging.Tlv.{max_uint8, max_uint16, max_uint32}

pub record Encoder : Type 0 where
  pub buffer : List ℕ
  pub begin : ℕ
  pub end : ℕ

-- Encoder(totalReserve, reserveFromBack): a fresh Buffer is filled with zeros.
unfoldable pub create : ℕ → ℕ → Encoder
create total_reserve reserve_from_back =
    let start =
      total_reserve - (if ltb reserve_from_back total_reserve then reserve_from_back else 0) in
    record { buffer = replicate total_reserve 0; begin = start; end = start }

unfoldable pub reserve : Encoder → ℕ → Bool → Encoder
reserve e requested add_in_front =
    let size = if ltb requested (length e.buffer) then length e.buffer else requested in
    let diff_end = length e.buffer - e.end in
    let diff_begin = length e.buffer - e.begin in
    if add_in_front
    then record {
      buffer = overlay (replicate size 0) (size - length e.buffer) e.buffer;
      begin = size - diff_begin;
      end = size - diff_end;
    }
    else record { buffer = overlay (replicate size 0) 0 e.buffer; begin = e.begin; end = e.end }

unfoldable pub reserve_back : Encoder → ℕ → Encoder
reserve_back e size =
    if ltb (length e.buffer) (e.end + size)
    then reserve e ((length e.buffer * 2 + size) % 2 ^ 64) false
    else e

unfoldable pub reserve_front : Encoder → ℕ → Encoder
reserve_front e size =
    if ltb e.begin size then reserve e ((length e.buffer * 2 + size) % 2 ^ 64) true else e

-- Each of the following returns the encoder behind the call and the number that the call returns.
unfoldable pub prepend_byte_array : Encoder → List ℕ → Encoder × ℕ
prepend_byte_array e array =
    let r = reserve_front e (length array) in
    let start = r.begin - length array in
    (record r { buffer = overlay r.buffer start array; begin = start }, length array)

unfoldable pub append_byte_array : Encoder → List ℕ → Encoder × ℕ
append_byte_array e array =
    let r = reserve_back e (length array) in
    (record r { buffer = overlay r.buffer r.end array; end = r.end + length array }, length array)

unfoldable pub prepend_byte : Encoder → ℕ → Encoder × ℕ
prepend_byte e value =
    let r = reserve_front e 1 in
    (record r { buffer = overlay r.buffer (r.begin - 1) (value ∷ []); begin = r.begin - 1 }, 1)

unfoldable pub append_byte : Encoder → ℕ → Encoder × ℕ
append_byte e value =
    let r = reserve_back e 1 in
    (record r { buffer = overlay r.buffer r.end (value ∷ []); end = r.end + 1 }, 1)

unfoldable pub prepend_var_number : Encoder → ℕ → Encoder × ℕ
prepend_var_number e n =
    if ltb n 253
    then ((prepend_byte e n).0, 1)
    else if leb n max_uint16
    then ((prepend_byte (prepend_byte_array e (host_to_be 2 n)).0 253).0, 3)
    else if leb n max_uint32
    then ((prepend_byte (prepend_byte_array e (host_to_be 4 n)).0 254).0, 5)
    else ((prepend_byte (prepend_byte_array e (host_to_be 8 n)).0 255).0, 9)

unfoldable pub append_var_number : Encoder → ℕ → Encoder × ℕ
append_var_number e n =
    if ltb n 253
    then ((append_byte e n).0, 1)
    else if leb n max_uint16
    then ((append_byte_array (append_byte e 253).0 (host_to_be 2 n)).0, 3)
    else if leb n max_uint32
    then ((append_byte_array (append_byte e 254).0 (host_to_be 4 n)).0, 5)
    else ((append_byte_array (append_byte e 255).0 (host_to_be 8 n)).0, 9)

unfoldable pub prepend_non_negative_integer : Encoder → ℕ → Encoder × ℕ
prepend_non_negative_integer e n =
    if leb n max_uint8
    then prepend_byte e n
    else if leb n max_uint16
    then prepend_byte_array e (host_to_be 2 n)
    else if leb n max_uint32
    then prepend_byte_array e (host_to_be 4 n)
    else prepend_byte_array e (host_to_be 8 n)

unfoldable pub append_non_negative_integer : Encoder → ℕ → Encoder × ℕ
append_non_negative_integer e n =
    if leb n max_uint8
    then append_byte e n
    else if leb n max_uint16
    then append_byte_array e (host_to_be 2 n)
    else if leb n max_uint32
    then append_byte_array e (host_to_be 4 n)
    else append_byte_array e (host_to_be 8 n)

unfoldable pub prepend_byte_array_block : Encoder → ℕ → List ℕ → Encoder × ℕ
prepend_byte_array_block e type array =
    let (e1, value_size) = prepend_byte_array e array in
    let (e2, length_size) = prepend_var_number e1 (length array) in
    let (e3, type_size) = prepend_var_number e2 type in
    (e3, add64 (add64 value_size length_size) type_size)

unfoldable pub append_byte_array_block : Encoder → ℕ → List ℕ → Encoder × ℕ
append_byte_array_block e type array =
    let (e1, type_size) = append_var_number e type in
    let (e2, length_size) = append_var_number e1 (length array) in
    let (e3, value_size) = append_byte_array e2 array in
    (e3, add64 (add64 type_size length_size) value_size)

-- The bytes of [first, last)
unfoldable pub prepend_range : Encoder → List ℕ → Encoder × ℕ
prepend_range e bytes =
    let r = reserve_front e (length bytes) in
    let start = r.begin - length bytes in
    (record r { buffer = overlay r.buffer start bytes; begin = start }, length bytes)

unfoldable pub append_range : Encoder → List ℕ → Encoder × ℕ
append_range e bytes =
    let r = reserve_back e (length bytes) in
    (record r { buffer = overlay r.buffer r.end bytes; end = r.end + length bytes }, length bytes)

-- What is encoded: the bytes from `begin` to `end`.
abbrev pub content : Encoder → List ℕ
content e = slice e.begin e.end e.buffer

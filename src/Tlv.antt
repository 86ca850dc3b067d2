-- ===== src/Tlv.antt =====
-- src/encoding/tlv.hpp: the variable-size numbers of the NDN-TLV format, read from a range of bytes
-- or a stream and written to a stream.
-- A pair of iterators is the list of the bytes between them. A function that moves `begin` returns
-- what is left of the range. An output stream is the list of the bytes written so far.
pub mod Format
pub mod RoundTrip
pub mod Stream
pub mod Bounds
use ndn_cxx_logging.Base.{
  ℕ, zero, suc, ◌+◌, ◌-◌, ◌*◌, ◌%◌, ◌^◌, ◌<◌, Bool, true, false, Option, none, some, List, [], ◌∷◌,
  ◌++◌, ltb, leb, ◌==◌, if◌then◌else◌, length, take, drop, Result, ok, err, bit_or, not,
}
use ndn_cxx_logging.Base.Bytes.{be_to_host, host_to_be, be_to_host_from}

-- What the library throws while it reads or writes TLVs: tlv::Error and the classes below it, by
-- the message.
pub data Error : Type 0 where
  -- "Empty buffer during TLV processing", "Insufficient data during TLV processing"
  empty_buffer insufficient_data : Error
  -- "TLV type code exceeds allowed maximum", "Invalid length for nonNegativeInteger"
  type_exceeds_maximum invalid_integer_length : Error
  -- "TLV length doesn't match buffer length", "Not enough data in the buffer to fully parse TLV"
  length_mismatch not_enough_data : Error
  -- "TLV length exceeds buffer length", "TLV length mismatches buffer length"
  length_exceeds_buffer value_length_mismatch : Error
  -- "Length of block from stream is too large"
  stream_length_too_large : Error
  -- Block::Error: iterators outside the buffer, get of an absent type, an empty value, no wire, and
  -- an undefined size
  iterators_outside non_existed_type empty_value empty_wire undefined_size : Error
  -- name::Component::Error: neither type of component, the two digest errors of a URI, a digest of
  -- another size, "." and ".." in a URI, not a number, no such marker
  not_a_component bad_digest_size bad_digest_hex wrong_digest_length illegal_uri not_a_number
        no_marker :
      Error
  -- Name: a wire block of another type, an index out of bounds
  not_a_name out_of_bounds : Error
  -- KeyLocator, Exclude, Selectors and Data: a block of another type, a locator of an unknown kind or of
  -- another one, an exclude filter that is empty or has other elements, no wire, no SignatureValue, no
  -- SignatureType
  unexpected_type unsupported_locator other_locator empty_exclude bad_exclude not_signed
        not_a_signature_value no_signature_type :
      Error
  -- MetaInfo: an application block outside the range
  outside_application_range : Error

-- std::numeric_limits<uintN_t>::max()
abbrev pub max_uint8 : ℕ
max_uint8 = 255

abbrev pub max_uint16 : ℕ
max_uint16 = 65535

abbrev pub max_uint32 : ℕ
max_uint32 = 4294967295

-- A `k`-byte load and `beNtoh`, behind the test that the range holds `k` bytes.
pub load_be : ℕ → List ℕ → List ℕ × Option ℕ
load_be k rest =
    if ltb (length rest) k then (rest, none) else (drop k rest, some (be_to_host (take k rest)))

-- The overload that returns false on failure: what is left, and the number.
unfoldable pub try_read_var_number : List ℕ → List ℕ × Option ℕ
unfolding load_be
try_read_var_number [] = ([], none)
try_read_var_number (first_octet ∷ rest) =
    if ltb first_octet 253
    then (rest, some first_octet)
    else if first_octet == 253
    then load_be 2 rest
    else if first_octet == 254
    then load_be 4 rest
    else load_be 8 rest

unfoldable pub try_read_type : List ℕ → List ℕ × Option ℕ
try_read_type range =
    let (rest, number) = try_read_var_number range in
    elim number [
      | none ↦ (rest, none)
      | some n ↦ if ltb max_uint32 n then (rest, none) else (rest, some n)
    ]

-- The overloads that throw.
unfoldable pub read_var_number : List ℕ → Result Error (ℕ × List ℕ)
read_var_number [] = err empty_buffer
read_var_number (b ∷ range) =
    let (rest, number) = try_read_var_number (b ∷ range) in
    elim number [ none ↦ err insufficient_data | some value ↦ ok (value, rest) ]

unfoldable pub read_type : List ℕ → Result Error (ℕ × List ℕ)
read_type range = elim (read_var_number range) [
  | err e ↦ err e
  | ok (type, rest) ↦ if ltb max_uint32 type then err type_exceeds_maximum else ok (type, rest)
]

-- `for (; begin != end && count < k; ++count) value = (value << 8) | *begin++`, where `left` is
-- what `count` lacks to `k`: what is left, the rounds that did not happen, and `value`.
unfoldable pub shift_in : ℕ → List ℕ → ℕ → List ℕ × ℕ × ℕ
shift_in zero range value = (range, 0, value)
shift_in (suc left) [] value = ([], suc left, value)
shift_in (suc left) (b ∷ range) value = shift_in left range (bit_or (value * 256 % 2 ^ 64) b)

pub load_shift : ℕ → List ℕ → List ℕ × Option ℕ
load_shift k range =
    let (rest, missing, value) = shift_in k range 0 in
    if missing == 0 then (rest, some value) else (rest, none)

-- The specialisation for std::istream_iterator.
unfoldable pub try_read_var_number_stream : List ℕ → List ℕ × Option ℕ
unfolding load_shift shift_in
try_read_var_number_stream [] = ([], none)
try_read_var_number_stream (first_octet ∷ rest) =
    if ltb first_octet 253
    then (rest, some first_octet)
    else if first_octet == 253
    then load_shift 2 rest
    else if first_octet == 254
    then load_shift 4 rest
    else load_shift 8 rest

unfoldable pub size_of_var_number : ℕ → ℕ
size_of_var_number n =
    if ltb n 253 then 1 else if leb n max_uint16 then 3 else if leb n max_uint32 then 5 else 9

-- The stream behind the call, and the number of bytes that the call returns.
unfoldable pub write_var_number : List ℕ → ℕ → List ℕ × ℕ
write_var_number os n =
    if ltb n 253
    then (os ++ (n ∷ []), 1)
    else if leb n max_uint16
    then (os ++ (253 ∷ host_to_be 2 n), 3)
    else if leb n max_uint32
    then (os ++ (254 ∷ host_to_be 4 n), 5)
    else (os ++ (255 ∷ host_to_be 8 n), 9)

load_one : List ℕ → Result Error (ℕ × List ℕ)
load_one [] = err insufficient_data
load_one (value ∷ rest) = ok (value, rest)

-- `none` of `load_be` is the throw.
load_or_throw : List ℕ × Option ℕ → Result Error (ℕ × List ℕ)
load_or_throw (rest, none) = err insufficient_data
load_or_throw (rest, some value) = ok (value, rest)

unfoldable pub read_non_negative_integer : ℕ → List ℕ → Result Error (ℕ × List ℕ)
unfolding load_one load_or_throw load_be
read_non_negative_integer size range =
    if size == 1
    then load_one range
    else if size == 2
    then load_or_throw (load_be 2 range)
    else if size == 4
    then load_or_throw (load_be 4 range)
    else if size == 8
    then load_or_throw (load_be 8 range)
    else err invalid_integer_length

-- The specialisation for std::istream_iterator.
unfoldable pub read_non_negative_integer_stream : ℕ → List ℕ → Result Error (ℕ × List ℕ)
unfolding load_one load_or_throw load_shift shift_in
read_non_negative_integer_stream size range =
    if size == 1
    then load_one range
    else if size == 2
    then load_or_throw (load_shift 2 range)
    else if size == 4
    then load_or_throw (load_shift 4 range)
    else if size == 8
    then load_or_throw (load_shift 8 range)
    else err invalid_integer_length

unfoldable pub size_of_non_negative_integer : ℕ → ℕ
size_of_non_negative_integer n =
    if ltb n 253 then 1 else if leb n max_uint16 then 2 else if leb n max_uint32 then 4 else 8

unfoldable pub write_non_negative_integer : List ℕ → ℕ → List ℕ × ℕ
write_non_negative_integer os n =
    if ltb n 253
    then (os ++ (n ∷ []), 1)
    else if leb n max_uint16
    then (os ++ host_to_be 2 n, 2)
    else if leb n max_uint32
    then (os ++ host_to_be 4 n, 4)
    else (os ++ host_to_be 8 n, 8)

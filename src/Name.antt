-- ===== src/Name.antt =====
-- src/name.hpp and name.cpp: a name is a Block whose sub-blocks are components. The order is in
-- Name/Order.antt.
pub mod SubName
pub mod Order
pub mod Prefix
pub mod Wire
pub mod Uri
use ndn_cxx_logging.Base.{
  ℕ, zero, suc, ◌+◌, ◌-◌, ◌%◌, ◌^◌, ℤ, pos, negsuc, min, Bool, Option, none, some, List, ltb, leb,
  ◌==◌, if◌then◌else◌, length, get_elem?, Result, ok, err, ◌>>=◌,
}
use ndn_cxx_logging.Tlv.{Error}
use ndn_cxx_logging.Block
use ndn_cxx_logging.Block.{Block, elements, type, of_type}
use ndn_cxx_logging.Block.Elements.{push_back, parse, Ending, threw}
use ndn_cxx_logging.Component.{
  name_component, of_bytes, of_string, from_implicit_sha256_digest,
  from_implicit_sha256_digest_bytes,
}
use ndn_cxx_logging.Component.Number.{
  from_number, from_number_with_marker, from_version, from_segment, from_segment_offset,
  from_sequence_number,
}

-- tlv::Name
abbrev pub name_type : ℕ
name_type = 7

abbrev pub npos : ℕ
npos = 2 ^ 64 - 1

-- The one member, `m_nameBlock`.
abbrev pub Name : Type 0
Name = Block

-- Name(), and what clear() leaves.
abbrev pub empty_name : Name
empty_name = of_type name_type

-- Name(wire): the type is not tested.
unfoldable pub of_wire : Block → Name × Ending
of_wire wire = parse wire

-- wireDecode
unfoldable pub wire_decode : Name → Block → Name × Ending
wire_decode name wire =
    if type wire == name_type then parse wire else (name, threw Error.not_a_name)

abbrev pub size : Name → ℕ
size name = length (elements name)

-- get(i): `none` where the vector has no such element, which is undefined there.
unfoldable pub get : Name → ℤ → Option Block
get name (pos i) = get_elem? (elements name) i
get name (negsuc i) = get_elem? (elements name) ((size name + (2 ^ 64 - suc i)) % 2 ^ 64)

abbrev pub is_outside : Name → ℤ → Bool
is_outside name (pos i) = leb (size name) i
is_outside name (negsuc i) = ltb (size name) (suc i)

unfoldable pub at : Name → ℤ → Result Error Block
unfolding get
at name i =
    if is_outside name i
    then err Error.out_of_bounds
    else elim (get name i) [ none ↦ err Error.out_of_bounds | some c ↦ ok c ]

-- append(component), and push_back
unfoldable pub append : Name → Block → Name
append name component = push_back name component

-- append(block)
unfoldable pub append_block : Name → Block → Result Error Name
unfolding append
append_block name value =
    if type value == name_component
    then ok (append name value)
    else (do component ← Block.of_block name_component value; ok (append name component))

-- append(value, valueLength), and append(const char*)
unfoldable pub append_bytes : Name → List ℕ → Result Error Name
append_bytes name value = do component ← of_bytes value; ok (append name component)

unfoldable pub append_number : Name → ℕ → Result Error Name
append_number name number = do component ← from_number number; ok (append name component)

unfoldable pub append_number_with_marker : Name → ℕ → ℕ → Result Error Name
append_number_with_marker name marker number = do
  component ← from_number_with_marker marker number
  ok (append name component)

unfoldable pub append_version : Name → ℕ → Result Error Name
append_version name version = do component ← from_version version; ok (append name component)

unfoldable pub append_segment : Name → ℕ → Result Error Name
append_segment name segment_no = do component ← from_segment segment_no; ok (append name component)

unfoldable pub append_segment_offset : Name → ℕ → Result Error Name
append_segment_offset name offset = do
  component ← from_segment_offset offset
  ok (append name component)

unfoldable pub append_sequence_number : Name → ℕ → Result Error Name
append_sequence_number name seq_no = do
  component ← from_sequence_number seq_no
  ok (append name component)

unfoldable pub append_implicit_sha256_digest : Name → List ℕ → Result Error Name
append_implicit_sha256_digest name digest = do
  component ← from_implicit_sha256_digest digest
  ok (append name component)

-- The loop of append(name) and getSubName: `count` components of `name` from position `i`.
unfoldable pub append_range : ℕ → Name → ℕ → Name → Result Error Name
unfolding at append
append_range zero name i result = ok result
append_range (suc count) name i result = do
  component ← at name (pos i)
  append_range count name (suc i) (append result component)

-- append(name): a name that is appended to itself is copied first.
unfoldable pub append_name : Name → Name → Result Error Name
append_name name other = append_range (size other) other 0 name

-- `iStart`: the sum is of unsigned numbers, and what it gives as a signed one is at least 0.
unfoldable pub start_component : Name → ℤ → ℕ
start_component name (pos i) = i
start_component name (negsuc i) =
    let sum = (size name + (2 ^ 64 - suc i)) % 2 ^ 64 in if leb (2 ^ 63) sum then 0 else sum

unfoldable pub get_sub_name : Name → ℤ → ℕ → Result Error Name
unfolding append_range start_component
get_sub_name name i_start_component n_components =
    let start = start_component name i_start_component in
    let end =
      if n_components == npos
      then size name
      else min (size name) ((start + n_components) % 2 ^ 64) in
    append_range (end - start) name start empty_name

unfoldable pub get_prefix : Name → ℤ → Result Error Name
unfolding get_sub_name
get_prefix name (pos n_components) = get_sub_name name (pos 0) n_components
get_prefix name (negsuc k) = get_sub_name name (pos 0) ((size name + (2 ^ 64 - suc k)) % 2 ^ 64)

-- ===== src/Tests/NameTests.antt =====
-- Concrete runs of name.cpp, and the theorems about it at concrete inputs.
use Prim.Native.Nat.{Ordering}
use ndn_cxx_logging.Base.{
  ◌-◌, ◌^◌, ◌<◌, length, map, All, ◌^◌, ◌>>=◌, ◌≡◌, refl, negsuc, pos, [], ◌∷◌, false, ltb,
  if◌then◌else◌, take, ok, arith,
}
use ndn_cxx_logging.Block.{Block, elements, of_value}
use ndn_cxx_logging.Component.{name_component}
use ndn_cxx_logging.Component.Order as ComponentOrder
use ndn_cxx_logging.Name.{Name, size, at, get, get_sub_name, get_prefix}
use ndn_cxx_logging.Name.SubName.{
  name_of, first_component, sub_components, get_sub_name_lem, get_prefix_lem,
}
use ndn_cxx_logging.Name.Order.{
  compare, compare_ranges, compare_components, difference, equals, is_prefix_of,
}
use ndn_cxx_logging.Name.Order.Laws.{canonical, compare-canonical}
use ndn_cxx_logging.Block.{of_buffer}
use ndn_cxx_logging.Block.Elements.{returned}
use ndn_cxx_logging.Block.Rows.{tlvs}
use ndn_cxx_logging.Tlv.Format.{var_number}
use ndn_cxx_logging.Name.{empty_name, wire_decode}
use ndn_cxx_logging.Name.Wire.{wire_encode}
use ndn_cxx_logging.Encoding.Elements.{element}
use ndn_cxx_logging.Name.Wire.RoundTrip.{
  IsComponent, name_wire, parsed_name, wire_encode-wire_decode,
}
use ndn_cxx_logging.Name.Prefix.{is_prefix_of-get_prefix}

abbrev a : Block
a = of_value name_component (b'a' ∷ [])

abbrev b : Block
b = of_value name_component (b'b' ∷ [])

-- "/a", "/a/b" and "/b"
abbrev name_a : Name
name_a = name_of (a ∷ [])

abbrev name_ab : Name
name_ab = name_of (a ∷ b ∷ [])

abbrev name_b : Name
name_b = name_of (b ∷ [])

-- The last component but one, and what getPrefix(-3) gives for two components.
last_but_one : get_sub_name name_ab (negsuc 1) 1 ≡ ok name_a
last_but_one = get_sub_name_lem name_ab (negsuc 1) 1 (omega arith) (omega arith) (omega arith)

prefix_beyond : get_prefix name_ab (negsuc 2) ≡ ok name_ab
prefix_beyond = get_prefix_lem name_ab (negsuc 2) (omega arith) (omega arith)

get_sub_name_lem_example :
    get_sub_name name_ab (negsuc 0) 5
    ≡ ok (name_of (sub_components name_ab (first_component name_ab (negsuc 0)) 5))
get_sub_name_lem_example =
    get_sub_name_lem name_ab (negsuc 0) 5 (omega arith) (omega arith) (omega arith)

-- The name says "until the end", and is empty.
sub_name_wraps : get_sub_name name_ab (pos 2) (2 ^ 64 - 2) ≡ ok (name_of [])
sub_name_wraps =
    get_sub_name_lem name_ab (pos 2) (2 ^ 64 - 2) (omega arith) (omega arith) (omega arith)

get_prefix_lem_example :
    get_prefix name_ab (negsuc 0)
    ≡ ok (name_of (if ltb 0 (size name_ab) then take 1 (elements name_ab) else elements name_ab))
get_prefix_lem_example = get_prefix_lem name_ab (negsuc 0) (omega arith) (omega arith)

compare-canonical_example :
    compare name_a name_ab ≡ ok (canonical (elements name_a) (elements name_ab))
compare-canonical_example = compare-canonical name_a name_ab (omega arith) (omega arith)

a_before_ab : compare name_a name_ab ≡ ok Ordering.lt
unfolding compare compare_ranges compare_components difference at get ComponentOrder.compare
a_before_ab = refl

ab_before_b : compare name_ab name_b ≡ ok Ordering.lt
unfolding compare compare_ranges compare_components difference at get ComponentOrder.compare
ab_before_b = refl

is_prefix_of-get_prefix_example :
    (p : Name) × (get_prefix name_ab (pos (size name_a)) ≡ ok p)
    × (is_prefix_of name_a name_ab
        ≡ (if ltb (size name_ab) (size name_a) then false else equals name_a p))
is_prefix_of-get_prefix_example = is_prefix_of-get_prefix name_a name_ab (omega arith) (omega arith)

components_ab : All IsComponent (elements name_ab)
components_ab = ((omega arith, omega arith), ((omega arith, omega arith), tt))

bytes_ab : length (tlvs (map element (elements name_ab))) < 2 ^ 63
unfolding tlvs var_number
bytes_ab = omega arith

wire_encode-wire_decode_example :
    (wire_encode name_ab ≡ ok (parsed_name (elements name_ab), returned))
    × ((do block ← of_buffer (name_wire (elements name_ab)); ok (wire_decode empty_name block))
        ≡ ok (parsed_name (elements name_ab), returned))
wire_encode-wire_decode_example =
    wire_encode-wire_decode name_ab empty_name refl components_ab bytes_ab

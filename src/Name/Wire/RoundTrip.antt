-- ===== src/Name/Wire/RoundTrip.antt =====
-- name.cpp: wireEncode, and the way back through wireDecode.
use ndn_cxx_logging.Base.{
  ℕ, ◌^◌, ◌<◌, ◌≡◌, refl, false, List, [], ◌∷◌, map, length, arith, ok, ◌>>=◌, All,
}
use ndn_cxx_logging.Tlv.Format.{tlv, size_of_var_number_bounds}
use ndn_cxx_logging.Block.{Block, node, of_list, fields, elements, type, value, has_wire, of_buffer}
use ndn_cxx_logging.Block.Elements.{parse, returned}
use ndn_cxx_logging.Block.Wire.{whole, decode-tlv}
use ndn_cxx_logging.Block.Rows.{IsElement, tlvs, sub_block, parse-tlvs}
use ndn_cxx_logging.Encoding.{encode_alone}
use ndn_cxx_logging.Encoding.Parts.{Writes-component}
use ndn_cxx_logging.Encoding.Writes.{
  Writes, Writes-each, Writes-header, encode_alone-whole, length-tlv,
}
use ndn_cxx_logging.Encoding.Elements.{element, all_parts-tlvs}
use ndn_cxx_logging.Name.{Name, name_type, wire_decode}
use ndn_cxx_logging.Name.Wire.{wire_encode_components, wire_encode_to, wire_encode}

-- The components that go on the wire.
abbrev pub IsComponent : Block → Type 0
IsComponent c = (type c < 2 ^ 32) × (length (value c) < 2 ^ 63)

-- The encoding of the name of these components.
abbrev pub name_wire : List Block → List ℕ
name_wire cs = tlv name_type (tlvs (map element cs))

-- The parsed name over its own wire.
abbrev pub parsed_name : List Block → Name
parsed_name cs =
    node (fields (whole name_type (tlvs (map element cs))))
      (of_list (map (sub_block (name_wire cs)) (map element cs)))

-- A name writes the TLV of its components.
pub Writes-name :
    (name : Name)
    → All IsComponent (elements name)
    → length (tlvs (map element (elements name))) < 2 ^ 64
    → Writes (wire_encode_to name) (name_wire (elements name))
Writes-name name h l =
    Writes-header (wire_encode_components (elements name)) name_type
      (tlvs (map element (elements name)))
      (rw (← all_parts-tlvs (elements name)) (
        Writes-each IsComponent _ _ (λ c good. Writes-component c (omega arith)) (elements name) h))
      l

pub components-IsElement : (cs : List Block) → All IsComponent cs → All IsElement (map element cs)
components-IsElement [] h = tt
components-IsElement (c ∷ cs) h = ((h.0.0, omega (arith, h.0.1)), components-IsElement cs h.1)

parse-name :
    (cs : List Block)
    → All IsComponent cs
    → parse (whole name_type (tlvs (map element cs))) ≡ (parsed_name cs, returned)
parse-name cs h =
    parse-tlvs (fields (whole name_type (tlvs (map element cs)))) (map element cs)
      (components-IsElement cs h) refl

-- `wireEncode` of a name without a wire gives, without an error, the TLV of type Name over the TLVs
-- of the components' types and values in order, as the name's own buffer and wire, parsed into those
-- components. A block that is decoded from these bytes is the same name by `wireDecode`. For
-- components of 32-bit types, and fewer than 2^63 bytes of components.
pub wire_encode-wire_decode :
    (name other : Name)
    → has_wire name ≡ false
    → All IsComponent (elements name)
    → length (tlvs (map element (elements name))) < 2 ^ 63
    → (wire_encode name ≡ ok (parsed_name (elements name), returned))
      × ((do b ← of_buffer (name_wire (elements name)); ok (wire_decode other b))
          ≡ ok (parsed_name (elements name), returned))
unfolding wire_encode wire_decode
wire_encode-wire_decode name other hw h l =
    let v = tlvs (map element (elements name)) in
    let block : encode_alone (wire_encode_to name) ≡ ok (whole name_type v) =
      encode_alone-whole (wire_encode_to name) name_type v (Writes-name name h (omega arith))
        (omega arith)
        (omega (
          arith,
          length-tlv name_type v,
          size_of_var_number_bounds (length v),
          size_of_var_number_bounds name_type,
        )) in
    let decoded = (decode-tlv name_type v [] [] (omega arith) (omega arith)).0 in
    (
      rw (hw, block, parse-name (elements name) h) refl,
      rw (decoded, parse-name (elements name) h) refl,
    )

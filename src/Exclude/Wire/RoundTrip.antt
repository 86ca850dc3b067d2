-- ===== src/Exclude/Wire/RoundTrip.antt =====
-- exclude.cpp: wireEncode, and the way back through wireDecode.
use ndn_cxx_logging.Base.{
  ℕ, List, ◌^◌, ◌<◌, ◌≡◌, refl, true, false, not, [], map, length, arith, ok, ◌>>=◌, All, ◌==◌,
}
use ndn_cxx_logging.Tlv.Format.{tlv, size_of_var_number_bounds}
use ndn_cxx_logging.Block.{node, of_list, fields, has_wire, of_buffer}
use ndn_cxx_logging.Block.Elements.{returned}
use ndn_cxx_logging.Block.Parse.{to_list-of_list}
use ndn_cxx_logging.Block.Wire.{whole, decode-tlv}
use ndn_cxx_logging.Block.Rows.{tlvs, sub_block, parse-tlvs}
use ndn_cxx_logging.Encoding.Elements.{AllTyped-IsElement}
use ndn_cxx_logging.Encoding.Writes.{encode_alone-whole, length-tlv}
use ndn_cxx_logging.Exclude.{Exclude, clear}
use ndn_cxx_logging.Exclude.Order.{IsDescending}
use ndn_cxx_logging.Exclude.Wire.{exclude_type, wire_encode, wire_decode}
use ndn_cxx_logging.Exclude.Wire.Written.{
  IsKey, IsWritable, parts, parts_onto-AllTyped, Writes-exclude,
}
use ndn_cxx_logging.Exclude.Wire.Decoded.{shown, decode_elements-parts}

-- wireDecode of the sub-block of a filter
pub wire_decode-sub_block :
    (buffer : List ℕ) (e other : Exclude)
    → not (length e.exclude == 0) ≡ true
    → All IsKey e.exclude
    → IsDescending e.exclude
    → IsWritable e.exclude
    → length (tlvs (parts e.exclude)) < 2 ^ 62
    → (e2 : Exclude) × (wire_decode other (sub_block buffer (exclude_type, tlvs (parts e.exclude)))
        ≡ (e2, returned))
      × (map shown e2.exclude ≡ map shown e.exclude)
unfolding wire_decode clear
wire_decode-sub_block buffer e other some_item good sorted writable small =
    let es = parts e.exclude in
    let f = fields (sub_block buffer (exclude_type, tlvs es)) in
    let typed = parts_onto-AllTyped e.exclude [] good tt in
    let parsed = parse-tlvs f es (AllTyped-IsElement es typed (omega arith)) refl in
    let bs = map (sub_block buffer) es in
    let (e2, read, same) =
      decode_elements-parts buffer e.exclude (node f (of_list bs)) good sorted some_item writable in
    (e2, rw (parsed, to_list-of_list bs, read) refl, same)

-- wireEncode of a filter without a wire gives, without an error, the TLV of its items' elements, and
-- wireDecode of that into any filter returns, with the same components and the same Any marks in the
-- same order. The filter has an item, its components are generic or digests of 32 bytes and descend strictly, and
-- there are fewer than 2^62 bytes. With a digest in it, no item is the empty component with Any, which
-- is written as Any alone.
pub exclude-wire_decode :
    (e other : Exclude)
    → not (length e.exclude == 0) ≡ true
    → All IsKey e.exclude
    → IsDescending e.exclude
    → IsWritable e.exclude
    → has_wire e.wire ≡ false
    → length (tlvs (parts e.exclude)) < 2 ^ 62
    → (wire_encode e ≡ ok (record e { wire = whole exclude_type (tlvs (parts e.exclude)) }))
      × (e2 : Exclude) × ((do
        b ← of_buffer (tlv exclude_type (tlvs (parts e.exclude)))
        ok (wire_decode other b))
          ≡ ok (e2, returned))
      × (map shown e2.exclude ≡ map shown e.exclude)
unfolding wire_encode wire_decode clear
exclude-wire_decode e other some_item good sorted writable unwired small =
    let es = parts e.exclude in
    let v = tlvs es in
    let sizes = size_of_var_number_bounds (length v) in
    let type_size = size_of_var_number_bounds exclude_type in
    let whole_size = length-tlv exclude_type v in
    let (template, there, writes) = Writes-exclude e good some_item small in
    let encoded = encode_alone-whole template exclude_type v writes (omega arith) (omega arith) in
    let decoded = (decode-tlv exclude_type v [] [] (omega arith) (omega arith)).0 in
    let f = fields (whole exclude_type v) in
    let buffer = tlv exclude_type v in
    let typed = parts_onto-AllTyped e.exclude [] good tt in
    let parsed = parse-tlvs f es (AllTyped-IsElement es typed (omega arith)) refl in
    let bs = map (sub_block buffer) es in
    let (e2, read, same) =
      decode_elements-parts buffer e.exclude (node f (of_list bs)) good sorted some_item writable in
    (
      rw (unwired, there, encoded) refl,
      e2,
      rw (decoded, parsed, to_list-of_list bs, read) refl,
      same,
    )

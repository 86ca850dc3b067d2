-- ===== src/MetaInfo/RoundTrip.antt =====
-- meta-info.cpp: wireEncode, and the way back through wireDecode.
use ndn_cxx_logging.Base.{
  ℕ, ◌≡◌, refl, ap, false, List, [], ◌∷◌, ◌++◌, map, length, arith, ok, ◌>>=◌, All,
}
use ndn_cxx_logging.Tlv.Format.{tlv, size_of_var_number_bounds}
use ndn_cxx_logging.Block.{Block, node, of_list, fields, value, has_wire, of_buffer}
use ndn_cxx_logging.Block.Elements.{returned}
use ndn_cxx_logging.Block.Parse.{to_list-of_list}
use ndn_cxx_logging.Block.Wire.{whole, decode-tlv}
use ndn_cxx_logging.Block.Rows.{Element, IsElement, tlvs, sub_block, parse-tlvs}
use ndn_cxx_logging.Encoding.Writes.{encode_alone-whole, length-tlv}
use ndn_cxx_logging.Encoding.Elements.{
  element, AllTyped, AllTyped-append, AllTyped-if, AllTyped-IsElement,
}
use ndn_cxx_logging.MetaInfo.{
  MetaInfo, meta_info_type, content_type, freshness_period_type, final_block_id_type,
  wire_encode_to, wire_encode, wire_decode,
}
use ndn_cxx_logging.MetaInfo.Elements.{parts, kind_part, period_part, final_part, IsApplication}
use ndn_cxx_logging.MetaInfo.Decoded.{kind_stage, period_back, decoded_as}
use ndn_cxx_logging.MetaInfo.Written.{IsEncodable, Writes-parts}

AllTyped-apps : (bs : List Block) → All IsApplication bs → AllTyped (map element bs)
AllTyped-apps [] h = tt
AllTyped-apps (b ∷ bs) (h, hs) = (ground (arith, h.0), AllTyped-apps bs hs)

parts-IsElement : (m : MetaInfo) → IsEncodable m → All IsElement (parts m)
parts-IsElement m good =
    let typed : AllTyped (parts m) =
      AllTyped-append (kind_part m) (period_part m ++ (final_part m ++ map element m.app_meta_info))
        (AllTyped-if _ content_type _ (omega arith))
        (AllTyped-append (period_part m) (final_part m ++ map element m.app_meta_info)
          (AllTyped-if _ freshness_period_type _ (omega arith))
          (AllTyped-append (final_part m) (map element m.app_meta_info)
            (AllTyped-if _ final_block_id_type _ (omega arith))
            (AllTyped-apps m.app_meta_info good.apps))) in
    AllTyped-IsElement (parts m) typed (omega (arith, good.size))

found-behind :
    (buffer : List ℕ) (before bs : List Block)
    → map element (before ++ map (sub_block buffer) (map element bs))
      ≡ map element before ++ map element bs
found-behind buffer [] [] = refl
found-behind buffer [] (b ∷ bs) =
    ap (λ (l : List Element). element b ∷ l) (found-behind buffer [] bs)
found-behind buffer (b ∷ before) bs =
    ap (λ (l : List Element). element b ∷ l) (found-behind buffer before bs)

-- The wire of the object
abbrev pub wire_of : MetaInfo → List ℕ
wire_of m = tlv meta_info_type (tlvs (parts m))

-- wireEncode of an object without a wire gives, without an error, the TLV of its parts, and wireDecode of
-- that into any object returns: the content type is the one that was encoded, a freshness period that is not
-- negative too, and a negative one comes back as the smallest; the final block id has the same
-- value (none if it was left out), and the application's blocks stand, in order, behind those that
-- the object had before. The content type has 32 bits and the freshness period 64, the final block id is empty or
-- generic, the application's blocks have types of their range and a wire of their type and value, if
-- any, and there are fewer than 2^62 bytes.
pub meta_info-wire_decode :
    (m other : MetaInfo)
    → IsEncodable m
    → has_wire m.wire ≡ false
    → (wire_encode m ≡ ok (record m { wire = whole meta_info_type (tlvs (parts m)) }))
      × (m2 : MetaInfo) × ((do b ← of_buffer (wire_of m); ok (wire_decode other b))
          ≡ ok (m2, returned))
      × (m2.kind ≡ m.kind)
      × (m2.freshness_period ≡ period_back m.freshness_period)
      × (value m2.final_block_id ≡ value m.final_block_id)
      × (map element m2.app_meta_info
          ≡ map element other.app_meta_info ++ map element m.app_meta_info)
unfolding wire_encode wire_decode
meta_info-wire_decode m other good unwired =
    let v = tlvs (parts m) in
    let sizes = size_of_var_number_bounds (length v) in
    let encoded =
      encode_alone-whole (wire_encode_to m) meta_info_type v (Writes-parts m good) (omega arith) (
        omega (
          arith,
          good.size,
          length-tlv meta_info_type v,
          size_of_var_number_bounds meta_info_type,
        )) in
    let decoded = (decode-tlv meta_info_type v [] [] (omega arith) (omega (arith, good.size))).0 in
    let f = fields (whole meta_info_type v) in
    let bs = map (sub_block (wire_of m)) (parts m) in
    let parsed = parse-tlvs f (parts m) (parts-IsElement m good) refl in
    let m0 = record other { wire = node f (of_list bs) } in
    let (c, read, same) = kind_stage (wire_of m) m good.apps m0 good.kind good.final good.period in
    (
      rw (unwired, encoded) refl,
      (decoded_as (wire_of m) m good.apps m0 m.kind (period_back m.freshness_period) c).0,
      rw (decoded, parsed, to_list-of_list bs, read) refl,
      refl,
      refl,
      same,
      found-behind (wire_of m) other.app_meta_info m.app_meta_info,
    )

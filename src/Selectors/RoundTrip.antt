-- ===== src/Selectors/RoundTrip.antt =====
-- selectors.cpp: wireEncode, and the way back through wireDecode.
use ndn_cxx_logging.Base.{
  ℕ, ◌≡◌, refl, is_negative, false, not, List, [], map, length, arith, ok, ◌>>=◌, All,
}
use ndn_cxx_logging.Tlv.Format.{tlv, size_of_var_number_bounds}
use ndn_cxx_logging.Block.{node, of_list, fields, has_wire, of_buffer}
use ndn_cxx_logging.Block.Elements.{returned}
use ndn_cxx_logging.Block.Parse.{to_list-of_list}
use ndn_cxx_logging.Block.Wire.{whole, decode-tlv}
use ndn_cxx_logging.Block.Rows.{IsElement, tlvs, sub_block, parse-tlvs}
use ndn_cxx_logging.Encoding.Elements.{AllTyped-append, AllTyped-if, AllTyped-IsElement}
use ndn_cxx_logging.Encoding.Writes.{encode_alone-whole, length-tlv}
use ndn_cxx_logging.Exclude.Order.{IsDescending}
use ndn_cxx_logging.Exclude.Wire.Decoded.{shown}
use ndn_cxx_logging.KeyLocator.RoundTrip.{SameKey}
use ndn_cxx_logging.Selectors.{
  Selectors, selectors_type, wire_encode, wire_decode, min_suffix_components_type,
  max_suffix_components_type, child_selector_type, must_be_fresh_type,
}
use ndn_cxx_logging.Selectors.Parts.{
  part, number_element, has_locator, has_exclude, locator_element, exclude_element, parts,
  IsEncodable, Writes-selectors,
}
use ndn_cxx_logging.Selectors.Stages.{
  decoding, min_stage, max_stage, locator_stage, exclude_stage, child_stage, fresh_stage,
}
use ndn_cxx_logging.Selectors.Values.{IsInt, int_back}

parts-IsElement : (s : Selectors) → IsEncodable s → All IsElement (parts s)
parts-IsElement s good =
    AllTyped-IsElement (parts s)
      (AllTyped-append
        (part (not (is_negative s.min_suffix_components))
          (number_element min_suffix_components_type s.min_suffix_components))
        _ (AllTyped-if (not (is_negative s.min_suffix_components)) _ _ (omega arith))
        (AllTyped-append
          (part (not (is_negative s.max_suffix_components))
            (number_element max_suffix_components_type s.max_suffix_components))
          _ (AllTyped-if (not (is_negative s.max_suffix_components)) _ _ (omega arith))
          (AllTyped-append (part (has_locator s) (locator_element s)) _
            (AllTyped-if (has_locator s) _ _ (omega arith))
            (AllTyped-append (part (has_exclude s) (exclude_element s)) _
              (AllTyped-if (has_exclude s) _ _ (omega arith))
              (AllTyped-append
                (part (not (is_negative s.child_selector))
                  (number_element child_selector_type s.child_selector))
                _ (AllTyped-if (not (is_negative s.child_selector)) _ _ (omega arith))
                (AllTyped-append (part s.must_be_fresh (must_be_fresh_type, [])) []
                  (AllTyped-if s.must_be_fresh _ _ (omega arith)) tt))))))
      (omega (arith, good.size))

-- The wire of the object
abbrev pub wire_of : Selectors → List ℕ
wire_of s = tlv selectors_type (tlvs (parts s))

-- wireEncode of an object without a wire gives, without an error, the TLV of its parts, and wireDecode of
-- that into any object returns: the three numbers are those that were encoded, where a negative one
-- comes back as -1; the key locator has the same kind and the same name or digest, the exclude filter
-- the same entries in the same order, and mustBeFresh is the same. The numbers have 32 bits with a sign; the
-- key locator is none, a name of components whose types have 32 bits, or a KeyDigest block whose wire, if it
-- has one, is that of its value; the entries of the exclude filter are generic
-- components or digests of 32 bytes in descending order, and if a digest is one, none is the empty component with Any;
-- and there are fewer than 2^62 bytes.
pub selectors-wire_decode :
    (s other : Selectors)
    → IsEncodable s
    → IsInt s.min_suffix_components
    → IsInt s.max_suffix_components
    → IsInt s.child_selector
    → IsDescending s.exclude.exclude
    → has_wire s.wire ≡ false
    → (wire_encode s ≡ ok (record s { wire = whole selectors_type (tlvs (parts s)) }))
      × (s2 : Selectors) × ((do b ← of_buffer (wire_of s); ok (wire_decode other b))
          ≡ ok (s2, returned))
      × (s2.min_suffix_components ≡ int_back s.min_suffix_components)
      × (s2.max_suffix_components ≡ int_back s.max_suffix_components)
      × (s2.publisher_public_key_locator.kind ≡ s.publisher_public_key_locator.kind)
      × SameKey s.publisher_public_key_locator.kind s.publisher_public_key_locator
          s2.publisher_public_key_locator
      × (map shown s2.exclude.exclude ≡ map shown s.exclude.exclude)
      × (s2.child_selector ≡ int_back s.child_selector)
      × (s2.must_be_fresh ≡ s.must_be_fresh)
unfolding wire_encode wire_decode
selectors-wire_decode s other good least_int most_int child_int sorted unwired =
    let v = tlvs (parts s) in
    let (template, encoding, writes) = Writes-selectors s good in
    let sizes = size_of_var_number_bounds (length v) in
    let encoded = encode_alone-whole template selectors_type v writes (omega arith) (
      omega (
        arith,
        good.size,
        length-tlv selectors_type v,
        size_of_var_number_bounds selectors_type,
      )) in
    let decoded = (decode-tlv selectors_type v [] [] (omega arith) (omega (arith, good.size))).0 in
    let f = fields (whole selectors_type v) in
    let bs = map (sub_block (wire_of s)) (parts s) in
    let parsed = parse-tlvs f (parts s) (parts-IsElement s good) refl in
    let w = node f (of_list bs) in
    let least = int_back s.min_suffix_components in
    let most = int_back s.max_suffix_components in
    let child = int_back s.child_selector in
    let written = to_list-of_list bs in
    let min_read = min_stage (wire_of s) s w written least_int in
    let max_read = max_stage (wire_of s) s w written least most_int in
    let (k, locator_read, kind, same) =
      locator_stage (wire_of s) s w written least most good.locator in
    let (x, exclude_read, shows) = exclude_stage (wire_of s) s w written least most k good sorted in
    let child_read = child_stage (wire_of s) s w written least most k x child_int in
    let fresh_read = fresh_stage (wire_of s) s w written least most k x child in
    (
      rw (unwired, encoding, encoded) refl,
      decoding (wire_of s) s w written least most k x child s.must_be_fresh,
      rw (decoded, parsed, min_read, max_read, locator_read, exclude_read, child_read, fresh_read)
          refl,
      refl,
      refl,
      kind,
      same,
      shows,
      refl,
      refl,
    )

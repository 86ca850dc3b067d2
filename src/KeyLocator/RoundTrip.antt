-- ===== src/KeyLocator/RoundTrip.antt =====
-- key-locator.cpp: wireEncode, and the way back through wireDecode.
use ndn_cxx_logging.Base.{
  ℕ, ◌^◌, ◌<◌, ◌≡◌, refl, sym, false, some, List, [], ◌∷◌, map, length, arith, ok, ◌>>=◌, All,
}
use ndn_cxx_logging.Tlv.Format.{tlv, size_of_var_number_bounds}
use ndn_cxx_logging.Block.{node, of_list, fields, elements, type, value, has_wire, of_buffer}
use ndn_cxx_logging.Block.Elements.{returned}
use ndn_cxx_logging.Block.Parse.{to_list-of_list}
use ndn_cxx_logging.Block.Wire.{whole, decode-tlv}
use ndn_cxx_logging.Block.Rows.{Element, IsElement, tlvs, sub_block, parse-tlvs}
use ndn_cxx_logging.Encoding.{Template, nothing, ◌▸◌, close, block}
use ndn_cxx_logging.Encoding.Elements.{
  element, IsEncoded, Writes-block, Writes-single, element-sub_block,
}
use ndn_cxx_logging.Encoding.Writes.{
  Writes, Writes-nothing, Writes-header, encode_alone-whole, length-tlv,
}
use ndn_cxx_logging.KeyLocator.{
  KeyLocator, LocatorType, key_locator_name, key_locator_key_digest, key_locator_unknown,
  key_locator_none, key_locator_type, key_digest_type, wire_encode_to, wire_encode, wire_decode,
  decode_elements,
}
use ndn_cxx_logging.Name.{name_type}
use ndn_cxx_logging.Name as NameOperations
use ndn_cxx_logging.Name.Wire as NameWire
use ndn_cxx_logging.Name.Wire.RoundTrip.{IsComponent, Writes-name, components-IsElement}
use mathlib.Core.List.{append-nil}
use mathlib.Core.Path.{subst}

-- The element inside, by the kind of the locator
abbrev pub part_of : LocatorType → KeyLocator → List Element
part_of key_locator_none k = []
part_of key_locator_name k = (name_type, tlvs (map element (elements k.name))) ∷ []
part_of key_locator_key_digest k = element k.key_digest ∷ []
part_of key_locator_unknown k = []

-- What wireEncode is given: a name of components, a digest block, or nothing.
abbrev pub IsLocator : LocatorType → KeyLocator → Type 0
IsLocator key_locator_none k = Unit
IsLocator key_locator_name k =
    All IsComponent (elements k.name) × (length (tlvs (map element (elements k.name))) < 2 ^ 61)
IsLocator key_locator_key_digest k =
    (type k.key_digest ≡ key_digest_type)
    × (length (value k.key_digest) < 2 ^ 61)
    × IsEncoded k.key_digest
IsLocator key_locator_unknown k = ⊥

-- A locator of the same kind with the same name or digest
abbrev pub SameKey : LocatorType → KeyLocator → KeyLocator → Type 0
SameKey key_locator_none k other = Unit
SameKey key_locator_name k other = map element (elements other.name) ≡ map element (elements k.name)
SameKey key_locator_key_digest k other = element other.key_digest ≡ element k.key_digest
SameKey key_locator_unknown k other = ⊥

-- The template of a kind, behind the switch
abbrev inner : LocatorType → KeyLocator → Template
inner key_locator_none k = nothing
inner key_locator_name k = nothing ▸ NameWire.wire_encode_to k.name
inner key_locator_key_digest k = nothing ▸ block k.key_digest
inner key_locator_unknown k = nothing

part_size :
    (kind : LocatorType) (k : KeyLocator)
    → IsLocator kind k
    → length (tlvs (part_of kind k)) < 2 ^ 62
unfolding tlvs
part_size key_locator_none k good = omega arith
part_size key_locator_name k good =
    let v = tlvs (map element (elements k.name)) in
    let whole_size = length-tlv name_type v in
    let sizes = size_of_var_number_bounds (length v) in
    let type_size = size_of_var_number_bounds name_type in
    rw (append-nil (tlv name_type v)) (omega (arith, good.1))
part_size key_locator_key_digest k good =
    let v = value k.key_digest in
    let t = type k.key_digest in
    let whole_size = length-tlv t v in
    let sizes = size_of_var_number_bounds (length v) in
    let type_size = size_of_var_number_bounds t in rw (append-nil (tlv t v)) (omega (arith, good.1))
part_size key_locator_unknown k good = absurd good

Writes-inner :
    (kind : LocatorType) (k : KeyLocator)
    → IsLocator kind k
    → Writes (inner kind k) (tlvs (part_of kind k))
unfolding tlvs
Writes-inner key_locator_none k good = Writes-nothing
Writes-inner key_locator_name k good =
    subst (λ l. Writes (inner key_locator_name k) l) (sym (append-nil _))
      (Writes-single (NameWire.wire_encode_to k.name) _
        (Writes-name k.name good.0 (omega (arith, good.1))))
Writes-inner key_locator_key_digest k good =
    subst (λ l. Writes (inner key_locator_key_digest k) l) (sym (append-nil _))
      (Writes-single (block k.key_digest) _
        (Writes-block k.key_digest good.2 (omega (arith, good.1))))
Writes-inner key_locator_unknown k good = absurd good

wire_encode_to-inner :
    (kind : LocatorType) (k : KeyLocator)
    → k.kind ≡ kind
    → IsLocator kind k
    → wire_encode_to k ≡ some (close key_locator_type (inner kind k))
wire_encode_to-inner key_locator_none k h good = rw h refl
wire_encode_to-inner key_locator_name k h good = rw h refl
wire_encode_to-inner key_locator_key_digest k h good = rw h refl
wire_encode_to-inner key_locator_unknown k h good = absurd good

-- What wireEncode writes
pub Writes-key_locator :
    (k : KeyLocator)
    → IsLocator k.kind k
    → (template : Template) × (wire_encode_to k ≡ some template)
      × Writes template (tlv key_locator_type (tlvs (part_of k.kind k)))
Writes-key_locator k good = (
  close key_locator_type (inner k.kind k),
  wire_encode_to-inner k.kind k refl good,
  Writes-header (inner k.kind k) key_locator_type (tlvs (part_of k.kind k))
      (Writes-inner k.kind k good) (omega (arith, part_size k.kind k good)),
)

part-IsElement :
    (kind : LocatorType) (k : KeyLocator) → IsLocator kind k → All IsElement (part_of kind k)
part-IsElement key_locator_none k good = tt
part-IsElement key_locator_name k good = ((omega arith, omega (arith, good.1)), tt)
part-IsElement key_locator_key_digest k good = ((omega (arith, good.0), omega (arith, good.1)), tt)
part-IsElement key_locator_unknown k good = tt

decode_elements-part :
    (buffer : List ℕ) (kind : LocatorType) (k other : KeyLocator)
    → IsLocator kind k
    → (k2 : KeyLocator) × (decode_elements other (map (sub_block buffer) (part_of kind k))
        ≡ (k2, returned))
      × (k2.kind ≡ kind)
      × SameKey kind k k2
unfolding decode_elements NameOperations.wire_decode
decode_elements-part buffer key_locator_none k other good =
    (record other { kind = key_locator_none }, refl, refl, tt)
decode_elements-part buffer key_locator_name k other good =
    let es = map element (elements k.name) in
    let b = sub_block buffer (name_type, tlvs es) in
    let parsed = parse-tlvs (fields b) es (components-IsElement (elements k.name) good.0) refl in
    (
      record other {
        kind = key_locator_name;
        name = node (fields b) (of_list (map (sub_block buffer) es));
      },
      rw parsed refl,
      refl,
      rw (to_list-of_list (map (sub_block buffer) es)) (element-sub_block buffer es),
    )
decode_elements-part buffer key_locator_key_digest k other good = (
  record other {
    kind = key_locator_key_digest;
    key_digest = sub_block buffer (element k.key_digest);
  },
  rw good.0 refl,
  refl,
  refl,
)
decode_elements-part buffer key_locator_unknown k other good = absurd good

-- wireDecode of the sub-block of a locator
pub wire_decode-sub_block :
    (buffer : List ℕ) (k other : KeyLocator)
    → IsLocator k.kind k
    → (k2 : KeyLocator) × (wire_decode other
          (sub_block buffer (key_locator_type, tlvs (part_of k.kind k)))
        ≡ (k2, returned))
      × (k2.kind ≡ k.kind)
      × SameKey k.kind k k2
unfolding wire_decode
wire_decode-sub_block buffer k other good =
    let es = part_of k.kind k in
    let f = fields (sub_block buffer (key_locator_type, tlvs es)) in
    let parsed = parse-tlvs f es (part-IsElement k.kind k good) refl in
    let bs = map (sub_block buffer) es in
    let m0 : KeyLocator = record other { wire = node f (of_list bs) } in
    let (k2, read, kind, same) = decode_elements-part buffer k.kind k m0 good in
    (k2, rw (parsed, to_list-of_list bs, read) refl, kind, same)

-- wireEncode of a locator without a wire gives, without an error, the TLV of its name, its digest or
-- nothing, and wireDecode of that into any locator returns, with the same kind, and a name of the
-- same components or the same digest. The locator is of a known kind, the components have 32-bit
-- types, the digest block has the type KeyDigest and a wire of its type and value, if any, and
-- there are fewer than 2^61 bytes.
pub key_locator-wire_decode :
    (k other : KeyLocator)
    → IsLocator k.kind k
    → has_wire k.wire ≡ false
    → (wire_encode k ≡ ok (record k { wire = whole key_locator_type (tlvs (part_of k.kind k)) }))
      × (k2 : KeyLocator) × ((do
        b ← of_buffer (tlv key_locator_type (tlvs (part_of k.kind k)))
        ok (wire_decode other b))
          ≡ ok (k2, returned))
      × (k2.kind ≡ k.kind)
      × SameKey k.kind k k2
unfolding wire_encode wire_decode
key_locator-wire_decode k other good unwired =
    let es = part_of k.kind k in
    let v = tlvs es in
    let small = part_size k.kind k good in
    let sizes = size_of_var_number_bounds (length v) in
    let type_size = size_of_var_number_bounds key_locator_type in
    let whole_size = length-tlv key_locator_type v in
    let (template, there, writes) = Writes-key_locator k good in
    let encoded =
      encode_alone-whole template key_locator_type v writes (omega arith) (omega arith) in
    let decoded = (decode-tlv key_locator_type v [] [] (omega arith) (omega arith)).0 in
    let f = fields (whole key_locator_type v) in
    let bs = map (sub_block (tlv key_locator_type v)) es in
    let parsed = parse-tlvs f es (part-IsElement k.kind k good) refl in
    let m0 : KeyLocator = record other { wire = node f (of_list bs) } in
    let (k2, read, kind, same) = decode_elements-part (tlv key_locator_type v) k.kind k m0 good in
    (
      rw (unwired, there, encoded) refl,
      k2,
      rw (decoded, parsed, to_list-of_list bs, read) refl,
      kind,
      same,
    )

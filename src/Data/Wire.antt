-- ===== src/Data/Wire.antt =====
-- src/data.cpp: the wire of a Data packet.
use ndn_cxx_logging.Base.{ℕ, length, if◌then◌else◌, none, some}
use ndn_cxx_logging.Base.Bytes.{add64}
use ndn_cxx_logging.Tlv.{Error}
use ndn_cxx_logging.Encoder
use ndn_cxx_logging.Encoder.{Encoder}
use ndn_cxx_logging.Encoder.Blocks
use ndn_cxx_logging.Block.{Block, has_wire, of_encoder}
use ndn_cxx_logging.Block.Elements.{parse, encode, get, find, Ending, returned, threw}
use ndn_cxx_logging.Encoding.{Template, nothing, ◌▸◌, close, block, encode_alone, and_then, reading}
use ndn_cxx_logging.MetaInfo.{meta_info_type}
use ndn_cxx_logging.MetaInfo as Meta
use ndn_cxx_logging.Name.{empty_name, name_type}
use ndn_cxx_logging.Name as NameOperations
use ndn_cxx_logging.Name.Wire as NameWire
use ndn_cxx_logging.Signature.{
  is_signed, set_info, set_value, signature_info_type, signature_value_type,
}
use ndn_cxx_logging.Data.{Data, content_type, content_of}

-- tlv::Data
abbrev pub data_type : ℕ
data_type = 6

-- The parts in front of the signature's value, onto what is encoded already. The content of `d` and the
-- signature's value are encoded.
abbrev pub unsigned_portion : Template → Data → Template
unsigned_portion total d =
    total
    ▸ block d.signature.info
    ▸ block d.content
    ▸ Meta.wire_encode_to d.meta_info
    ▸ NameWire.wire_encode_to d.name

-- wireEncode(EncodingImpl<TAG>), of a signed packet and with the signature's value
abbrev pub wire_encode_to : Data → Template
wire_encode_to d = close data_type (unsigned_portion (nothing ▸ block d.signature.value) d)

-- One step of wireDecode each, on the elements of `m_wire`
unfoldable pub decode_name : Data → Data × Ending
decode_name d = reading (get d.wire name_type) d (λ b.
    let (name, ending) = NameOperations.wire_decode d.name b in (record d { name = name }, ending))

unfoldable pub decode_meta_info : Data → Data × Ending
decode_meta_info d =
    reading (get d.wire meta_info_type) d (λ b.
      let (m, ending) = Meta.wire_decode d.meta_info b in (record d { meta_info = m }, ending))

unfoldable pub decode_content : Data → Data × Ending
decode_content d = reading (get d.wire content_type) d (λ b. (record d { content = b }, returned))

unfoldable pub decode_signature_info : Data → Data × Ending
decode_signature_info d = reading (get d.wire signature_info_type) d (λ b.
    let (signature, ending) = set_info d.signature b in
    (record d { signature = signature }, ending))

unfoldable pub decode_signature_value : Data → Data × Ending
decode_signature_value d = elim (find d.wire signature_value_type) [
  | none ↦ (d, returned)
  | some b ↦
      let (signature, ending) = set_value d.signature b in
      (record d { signature = signature }, ending)
]

unfoldable pub wire_decode : Data → Block → Data × Ending
unfolding decode_name decode_meta_info decode_content decode_signature_info decode_signature_value
wire_decode d wire =
    let (parsed, ending) = parse wire in
    and_then
      (and_then
        (and_then
          (and_then
            (and_then (record d { full_name = empty_name; wire = parsed }, ending) decode_name)
            decode_meta_info)
          decode_content)
        decode_signature_info)
      decode_signature_value

-- wireEncode(): getValue() encodes the signature's value, getContent() the content, both in place.
unfoldable pub wire_encode : Data → Data × Ending
unfolding wire_decode
wire_encode d =
    if has_wire d.wire
    then (d, returned)
    else if is_signed d.signature
    then reading (encode d.signature.value) d (λ value.
      let d1 = record d { signature = record d.signature { value = value } } in
      reading (content_of d1) d1 (λ content.
        let d2 = record d1 { content = content } in
        reading (encode_alone (wire_encode_to d2)) d2 (λ b. wire_decode d2 b)))
    else (d, threw Error.not_signed)

-- wireEncode(EncodingBuffer, signatureValue): the value goes behind the unsigned portion.
unfoldable pub wire_encode_signed : Data → Encoder → Block → Data × Ending
unfolding wire_decode
wire_encode_signed d encoder signature_value =
    let (e1, value_size) = Blocks.append_block encoder signature_value in
    let total_length = add64 (length (Encoder.content encoder)) value_size in
    let e2 = (Encoder.prepend_var_number e1 total_length).0 in
    let e3 = (Encoder.prepend_var_number e2 data_type).0 in
    reading (of_encoder e3) d (λ b. wire_decode d b)

-- ===== src/Signature.antt =====
-- src/signature-info.cpp and signature.cpp: the signature of a packet, as it is decoded.
use ndn_cxx_logging.Base.{
  ℕ, ℤ, pos, negsuc, not, to_signed, Bool, true, false, List, [], ◌∷◌, ◌++◌, ◌==◌, if◌then◌else◌,
}
use ndn_cxx_logging.Tlv.{Error}
use ndn_cxx_logging.Block.{Block, type, elements, has_wire, empty_block}
use ndn_cxx_logging.Block.Elements.{parse, Ending, returned, threw, reset}
use ndn_cxx_logging.BlockHelpers.{read_non_negative_integer_block}
use ndn_cxx_logging.Encoding.{and_then, reading}
use ndn_cxx_logging.KeyLocator.{KeyLocator, empty_key_locator, key_locator_type}
use ndn_cxx_logging.KeyLocator as Locator

-- tlv::SignatureInfo, tlv::SignatureValue and tlv::SignatureType
abbrev pub signature_info_type : ℕ
signature_info_type = 22

abbrev pub signature_value_type : ℕ
signature_value_type = 23

abbrev pub signature_type : ℕ
signature_type = 27

-- `kind` is `m_type`, of 32 bits with a sign; -1 is none.
pub record SignatureInfo : Type 0 where
  pub kind : ℤ
  pub has_key_locator : Bool
  pub key_locator : KeyLocator
  pub other_tlvs : List Block
  pub wire : Block

abbrev pub empty_signature_info : SignatureInfo
empty_signature_info = record {
  kind = negsuc 0;
  has_key_locator = false;
  key_locator = empty_key_locator;
  other_tlvs = [];
  wire = empty_block;
}

-- appendTypeSpecificTlv, for the elements that are left
abbrev pub append_tlvs : SignatureInfo → List Block → SignatureInfo
append_tlvs s bs = record s { other_tlvs = s.other_tlvs ++ bs }

-- wireDecode behind the signature type
unfoldable pub decode_key_locator : SignatureInfo → List Block → SignatureInfo × Ending
decode_key_locator s [] = (s, returned)
decode_key_locator s (it ∷ behind) =
    if type it == key_locator_type
    then (let (k, ending) = Locator.wire_decode s.key_locator it in
        and_then (record s { key_locator = k }, ending)
          (λ s1. (append_tlvs (record s1 { has_key_locator = true }) behind, returned)))
    else (append_tlvs s (it ∷ behind), returned)

unfoldable pub decode_elements : SignatureInfo → List Block → SignatureInfo × Ending
unfolding decode_key_locator
decode_elements s [] = (s, threw Error.no_signature_type)
decode_elements s (it ∷ behind) =
    if type it == signature_type
    then reading (read_non_negative_integer_block it) s
        (λ n. decode_key_locator (record s { kind = to_signed 32 n }) behind)
    else (s, threw Error.no_signature_type)

unfoldable pub wire_decode : SignatureInfo → Block → SignatureInfo × Ending
unfolding decode_elements
wire_decode s wire =
    if has_wire wire
    then (let (parsed, ending) = parse wire in
        and_then (record s { has_key_locator = false; wire = parsed }, ending)
          (λ s1.
            if type wire == signature_info_type
            then decode_elements s1 (elements parsed)
            else (s1, threw Error.unexpected_type)))
    else (s, threw Error.not_signed)

abbrev pub set_signature_type : SignatureInfo → ℤ → SignatureInfo
set_signature_type s t = record s { wire = reset s.wire; kind = t }

abbrev pub set_key_locator : SignatureInfo → KeyLocator → SignatureInfo
set_key_locator s k = record s { wire = reset s.wire; key_locator = k; has_key_locator = true }

abbrev pub unset_key_locator : SignatureInfo → SignatureInfo
unset_key_locator s = record s {
  wire = reset s.wire;
  key_locator = empty_key_locator;
  has_key_locator = false;
}

-- `kind` is the type of `m_info`, and `info` is what getInfo() gives: the wire of `m_info`.
pub record Signature : Type 0 where
  pub kind : ℤ
  pub info : Block
  pub value : Block

-- operator bool
abbrev pub is_signed : Signature → Bool
is_signed s = elim s.kind [ pos t ↦ true | negsuc k ↦ not (k == 0) ]

-- setInfo(Block): a new SignatureInfo is decoded, and assigned if that returns.
unfoldable pub set_info : Signature → Block → Signature × Ending
unfolding wire_decode
set_info s wire =
    let (info, ending) = wire_decode empty_signature_info wire in
    and_then (s, ending) (λ s1. (record s1 { kind = info.kind; info = info.wire }, returned))

unfoldable pub set_value : Signature → Block → Signature × Ending
set_value s value =
    if type value == signature_value_type
    then (record s { value = value }, returned)
    else (s, threw Error.not_a_signature_value)

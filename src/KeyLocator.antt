-- ===== src/KeyLocator.antt =====
-- src/key-locator.hpp and key-locator.cpp: the key that a signature was made with.
pub mod RoundTrip
use ndn_cxx_logging.Base.{
  ℕ, Bool, true, false, Option, none, some, List, [], ◌∷◌, ◌==◌, if◌then◌else◌, Result, ok, err,
  ◌>>=◌,
}
use ndn_cxx_logging.Tlv.{Error}
use ndn_cxx_logging.Block.{Block, type, elements, has_wire, empty_block}
use ndn_cxx_logging.Block.Elements.{parse, reset, Ending, returned, threw, stuck}
use ndn_cxx_logging.BlockHelpers.{make_binary_block}
use ndn_cxx_logging.Block.Elements as BlockElements
use ndn_cxx_logging.Encoding.{Template, nothing, ◌▸◌, close, block, encode_alone, and_then}
use ndn_cxx_logging.Name.{Name, name_type, empty_name}
use ndn_cxx_logging.Name as NameOperations
use ndn_cxx_logging.Name.Wire as NameWire

-- tlv::KeyLocator and tlv::KeyDigest
abbrev pub key_locator_type : ℕ
key_locator_type = 28

abbrev pub key_digest_type : ℕ
key_digest_type = 29

-- KeyLocator::Type
pub data LocatorType : Type 0 where
  key_locator_name key_locator_key_digest key_locator_unknown key_locator_none : LocatorType

pub record KeyLocator : Type 0 where
  pub kind : LocatorType
  pub name : Name
  pub key_digest : Block
  pub wire : Block

-- KeyLocator()
abbrev pub empty_key_locator : KeyLocator
empty_key_locator = record {
  kind = key_locator_none;
  name = empty_name;
  key_digest = empty_block;
  wire = empty_block;
}

-- wireEncode(EncodingImpl<TAG>), or `none` where it throws.
abbrev pub wire_encode_to : KeyLocator → Option Template
wire_encode_to k = elim k.kind [
  | key_locator_none ↦ some (close key_locator_type nothing)
  | key_locator_name ↦ some (close key_locator_type (nothing ▸ NameWire.wire_encode_to k.name))
  | key_locator_key_digest ↦ some (close key_locator_type (nothing ▸ block k.key_digest))
  | key_locator_unknown ↦ none
]

-- wireEncode(): the locator with its wire.
unfoldable pub wire_encode : KeyLocator → Result Error KeyLocator
wire_encode k = if has_wire k.wire then ok k else elim (wire_encode_to k) [
  | none ↦ err Error.unsupported_locator
  | some template ↦ do wire ← encode_alone template; ok (record k { wire = wire })
]

-- What wireDecode does with the elements of `m_wire`.
unfoldable pub decode_elements : KeyLocator → List Block → KeyLocator × Ending
decode_elements k [] = (record k { kind = key_locator_none }, returned)
decode_elements k (first ∷ others) =
    if type first == name_type
    then (let (name, ending) = NameOperations.wire_decode k.name first in
        (record k { kind = key_locator_name; name = name }, ending))
    else if type first == key_digest_type
    then (record k { kind = key_locator_key_digest; key_digest = first }, returned)
    else (record k { kind = key_locator_unknown }, returned)

unfoldable pub wire_decode : KeyLocator → Block → KeyLocator × Ending
unfolding decode_elements
wire_decode k wire =
    let (parsed, ending) = parse wire in
    if type wire == key_locator_type
    then and_then (record k { wire = parsed }, ending) (λ k1. decode_elements k1 (elements parsed))
    else (k, threw Error.unexpected_type)

abbrev pub empty : KeyLocator → Bool
empty k = elim k.kind [ key_locator_none ↦ true | _ ↦ false ]

unfoldable pub clear : KeyLocator → KeyLocator
clear k = record {
  kind = key_locator_none;
  name = empty_name;
  key_digest = reset k.key_digest;
  wire = reset k.wire;
}

unfoldable pub get_name : KeyLocator → Result Error Name
get_name k = elim k.kind [ key_locator_name ↦ ok k.name | _ ↦ err Error.other_locator ]

unfoldable pub set_name : KeyLocator → Name → KeyLocator
unfolding clear
set_name k name = record (clear k) { kind = key_locator_name; name = name }

unfoldable pub get_key_digest : KeyLocator → Result Error Block
get_key_digest k = elim k.kind [
  | key_locator_key_digest ↦ ok k.key_digest
  | _ ↦ err Error.other_locator
]

unfoldable pub set_key_digest : KeyLocator → Block → Result Error KeyLocator
unfolding clear
set_key_digest k key_digest =
    if type key_digest == key_digest_type
    then ok (record (clear k) { kind = key_locator_key_digest; key_digest = key_digest })
    else err Error.unexpected_type

-- setKeyDigest(buffer)
unfoldable pub set_key_digest_bytes : KeyLocator → List ℕ → Result Error KeyLocator
unfolding set_key_digest
set_key_digest_bytes k key_digest = do
  b ← make_binary_block key_digest_type key_digest
  set_key_digest k b

-- operator==: both are encoded.
unfoldable pub equals : KeyLocator → KeyLocator → Result Error Bool
unfolding wire_encode
equals k other = do a ← wire_encode k; b ← wire_encode other; BlockElements.equals a.wire b.wire

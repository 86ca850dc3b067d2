-- ===== src/MetaInfo.antt =====
-- src/meta-info.hpp and meta-info.cpp: what is said about the content of a Data packet. A time in
-- milliseconds is its count, a number of 64 bits with a sign.
pub mod Elements
pub mod Decoded
pub mod Written
pub mod RoundTrip
use ndn_cxx_logging.Base.{
  ℕ, ◌-◌, ◌%◌, ◌^◌, ℤ, pos, negsuc, is_negative, to_signed, to_uint64, Bool, true, false, not, ◌&&◌,
  Option, none, some, List, [], ◌∷◌, ◌++◌, if◌then◌else◌, leb, ◌==◌, Result, ok, err, ◌>>=◌,
}
use ndn_cxx_logging.Tlv.{Error}
use ndn_cxx_logging.Block.{Block, type, elements, has_wire, value_size, empty_block}
use ndn_cxx_logging.Block.Elements.{parse, reset, block_from_value, Ending, returned, threw, stuck}
use ndn_cxx_logging.Block.Elements as BlockElements
use ndn_cxx_logging.BlockHelpers.{read_non_negative_integer_block}
use ndn_cxx_logging.Component.{empty_component, of_block, name_component}
use ndn_cxx_logging.Component.Order as ComponentOrder
use ndn_cxx_logging.Encoding.{
  Template, nothing, ◌▸◌, optional, each_reversed, close, block, nested, number_block, encode_alone,
  and_then, reading,
}

-- tlv::MetaInfo and its elements' types
abbrev pub meta_info_type : ℕ
meta_info_type = 20

abbrev pub content_type : ℕ
content_type = 24

abbrev pub freshness_period_type : ℕ
freshness_period_type = 25

abbrev pub final_block_id_type : ℕ
final_block_id_type = 26

-- tlv::ContentType_Blob
abbrev pub content_type_blob : ℕ
content_type_blob = 0

-- time::milliseconds::min()
abbrev pub min_milliseconds : ℤ
min_milliseconds = negsuc (2 ^ 63 - 1)

pub record MetaInfo : Type 0 where
  pub kind : ℕ
  pub freshness_period : ℤ
  pub final_block_id : Block
  pub app_meta_info : List Block
  pub wire : Block

-- MetaInfo()
abbrev pub empty_meta_info : MetaInfo
empty_meta_info = record {
  kind = content_type_blob;
  freshness_period = negsuc 0;
  final_block_id = empty_component;
  app_meta_info = [];
  wire = empty_block;
}

unfoldable pub set_type : MetaInfo → ℕ → MetaInfo
set_type m t = record m { kind = t; wire = reset m.wire }

unfoldable pub set_freshness_period : MetaInfo → ℤ → MetaInfo
set_freshness_period m t = record m { freshness_period = t; wire = reset m.wire }

unfoldable pub set_final_block_id : MetaInfo → Block → MetaInfo
set_final_block_id m c = record m { final_block_id = c; wire = reset m.wire }

-- `128 <= type && type <= 252`
abbrev pub is_application_type : ℕ → Bool
is_application_type t = leb 128 t && leb t 252

unfoldable pub are_application_types : List Block → Bool
are_application_types [] = true
are_application_types (b ∷ bs) = is_application_type (type b) && are_application_types bs

unfoldable pub set_app_meta_info : MetaInfo → List Block → Result Error MetaInfo
unfolding are_application_types
set_app_meta_info m info =
    if are_application_types info
    then ok (record m { app_meta_info = info; wire = reset m.wire })
    else err Error.outside_application_range

unfoldable pub add_app_meta_info : MetaInfo → Block → Result Error MetaInfo
add_app_meta_info m b =
    if is_application_type (type b)
    then ok (record m { app_meta_info = m.app_meta_info ++ (b ∷ []); wire = reset m.wire })
    else err Error.outside_application_range

-- The list without the first block of a type, if there is one.
unfoldable pub without_first : ℕ → List Block → Option (List Block)
without_first t [] = none
without_first t (b ∷ bs) =
    let others = without_first t bs in
    if type b == t then some bs else elim others [ none ↦ none | some rest ↦ some (b ∷ rest) ]

unfoldable pub remove_app_meta_info : MetaInfo → ℕ → MetaInfo × Bool
unfolding without_first
remove_app_meta_info m t = elim (without_first t m.app_meta_info) [
  | none ↦ (m, false)
  | some rest ↦ (record m { app_meta_info = rest; wire = reset m.wire }, true)
]

unfoldable pub find_app_meta_info : MetaInfo → ℕ → Option Block
find_app_meta_info m t = BlockElements.find_in t m.app_meta_info

-- wireEncode(EncodingImpl<TAG>)
abbrev pub wire_encode_to : MetaInfo → Template
wire_encode_to m = close meta_info_type (
    each_reversed block m.app_meta_info
    ▸ optional (not (value_size m.final_block_id == 0)) (
        nested final_block_id_type
          (λ impl s. ComponentOrder.wire_encode_to impl s m.final_block_id))
    ▸ optional (not (is_negative m.freshness_period))
        (number_block freshness_period_type (to_uint64 m.freshness_period))
    ▸ optional (not (m.kind == content_type_blob)) (number_block content_type m.kind))

-- wireEncode(): the object with its wire.
unfoldable pub wire_encode : MetaInfo → Result Error MetaInfo
wire_encode m =
    if has_wire m.wire
    then ok m
    else (do wire ← encode_alone (wire_encode_to m); ok (record m { wire = wire }))

-- The elements of `m_wire` from `val` on, one part of wireDecode after the other.
unfoldable pub decode_app_meta_info : MetaInfo → List Block → MetaInfo × Ending
decode_app_meta_info m val = (record m { app_meta_info = m.app_meta_info ++ val }, returned)

-- `m_finalBlockId`, reset where it is no generic component.
abbrev pub final_block_id_of : Block → Block
final_block_id_of c = if type c == name_component then c else reset c

unfoldable pub decode_final_block_id : MetaInfo → List Block → MetaInfo × Ending
unfolding decode_app_meta_info
decode_final_block_id m [] =
    decode_app_meta_info (record m { final_block_id = reset m.final_block_id }) []
decode_final_block_id m (val ∷ behind) =
    if type val == final_block_id_type
    then reading (do b ← block_from_value val; of_block b) m
        (λ c. decode_app_meta_info (record m { final_block_id = final_block_id_of c }) behind)
    else decode_app_meta_info (record m { final_block_id = reset m.final_block_id }) (val ∷ behind)

unfoldable pub decode_freshness_period : MetaInfo → List Block → MetaInfo × Ending
unfolding decode_final_block_id
decode_freshness_period m [] =
    decode_final_block_id (record m { freshness_period = min_milliseconds }) []
decode_freshness_period m (val ∷ behind) =
    if type val == freshness_period_type
    then reading (read_non_negative_integer_block val) m
        (λ n. decode_final_block_id (record m { freshness_period = to_signed 64 n }) behind)
    else decode_final_block_id (record m { freshness_period = min_milliseconds }) (val ∷ behind)

unfoldable pub decode_content_type : MetaInfo → List Block → MetaInfo × Ending
unfolding decode_freshness_period
decode_content_type m [] = decode_freshness_period (record m { kind = content_type_blob }) []
decode_content_type m (val ∷ behind) =
    if type val == content_type
    then reading (read_non_negative_integer_block val) m
        (λ n. decode_freshness_period (record m { kind = n % 2 ^ 32 }) behind)
    else decode_freshness_period (record m { kind = content_type_blob }) (val ∷ behind)

-- wireDecode: the application's blocks are added to those that are there.
unfoldable pub wire_decode : MetaInfo → Block → MetaInfo × Ending
unfolding decode_content_type
wire_decode m wire =
    let (parsed, ending) = parse wire in
    and_then (record m { wire = parsed }, ending) (λ m1. decode_content_type m1 (elements parsed))

-- operator==: both are encoded.
unfoldable pub equals : MetaInfo → MetaInfo → Result Error Bool
unfolding wire_encode
equals m other = do a ← wire_encode m; b ← wire_encode other; BlockElements.equals a.wire b.wire

-- ===== src/MetaInfo/Elements.antt =====
-- meta-info.cpp: wireDecode on the elements that wireEncode writes.
use ndn_cxx_logging.Base.{
  ℕ, ◌^◌, ◌<◌, ◌≡◌, refl, ℤ, pos, negsuc, is_negative, to_uint64, true, false, not, List, [], ◌∷◌,
  ◌++◌, map, length, ◌==◌, if◌then◌else◌, arith, ok, All, Bool-cases, inl, inr, ◌⊎◌,
}
use ndn_cxx_logging.Tlv.Format.{tlv}
use ndn_cxx_logging.Encoder.Numbers.{non_negative_integer}
use ndn_cxx_logging.Block.{Block, type, value, value_size}
use ndn_cxx_logging.Block.Elements.{reset}
use ndn_cxx_logging.Block.Rows.{Element, sub_block}
use ndn_cxx_logging.BlockHelpers.{read_non_negative_integer_block}
use ndn_cxx_logging.BlockHelpers.Make.{read_non_negative_integer-append}
use ndn_cxx_logging.Component.{name_component}
use ndn_cxx_logging.Encoding.Elements.{element, IsEncoded}
use ndn_cxx_logging.MetaInfo.{
  MetaInfo, content_type, freshness_period_type, final_block_id_type, content_type_blob,
  decode_content_type, decode_freshness_period, decode_final_block_id, decode_app_meta_info,
  is_application_type, min_milliseconds,
}
use mathlib.Core.List.{append-nil}

-- The parts of the encoding
abbrev pub kind_part : MetaInfo → List Element
kind_part m =
    if not (m.kind == content_type_blob)
    then (content_type, non_negative_integer m.kind) ∷ []
    else []

abbrev pub period_part : MetaInfo → List Element
period_part m =
    if not (is_negative m.freshness_period)
    then (freshness_period_type, non_negative_integer (to_uint64 m.freshness_period)) ∷ []
    else []

abbrev pub final_part : MetaInfo → List Element
final_part m =
    if not (value_size m.final_block_id == 0)
    then (final_block_id_type, tlv (type m.final_block_id) (value m.final_block_id)) ∷ []
    else []

abbrev pub parts : MetaInfo → List Element
parts m = kind_part m ++ (period_part m ++ (final_part m ++ map element m.app_meta_info))

abbrev pub IsApplication : Block → Type 0
IsApplication b = (is_application_type (type b) ≡ true) × (length (value b) < 2 ^ 62) × IsEncoded b

-- A FinalBlockId that is a generic component, or absent.
abbrev pub IsFinal : Block → Type 0
IsFinal c = (value_size c ≡ 0) ⊎ ((type c ≡ name_component) × (length (value c) < 2 ^ 62))

-- A time of 64 bits
abbrev pub IsPeriod : ℤ → Type 0
IsPeriod (pos n) = n < 2 ^ 63
IsPeriod (negsuc k) = Unit

abbrev pub NotFirst : ℕ → List Block → Type 0
NotFirst t [] = Unit
NotFirst t (b ∷ bs) = (type b == t) ≡ false

pub read_number :
    (buffer : List ℕ) (t n : ℕ)
    → n < 2 ^ 64
    → read_non_negative_integer_block (sub_block buffer (t, non_negative_integer n)) ≡ ok n
unfolding read_non_negative_integer_block
read_number buffer t n h =
    ground (arith, append-nil (non_negative_integer n), read_non_negative_integer-append n [] h)

module _ (buffer : List ℕ) where
  pub application-NotFirst :
      (t : ℕ) (bs : List Block)
      → t < 128
      → All IsApplication bs
      → NotFirst t (map (sub_block buffer) (map element bs))
  application-NotFirst t [] h k = tt
  application-NotFirst t (b ∷ bs) h k = ground (arith, k.0.0)

  module _ (m : MetaInfo) (apps : All IsApplication m.app_meta_info) where
    pub final-NotFirst :
        (t : ℕ)
        → t < 26
        → NotFirst t (map (sub_block buffer) (final_part m ++ map element m.app_meta_info))
    final-NotFirst t h = elim (Bool-cases (not (value_size m.final_block_id == 0))) [
      | inl there ↦ rw there (ground arith)
      | inr absent ↦ rw absent (application-NotFirst t m.app_meta_info (omega arith) apps)
    ]

    pub period-NotFirst :
        (t : ℕ)
        → t < 25
        → NotFirst t (
            map (sub_block buffer) (period_part m ++ (final_part m ++ map element m.app_meta_info)))
    period-NotFirst t h = elim (Bool-cases (not (is_negative m.freshness_period))) [
      | inl there ↦ rw there (ground arith)
      | inr absent ↦ rw absent (final-NotFirst t (omega arith))
    ]

-- A part that is not there
pub skip_final :
    (m : MetaInfo) (bs : List Block)
    → NotFirst final_block_id_type bs
    → decode_final_block_id m bs
      ≡ decode_app_meta_info (record m { final_block_id = reset m.final_block_id }) bs
unfolding decode_final_block_id
skip_final m [] h = refl
skip_final m (b ∷ bs) h = rw h refl

pub skip_period :
    (m : MetaInfo) (bs : List Block)
    → NotFirst freshness_period_type bs
    → decode_freshness_period m bs
      ≡ decode_final_block_id (record m { freshness_period = min_milliseconds }) bs
unfolding decode_freshness_period
skip_period m [] h = refl
skip_period m (b ∷ bs) h = rw h refl

pub skip_kind :
    (m : MetaInfo) (bs : List Block)
    → NotFirst content_type bs
    → decode_content_type m bs ≡ decode_freshness_period (record m { kind = content_type_blob }) bs
unfolding decode_content_type
skip_kind m [] h = refl
skip_kind m (b ∷ bs) h = rw h refl

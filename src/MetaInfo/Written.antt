-- ===== src/MetaInfo/Written.antt =====
-- meta-info.cpp: the bytes that wireEncode writes.
use ndn_cxx_logging.Base.{
  ℕ, ◌^◌, ◌<◌, ◌≡◌, refl, sym, is_negative, to_uint64, not, List, [], ◌++◌, map, length, ◌==◌,
  if◌then◌else◌, arith, All, inl, inr,
}
use ndn_cxx_logging.Tlv.Format.{tlv, size_of_var_number_bounds}
use ndn_cxx_logging.Encoder.Numbers.{non_negative_integer}
use ndn_cxx_logging.Block.{Block, type, value, value_size}
use ndn_cxx_logging.Block.Rows.{tlvs}
use ndn_cxx_logging.Component.Order as ComponentOrder
use ndn_cxx_logging.Encoding.{◌▸◌, Template, each_reversed, optional, nested, number_block, block}
use ndn_cxx_logging.Encoding.Parts.{Writes-component, Writes-number_block}
use ndn_cxx_logging.Encoding.Writes.{
  Writes, Writes-each, Writes-▸, Writes-optional, Writes-header, all_parts, length-tlv,
}
use ndn_cxx_logging.Encoding.Elements.{element, tlvs-append, tlvs-if, Writes-block, all_parts-tlvs}
use ndn_cxx_logging.MetaInfo.{
  MetaInfo, meta_info_type, content_type, freshness_period_type, final_block_id_type,
  content_type_blob, wire_encode_to,
}
use ndn_cxx_logging.MetaInfo.Elements.{
  parts, kind_part, period_part, final_part, IsApplication, IsFinal, IsPeriod,
}
use mathlib.Core.Path.{subst}

-- What wireEncode is given
pub record IsEncodable (m : MetaInfo) : Type 0 where
  pub kind : m.kind < 2 ^ 32
  pub period : IsPeriod m.freshness_period
  pub final : IsFinal m.final_block_id
  pub apps : All IsApplication m.app_meta_info
  pub size : length (tlvs (parts m)) < 2 ^ 62

-- The elements' encodings, each behind its condition
abbrev bytes : MetaInfo → List ℕ
bytes m =
    (if not (m.kind == content_type_blob)
      then tlv content_type (non_negative_integer m.kind)
      else [])
    ++ ((if not (is_negative m.freshness_period)
          then tlv freshness_period_type (non_negative_integer (to_uint64 m.freshness_period))
          else [])
        ++ ((if not (value_size m.final_block_id == 0)
              then tlv final_block_id_type (tlv (type m.final_block_id) (value m.final_block_id))
              else [])
            ++ all_parts (λ b. tlv (type b) (value b)) m.app_meta_info))

tlvs-parts : (m : MetaInfo) → tlvs (parts m) ≡ bytes m
tlvs-parts m =
    rw
      (
        tlvs-append (kind_part m) (period_part m ++ (final_part m ++ map element m.app_meta_info)),
        tlvs-append (period_part m) (final_part m ++ map element m.app_meta_info),
        tlvs-append (final_part m) (map element m.app_meta_info),
        tlvs-if (not (m.kind == content_type_blob)) content_type (non_negative_integer m.kind),
        tlvs-if (not (is_negative m.freshness_period)) freshness_period_type
            (non_negative_integer (to_uint64 m.freshness_period)),
        tlvs-if (not (value_size m.final_block_id == 0)) final_block_id_type
            (tlv (type m.final_block_id) (value m.final_block_id)),
        all_parts-tlvs m.app_meta_info,
      )
      refl

final_bound : (c : Block) → IsFinal c → length (value c) < 2 ^ 62
final_bound c (inl absent) = omega arith
final_bound c (inr good) = good.1

Writes-final :
    (c : Block)
    → IsFinal c
    → Writes
        (nested final_block_id_type (λ impl s. ComponentOrder.wire_encode_to impl s c))
        (tlv final_block_id_type (tlv (type c) (value c)))
Writes-final c good =
    let bound = final_bound c good in
    Writes-header (λ impl s. ComponentOrder.wire_encode_to impl s c) final_block_id_type
      (tlv (type c) (value c)) (Writes-component c (omega arith))
      (omega (
        arith,
        length-tlv (type c) (value c),
        size_of_var_number_bounds (length (value c)),
        size_of_var_number_bounds (type c),
      ))

final_template : MetaInfo → Template
final_template m =
    nested final_block_id_type (λ impl s. ComponentOrder.wire_encode_to impl s m.final_block_id)

pub Writes-parts :
    (m : MetaInfo) → IsEncodable m → Writes (wire_encode_to m) (tlv meta_info_type (tlvs (parts m)))
unfolding final_template
Writes-parts m good =
    let n = to_uint64 m.freshness_period in
    let final_test = not (value_size m.final_block_id == 0) in
    let period_test = not (is_negative m.freshness_period) in
    let kind_test = not (m.kind == content_type_blob) in
    let app_bytes = all_parts (λ b. tlv (type b) (value b)) m.app_meta_info in
    let final_tlv =
      tlv final_block_id_type (tlv (type m.final_block_id) (value m.final_block_id)) in
    let final_bytes : List ℕ = if final_test then final_tlv else [] in
    let period_tlv = tlv freshness_period_type (non_negative_integer n) in
    let period_bytes : List ℕ = if period_test then period_tlv else [] in
    let kind_tlv = tlv content_type (non_negative_integer m.kind) in
    let kind_bytes : List ℕ = if kind_test then kind_tlv else [] in
    let app_part = each_reversed block m.app_meta_info in
    let final_part = optional final_test (final_template m) in
    let period_part = optional period_test (number_block freshness_period_type n) in
    let kind_part = optional kind_test (number_block content_type m.kind) in
    let apps : Writes app_part app_bytes =
      Writes-each IsApplication block (λ b. tlv (type b) (value b)) (λ b h. Writes-block b h.2 h.1)
        m.app_meta_info good.apps in
    let final : Writes final_part final_bytes =
      Writes-optional final_test (final_template m) final_tlv
        (Writes-final m.final_block_id good.final) in
    let period : Writes period_part period_bytes =
      Writes-optional period_test (number_block freshness_period_type n) period_tlv
        (Writes-number_block freshness_period_type n) in
    let kind : Writes kind_part kind_bytes =
      Writes-optional kind_test (number_block content_type m.kind) kind_tlv
        (Writes-number_block content_type m.kind) in
    let all : Writes (app_part ▸ final_part ▸ period_part ▸ kind_part) (bytes m) =
      Writes-▸ (app_part ▸ final_part ▸ period_part) kind_part
        (period_bytes ++ (final_bytes ++ app_bytes)) kind_bytes
        (Writes-▸ (app_part ▸ final_part) period_part (final_bytes ++ app_bytes) period_bytes
          (Writes-▸ app_part final_part app_bytes final_bytes apps final) period)
        kind in
    Writes-header (app_part ▸ final_part ▸ period_part ▸ kind_part) meta_info_type (tlvs (parts m))
      (subst (λ l. Writes (app_part ▸ final_part ▸ period_part ▸ kind_part) l) (sym (tlvs-parts m))
        all)
      (omega (arith, good.size))

-- ===== src/MetaInfo/Decoded.antt =====
-- meta-info.cpp: what wireDecode finds in the elements that wireEncode writes.
use ndn_cxx_logging.Base.{
  ℕ, ◌%◌, ◌^◌, ◌<◌, ◌≡◌, refl, sym, ap, ◌∙◌, ℤ, pos, negsuc, is_negative, to_signed, to_uint64,
  true, false, not, List, [], ◌++◌, map, length, ◌==◌, if◌then◌else◌, arith, ok, ◌>>=◌, All,
  Bool-cases, inl, inr, nil_of_length, some, ltb,
}
use ndn_cxx_logging.Tlv.Format.{tlv, size_of_var_number_bounds}
use ndn_cxx_logging.Block.{Block, leaf, type, value, value_size}
use ndn_cxx_logging.Block.Elements.{block_from_value, reset, Ending, returned}
use ndn_cxx_logging.Block.Wire.{read_header-append}
use ndn_cxx_logging.Block.Rows.{Element, sub_block}
use ndn_cxx_logging.Component.{name_component, of_block}
use ndn_cxx_logging.Encoding.Writes.{length-tlv}
use ndn_cxx_logging.Encoding.Elements.{element}
use ndn_cxx_logging.MetaInfo.{
  MetaInfo, content_type, freshness_period_type, final_block_id_type, content_type_blob,
  decode_content_type, decode_freshness_period, decode_final_block_id, decode_app_meta_info,
  min_milliseconds,
}
use ndn_cxx_logging.MetaInfo.Elements.{
  period_part, final_part, parts, IsApplication, IsFinal, IsPeriod, read_number, final-NotFirst,
  period-NotFirst, application-NotFirst, skip_final, skip_period, skip_kind,
}

nested_block :
    (buffer : List ℕ) (t : ℕ) (v : List ℕ)
    → length v < 2 ^ 62
    → (c : Block) × ((do
      b ← block_from_value (sub_block buffer (t, tlv name_component v))
      of_block b)
        ≡ ok c)
      × (type c ≡ name_component)
      × (value c ≡ v)
unfolding block_from_value of_block
nested_block buffer t v h =
    let header = read_header-append name_component (length v) v (omega arith) (omega arith) in
    (
      leaf (record {
        buffer = some buffer;
        type = name_component;
        wire = tlv name_component v;
        value = v;
        size = length (tlv name_component v) % 2 ^ 32;
      }),
      ground (arith, header, length-tlv name_component v, size_of_var_number_bounds name_component),
      refl,
      refl,
    )

-- A negative time is not encoded, and comes back as the smallest one.
abbrev pub period_back : ℤ → ℤ
period_back period = if is_negative period then min_milliseconds else period

to_signed-to_uint64 :
    (period : ℤ)
    → IsPeriod period
    → is_negative period ≡ false
    → to_signed 64 (to_uint64 period) ≡ period
to_signed-to_uint64 (pos n) h k =
    let low : n % 2 ^ 64 % 2 ^ 64 ≡ n = omega arith in
    let positive : ltb n (2 ^ 63) ≡ true = ground arith in rw (low, positive) refl
to_signed-to_uint64 (negsuc n) h k = cc

to_uint64-bound : (period : ℤ) → to_uint64 period < 2 ^ 64
to_uint64-bound (pos n) = omega arith
to_uint64-bound (negsuc n) = omega arith

module _ (buffer : List ℕ) (m : MetaInfo) (apps : All IsApplication m.app_meta_info) where
  -- The application's elements, in the buffer.
  abbrev pub found : List Block
  found = map (sub_block buffer) (map element m.app_meta_info)

  generic_final :
      IsFinal m.final_block_id
      → not (value_size m.final_block_id == 0) ≡ true
      → (type m.final_block_id ≡ name_component) × (length (value m.final_block_id) < 2 ^ 62)
  generic_final (inl absent) there = absurd (ground arith)
  generic_final (inr good) there = good

  -- What the decoder finds
  abbrev pub decoded_as : MetaInfo → ℕ → ℤ → Block → MetaInfo × Ending
  decoded_as m0 kind period c = (
    record m0 {
      kind = kind;
      freshness_period = period;
      final_block_id = c;
      app_meta_info = m0.app_meta_info ++ found;
    },
    returned,
  )

  final_stage :
      (m0 : MetaInfo)
      → IsFinal m.final_block_id
      → (c : Block) × (decode_final_block_id m0
            (map (sub_block buffer) (final_part m ++ map element m.app_meta_info))
          ≡ decoded_as m0 m0.kind m0.freshness_period c)
        × (value c ≡ value m.final_block_id)
  unfolding decode_final_block_id decode_app_meta_info
  final_stage m0 good = elim (Bool-cases (not (value_size m.final_block_id == 0))) [
    | inr absent ↦
        let skipped : decode_final_block_id m0 found
            ≡ decode_app_meta_info (record m0 { final_block_id = reset m0.final_block_id }) found =
          skip_final m0 found
            (application-NotFirst buffer final_block_id_type m.app_meta_info (omega arith) apps) in
        let none_there : value m.final_block_id ≡ [] =
          nil_of_length (value m.final_block_id) (ground arith) in
        (reset m0.final_block_id, rw absent skipped, unfold reset in sym none_there)
    | inl there ↦
        let (generic, bound) = generic_final good there in
        let (c, decoded, kind, same) =
          nested_block buffer final_block_id_type (value m.final_block_id) bound in
        (c, rw (there, generic, decode_final_block_id, decoded, kind) refl, same)
  ]

  -- The parts behind the content type
  abbrev behind_kind : List Element
  behind_kind = period_part m ++ (final_part m ++ map element m.app_meta_info)

  period_stage :
      (m0 : MetaInfo)
      → IsFinal m.final_block_id
      → IsPeriod m.freshness_period
      → (c : Block) × (decode_freshness_period m0 (map (sub_block buffer) behind_kind)
          ≡ decoded_as m0 m0.kind (period_back m.freshness_period) c)
        × (value c ≡ value m.final_block_id)
  unfolding decode_freshness_period
  period_stage m0 good period = elim (Bool-cases (is_negative m.freshness_period)) [
    | inl absent ↦
        let (c, decoded, same) =
          final_stage (record m0 { freshness_period = min_milliseconds }) good in
        let skipped =
          skip_period m0 (map (sub_block buffer) (final_part m ++ map element m.app_meta_info))
            (final-NotFirst buffer m apps freshness_period_type (omega arith)) in
        (c, rw absent (skipped ∙ decoded), same)
    | inr there ↦
        let (c, decoded, same) =
          final_stage (record m0 { freshness_period = m.freshness_period }) good in
        let read =
          read_number buffer freshness_period_type (to_uint64 m.freshness_period)
            (to_uint64-bound m.freshness_period) in
        let back = to_signed-to_uint64 m.freshness_period period there in
        (c, rw (there, decode_freshness_period, read, back) decoded, same)
  ]

  -- What a decoder finds: the kind and the time, what its FinalBlockId is instead, and the application's blocks
  -- behind those that it has.
  pub kind_stage :
      (m0 : MetaInfo)
      → m.kind < 2 ^ 32
      → IsFinal m.final_block_id
      → IsPeriod m.freshness_period
      → (c : Block) × (decode_content_type m0 (map (sub_block buffer) (parts m))
          ≡ decoded_as m0 m.kind (period_back m.freshness_period) c)
        × (value c ≡ value m.final_block_id)
  unfolding decode_content_type
  kind_stage m0 bound good period = elim (Bool-cases (m.kind == content_type_blob)) [
    | inl absent ↦
        let (c, decoded, same) =
          period_stage (record m0 { kind = content_type_blob }) good period in
        let blob : m.kind ≡ content_type_blob = ground arith in
        let skipped =
          skip_kind m0 (map (sub_block buffer) behind_kind)
            (period-NotFirst buffer m apps content_type (omega arith)) in
        let no_kind : parts m ≡ behind_kind = rw absent refl in
        let back = ap (λ (n : ℕ). decoded_as m0 n (period_back m.freshness_period) c) (sym blob) in
        (
          c,
          ap (λ (es : List Element). decode_content_type m0 (map (sub_block buffer) es)) no_kind
              ∙ skipped
              ∙ decoded
              ∙ back,
          same,
        )
    | inr there ↦
        let (c, decoded, same) = period_stage (record m0 { kind = m.kind }) good period in
        let read = read_number buffer content_type m.kind (omega arith) in
        let low : m.kind % 2 ^ 32 ≡ m.kind = omega arith in
        (c, rw (there, decode_content_type, read, low) decoded, same)
  ]

-- ===== src/Tests/PacketTests.antt =====
-- Concrete runs of meta-info.cpp, data.cpp and interest.cpp, and the theorems about them at concrete inputs.
use ndn_cxx_logging.Base.{
  ℕ, ◌++◌, ◌≡◌, ◌>>=◌, refl, inl, inr, false, not, ◌&&◌, ◌||◌, ◌==◌, pos, List, [], ◌∷◌, map,
  replicate, length, ok, arith,
}
use ndn_cxx_logging.Tlv.Format.{var_number}
use ndn_cxx_logging.Encoder.Numbers.{non_negative_integer}
use ndn_cxx_logging.Base.Bytes.{host_to_be}
use ndn_cxx_logging.Block.{Block, of_value, of_buffer, empty_block, value}
use ndn_cxx_logging.Block.Elements.{returned}
use ndn_cxx_logging.Block.Rows.{tlvs}
use ndn_cxx_logging.Block.Wire.{whole}
use ndn_cxx_logging.Component.{name_component}
use ndn_cxx_logging.Data.{Data}
use ndn_cxx_logging.Data.FullName.{IsDigest}
use ndn_cxx_logging.Data.Changes.{Call, full_name_taken, content_buffer_is, decoded}
use ndn_cxx_logging.Interest.{Interest, matches_name, matches_data, full_name_of}
use ndn_cxx_logging.Interest.Matching.{ends_in_digest, matches_data-matches_name}
use ndn_cxx_logging.Encoding.Elements.{element}
use ndn_cxx_logging.Tlv.Format.{tlv}
use ndn_cxx_logging.KeyLocator as Locator
use ndn_cxx_logging.KeyLocator.{KeyLocator, empty_key_locator, key_locator_name, key_locator_type}
use ndn_cxx_logging.KeyLocator.RoundTrip.{part_of, SameKey, key_locator-wire_decode}
use ndn_cxx_logging.MetaInfo.{MetaInfo, empty_meta_info, meta_info_type, wire_encode, wire_decode}
use ndn_cxx_logging.MetaInfo.Elements.{parts}
use ndn_cxx_logging.MetaInfo.Decoded.{period_back}
use ndn_cxx_logging.MetaInfo.Written.{IsEncodable}
use ndn_cxx_logging.MetaInfo.RoundTrip.{wire_of, meta_info-wire_decode}
use ndn_cxx_logging.Name.{Name, size, empty_name}
use ndn_cxx_logging.Name.SubName.{name_of}
use ndn_cxx_logging.Selectors.{empty_selectors}

-- Type 1, ten seconds, the last block "9" and an application's block
abbrev info : MetaInfo
info = record {
  kind = 1;
  freshness_period = pos 10000;
  final_block_id = of_value name_component (b'9' ∷ []);
  app_meta_info = of_value 128 (1 ∷ 2 ∷ []) ∷ [];
  wire = empty_block;
}

info-IsEncodable : IsEncodable info
unfolding host_to_be
info-IsEncodable = record {
  kind = omega arith;
  period = omega arith;
  final = inr (refl, omega arith);
  apps = ((refl, omega arith, inl refl), tt);
  size = unfold tlvs in unfold var_number in unfold non_negative_integer in omega arith;
}

meta_info-wire_decode_example :
    (wire_encode info ≡ ok (record info { wire = whole meta_info_type (tlvs (parts info)) }))
    × (m2 : MetaInfo) × ((do b ← of_buffer (wire_of info); ok (wire_decode empty_meta_info b))
        ≡ ok (m2, returned))
    × (m2.kind ≡ 1)
    × (m2.freshness_period ≡ period_back (pos 10000))
    × (value m2.final_block_id ≡ b'9' ∷ [])
    × (map element m2.app_meta_info ≡ map element [] ++ map element info.app_meta_info)
meta_info-wire_decode_example = meta_info-wire_decode info empty_meta_info info-IsEncodable refl

-- A digest function of 32 bytes
abbrev digest : List ℕ → List ℕ
digest bytes = replicate 32 (length bytes)

digest-IsDigest : IsDigest digest
digest-IsDigest bytes = refl

abbrev a : Block
a = of_value name_component (b'a' ∷ [])

-- A packet with a wire
abbrev packet : Data
packet = record {
  name = name_of (a ∷ []);
  meta_info = info;
  content = empty_block;
  signature = record { kind = pos 0; info = empty_block; value = empty_block };
  wire = whole 6 (1 ∷ 2 ∷ 3 ∷ []);
  full_name = empty_name;
}

-- A full name, other content, and a wire again
abbrev calls : List Call
calls = full_name_taken ∷ content_buffer_is (5 ∷ []) ∷ decoded (whole 6 (9 ∷ 0 ∷ [])) ∷ []

-- "/a", with a component excluded, at least one component more and at most two
abbrev interest : Interest
interest = record {
  name = name_of (a ∷ []);
  selectors = record empty_selectors {
    min_suffix_components = pos 1;
    max_suffix_components = pos 2;
    exclude = record { exclude = (a, false) ∷ []; wire = empty_block };
  };
}

matches_data-matches_name_example :
    (full : Name) × (full_name_of digest packet ≡ ok full)
    × (matches_data digest interest packet
        ≡ ok (
            matches_name interest full
            && (not (size interest.name == size full) || ends_in_digest interest.name)))
unfolding var_number
matches_data-matches_name_example =
    matches_data-matches_name digest interest packet digest-IsDigest (inl refl) refl (omega arith)
      (omega arith) (omega arith) (omega arith) refl

-- The key "/a"
abbrev locator : KeyLocator
locator = record empty_key_locator { kind = key_locator_name; name = name_of (a ∷ []) }

key_locator-wire_decode_example :
    (Locator.wire_encode locator
      ≡ ok (record locator { wire = whole key_locator_type (tlvs (part_of locator.kind locator)) }))
    × (k2 : KeyLocator) × ((do
      w ← of_buffer (tlv key_locator_type (tlvs (part_of locator.kind locator)))
      ok (Locator.wire_decode empty_key_locator w))
        ≡ ok (k2, returned))
    × (k2.kind ≡ locator.kind)
    × SameKey locator.kind locator k2
unfolding tlvs var_number
key_locator-wire_decode_example =
    key_locator-wire_decode locator empty_key_locator
      (((omega arith, omega arith), tt), omega arith) refl

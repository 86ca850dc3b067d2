-- ===== src/Tests/SelectorsTests.antt =====
-- Concrete runs of selectors.cpp, and the theorem about its wire at a concrete input.
use ndn_cxx_logging.Base.{
  inl, inr, replicate, ◌≡◌, ◌>>=◌, refl, false, true, pos, negsuc, [], ◌∷◌, map, ok, arith,
}
use ndn_cxx_logging.Tlv.Format.{var_number}
use ndn_cxx_logging.Encoder.Numbers.{non_negative_integer}
use ndn_cxx_logging.Block.{Block, of_value, of_buffer, empty_block}
use ndn_cxx_logging.Block.Elements.{returned}
use ndn_cxx_logging.Block.Rows.{tlvs}
use ndn_cxx_logging.Block.Wire.{whole}
use ndn_cxx_logging.Component.{name_component, implicit_sha256_digest_component}
use ndn_cxx_logging.Component.Order.{gt, compare, memcmp}
use ndn_cxx_logging.Exclude.{empty}
use ndn_cxx_logging.Exclude.Wire.Decoded.{shown}
use ndn_cxx_logging.KeyLocator.{empty_key_locator, key_locator_name}
use ndn_cxx_logging.KeyLocator.RoundTrip.{SameKey}
use ndn_cxx_logging.Name.SubName.{name_of}
use ndn_cxx_logging.Selectors.{Selectors, selectors_type, wire_encode, wire_decode, empty_selectors}
use ndn_cxx_logging.Selectors.Parts.{parts, IsEncodable}
use ndn_cxx_logging.Selectors.Values.{int_back}
use ndn_cxx_logging.Selectors.RoundTrip.{wire_of, selectors-wire_decode}

abbrev b : Block
b = of_value name_component (b'b' ∷ [])

abbrev d : Block
d = of_value name_component (b'd' ∷ [])

-- An implicit digest
abbrev digest : Block
digest = of_value implicit_sha256_digest_component (replicate 32 7)

-- Two components at least, a key named "b", nothing from the digest to "d", the rightmost child, fresh
abbrev chosen : Selectors
chosen = record {
  min_suffix_components = pos 2;
  max_suffix_components = negsuc 0;
  publisher_public_key_locator = record empty_key_locator {
    kind = key_locator_name;
    name = name_of (b ∷ []);
  };
  exclude = record { exclude = (d, false) ∷ (digest, true) ∷ []; wire = empty_block };
  child_selector = pos 1;
  must_be_fresh = true;
  wire = empty_block;
}

chosen-IsEncodable : IsEncodable chosen
unfolding tlvs var_number empty
chosen-IsEncodable = record {
  locator = (((omega arith, omega arith), tt), omega arith);
  exclude = ((inl refl, omega arith), ((inr (refl, refl), omega arith), tt));
  exclude_writable = inl (refl, (refl, tt));
  exclude_size = omega arith;
  size = unfold non_negative_integer in omega arith;
}

selectors-wire_decode_example :
    (wire_encode chosen ≡ ok (record chosen { wire = whole selectors_type (tlvs (parts chosen)) }))
    × (s2 : Selectors) × ((do w ← of_buffer (wire_of chosen); ok (wire_decode empty_selectors w))
        ≡ ok (s2, returned))
    × (s2.min_suffix_components ≡ int_back (pos 2))
    × (s2.max_suffix_components ≡ int_back (negsuc 0))
    × (s2.publisher_public_key_locator.kind ≡ chosen.publisher_public_key_locator.kind)
    × SameKey chosen.publisher_public_key_locator.kind chosen.publisher_public_key_locator
        s2.publisher_public_key_locator
    × (map shown s2.exclude.exclude ≡ map shown chosen.exclude.exclude)
    × (s2.child_selector ≡ int_back (pos 1))
    × (s2.must_be_fresh ≡ true)
unfolding gt compare memcmp
selectors-wire_decode_example =
    selectors-wire_decode chosen empty_selectors chosen-IsEncodable (omega arith) tt (omega arith)
      ((refl, tt), (tt, tt)) refl

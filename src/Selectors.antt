-- ===== src/Selectors.antt =====
-- src/selectors.hpp and selectors.cpp: which Data an Interest asks for. The setters of one field each
-- are a record update and a reset of the wire.
pub mod Parts
pub mod Found
pub mod RoundTrip
pub mod Stages
pub mod Values
use ndn_cxx_logging.Base.{
  ℕ, ℤ, negsuc, is_negative, to_signed, to_uint64, Bool, true, false, not, ◌&&◌, Option, none, some,
  if◌then◌else◌, ◌==◌, Result, ok, err, ◌>>=◌,
}
use ndn_cxx_logging.Tlv.{Error}
use ndn_cxx_logging.Block.{Block, type, has_wire, empty_block}
use ndn_cxx_logging.Block.Elements.{parse, find, reset, Ending, returned, threw, stuck}
use ndn_cxx_logging.Block.Elements as BlockElements
use ndn_cxx_logging.BlockHelpers.{read_non_negative_integer_block}
use ndn_cxx_logging.Encoding as Encoding
use ndn_cxx_logging.Encoding.{
  Template, nothing, ◌▸◌, optional, close, number_block, encode_alone, and_then, reading,
}
use ndn_cxx_logging.Exclude.{Exclude, empty_exclude}
use ndn_cxx_logging.Exclude as ExcludeFilter
use ndn_cxx_logging.Exclude.Wire as ExcludeWire
use ndn_cxx_logging.Exclude.Wire.{exclude_type}
use ndn_cxx_logging.KeyLocator.{KeyLocator, empty_key_locator, key_locator_type}
use ndn_cxx_logging.KeyLocator as Locator

-- tlv::Selectors and its elements' types
abbrev pub selectors_type : ℕ
selectors_type = 9

abbrev pub min_suffix_components_type : ℕ
min_suffix_components_type = 13

abbrev pub max_suffix_components_type : ℕ
max_suffix_components_type = 14

abbrev pub child_selector_type : ℕ
child_selector_type = 17

abbrev pub must_be_fresh_type : ℕ
must_be_fresh_type = 18

pub record Selectors : Type 0 where
  pub min_suffix_components : ℤ
  pub max_suffix_components : ℤ
  pub publisher_public_key_locator : KeyLocator
  pub exclude : Exclude
  pub child_selector : ℤ
  pub must_be_fresh : Bool
  pub wire : Block

-- Selectors()
abbrev pub empty_selectors : Selectors
empty_selectors = record {
  min_suffix_components = negsuc 0;
  max_suffix_components = negsuc 0;
  publisher_public_key_locator = empty_key_locator;
  exclude = empty_exclude;
  child_selector = negsuc 0;
  must_be_fresh = false;
  wire = empty_block;
}

unfoldable pub empty : Selectors → Bool
unfolding ExcludeFilter.empty
empty s =
    is_negative s.min_suffix_components
    && is_negative s.max_suffix_components
    && Locator.empty s.publisher_public_key_locator
    && ExcludeFilter.empty s.exclude
    && is_negative s.child_selector
    && not s.must_be_fresh

-- An element that is there if the number is not negative.
abbrev pub number_part : ℕ → ℤ → Template
number_part t n = optional (not (is_negative n)) (number_block t (to_uint64 n))

-- The key locator and the exclude filter, which may throw where they are there.
abbrev pub part_if : Bool → Option Template → Option Template
part_if true part = part
part_if false part = some nothing

-- wireEncode(EncodingImpl<TAG>), or `none` where a part throws.
abbrev pub wire_encode_to : Selectors → Option Template
wire_encode_to s =
    elim (part_if (not (ExcludeFilter.empty s.exclude)) (ExcludeWire.wire_encode_to s.exclude)) [
      | none ↦ none
      | some exclude_part ↦
          elim (part_if (not (Locator.empty s.publisher_public_key_locator))
            (Locator.wire_encode_to s.publisher_public_key_locator)) [
              | none ↦ none
              | some locator_part ↦ some (
                  close selectors_type (
                    nothing
                    ▸ optional s.must_be_fresh (Encoding.empty_block must_be_fresh_type)
                    ▸ number_part child_selector_type s.child_selector
                    ▸ exclude_part
                    ▸ locator_part
                    ▸ number_part max_suffix_components_type s.max_suffix_components
                    ▸ number_part min_suffix_components_type s.min_suffix_components))
            ]
    ]

-- wireEncode(): the selectors with their wire. The error is the locator's, since a filter that is
-- empty is left out.
unfoldable pub wire_encode : Selectors → Result Error Selectors
wire_encode s = if has_wire s.wire then ok s else elim (wire_encode_to s) [
  | none ↦ err Error.unsupported_locator
  | some template ↦ do wire ← encode_alone template; ok (record s { wire = wire })
]

-- One element of wireDecode: the first one of its type.
abbrev pub element_of :
    ℕ → (Block → Selectors → Selectors × Ending) → Selectors → Selectors × Ending
element_of t decode s = elim (find s.wire t) [ none ↦ (s, returned) | some b ↦ decode b s ]

-- `int` of a readNonNegativeInteger
abbrev pub int_of : Block → Selectors → (ℤ → Selectors × Ending) → Selectors × Ending
int_of b s set = reading (read_non_negative_integer_block b) s (λ n. set (to_signed 32 n))

unfoldable pub decode_min_suffix_components : Selectors → Selectors × Ending
decode_min_suffix_components =
    element_of min_suffix_components_type
      (λ b s. int_of b s (λ n. (record s { min_suffix_components = n }, returned)))

unfoldable pub decode_max_suffix_components : Selectors → Selectors × Ending
decode_max_suffix_components =
    element_of max_suffix_components_type
      (λ b s. int_of b s (λ n. (record s { max_suffix_components = n }, returned)))

abbrev pub locator_of : Block → Selectors → Selectors × Ending
locator_of b s =
    let (k, ending) = Locator.wire_decode s.publisher_public_key_locator b in
    (record s { publisher_public_key_locator = k }, ending)

unfoldable pub decode_locator : Selectors → Selectors × Ending
decode_locator = element_of key_locator_type locator_of

abbrev pub exclude_of : Block → Selectors → Selectors × Ending
exclude_of b s =
    let (e, ending) = ExcludeWire.wire_decode s.exclude b in (record s { exclude = e }, ending)

unfoldable pub decode_exclude : Selectors → Selectors × Ending
decode_exclude = element_of exclude_type exclude_of

unfoldable pub decode_child_selector : Selectors → Selectors × Ending
decode_child_selector =
    element_of child_selector_type
      (λ b s. int_of b s (λ n. (record s { child_selector = n }, returned)))

unfoldable pub decode_must_be_fresh : Selectors → Selectors × Ending
decode_must_be_fresh =
    element_of must_be_fresh_type (λ b s. (record s { must_be_fresh = true }, returned))

unfoldable pub wire_decode : Selectors → Block → Selectors × Ending
unfolding decode_min_suffix_components decode_max_suffix_components decode_locator decode_exclude
    decode_child_selector decode_must_be_fresh
wire_decode s wire =
    let (parsed, ending) = parse wire in
    if type wire == selectors_type
    then and_then
        (and_then
          (and_then
            (and_then
              (and_then
                (and_then (record empty_selectors { wire = parsed }, ending)
                  decode_min_suffix_components)
                decode_max_suffix_components)
              decode_locator)
            decode_exclude)
          decode_child_selector)
        decode_must_be_fresh
    else (s, threw Error.unexpected_type)

-- operator==: both are encoded.
unfoldable pub equals : Selectors → Selectors → Result Error Bool
unfolding wire_encode
equals s other = do a ← wire_encode s; b ← wire_encode other; BlockElements.equals a.wire b.wire

-- The setters
unfoldable pub set_min_suffix_components : Selectors → ℤ → Selectors
set_min_suffix_components s n = record s { min_suffix_components = n; wire = reset s.wire }

unfoldable pub set_max_suffix_components : Selectors → ℤ → Selectors
set_max_suffix_components s n = record s { max_suffix_components = n; wire = reset s.wire }

unfoldable pub set_publisher_public_key_locator : Selectors → KeyLocator → Selectors
set_publisher_public_key_locator s k = record s {
  publisher_public_key_locator = k;
  wire = reset s.wire;
}

unfoldable pub set_exclude : Selectors → Exclude → Selectors
set_exclude s e = record s { exclude = e; wire = reset s.wire }

unfoldable pub set_child_selector : Selectors → ℤ → Selectors
set_child_selector s n = record s { child_selector = n; wire = reset s.wire }

unfoldable pub set_must_be_fresh : Selectors → Bool → Selectors
set_must_be_fresh s fresh = record s { must_be_fresh = fresh; wire = reset s.wire }

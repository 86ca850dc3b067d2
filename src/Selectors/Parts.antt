-- ===== src/Selectors/Parts.antt =====
-- selectors.cpp: the elements that wireEncode writes.
use ndn_cxx_logging.Base.{
  ℕ, ◌^◌, ◌<◌, ◌≡◌, refl, sym, ap, ◌∙◌, ℤ, is_negative, to_uint64, Bool, true, false, not, Option,
  some, List, [], ◌∷◌, ◌++◌, length, arith, ◌==◌, if◌then◌else◌, All,
}
use ndn_cxx_logging.Tlv.Format.{tlv}
use ndn_cxx_logging.Encoder.Numbers.{non_negative_integer}
use ndn_cxx_logging.Block.Rows.{Element, tlvs}
use ndn_cxx_logging.Encoding as Encoding
use ndn_cxx_logging.Encoding.{Template, nothing, ◌▸◌, optional, close, number_block}
use ndn_cxx_logging.Encoding.Elements.{tlvs-append, tlvs-if}
use ndn_cxx_logging.Encoding.Parts.{Writes-empty_block, Writes-number_block}
use ndn_cxx_logging.Encoding.Writes.{
  Writes, Writes-▸, Writes-nothing, Writes-optional, Writes-header,
}
use ndn_cxx_logging.Exclude as ExcludeFilter
use ndn_cxx_logging.Exclude.{Exclude}
use ndn_cxx_logging.Exclude.Wire as ExcludeWire
use ndn_cxx_logging.Exclude.Wire.{exclude_type}
use ndn_cxx_logging.Exclude.Wire.Written as ExcludeWritten
use ndn_cxx_logging.KeyLocator as Locator
use ndn_cxx_logging.KeyLocator.{KeyLocator, key_locator_type, key_locator_none}
use ndn_cxx_logging.KeyLocator.RoundTrip.{part_of, IsLocator, Writes-key_locator}
use ndn_cxx_logging.Selectors.{
  Selectors, selectors_type, min_suffix_components_type, max_suffix_components_type,
  child_selector_type, must_be_fresh_type, number_part, part_if, wire_encode_to,
}
use mathlib.Core.Path.{subst}

-- An element that may be left out
abbrev pub part : Bool → Element → List Element
part test e = if test then e ∷ [] else []

abbrev pub number_element : ℕ → ℤ → Element
number_element t n = (t, non_negative_integer (to_uint64 n))

abbrev pub has_locator : Selectors → Bool
has_locator s = not (Locator.empty s.publisher_public_key_locator)

abbrev pub has_exclude : Selectors → Bool
has_exclude s = not (ExcludeFilter.empty s.exclude)

abbrev pub locator_element : Selectors → Element
locator_element s = (
  key_locator_type,
  tlvs (part_of s.publisher_public_key_locator.kind s.publisher_public_key_locator),
)

abbrev pub exclude_element : Selectors → Element
exclude_element s = (exclude_type, tlvs (ExcludeWritten.parts s.exclude.exclude))

-- The elements of the encoding
abbrev pub parts : Selectors → List Element
parts s =
    part (not (is_negative s.min_suffix_components))
      (number_element min_suffix_components_type s.min_suffix_components)
    ++ (part (not (is_negative s.max_suffix_components))
          (number_element max_suffix_components_type s.max_suffix_components)
        ++ (part (has_locator s) (locator_element s)
            ++ (part (has_exclude s) (exclude_element s)
                ++ (part (not (is_negative s.child_selector))
                      (number_element child_selector_type s.child_selector)
                    ++ (part s.must_be_fresh (must_be_fresh_type, []) ++ [])))))

-- One more part in front of the elements that are written
Writes-part :
    (total template : Template) (test : Bool) (e : Element) (es : List Element)
    → Writes total (tlvs es)
    → Writes template (if test then tlv e.0 e.1 else [])
    → Writes (total ▸ template) (tlvs (part test e ++ es))
Writes-part total template test e es h k =
    subst (λ l. Writes (total ▸ template) l)
      (sym
        (tlvs-append (part test e) es ∙ ap (λ (l : List ℕ). l ++ tlvs es) (tlvs-if test e.0 e.1)))
      (Writes-▸ total template (tlvs es) (if test then tlv e.0 e.1 else []) h k)

-- A part that may throw, and does not
Writes-part_if :
    (test : Bool) (option : Option Template) (e : Element)
    → (test ≡ true
        → (template : Template) × (option ≡ some template) × Writes template (tlv e.0 e.1))
    → (template : Template) × (part_if test option ≡ some template)
      × Writes template (if test then tlv e.0 e.1 else [])
Writes-part_if true option e h = h refl
Writes-part_if false option e h = (nothing, refl, Writes-nothing)

pub some_item : (s : Selectors) → has_exclude s ≡ true → not (length s.exclude.exclude == 0) ≡ true
unfolding ExcludeFilter.empty
some_item s h = h

encode_parts :
    (s : Selectors) (exclude_part locator_part : Template)
    → part_if (has_exclude s) (ExcludeWire.wire_encode_to s.exclude) ≡ some exclude_part
    → part_if (has_locator s) (Locator.wire_encode_to s.publisher_public_key_locator)
      ≡ some locator_part
    → wire_encode_to s
      ≡ some (
          close selectors_type (
            nothing
            ▸ optional s.must_be_fresh (Encoding.empty_block must_be_fresh_type)
            ▸ number_part child_selector_type s.child_selector
            ▸ exclude_part
            ▸ locator_part
            ▸ number_part max_suffix_components_type s.max_suffix_components
            ▸ number_part min_suffix_components_type s.min_suffix_components))
encode_parts s exclude_part locator_part h k = rw (wire_encode_to, h, k) refl

-- A number that is left out if it is negative
Writes-number :
    (t : ℕ) (n : ℤ)
    → Writes
        (number_part t n)
        (if not (is_negative n) then tlv t (non_negative_integer (to_uint64 n)) else [])
Writes-number t n =
    Writes-optional (not (is_negative n)) (number_block t (to_uint64 n))
      (tlv t (non_negative_integer (to_uint64 n))) (Writes-number_block t (to_uint64 n))

-- What wireEncode is given
pub record IsEncodable (s : Selectors) : Type 0 where
  pub locator : IsLocator s.publisher_public_key_locator.kind s.publisher_public_key_locator
  pub exclude : All ExcludeWritten.IsKey s.exclude.exclude
  pub exclude_writable : ExcludeWritten.IsWritable s.exclude.exclude
  pub exclude_size : length (tlvs (ExcludeWritten.parts s.exclude.exclude)) < 2 ^ 62
  pub size : length (tlvs (parts s)) < 2 ^ 62

pub Writes-selectors :
    (s : Selectors)
    → IsEncodable s
    → (template : Template) × (wire_encode_to s ≡ some template)
      × Writes template (tlv selectors_type (tlvs (parts s)))
unfolding tlvs
Writes-selectors s good =
    let k = s.publisher_public_key_locator in
    let (exclude_part, exclude_there, writes_exclude) =
      Writes-part_if (has_exclude s) (ExcludeWire.wire_encode_to s.exclude) (exclude_element s)
        (λ there.
          ExcludeWritten.Writes-exclude s.exclude good.exclude (some_item s there)
            good.exclude_size) in
    let (locator_part, locator_there, writes_locator) =
      Writes-part_if (has_locator s) (Locator.wire_encode_to k) (locator_element s)
        (λ there. Writes-key_locator k good.locator) in
    let fresh = optional s.must_be_fresh (Encoding.empty_block must_be_fresh_type) in
    let child = number_part child_selector_type s.child_selector in
    let most = number_part max_suffix_components_type s.max_suffix_components in
    let least = number_part min_suffix_components_type s.min_suffix_components in
    let fresh_es = part s.must_be_fresh (must_be_fresh_type, []) ++ [] in
    let child_es =
      part (not (is_negative s.child_selector))
        (number_element child_selector_type s.child_selector)
      ++ fresh_es in
    let exclude_es = part (has_exclude s) (exclude_element s) ++ child_es in
    let locator_es = part (has_locator s) (locator_element s) ++ exclude_es in
    let most_es =
      part (not (is_negative s.max_suffix_components))
        (number_element max_suffix_components_type s.max_suffix_components)
      ++ locator_es in
    let writes_fresh : Writes (nothing ▸ fresh) (tlvs fresh_es) =
      Writes-part nothing fresh s.must_be_fresh (must_be_fresh_type, []) [] Writes-nothing
        (Writes-optional s.must_be_fresh (Encoding.empty_block must_be_fresh_type)
          (tlv must_be_fresh_type []) (Writes-empty_block must_be_fresh_type)) in
    let writes_child : Writes (nothing ▸ fresh ▸ child) (tlvs child_es) =
      Writes-part (nothing ▸ fresh) child (not (is_negative s.child_selector))
        (number_element child_selector_type s.child_selector) fresh_es writes_fresh
        (Writes-number child_selector_type s.child_selector) in
    let writes_to_exclude : Writes (nothing ▸ fresh ▸ child ▸ exclude_part) (tlvs exclude_es) =
      Writes-part (nothing ▸ fresh ▸ child) exclude_part (has_exclude s) (exclude_element s)
        child_es writes_child writes_exclude in
    let writes_to_locator : Writes (nothing ▸ fresh ▸ child ▸ exclude_part ▸ locator_part)
        (tlvs locator_es) =
      Writes-part (nothing ▸ fresh ▸ child ▸ exclude_part) locator_part (has_locator s)
        (locator_element s) exclude_es writes_to_exclude writes_locator in
    let writes_most : Writes (nothing ▸ fresh ▸ child ▸ exclude_part ▸ locator_part ▸ most)
        (tlvs most_es) =
      Writes-part (nothing ▸ fresh ▸ child ▸ exclude_part ▸ locator_part) most
        (not (is_negative s.max_suffix_components))
        (number_element max_suffix_components_type s.max_suffix_components) locator_es
        writes_to_locator (Writes-number max_suffix_components_type s.max_suffix_components) in
    let all : Writes (nothing ▸ fresh ▸ child ▸ exclude_part ▸ locator_part ▸ most ▸ least)
        (tlvs (parts s)) =
      Writes-part (nothing ▸ fresh ▸ child ▸ exclude_part ▸ locator_part ▸ most) least
        (not (is_negative s.min_suffix_components))
        (number_element min_suffix_components_type s.min_suffix_components) most_es writes_most
        (Writes-number min_suffix_components_type s.min_suffix_components) in
    (
      close selectors_type (nothing ▸ fresh ▸ child ▸ exclude_part ▸ locator_part ▸ most ▸ least),
      encode_parts s exclude_part locator_part exclude_there locator_there,
      Writes-header (nothing ▸ fresh ▸ child ▸ exclude_part ▸ locator_part ▸ most ▸ least)
          selectors_type (tlvs (parts s)) all (omega (arith, good.size)),
    )

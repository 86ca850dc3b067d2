-- ===== src/Selectors/Stages.antt =====
-- selectors.cpp: the steps of wireDecode on the elements that wireEncode writes.
use ndn_cxx_logging.Base.{
  ℕ, ◌≡◌, refl, sym, ap, ◌∙◌, ℤ, negsuc, is_negative, Bool, true, false, not, List, [], map,
  if◌then◌else◌, Bool-cases, inl, inr,
}
use ndn_cxx_logging.Block.{Block, elements}
use ndn_cxx_logging.Block.Elements.{find, find_in, returned, Ending}
use ndn_cxx_logging.Block.Rows.{Element, sub_block}
use ndn_cxx_logging.Exclude.{Exclude, empty_exclude}
use ndn_cxx_logging.Exclude.Order.{IsDescending}
use ndn_cxx_logging.Exclude.Wire.Decoded.{shown}
use ndn_cxx_logging.Exclude.Wire.RoundTrip as ExcludeRoundTrip
use ndn_cxx_logging.KeyLocator as Locator
use ndn_cxx_logging.KeyLocator.{
  KeyLocator, LocatorType, empty_key_locator, key_locator_none, key_locator_name,
  key_locator_key_digest, key_locator_unknown,
}
use ndn_cxx_logging.Exclude.Wire.{exclude_type}
use ndn_cxx_logging.KeyLocator.RoundTrip.{SameKey, IsLocator}
use ndn_cxx_logging.KeyLocator.RoundTrip as LocatorRoundTrip
use ndn_cxx_logging.Selectors.{
  locator_of, exclude_of, element_of, int_of, Selectors, decode_min_suffix_components,
  decode_max_suffix_components, decode_locator, decode_exclude, decode_child_selector,
  decode_must_be_fresh, min_suffix_components_type, max_suffix_components_type, child_selector_type,
  must_be_fresh_type,
}
use ndn_cxx_logging.Selectors.Parts.{
  number_element, has_locator, has_exclude, locator_element, exclude_element, parts, IsEncodable,
  some_item,
}
use ndn_cxx_logging.Selectors.Found.{found, find_each}
use ndn_cxx_logging.Selectors.Values.{IsInt, int_back, read_int, no_locator, no_items}

-- The elements of `m_wire` are those that were written.
module _ (buffer : List ℕ) (s : Selectors) (w : Block)
    (written : elements w ≡ map (sub_block buffer) (parts s)) where
  find-found :
      (t : ℕ) (test : Bool) (e : Element)
      → find_in t (map (sub_block buffer) (parts s)) ≡ found buffer test e
      → find w t ≡ found buffer test e
  unfolding find
  find-found t test e h = ap (λ (bs : List Block). find_in t bs) written ∙ h

  element_of-found :
      (t : ℕ) (test : Bool) (e : Element) (decode : Block → Selectors → Selectors × Ending)
      (s0 : Selectors)
      → s0.wire ≡ w
      → find_in t (map (sub_block buffer) (parts s)) ≡ found buffer test e
      → element_of t decode s0 ≡ (if test then decode (sub_block buffer e) s0 else (s0, returned))
  element_of-found t test e decode s0 h k =
      let there : find s0.wire t ≡ found buffer test e =
        ap (λ (b : Block). find b t) h ∙ find-found t test e k in
      elim (Bool-cases test) [
        | inl here ↦ rw (element_of, there, here) refl
        | inr absent ↦ rw (element_of, there, absent) refl
      ]

  -- A number: `set` is what the code does with it, and the object has -1 before.
  int_stage :
      (t : ℕ) (n : ℤ) (s0 : Selectors) (set : Selectors → ℤ → Selectors)
      → IsInt n
      → s0.wire ≡ w
      → set s0 (negsuc 0) ≡ s0
      → find_in t (map (sub_block buffer) (parts s))
        ≡ found buffer (not (is_negative n)) (number_element t n)
      → element_of t (λ b s1. int_of b s1 (λ m. (set s1 m, returned))) s0
        ≡ (set s0 (int_back n), returned)
  int_stage t n s0 set good h old k =
      element_of-found t (not (is_negative n)) (number_element t n)
        (λ b s1. int_of b s1 (λ m. (set s1 m, returned))) s0 h k
      ∙ elim (Bool-cases (is_negative n)) [
        | inl absent ↦ rw absent (ap (λ (s1 : Selectors). (s1, returned)) (sym old))
        | inr positive ↦
            let (read, back) = read_int buffer t n good positive in rw (positive, read, back) refl
      ]

  -- What wireDecode has before and behind each of its parts
  abbrev pub decoding : ℤ → ℤ → KeyLocator → Exclude → ℤ → Bool → Selectors
  decoding least most k x child fresh = record {
    min_suffix_components = least;
    max_suffix_components = most;
    publisher_public_key_locator = k;
    exclude = x;
    child_selector = child;
    must_be_fresh = fresh;
    wire = w;
  }

  pub locator_stage :
      (least most : ℤ)
      → IsLocator s.publisher_public_key_locator.kind s.publisher_public_key_locator
      → (k : KeyLocator) × (decode_locator
            (decoding least most empty_key_locator empty_exclude (negsuc 0) false)
          ≡ (decoding least most k empty_exclude (negsuc 0) false, returned))
        × (k.kind ≡ s.publisher_public_key_locator.kind)
        × SameKey s.publisher_public_key_locator.kind s.publisher_public_key_locator k
  unfolding decode_locator
  locator_stage least most good =
      let s0 = decoding least most empty_key_locator empty_exclude (negsuc 0) false in
      let there =
        element_of-found Locator.key_locator_type (has_locator s) (locator_element s) locator_of s0
          refl (find_each buffer s).2 in
      elim (Bool-cases (has_locator s)) [
        | inr absent ↦
            let none_there = no_locator s.publisher_public_key_locator absent in
            (empty_key_locator, there ∙ rw absent refl, sym none_there, rw none_there tt)
        | inl here ↦
            let (k, decoded, kind, same) =
              LocatorRoundTrip.wire_decode-sub_block buffer s.publisher_public_key_locator
                empty_key_locator good in
            (k, there ∙ rw (here, decoded) refl, kind, same)
      ]

  pub exclude_stage :
      (least most : ℤ) (k : KeyLocator)
      → IsEncodable s
      → IsDescending s.exclude.exclude
      → (x : Exclude) × (decode_exclude (decoding least most k empty_exclude (negsuc 0) false)
          ≡ (decoding least most k x (negsuc 0) false, returned))
        × (map shown x.exclude ≡ map shown s.exclude.exclude)
  unfolding decode_exclude
  exclude_stage least most k good sorted =
      let s0 = decoding least most k empty_exclude (negsuc 0) false in
      let there =
        element_of-found exclude_type (has_exclude s) (exclude_element s) exclude_of s0 refl
          (find_each buffer s).3 in
      elim (Bool-cases (has_exclude s)) [
        | inr absent ↦
            let none_there = no_items s absent in
            (empty_exclude, there ∙ rw absent refl, rw none_there refl)
        | inl here ↦
            let (x, decoded, same) =
              ExcludeRoundTrip.wire_decode-sub_block buffer s.exclude empty_exclude
                (some_item s here) good.exclude sorted good.exclude_writable good.exclude_size in
            (x, there ∙ rw (here, decoded) refl, same)
      ]

  pub min_stage :
      IsInt s.min_suffix_components
      → decode_min_suffix_components
          (decoding (negsuc 0) (negsuc 0) empty_key_locator empty_exclude (negsuc 0) false)
        ≡ (
          decoding
              (int_back s.min_suffix_components)
              (negsuc 0)
              empty_key_locator
              empty_exclude
              (negsuc 0)
              false,
          returned,
        )
  unfolding decode_min_suffix_components
  min_stage good =
      int_stage min_suffix_components_type s.min_suffix_components
        (decoding (negsuc 0) (negsuc 0) empty_key_locator empty_exclude (negsuc 0) false)
        (λ s1 n. record s1 { min_suffix_components = n }) good refl refl (find_each buffer s).0

  pub max_stage :
      (least : ℤ)
      → IsInt s.max_suffix_components
      → decode_max_suffix_components
          (decoding least (negsuc 0) empty_key_locator empty_exclude (negsuc 0) false)
        ≡ (
          decoding least
              (int_back s.max_suffix_components)
              empty_key_locator
              empty_exclude
              (negsuc 0)
              false,
          returned,
        )
  unfolding decode_max_suffix_components
  max_stage least good =
      int_stage max_suffix_components_type s.max_suffix_components
        (decoding least (negsuc 0) empty_key_locator empty_exclude (negsuc 0) false)
        (λ s1 n. record s1 { max_suffix_components = n }) good refl refl (find_each buffer s).1

  pub child_stage :
      (least most : ℤ) (k : KeyLocator) (x : Exclude)
      → IsInt s.child_selector
      → decode_child_selector (decoding least most k x (negsuc 0) false)
        ≡ (decoding least most k x (int_back s.child_selector) false, returned)
  unfolding decode_child_selector
  child_stage least most k x good =
      int_stage child_selector_type s.child_selector (decoding least most k x (negsuc 0) false)
        (λ s1 n. record s1 { child_selector = n }) good refl refl (find_each buffer s).4

  pub fresh_stage :
      (least most : ℤ) (k : KeyLocator) (x : Exclude) (child : ℤ)
      → decode_must_be_fresh (decoding least most k x child false)
        ≡ (decoding least most k x child s.must_be_fresh, returned)
  unfolding decode_must_be_fresh
  fresh_stage least most k x child =
      element_of-found must_be_fresh_type s.must_be_fresh (must_be_fresh_type, [])
        (λ b s1. (record s1 { must_be_fresh = true }, returned))
        (decoding least most k x child false) refl (find_each buffer s).5
      ∙ elim (Bool-cases s.must_be_fresh) [ inl here ↦ rw here refl | inr absent ↦ rw absent refl ]

-- ===== src/Selectors/Found.antt =====
-- selectors.cpp: what wireDecode finds in the elements that wireEncode writes.
use ndn_cxx_logging.Base.{
  ℕ, ◌≡◌, refl, is_negative, Bool, true, false, not, ◌&&◌, Option, none, some, List, [], ◌++◌, map,
  ◌==◌, if◌then◌else◌, arith,
}
use ndn_cxx_logging.Block.{Block}
use ndn_cxx_logging.Block.Elements.{find_in}
use ndn_cxx_logging.Block.Rows.{Element, sub_block}
use ndn_cxx_logging.Selectors.{
  Selectors, min_suffix_components_type, max_suffix_components_type, child_selector_type,
  must_be_fresh_type,
}
use ndn_cxx_logging.KeyLocator.{key_locator_type}
use ndn_cxx_logging.Exclude.Wire.{exclude_type}
use ndn_cxx_logging.Selectors.Parts.{
  part, number_element, has_locator, has_exclude, locator_element, exclude_element, parts,
}

find-part :
    (buffer : List ℕ) (t : ℕ) (test : Bool) (e : Element) (es : List Element)
    → find_in t (map (sub_block buffer) (part test e ++ es)) ≡ (
        if (e.0 == t) && test
        then some (sub_block buffer e)
        else find_in t (map (sub_block buffer) es))
unfolding find_in
find-part buffer t true e es = ground arith
find-part buffer t false e es = ground arith

-- The element of a type, if it is written
abbrev pub found : List ℕ → Bool → Element → Option Block
found buffer test e = if test then some (sub_block buffer e) else none

module _ (buffer : List ℕ) (s : Selectors) where
  abbrev least_test : Bool
  least_test = not (is_negative s.min_suffix_components)

  abbrev least : Element
  least = number_element min_suffix_components_type s.min_suffix_components

  abbrev most_test : Bool
  most_test = not (is_negative s.max_suffix_components)

  abbrev most : Element
  most = number_element max_suffix_components_type s.max_suffix_components

  abbrev child_test : Bool
  child_test = not (is_negative s.child_selector)

  abbrev child : Element
  child = number_element child_selector_type s.child_selector

  abbrev fresh : Element
  fresh = (must_be_fresh_type, [])

  abbrev behind_child : List Element
  behind_child = part s.must_be_fresh fresh ++ []

  abbrev behind_exclude : List Element
  behind_exclude = part child_test child ++ behind_child

  abbrev behind_locator : List Element
  behind_locator = part (has_exclude s) (exclude_element s) ++ behind_exclude

  abbrev behind_most : List Element
  behind_most = part (has_locator s) (locator_element s) ++ behind_locator

  abbrev behind_least : List Element
  behind_least = part most_test most ++ behind_most

  -- Every type is found where it is written, whatever else is.
  pub find_each :
      (find_in min_suffix_components_type (map (sub_block buffer) (parts s))
        ≡ found buffer least_test least)
      × (find_in max_suffix_components_type (map (sub_block buffer) (parts s))
          ≡ found buffer most_test most)
      × (find_in key_locator_type (map (sub_block buffer) (parts s))
          ≡ found buffer (has_locator s) (locator_element s))
      × (find_in exclude_type (map (sub_block buffer) (parts s))
          ≡ found buffer (has_exclude s) (exclude_element s))
      × (find_in child_selector_type (map (sub_block buffer) (parts s))
          ≡ found buffer child_test child)
      × (find_in must_be_fresh_type (map (sub_block buffer) (parts s))
          ≡ found buffer s.must_be_fresh fresh)
  unfolding find_in
  find_each = (
    each min_suffix_components_type,
    each max_suffix_components_type,
    each key_locator_type,
    each exclude_type,
    each child_selector_type,
    each must_be_fresh_type,
  )
    where
      each :
          (t : ℕ)
          → find_in t (map (sub_block buffer) (parts s)) ≡ (
              if (min_suffix_components_type == t) && least_test
              then some (sub_block buffer least)
              else if (max_suffix_components_type == t) && most_test
              then some (sub_block buffer most)
              else if (key_locator_type == t) && has_locator s
              then some (sub_block buffer (locator_element s))
              else if (exclude_type == t) && has_exclude s
              then some (sub_block buffer (exclude_element s))
              else if (child_selector_type == t) && child_test
              then some (sub_block buffer child)
              else if (must_be_fresh_type == t) && s.must_be_fresh
              then some (sub_block buffer fresh)
              else none)
      each t =
          rw
            (
              find-part buffer t least_test least behind_least,
              find-part buffer t most_test most behind_most,
              find-part buffer t (has_locator s) (locator_element s) behind_locator,
              find-part buffer t (has_exclude s) (exclude_element s) behind_exclude,
              find-part buffer t child_test child behind_child,
              find-part buffer t s.must_be_fresh fresh [],
            )
            refl

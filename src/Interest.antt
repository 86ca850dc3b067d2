-- ===== src/Interest.antt =====
-- src/interest.hpp and interest.cpp: the name and the selectors of an Interest, and what it matches.
pub mod Matching
use ndn_cxx_logging.Base.{
  ℕ, suc, ◌+◌, ◌-◌, ◌%◌, ◌^◌, ℤ, pos, negsuc, is_negative, to_uint64, Bool, true, false, not, ◌&&◌,
  ◌||◌, Option, none, some, List, ltb, leb, ◌==◌, if◌then◌else◌, length, Result, ok, err, ◌>>=◌,
}
use ndn_cxx_logging.Tlv.{Error}
use ndn_cxx_logging.Block.{Block}
use ndn_cxx_logging.Block.Elements.{find}
use ndn_cxx_logging.Block.Elements as BlockElements
use ndn_cxx_logging.Component.{is_implicit_sha256_digest}
use ndn_cxx_logging.Data.{Data, get_full_name}
use ndn_cxx_logging.Exclude.{Exclude, is_excluded}
use ndn_cxx_logging.Exclude as ExcludeFilter
use ndn_cxx_logging.KeyLocator.{KeyLocator, key_locator_type}
use ndn_cxx_logging.KeyLocator as Locator
use ndn_cxx_logging.Name.{Name, size, get}
use ndn_cxx_logging.Name.Order as NameOrder
use ndn_cxx_logging.Selectors.{Selectors}

-- `m_name` and `m_selectors`
pub record Interest : Type 0 where
  pub name : Name
  pub selectors : Selectors

-- `isExcluded` of a component at an index, which is in range where the code calls it.
abbrev pub excludes : Exclude → Option Block → Bool
excludes e none = false
excludes e (some c) = is_excluded e c

unfoldable pub matches_name : Interest → Name → Bool
unfolding NameOrder.is_prefix_of get is_excluded ExcludeFilter.empty
matches_name i name =
    let own = size i.name in
    let s = i.selectors in
    if ltb (size name) own
    then false
    else if not (NameOrder.is_prefix_of i.name name)
    then false
    else if not (is_negative s.min_suffix_components)
        && not (leb (to_uint64 s.min_suffix_components) (size name - own))
    then false
    else if not (is_negative s.max_suffix_components)
        && not (leb (size name - own) (to_uint64 s.max_suffix_components))
    then false
    else if not (ExcludeFilter.empty s.exclude)
        && ltb own (size name)
        && excludes s.exclude (get name (pos own))
    then false
    else true

-- The full name, which the two places that need it ask for.
abbrev pub full_name_of : (List ℕ → List ℕ) → Data → Result Error Name
full_name_of sha256 d = do full ← get_full_name sha256 d; ok full.full_name

-- "check prefix"
unfoldable pub check_prefix : (List ℕ → List ℕ) → Interest → Data → Result Error Bool
unfolding NameOrder.is_prefix_of NameOrder.equals get is_implicit_sha256_digest
check_prefix sha256 i d =
    if size i.name == size d.name + 1
    then elim (get i.name (negsuc 0)) [
      | none ↦ ok false
      | some last ↦
          if is_implicit_sha256_digest last
          then (do full_name ← full_name_of sha256 d; ok (NameOrder.equals i.name full_name))
          else ok false
    ]
    else ok (NameOrder.is_prefix_of i.name d.name)

-- "check Exclude"
unfoldable pub check_exclude : (List ℕ → List ℕ) → Interest → Data → Result Error Bool
unfolding get is_excluded ExcludeFilter.empty
check_exclude sha256 i d =
    let own = size i.name in
    let e = i.selectors.exclude in
    if not (ExcludeFilter.empty e) && ltb own (size d.name + 1)
    then if own == size d.name
      then (do full_name ← full_name_of sha256 d; ok (not (excludes e (get full_name (pos own)))))
      else ok (not (excludes e (get d.name (pos own))))
    else ok true

-- "check PublisherPublicKeyLocator"
unfoldable pub check_locator : Interest → Data → Result Error Bool
unfolding Locator.wire_encode BlockElements.equals find
check_locator i d =
    let k = i.selectors.publisher_public_key_locator in
    if Locator.empty k then ok true else elim (find d.signature.info key_locator_type) [
      | none ↦ ok false
      | some it ↦ do encoded ← Locator.wire_encode k; BlockElements.equals encoded.wire it
    ]

-- A check returns false, or what follows is done.
abbrev pub and_check : Result Error Bool → Result Error Bool → Result Error Bool
and_check check behind = do passed ← check; if passed then behind else ok false

-- The sums are of 64 bits without a sign.
unfoldable pub matches_data : (List ℕ → List ℕ) → Interest → Data → Result Error Bool
unfolding check_prefix check_exclude check_locator
matches_data sha256 i d =
    let own = size i.name in
    let s = i.selectors in
    let full_name_length = size d.name + 1 in
    let min_suffix_components =
      if is_negative s.min_suffix_components then 0 else to_uint64 s.min_suffix_components in
    if not (leb ((own + min_suffix_components) % 2 ^ 64) full_name_length)
    then ok false
    else if not (is_negative s.max_suffix_components)
        && not (leb full_name_length ((own + to_uint64 s.max_suffix_components) % 2 ^ 64))
    then ok false
    else and_check (check_prefix sha256 i d)
        (and_check (check_exclude sha256 i d) (check_locator i d))

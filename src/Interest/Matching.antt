-- ===== src/Interest/Matching.antt =====
-- interest.cpp: matchesData against matchesName of the full name.
use ndn_cxx_logging.Base.{
  ℕ, zero, suc, ◌+◌, ◌-◌, ◌%◌, ◌^◌, ◌≤◌, ◌<◌, ◌≡◌, refl, ℤ, pos, negsuc, is_negative, to_uint64,
  Bool, true, false, not, ◌&&◌, ◌||◌, none, some, List, [], ◌∷◌, ◌++◌, ltb, leb, ◌==◌,
  if◌then◌else◌, length, get_elem?, arith, ok, length-append, Bool-cases, Option-cases, inl, inr,
}
use ndn_cxx_logging.Block.{Block, elements, has_wire}
use ndn_cxx_logging.Component.{is_implicit_sha256_digest}
use ndn_cxx_logging.Data.{Data}
use ndn_cxx_logging.Data.FullName.{
  IsDigest, IsCached, digest_component, current_full_name, full_name_lem, elements-append,
}
use ndn_cxx_logging.Exclude as ExcludeFilter
use ndn_cxx_logging.Interest.{
  Interest, excludes, matches_name, matches_data, full_name_of, check_prefix, check_exclude,
  check_locator,
}
use ndn_cxx_logging.KeyLocator as Locator
use ndn_cxx_logging.Name.{Name, size, get}
use ndn_cxx_logging.Name.Order.{same_components, is_prefix_of, equals}

same_components-front :
    (xs ys : List Block) (c : Block)
    → length xs ≤ length ys
    → same_components xs (ys ++ (c ∷ [])) ≡ same_components xs ys
unfolding same_components
same_components-front [] ys c h = refl
same_components-front (x ∷ xs) [] c h = absurd (omega arith)
same_components-front (x ∷ xs) (y ∷ ys) c h = ground (arith, same_components-front xs ys c)

get_elem?-front :
    (xs : List Block) (c : Block) (n : ℕ)
    → n < length xs
    → get_elem? (xs ++ (c ∷ [])) n ≡ get_elem? xs n
get_elem?-front [] c n h = absurd (omega arith)
get_elem?-front (x ∷ xs) c zero h = refl
get_elem?-front (x ∷ xs) c (suc n) h = get_elem?-front xs c n (omega arith)

-- The last component is an implicit digest.
abbrev pub ends_in_digest : Name → Bool
ends_in_digest name = elim (get name (negsuc 0)) [
  | none ↦ false
  | some last ↦ is_implicit_sha256_digest last
]

-- A number of 32 bits with a sign
abbrev pub IsInt : ℤ → Type 0
IsInt (pos n) = n < 2 ^ 31
IsInt (negsuc k) = k < 2 ^ 31

min_suffix_test :
    (own full : ℕ) (m : ℤ)
    → own < 2 ^ 63
    → IsInt m
    → (leb own full ≡ true
        → leb ((own + (if is_negative m then 0 else to_uint64 m)) % 2 ^ 64) full
          ≡ (is_negative m || leb (to_uint64 m) (full - own)))
      × (leb own full ≡ false
          → leb ((own + (if is_negative m then 0 else to_uint64 m)) % 2 ^ 64) full ≡ false)
min_suffix_test own full (pos n) h k = ((λ fits. ground arith), λ longer. ground arith)
min_suffix_test own full (negsuc n) h k = ((λ fits. ground arith), λ longer. ground arith)

max_suffix_test :
    (own full : ℕ) (m : ℤ)
    → own < 2 ^ 63
    → full < 2 ^ 64
    → IsInt m
    → leb own full ≡ true
    → (not (is_negative m) && not (leb full ((own + to_uint64 m) % 2 ^ 64)))
      ≡ (not (is_negative m) && not (leb (full - own) (to_uint64 m)))
max_suffix_test own full (pos n) h l k fits = ground arith
max_suffix_test own full (negsuc n) h l k fits = refl

-- A packet with the full name `full`: its name and one component.
module _ (sha256 : List ℕ → List ℕ) (i : Interest) (d : Data) (full : Name) (c : Block)
    (known : full_name_of sha256 d ≡ ok full)
    (behind : elements full ≡ elements d.name ++ (c ∷ [])) where
  full_size : size full ≡ size d.name + 1
  full_size = rw behind (length-append (elements d.name) (c ∷ []))

  check_prefix-full :
      size i.name ≤ size d.name + 1
      → check_prefix sha256 i d
        ≡ ok (is_prefix_of i.name full && (not (size i.name == size full) || ends_in_digest i.name))
  unfolding check_prefix is_prefix_of equals
  check_prefix-full h = elim (Bool-cases (size i.name == size d.name + 1)) [
    | inl same ↦ elim (Option-cases (get i.name (negsuc 0))) [
      | inl absent ↦ rw (check_prefix, same, absent) (ground (arith, full_size))
      | inr (last, found) ↦ elim (Bool-cases (is_implicit_sha256_digest last)) [
        | inl digest ↦ rw (check_prefix, same, found, digest, known) (ground (arith, full_size))
        | inr generic ↦ rw (check_prefix, same, found, generic) (ground (arith, full_size))
      ]
    ]
    | inr shorter ↦
        let cut : same_components (elements i.name) (elements full)
            ≡ same_components (elements i.name) (elements d.name) =
          rw behind (same_components-front (elements i.name) (elements d.name) c (ground arith)) in
        ground (arith, full_size, cut)
  ]

  check_exclude-full :
      size i.name ≤ size d.name + 1
      → check_exclude sha256 i d
        ≡ ok (
            not (
              not (ExcludeFilter.empty i.selectors.exclude)
              && ltb (size i.name) (size full)
              && excludes i.selectors.exclude (get full (pos (size i.name)))))
  unfolding check_exclude get
  check_exclude-full h = elim (Bool-cases (size i.name == size d.name)) [
    | inl same ↦ rw (check_exclude, same, known) (ground (arith, full_size))
    | inr other ↦ elim (Bool-cases (ltb (size i.name) (size d.name + 1))) [
      | inl shorter ↦
          let found : get full (pos (size i.name)) ≡ get d.name (pos (size i.name)) =
            unfold get in
            rw behind (get_elem?-front (elements d.name) c (size i.name) (ground arith)) in
          ground (arith, full_size, found)
      | inr longest ↦ ground (arith, full_size)
    ]
  ]

  -- The sums of 64 bits against the differences that matchesName computes.
  matches-full :
      size i.name < 2 ^ 63
      → size d.name < 2 ^ 63
      → IsInt i.selectors.min_suffix_components
      → IsInt i.selectors.max_suffix_components
      → Locator.empty i.selectors.publisher_public_key_locator ≡ true
      → matches_data sha256 i d
        ≡ ok (matches_name i full && (not (size i.name == size full) || ends_in_digest i.name))
  unfolding matches_data matches_name check_locator is_prefix_of
  matches-full bound other_bound least most any_key =
      let (min_test, longer_test) =
        min_suffix_test (size i.name) (size d.name + 1) i.selectors.min_suffix_components bound
          least in
      let max_test =
        max_suffix_test (size i.name) (size d.name + 1) i.selectors.max_suffix_components bound
          (omega arith) most in
      elim (Bool-cases (leb (size i.name) (size d.name + 1))) [
        | inl fits ↦
            let prefix = check_prefix-full (ground arith) in
            let exclude = check_exclude-full (ground arith) in
            let least_test = min_test fits in
            let most_test = max_test fits in
            rw (matches_data, prefix, exclude, check_locator, any_key) (ground (arith, full_size))
        | inr longer ↦ rw (matches_data, longer_test longer) (ground (arith, full_size))
      ]

-- matchesData is matchesName of the Data's full name, if the Interest names no key: a packet with a wire
-- matches exactly if its name with the digest of the wire behind it does, and, where the Interest's
-- name is as long as that, ends in an implicit digest. The packet's full name is not cached yet or the current
-- one, the two suffix bounds are of 32 bits, the names have fewer than 2^63 components, and
-- crypto::sha256 gives 32 bytes.
pub matches_data-matches_name :
    (sha256 : List ℕ → List ℕ) (i : Interest) (d : Data)
    → IsDigest sha256
    → IsCached sha256 d
    → has_wire d.wire ≡ true
    → size i.name < 2 ^ 63
    → size d.name < 2 ^ 63
    → IsInt i.selectors.min_suffix_components
    → IsInt i.selectors.max_suffix_components
    → Locator.empty i.selectors.publisher_public_key_locator ≡ true
    → (full : Name) × (full_name_of sha256 d ≡ ok full)
      × (matches_data sha256 i d
          ≡ ok (matches_name i full && (not (size i.name == size full) || ends_in_digest i.name)))
matches_data-matches_name sha256 i d digest cached signed bound other_bound least most any_key =
    let full = current_full_name sha256 d in
    let known : full_name_of sha256 d ≡ ok full =
      rw (full_name_lem sha256 d digest cached, signed) refl in
    (
      full,
      known,
      matches-full sha256 i d full (digest_component sha256 d) known
          (elements-append d.name (digest_component sha256 d)) bound other_bound least most any_key,
    )

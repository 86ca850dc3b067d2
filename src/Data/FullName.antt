-- ===== src/Data/FullName.antt =====
-- data.cpp: the cached full name is the one that the current name and wire give.
use ndn_cxx_logging.Base.{
  ℕ, ◌≡◌, ◌⊎◌, inl, inr, refl, ap, ◌∙◌, true, false, List, [], ◌∷◌, ◌++◌, length, ◌==◌,
  if◌then◌else◌, arith, length-append, ok, err, Bool-cases,
}
use ndn_cxx_logging.Tlv.{Error}
use ndn_cxx_logging.Block.{Block, node, to_list, elements, has_wire, of_value}
use ndn_cxx_logging.Block.Elements.{push_back}
use ndn_cxx_logging.Block.Parse.{to_list-of_list}
use ndn_cxx_logging.Component.{
  from_implicit_sha256_digest, sha256_digest_size, implicit_sha256_digest_component,
}
use ndn_cxx_logging.Data.{Data, wire_bytes, get_full_name}
use ndn_cxx_logging.Name.{Name, size, append, append_implicit_sha256_digest}

-- `crypto::sha256` gives 32 bytes.
abbrev pub IsDigest : (List ℕ → List ℕ) → Type 0
IsDigest sha256 = (bytes : List ℕ) → length (sha256 bytes) ≡ sha256_digest_size

-- The digest component of a packet
abbrev pub digest_component : (List ℕ → List ℕ) → Data → Block
digest_component sha256 d = of_value implicit_sha256_digest_component (sha256 (wire_bytes d))

-- The full name that the name and the wire give.
abbrev pub current_full_name : (List ℕ → List ℕ) → Data → Name
current_full_name sha256 d = append d.name (digest_component sha256 d)

-- Nothing is cached, or the full name of the wire that is there.
abbrev pub IsCached : (List ℕ → List ℕ) → Data → Type 0
IsCached sha256 d =
    (size d.full_name ≡ 0) ⊎ ((has_wire d.wire ≡ true) × (d.full_name ≡ current_full_name sha256 d))

append_digest :
    (sha256 : List ℕ → List ℕ) (d : Data)
    → IsDigest sha256
    → append_implicit_sha256_digest d.name (sha256 (wire_bytes d)) ≡ ok (current_full_name sha256 d)
unfolding append_implicit_sha256_digest from_implicit_sha256_digest
append_digest sha256 d h = rw (h (wire_bytes d)) refl

pub elements-append :
    (name : Name) (c : Block) → elements (append name c) ≡ elements name ++ (c ∷ [])
unfolding append push_back
elements-append (node f bs) c = to_list-of_list (to_list bs ++ (c ∷ []))

not_empty : (name : Name) (c : Block) → (size (append name c) == 0) ≡ false
not_empty name c = rw elements-append (ground (arith, length-append (elements name) (c ∷ [])))

-- getFullName fills the cache with the name of the current wire, or finds it there.
pub full_name_lem :
    (sha256 : List ℕ → List ℕ) (d : Data)
    → IsDigest sha256
    → IsCached sha256 d
    → get_full_name sha256 d ≡ (
        if has_wire d.wire
        then ok (record d { full_name = current_full_name sha256 d })
        else err Error.not_signed)
unfolding get_full_name
full_name_lem sha256 d h (inl none_yet) = elim (Bool-cases (has_wire d.wire)) [
  | inl signed ↦ rw (get_full_name, none_yet, signed, append_digest sha256 d h) refl
  | inr unsigned ↦ rw (get_full_name, none_yet, unsigned) refl
]
full_name_lem sha256 d h (inr (signed, current)) =
    let filled : (size d.full_name == 0) ≡ false =
      ap (λ (n : Name). size n == 0) current ∙ not_empty d.name (digest_component sha256 d) in
    let same : ok d ≡ ok (record d { full_name = current_full_name sha256 d }) =
      ap (λ (n : Name). ok (record d { full_name = n })) current in
    rw (get_full_name, filled, signed) same

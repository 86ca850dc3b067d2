-- ===== src/Exclude/Wire/Written.antt =====
-- exclude.cpp: the elements that wireEncode writes.
use ndn_cxx_logging.Base.{
  ℕ, ◌^◌, ◌<◌, ◌≡◌, refl, sym, Bool, true, not, some, List, [], ◌∷◌, ◌++◌, length, arith, ◌==◌,
  if◌then◌else◌, All, ◌⊎◌, inl, inr,
}
use ndn_cxx_logging.Tlv.Format.{tlv}
use ndn_cxx_logging.Block.{Block, type, value, value_size}
use ndn_cxx_logging.Block.Rows.{Element, tlvs}
use ndn_cxx_logging.Component.{name_component, implicit_sha256_digest_component, sha256_digest_size}
use ndn_cxx_logging.Encoding.{Template, nothing, ◌▸◌, optional, close, empty_block}
use ndn_cxx_logging.Encoding.Elements.{
  element, tlvs-append, tlvs-if, AllTyped, AllTyped-append, AllTyped-if,
}
use ndn_cxx_logging.Encoding.Parts.{Writes-component, Writes-empty_block}
use ndn_cxx_logging.Encoding.Writes.{
  Writes, Writes-▸, Writes-nothing, Writes-optional, Writes-header,
}
use ndn_cxx_logging.Exclude.{Item, Exclude}
use ndn_cxx_logging.Exclude.Wire.{
  exclude_type, any_type, component, is_written, wire_encode_items, wire_encode_to,
}
use mathlib.Core.List.{append_assoc}
use mathlib.Core.Path.{subst}

-- The elements of one item: its component, and Any behind it.
abbrev pub item_parts : Item → List Element
item_parts (key, any) =
    (if is_written (key, any) then element key ∷ [] else [])
    ++ (if any then (any_type, []) ∷ [] else [])

-- The elements of the items in front of those that are there: the greatest key stands last.
abbrev pub parts_onto : List Element → List Item → List Element
parts_onto es [] = es
parts_onto es (item ∷ m) = parts_onto (item_parts item ++ es) m

-- A generic component
abbrev pub IsGeneric : Item → Type 0
IsGeneric (key, any) = type key ≡ name_component

-- A generic component, or an implicit digest of the digest's size
abbrev pub IsKey : Item → Type 0
IsKey (key, any) =
    (IsGeneric (key, any)
      ⊎ ((type key ≡ implicit_sha256_digest_component) × (value_size key ≡ sha256_digest_size)))
    × (length (value key) < 2 ^ 62)

-- Every item is written with its component, or all components are generic.
abbrev pub IsWritable : List Item → Type 0
IsWritable m = All (λ item. is_written item ≡ true) m ⊎ All IsGeneric m

pub key-typed : (key : Block) (any : Bool) → IsKey (key, any) → type key < 2 ^ 32
key-typed key any (inl generic, size) = omega arith
key-typed key any (inr (digest, digest_size), size) = omega arith

Writes-item :
    (total : Template) (es : List Element) (key : Block) (any : Bool)
    → IsKey (key, any)
    → Writes total (tlvs es)
    → Writes
        (total
          ▸ optional any (empty_block any_type)
          ▸ optional (is_written (key, any)) (component key))
        (tlvs (item_parts (key, any) ++ es))
Writes-item total es key any good h =
    let any_bytes : List ℕ = if any then tlv any_type [] else [] in
    let key_tlv = tlv (type key) (value key) in
    let key_bytes : List ℕ = if is_written (key, any) then key_tlv else [] in
    let any_part = optional any (empty_block any_type) in
    let key_part = optional (is_written (key, any)) (component key) in
    let writes_any : Writes any_part any_bytes =
      Writes-optional any (empty_block any_type) (tlv any_type []) (Writes-empty_block any_type) in
    let writes_key : Writes key_part key_bytes =
      Writes-optional (is_written (key, any)) (component key) key_tlv
        (Writes-component key (omega (arith, good.1))) in
    let all : Writes (total ▸ any_part ▸ key_part) (key_bytes ++ (any_bytes ++ tlvs es)) =
      Writes-▸ (total ▸ any_part) key_part (any_bytes ++ tlvs es) key_bytes
        (Writes-▸ total any_part (tlvs es) any_bytes h writes_any) writes_key in
    subst (λ l. Writes (total ▸ any_part ▸ key_part) l)
      (sym (
        rw
          (
            tlvs-append (item_parts (key, any)) es,
            tlvs-append (if is_written (key, any) then element key ∷ [] else [])
                (if any then (any_type, []) ∷ [] else []),
            tlvs-if (is_written (key, any)) (type key) (value key),
            tlvs-if any any_type [],
          )
          (append_assoc key_bytes any_bytes (tlvs es))))
      all

Writes-items :
    (m : List Item) (total : Template) (es : List Element)
    → All IsKey m
    → Writes total (tlvs es)
    → Writes (wire_encode_items total m) (tlvs (parts_onto es m))
Writes-items [] total es good h = h
Writes-items ((key, any) ∷ m) total es good h =
    Writes-items m _ (item_parts (key, any) ++ es) good.1 (Writes-item total es key any good.0 h)

item_parts-AllTyped :
    (key : Block) (any : Bool) → IsKey (key, any) → AllTyped (item_parts (key, any))
item_parts-AllTyped key any good =
    AllTyped-append (if is_written (key, any) then element key ∷ [] else []) _
      (AllTyped-if (is_written (key, any)) (type key) (value key) (key-typed key any good))
      (AllTyped-if any any_type [] (omega arith))

pub parts_onto-AllTyped :
    (m : List Item) (es : List Element) → All IsKey m → AllTyped es → AllTyped (parts_onto es m)
parts_onto-AllTyped [] es good h = h
parts_onto-AllTyped ((key, any) ∷ m) es good h =
    parts_onto-AllTyped m (item_parts (key, any) ++ es) good.1
      (AllTyped-append (item_parts (key, any)) es (item_parts-AllTyped key any good.0) h)

-- The elements of a filter
abbrev pub parts : List Item → List Element
parts m = parts_onto [] m

-- What wireEncode writes
pub Writes-exclude :
    (e : Exclude)
    → All IsKey e.exclude
    → (not (length e.exclude == 0) ≡ true)
    → length (tlvs (parts e.exclude)) < 2 ^ 62
    → (template : Template) × (wire_encode_to e ≡ some template)
      × Writes template (tlv exclude_type (tlvs (parts e.exclude)))
unfolding tlvs
Writes-exclude e good some_item size = by_items e.exclude refl good some_item size
  where
    by_items :
        (m : List Item)
        → e.exclude ≡ m
        → All IsKey m
        → (not (length m == 0) ≡ true)
        → length (tlvs (parts m)) < 2 ^ 62
        → (template : Template) × (wire_encode_to e ≡ some template)
          × Writes template (tlv exclude_type (tlvs (parts m)))
    by_items [] h good there size = absurd (ground arith)
    by_items (item ∷ m) h good there size = (
      close exclude_type (wire_encode_items nothing (item ∷ m)),
      rw h refl,
      Writes-header (wire_encode_items nothing (item ∷ m)) exclude_type (tlvs (parts (item ∷ m)))
          (Writes-items (item ∷ m) nothing [] good Writes-nothing) (omega arith),
    )

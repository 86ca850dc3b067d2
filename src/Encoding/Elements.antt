-- ===== src/Encoding/Elements.antt =====
-- The elements that an encoding consists of: prependBlock, and rows of elements behind conditions.
use ndn_cxx_logging.Base.{
  ℕ, ◌^◌, ◌<◌, ◌≡◌, refl, sym, ap, ◌∙◌, Bool, true, false, List, [], ◌∷◌, ◌++◌, map, take, length,
  length-append, if◌then◌else◌, arith, All, Bool-cases, inl, inr, ◌⊎◌,
}
use ndn_cxx_logging.Tlv.Format.{tlv, size_of_var_number_bounds}
use ndn_cxx_logging.Block.{Block, fields, type, value, has_wire}
use ndn_cxx_logging.Block.Rows.{Element, IsElement, tlvs, sub_block}
use ndn_cxx_logging.Encoding.{◌▸◌, Template, nothing, block}
use ndn_cxx_logging.Encoding.Parts.{Writes-byte_array, Writes-byte_array_block}
use ndn_cxx_logging.Encoding.Writes.{Writes, Writes-▸, Writes-nothing, all_parts, length-tlv}
use mathlib.Core.List.{append-nil, append_assoc}
use mathlib.Core.Path.{subst}

-- A block as an element, its type and its value.
abbrev pub element : Block → Element
element b = (type b, value b)

-- The block's wire, if it has one, is that of its type and value.
abbrev pub IsEncoded : Block → Type 0
IsEncoded b = (has_wire b ≡ false) ⊎ (take (fields b).size (fields b).wire ≡ tlv (type b) (value b))

pub tlvs-append : (xs ys : List Element) → tlvs (xs ++ ys) ≡ tlvs xs ++ tlvs ys
unfolding tlvs
tlvs-append [] ys = refl
tlvs-append ((t, v) ∷ xs) ys =
    ap (λ (l : List ℕ). tlv t v ++ l) (tlvs-append xs ys)
    ∙ sym (append_assoc (tlv t v) (tlvs xs) (tlvs ys))

-- An element behind a condition
pub tlvs-if :
    (test : Bool) (t : ℕ) (v : List ℕ)
    → tlvs (if test then (t, v) ∷ [] else []) ≡ (if test then tlv t v else [])
unfolding tlvs
tlvs-if true t v = append-nil (tlv t v)
tlvs-if false t v = refl

-- prependBlock writes the wire of a block that has one, and its type and value otherwise.
pub Writes-block :
    (b : Block)
    → IsEncoded b
    → length (value b) < 2 ^ 62
    → Writes (block b) (tlv (type b) (value b))
Writes-block b (inl unwired) bound =
    rw unwired (Writes-byte_array_block (type b) (value b) (omega arith))
Writes-block b (inr cut) bound = elim (Bool-cases (has_wire b)) [
  | inl wired ↦
      let whole_wire = Writes-byte_array (tlv (type b) (value b)) (
        omega (
          arith,
          length-tlv (type b) (value b),
          size_of_var_number_bounds (length (value b)),
          size_of_var_number_bounds (type b),
        )) in
      rw (wired, cut) whole_wire
  | inr unwired ↦ rw unwired (Writes-byte_array_block (type b) (value b) (omega arith))
]

pub all_parts-tlvs :
    (bs : List Block) → all_parts (λ b. tlv (type b) (value b)) bs ≡ tlvs (map element bs)
unfolding tlvs
all_parts-tlvs [] = refl
all_parts-tlvs (b ∷ bs) = ap (λ (l : List ℕ). tlv (type b) (value b) ++ l) (all_parts-tlvs bs)

-- Types of 32 bits
abbrev pub AllTyped : List Element → Type 0
AllTyped es = All (λ e. e.0 < 2 ^ 32) es

pub AllTyped-append : (xs ys : List Element) → AllTyped xs → AllTyped ys → AllTyped (xs ++ ys)
AllTyped-append [] ys h k = k
AllTyped-append (x ∷ xs) ys h k = (h.0, AllTyped-append xs ys h.1 k)

pub AllTyped-if :
    (test : Bool) (t : ℕ) (v : List ℕ) → t < 2 ^ 32 → AllTyped (if test then (t, v) ∷ [] else [])
AllTyped-if true t v h = (h, tt)
AllTyped-if false t v h = tt

-- Values are shorter than what they stand in.
pub AllTyped-IsElement :
    (es : List Element) → AllTyped es → length (tlvs es) < 2 ^ 64 → All IsElement es
unfolding tlvs
AllTyped-IsElement [] h k = tt
AllTyped-IsElement ((t, v) ∷ es) h k =
    let sum = length-append (tlv t v) (tlvs es) in
    let whole_size = length-tlv t v in ((h.0, omega arith), AllTyped-IsElement es h.1 (omega arith))

-- A single part
pub Writes-single : (part : Template) (w : List ℕ) → Writes part w → Writes (nothing ▸ part) w
Writes-single part w h =
    subst (λ l. Writes (nothing ▸ part) l) (append-nil w)
      (Writes-▸ nothing part [] w Writes-nothing h)

-- The elements of sub-blocks in a buffer
pub element-sub_block :
    (buffer : List ℕ) (es : List Element) → map element (map (sub_block buffer) es) ≡ es
element-sub_block buffer [] = refl
element-sub_block buffer (e ∷ es) = ap (λ (l : List Element). e ∷ l) (element-sub_block buffer es)

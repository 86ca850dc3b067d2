-- ===== src/Block/Encode.antt =====
-- Block::encode on sub-blocks, and the way back through parse.
use ndn_cxx_logging.Base.{
  ℕ, ◌%◌, ◌^◌, ◌<◌, ◌≡◌, ◌⊎◌, inl, inr, refl, ap, ◌∙◌, true, false, none, some, List, [], ◌∷◌, ◌++◌,
  map, ltb, length, arith, ok, ◌>>=◌, All, length-append, take_all, lt→ltb,
}
use ndn_cxx_logging.Tlv.{write_var_number}
use ndn_cxx_logging.Tlv.Format.{
  var_number, tlv, write_var_number_lem, length-var_number, size_of_var_number_bounds,
}
use ndn_cxx_logging.Block.{
  Block, Fields, node, of_list, fields, type, has_wire, has_value, value, of_buffer,
}
use ndn_cxx_logging.Block.Elements.{sum_sizes, write_elements, encoding, encode, parse, returned}
use ndn_cxx_logging.Block.Wire.{whole, read_header-append, decode-tlv}
use ndn_cxx_logging.Block.Parse.{to_list-of_list}
use ndn_cxx_logging.Block.Rows.{Element, IsElement, tlvs, sub_block, parse-tlvs}
use mathlib.Core.List.{append_assoc, append-nil}

tlv-length : (t : ℕ) (v : List ℕ) → 0 < length (tlv t v)
tlv-length t v = omega (
  arith,
  length-append (var_number t) (var_number (length v) ++ v),
  length-var_number t,
  size_of_var_number_bounds t,
)

-- The sub-block is encoded as the element, from its wire or from its type and value.
abbrev pub Stands : Element → Block → Type 0
Stands (t, v) b =
    (has_value b ≡ true)
    × ((fields b).size ≡ length (tlv t v))
    × (((fields b).wire ≡ tlv t v)
        ⊎ (((fields b).wire ≡ []) × (type b ≡ t) × ((fields b).value ≡ v)))

-- Each sub-block stands for the element at its place.
abbrev pub StandFor : List Element → List Block → Type 0
StandFor [] [] = Unit
StandFor (e ∷ es) (b ∷ bs) = Stands e b × StandFor es bs
StandFor _ _ = ⊥

sum_sizes-tlvs :
    (es : List Element) (bs : List Block) → StandFor es bs → sum_sizes bs ≡ ok (length (tlvs es))
unfolding sum_sizes tlvs
sum_sizes-tlvs [] [] h = refl
sum_sizes-tlvs [] (b ∷ bs) h = absurd h
sum_sizes-tlvs (e ∷ es) [] h = absurd h
sum_sizes-tlvs ((t, v) ∷ es) (b ∷ bs) (hb, h) =
    ground (arith, hb.0, hb.1, sum_sizes-tlvs es bs h, length-append (tlv t v) (tlvs es))

write_element :
    (os : List ℕ) (t : ℕ) (v : List ℕ) (b : Block) (bs : List Block)
    → Stands (t, v) b
    → write_elements os (b ∷ bs) ≡ write_elements (os ++ tlv t v) bs
unfolding write_elements
write_element os t v b bs (hv, hs, inl w) =
    let some_wire : ltb 0 (length (tlv t v)) ≡ true = lt→ltb 0 _ (omega (arith, tlv-length t v)) in
    rw (hv, w, some_wire, hs, take_all (tlv t v)) refl
write_element os t v b bs (hv, hs, inr (w, ht, e)) =
    let no_wire : has_wire b ≡ false = rw (hv, w) refl in
    let the_value : value b ≡ v = rw hv e in
    let bytes : (write_var_number (write_var_number os (type b)).0 (length (value b))).0 ++ value b
        ≡ os ++ tlv t v =
      rw (write_var_number_lem, write_var_number_lem, ht, the_value)
        (append_assoc (os ++ var_number t) (var_number (length v)) v
          ∙ append_assoc os (var_number t) (var_number (length v) ++ v)) in
    rw (no_wire, bytes, hv) refl

write_elements-tlvs :
    (es : List Element) (bs : List Block) (os : List ℕ)
    → StandFor es bs
    → write_elements os bs ≡ ok (os ++ tlvs es)
write_elements-tlvs [] [] os h = unfold write_elements tlvs in rw append-nil refl
write_elements-tlvs [] (b ∷ bs) os h = absurd h
write_elements-tlvs (e ∷ es) [] os h = absurd h
write_elements-tlvs ((t, v) ∷ es) (b ∷ bs) os (hb, h) =
    write_element os t v b bs hb
    ∙ write_elements-tlvs es bs (os ++ tlv t v) h
    ∙ unfold tlvs in ap (λ (l : List ℕ). ok l) (append_assoc os (tlv t v) (tlvs es))

encoding_some :
    (f : Fields) (b : Block) (bs : List Block) (n : ℕ)
    → f.buffer ≡ none
    → sum_sizes (b ∷ bs) ≡ ok n
    → encoding (node f (of_list (b ∷ bs)))
      ≡ write_elements (write_var_number (write_var_number [] f.type).0 (n % 2 ^ 64)).0 (b ∷ bs)
unfolding encoding
encoding_some f b bs n hb h = ground (arith, hb, h, to_list-of_list bs)

-- A block without a buffer, over sub-blocks that stand for elements, encodes as the TLV of them.
encoding-tlvs :
    (f : Fields) (es : List Element) (bs : List Block)
    → f.buffer ≡ none
    → StandFor es bs
    → length (tlvs es) < 2 ^ 64
    → encoding (node f (of_list bs)) ≡ ok (tlv f.type (tlvs es))
encoding-tlvs f [] [] hb h hl =
    unfold encoding tlvs in
    rw (hb, write_var_number_lem, write_var_number_lem, append-nil (var_number 0)) refl
encoding-tlvs f [] (b ∷ bs) hb h hl = absurd h
encoding-tlvs f (e ∷ es) [] hb h hl = absurd h
encoding-tlvs f (e ∷ es) (b ∷ bs) hb h hl =
    let all = e ∷ es in
    let wrap : length (tlvs all) % 2 ^ 64 ≡ length (tlvs all) = omega arith in
    let os = (write_var_number (write_var_number [] f.type).0 (length (tlvs all))).0 in
    let header : os ≡ var_number f.type ++ var_number (length (tlvs all)) =
      rw (write_var_number_lem, write_var_number_lem) refl in
    encoding_some f b bs (length (tlvs all)) hb (sum_sizes-tlvs all (b ∷ bs) h)
    ∙ rw (wrap, write_elements-tlvs all (b ∷ bs) os h, header)
        (ap (λ (l : List ℕ). ok l)
          (append_assoc (var_number f.type) (var_number (length (tlvs all))) (tlvs all)))

-- `encode` of a block that has no buffer, so neither a wire nor a value of its own, over sub-blocks that stand for elements, makes the TLV of its
-- type and of the elements in order its buffer and wire, and keeps the sub-blocks. A block that is
-- decoded from that buffer and parsed has the type, and a sub-block for each element in order.
-- For types of 32 bits, and elements that together are shorter than 2^64 bytes.
pub encode-parse :
    (f : Fields) (es : List Element) (bs : List Block)
    → f.buffer ≡ none
    → f.type < 2 ^ 32
    → All IsElement es
    → StandFor es bs
    → length (tlvs es) < 2 ^ 64
    → (encode (node f (of_list bs))
        ≡ ok (
            node
              (record f {
                buffer = some (tlv f.type (tlvs es));
                wire = tlv f.type (tlvs es);
                size = length (tlv f.type (tlvs es)) % 2 ^ 32;
                value = tlvs es;
              })
              (of_list bs)))
      × ((do b ← of_buffer (tlv f.type (tlvs es)); ok (parse b))
          ≡ ok (
            node
                (fields (whole f.type (tlvs es)))
                (of_list (map (sub_block (tlv f.type (tlvs es))) es)),
            returned,
          ))
unfolding encode
encode-parse f es bs hb ht he h hl = (
  ground (
    arith,
    hb,
    encoding-tlvs f es bs hb h hl,
    read_header-append f.type (length (tlvs es)) (tlvs es) ht hl,
  ),
  rw (decode-tlv f.type (tlvs es) [] [] ht hl).0
      (ap (λ p. ok p) (parse-tlvs (fields (whole f.type (tlvs es))) es he refl)),
)

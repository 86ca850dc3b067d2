-- ===== src/Block/Rows.antt =====
-- Block::parse on a value that is a row of elements, and on one with bytes behind the row that are no
-- element.
use ndn_cxx_logging.Base.{
  ℕ, zero, suc, ◌+◌, ◌-◌, ◌^◌, ◌≤◌, ◌<◌, ◌≡◌, ◌≢◌, refl, sym, ap, ◌∙◌, List, [], ◌∷◌, ◌++◌, map,
  length, take, arith, length-append, ok, err, All, take-append, drop-append, le→ltb_false,
}
use ndn_cxx_logging.Tlv.{Error, read_type, read_var_number}
use ndn_cxx_logging.Block.Parse.{
  parse_loop_bad, parse_loop_step, parse_lem, buffer_of, to_list-of_list,
}
use ndn_cxx_logging.Tlv.Format.{var_number, tlv, length-var_number, size_of_var_number_bounds}
use ndn_cxx_logging.Block.{
  Block, Fields, node, nil, of_list, elements, of_parts, read_header, value,
}
use ndn_cxx_logging.Block.Elements.{parse_loop, parse, returned, threw}
use ndn_cxx_logging.Block.Wire.{read_header-append, element_cut, tlv-append, tlv-parts}
use mathlib.Core.List.{append_assoc, append-nil}
use native.Mathlib.Nat.{zero-add, suc-add}

-- A TLV of a sub-element: its type and its value.
abbrev pub Element : Type 0
Element = ℕ × List ℕ

abbrev pub IsElement : Element → Type 0
IsElement (t, v) = (t < 2 ^ 32) × (length v < 2 ^ 64)

unfoldable pub tlvs : List Element → List ℕ
tlvs [] = []
tlvs ((t, v) ∷ es) = tlv t v ++ tlvs es

-- The sub-block of an element, in a buffer.
abbrev pub sub_block : List ℕ → Element → Block
sub_block buffer (t, v) = of_parts buffer t (tlv t v) v

parse_loop_element :
    (fuel : ℕ) (buffer range : List ℕ) (parsed : List Block) (t : ℕ) (v more : List ℕ)
    → read_header range ≡ ok (t, length v, v ++ more)
    → take (length range - length (v ++ more) + length v) range ≡ tlv t v
    → parse_loop (suc fuel) buffer range parsed
      ≡ parse_loop fuel buffer more (parsed ++ (sub_block buffer (t, v) ∷ []))
parse_loop_element fuel buffer [] parsed t v more h cut =
    unfold read_header read_type read_var_number in cc h
parse_loop_element fuel buffer (b ∷ range) parsed t v more h cut =
    parse_loop_step fuel buffer b range parsed t (length v) (v ++ more) h
      (le→ltb_false _ _ (omega (arith, length-append v more)))
    ∙ rw (cut, take-append (length v) v more refl, drop-append (length v) v more refl) refl

-- One round on an element in front of any bytes.
parse_loop-tlv :
    (fuel : ℕ) (buffer : List ℕ) (parsed : List Block) (t : ℕ) (v more : List ℕ)
    → IsElement (t, v)
    → parse_loop (suc fuel) buffer (tlv t v ++ more) parsed
      ≡ parse_loop fuel buffer more (parsed ++ (sub_block buffer (t, v) ∷ []))
parse_loop-tlv fuel buffer parsed t v more (ht, hv) =
    let header = var_number t ++ var_number (length v) in
    parse_loop_element fuel buffer (tlv t v ++ more) parsed t v more
      (rw tlv-append (read_header-append t (length v) (v ++ more) ht hv))
      (element_cut (tlv t v ++ more) header v more (tlv-parts t v more)
        ∙ append_assoc (var_number t) (var_number (length v)) v)

parse_loop-tlvs :
    (es : List Element) (fuel : ℕ) (buffer more : List ℕ) (parsed : List Block)
    → All IsElement es
    → parse_loop (length es + fuel) buffer (tlvs es ++ more) parsed
      ≡ parse_loop fuel buffer more (parsed ++ map (sub_block buffer) es)
unfolding tlvs
parse_loop-tlvs [] fuel buffer more parsed h = rw (append-nil parsed, zero-add fuel) refl
parse_loop-tlvs ((t, v) ∷ es) fuel buffer more parsed h =
    rw (suc-add, append_assoc (tlv t v) (tlvs es) more)
      (parse_loop-tlv (length es + fuel) buffer parsed t v (tlvs es ++ more) h.0
        ∙ parse_loop-tlvs es fuel buffer more (parsed ++ (sub_block buffer (t, v) ∷ [])) h.1
        ∙ ap (λ (l : List Block). parse_loop fuel buffer more l)
            (append_assoc parsed (sub_block buffer (t, v) ∷ []) (map (sub_block buffer) es)))

tlvs-length : (es : List Element) → length es ≤ length (tlvs es)
unfolding tlvs
tlvs-length [] = omega arith
tlvs-length ((t, v) ∷ es) = omega (
  arith,
  tlvs-length es,
  length-append (tlv t v) (tlvs es),
  length-append (var_number t) (var_number (length v) ++ v),
  length-var_number t,
  size_of_var_number_bounds t,
)

tlvs-ne_nil :
    (t : ℕ) (v : List ℕ) (es : List Element) (more : List ℕ) → tlvs ((t, v) ∷ es) ++ more ≢ []
tlvs-ne_nil t v es more e = omega (
  arith,
  ap (λ (l : List ℕ). length l) e,
  tlvs-length ((t, v) ∷ es),
  length-append (tlvs ((t, v) ∷ es)) more,
)

-- With fuel for a byte each, a row of elements in front of `more` is read.
parse_loop-row :
    (es : List Element) (buffer more : List ℕ)
    → All IsElement es
    → (fuel : ℕ) × (length more ≤ fuel)
      × (parse_loop (length (tlvs es ++ more)) buffer (tlvs es ++ more) []
          ≡ parse_loop fuel buffer more (map (sub_block buffer) es))
parse_loop-row es buffer more h =
    let fuel = length (tlvs es ++ more) - length es in
    let sum : length es + fuel ≡ length (tlvs es ++ more) =
      omega (arith, tlvs-length es, length-append (tlvs es) more) in
    (
      fuel,
      omega (arith, tlvs-length es, length-append (tlvs es) more),
      ap (λ (k : ℕ). parse_loop k buffer (tlvs es ++ more) []) (sym sum)
          ∙ parse_loop-tlvs es fuel buffer more [] h,
    )

-- `parse` on a value that is a row of elements: it returns, with their sub-blocks in order.
pub parse-tlvs :
    (f : Fields) (es : List Element)
    → All IsElement es
    → value (node f nil) ≡ tlvs es
    → parse (node f nil) ≡ (node f (of_list (map (sub_block (buffer_of f)) es)), returned)
parse-tlvs f [] h e = unfold parse in rw e (unfold tlvs in refl)
parse-tlvs f ((t, v) ∷ es) h e =
    let all = (t, v) ∷ es in
    let e' : value (node f nil) ≡ tlvs all ++ [] = e ∙ sym (append-nil (tlvs all)) in
    let (fuel, enough, row) = parse_loop-row all (buffer_of f) [] h in
    parse_lem f (λ n. tlvs-ne_nil t v es [] (sym e' ∙ n)) ∙ rw (e', row) (unfold parse_loop in refl)

loop_at_bad :
    (fuel : ℕ) (buffer : List ℕ) (x : ℕ) (bad : List ℕ) (parsed : List Block) (e : Error)
    → length (x ∷ bad) ≤ fuel
    → read_header (x ∷ bad) ≡ err e
    → parse_loop fuel buffer (x ∷ bad) parsed ≡ (parsed, threw e)
loop_at_bad zero buffer x bad parsed e l h = absurd (omega arith)
loop_at_bad (suc fuel) buffer x bad parsed e l h = parse_loop_bad fuel buffer x bad parsed e h

parse_bad_tail :
    (f : Fields) (t : ℕ) (v : List ℕ) (es : List Element) (x : ℕ) (bad : List ℕ) (e : Error)
    → All IsElement ((t, v) ∷ es)
    → value (node f nil) ≡ tlvs ((t, v) ∷ es) ++ (x ∷ bad)
    → read_header (x ∷ bad) ≡ err e
    → parse (node f nil) ≡ (node f (of_list (map (sub_block (buffer_of f)) ((t, v) ∷ es))), threw e)
parse_bad_tail f t v es x bad e h hv hb =
    let all = (t, v) ∷ es in
    let (fuel, enough, row) = parse_loop-row all (buffer_of f) (x ∷ bad) h in
    parse_lem f (λ n. tlvs-ne_nil t v es (x ∷ bad) (sym hv ∙ n))
    ∙ rw (hv, row, loop_at_bad fuel (buffer_of f) x bad _ e enough hb) refl

-- Where the elements are followed by bytes whose type and length cannot be read, `parse` throws and
-- leaves the sub-blocks of the elements behind. There is one at least, so a second call returns as
-- if the value had been parsed. For elements of 32-bit types with values shorter than 2^64 bytes.
pub parse_after_error :
    (f : Fields) (t : ℕ) (v : List ℕ) (es : List Element) (x : ℕ) (bad : List ℕ) (e : Error)
    → All IsElement ((t, v) ∷ es)
    → value (node f nil) ≡ tlvs ((t, v) ∷ es) ++ (x ∷ bad)
    → read_header (x ∷ bad) ≡ err e
    → ((parse (node f nil)).1 ≡ threw e)
      × (elements (parse (node f nil)).0 ≡ map (sub_block (buffer_of f)) ((t, v) ∷ es))
      × (parse (parse (node f nil)).0 ≡ ((parse (node f nil)).0, returned))
parse_after_error f t v es x bad e h hv hb =
    rw (parse_bad_tail f t v es x bad e h hv hb) (refl, to_list-of_list _, unfold parse in refl)

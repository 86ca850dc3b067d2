-- ===== src/Block/Parse.antt =====
-- Block::parse: the loop ends, the sub-blocks are the elements of the value in order, and what an
-- error leaves behind.
use ndn_cxx_logging.Base.{
  ℕ, zero, suc, ◌+◌, ◌-◌, ◌≤◌, ◌<◌, ◌≡◌, ◌≢◌, ◌⊎◌, inl, inr, refl, sym, ap, ◌∙◌, true, false, none,
  some, List, [], ◌∷◌, ◌++◌, ltb, length, take, drop, arith, length-drop, ok, err, Result-cases,
  take-append-drop, List-cases, nil_of_length, Bool-cases, drop_add, >>=-eq-ok,
}
use ndn_cxx_logging.Tlv.{Error, read_type, read_var_number}
use ndn_cxx_logging.Tlv.Bounds.{read_var_number_suffix}
use ndn_cxx_logging.Block.{
  Block, Fields, node, nil, to_list, of_list, fields, elements, of_parts, read_header, value,
}
use ndn_cxx_logging.Block.Elements.{parse_loop, parse, Ending, returned, threw, stuck}
use mathlib.Core.Path.{subst}
use mathlib.Core.List.{append_assoc, append-nil}

read_type_suffix :
    (range : List ℕ) (t : ℕ) (rest : List ℕ)
    → read_type range ≡ ok (t, rest)
    → (length rest < length range) × (rest ≡ drop (length range - length rest) range)
unfolding read_type
read_type_suffix range t rest h = ground (arith, read_var_number_suffix range t rest)

pub read_header_suffix :
    (range : List ℕ) (t len : ℕ) (rest : List ℕ)
    → read_header range ≡ ok (t, len, rest)
    → (length rest < length range) × (rest ≡ drop (length range - length rest) range)
unfolding read_header
read_header_suffix range t len rest h =
    let ((t', mid), h1, k) = >>=-eq-ok (read_type range) _ h in
    let ((n, rest'), h2, h3) = >>=-eq-ok (read_var_number mid) _ k in
    let same : rest' ≡ rest = cc h3 in
    let (l1, s1) = read_type_suffix range t' mid h1 in
    let (l2, s2) = read_var_number_suffix mid n rest' h2 in
    let l2' : length rest < length mid = rw same at l2 in
    let s2' : rest ≡ drop (length mid - length rest) mid = rw same at s2 in
    let sum : length range - length rest ≡ length range - length mid + (length mid - length rest) =
      omega (arith, l1, l2') in
    (
      omega (arith, l1, l2'),
      s2'
          ∙ ap (λ (l : List ℕ). drop (length mid - length rest) l) s1
          ∙ sym (drop_add (length range - length mid) (length mid - length rest) range)
          ∙ ap (λ (k : ℕ). drop k range) (sym sum),
    )

-- The wires of blocks, one behind the other.
unfoldable pub wires : List Block → List ℕ
wires [] = []
wires (b ∷ bs) = (fields b).wire ++ wires bs

pub wires-append : (xs ys : List Block) → wires (xs ++ ys) ≡ wires xs ++ wires ys
unfolding wires
wires-append [] ys = refl
wires-append (x ∷ xs) ys =
    ap (λ (l : List ℕ). (fields x).wire ++ l) (wires-append xs ys)
    ∙ sym (append_assoc (fields x).wire (wires xs) (wires ys))

-- The sub-blocks are the elements at the front of `range`, each with the type, the bytes and the value that its
-- header gives it; `rest` is behind them.
abbrev pub AreElements : List ℕ → List ℕ → List Block → List ℕ → Type 0
AreElements buffer range [] rest = range ≡ rest
AreElements buffer range (b ∷ bs) rest =
    (t : ℕ) × (len : ℕ) × (behind : List ℕ) × (read_header range ≡ ok (t, len, behind))
    × (len ≤ length behind)
    × (b ≡ of_parts buffer t (take (length range - length behind + len) range) (take len behind))
    × AreElements buffer (drop len behind) bs rest

-- An element at the front of `range` is longer than what is left.
abbrev pub IsTooLong : List ℕ → Type 0
IsTooLong range =
    (t : ℕ) × (len : ℕ) × (behind : List ℕ) × (read_header range ≡ ok (t, len, behind))
    × (length behind < len)

-- How parsing all of `range` may end, with the sub-blocks behind it.
abbrev pub Outcome : List ℕ → List ℕ → List Block × Ending → Type 0
Outcome buffer range (bs, returned) = AreElements buffer range bs [] × (wires bs ≡ range)
Outcome buffer range (bs, threw e) =
    ((rest : List ℕ) × AreElements buffer range bs rest
      × (wires bs ++ rest ≡ range)
      × (read_header rest ≡ err e))
    ⊎ ((bs ≡ [])
        × (e ≡ Error.length_exceeds_buffer)
        × ((front : List Block) × (rest : List ℕ) × AreElements buffer range front rest
            × IsTooLong rest))
Outcome buffer range (bs, stuck) = ⊥

-- The wire of one more sub-block, in front of what is left.
one_wire :
    (buffer range value : List ℕ) (t cut : ℕ)
    → wires (of_parts buffer t (take cut range) value ∷ []) ++ drop cut range ≡ range
unfolding wires
one_wire buffer range value t cut = rw append-nil (take-append-drop cut range)

-- What is behind an element, from the front of the range
behind_element :
    (range : List ℕ) (t len : ℕ) (behind : List ℕ)
    → read_header range ≡ ok (t, len, behind)
    → drop len behind ≡ drop (length range - length behind + len) range
behind_element range t len behind h =
    let (shorter, suffix) = read_header_suffix range t len behind h in
    ap (λ (r : List ℕ). drop len r) suffix ∙ sym (drop_add (length range - length behind) len range)

AreElements-wires :
    (buffer range : List ℕ) (bs : List Block) (rest : List ℕ)
    → AreElements buffer range bs rest
    → wires bs ++ rest ≡ range
unfolding wires
AreElements-wires buffer range [] rest h = sym h
AreElements-wires buffer range (b ∷ bs) rest (t, len, behind, header, fits, made, h) =
    let cut = length range - length behind + len in
    let left =
      AreElements-wires buffer (drop len behind) bs rest h
      ∙ behind_element range t len behind header in
    rw made (
      append_assoc (take cut range) (wires bs) rest
      ∙ ap (λ (l : List ℕ). take cut range ++ l) left
      ∙ take-append-drop cut range)

AreElements-append :
    (buffer range : List ℕ) (bs : List Block) (rest : List ℕ) (others : List Block) (last : List ℕ)
    → AreElements buffer range bs rest
    → AreElements buffer rest others last
    → AreElements buffer range (bs ++ others) last
AreElements-append buffer range [] rest others last h k =
    subst (λ r. AreElements buffer r others last) (sym h) k
AreElements-append buffer range (b ∷ bs) rest others last (t, len, behind, header, fits, made, h)
      k =
    (
      t,
      len,
      behind,
      header,
      fits,
      made,
      AreElements-append buffer (drop len behind) bs rest others last h k,
    )

-- One round of the loop, by what it reads.
module _ (fuel : ℕ) (buffer : List ℕ) (b : ℕ) (range : List ℕ) (parsed : List Block) where
  pub parse_loop_bad :
      (e : Error)
      → read_header (b ∷ range) ≡ err e
      → parse_loop (suc fuel) buffer (b ∷ range) parsed ≡ (parsed, threw e)
  unfolding parse_loop
  parse_loop_bad e h = rw (h, parse_loop)

  parse_loop_long :
      (t len : ℕ) (rest : List ℕ)
      → read_header (b ∷ range) ≡ ok (t, len, rest)
      → ltb (length rest) len ≡ true
      → parse_loop (suc fuel) buffer (b ∷ range) parsed ≡ ([], threw Error.length_exceeds_buffer)
  unfolding parse_loop
  parse_loop_long t len rest h long = rw (h, parse_loop) (rw long)

  pub parse_loop_step :
      (t len : ℕ) (rest : List ℕ)
      → read_header (b ∷ range) ≡ ok (t, len, rest)
      → ltb (length rest) len ≡ false
      → parse_loop (suc fuel) buffer (b ∷ range) parsed
        ≡ parse_loop fuel buffer (drop len rest) (
            parsed
            ++ (of_parts buffer t
                  (take (length (b ∷ range) - length rest + len) (b ∷ range))
                  (take len rest)
                ∷ []))
  unfolding parse_loop
  parse_loop_step t len rest h fits = rw (h, parse_loop) (rw fits)

parse_loop-Outcome :
    (fuel : ℕ) (buffer range : List ℕ) (parsed : List Block) (all : List ℕ)
    → length range ≤ fuel
    → AreElements buffer all parsed range
    → Outcome buffer all (parse_loop fuel buffer range parsed)
parse_loop-Outcome fuel buffer [] parsed all l h =
    unfold parse_loop in
    (h, sym (append-nil (wires parsed)) ∙ AreElements-wires buffer all parsed [] h)
parse_loop-Outcome zero buffer (b ∷ range) parsed all l h = absurd (omega arith)
parse_loop-Outcome (suc fuel) buffer (b ∷ range) parsed all l h =
    elim (Result-cases (read_header (b ∷ range))) [
      | inr (e, bad) ↦
          rw (parse_loop_bad fuel buffer b range parsed e bad)
            (inl (b ∷ range, h, AreElements-wires buffer all parsed (b ∷ range) h, bad))
      | inl ((t, len, rest), good) ↦ elim (Bool-cases (ltb (length rest) len)) [
        | inl long ↦
            rw (parse_loop_long fuel buffer b range parsed t len rest good long)
              (inr (refl, refl, (parsed, b ∷ range, h, (t, len, rest, good, ground arith))))
        | inr fits ↦
            let shorter = (read_header_suffix (b ∷ range) t len rest good).0 in
            let cut = length (b ∷ range) - length rest + len in
            let sub_block = of_parts buffer t (take cut (b ∷ range)) (take len rest) in
            rw (parse_loop_step fuel buffer b range parsed t len rest good fits) (
              parse_loop-Outcome fuel buffer (drop len rest) (parsed ++ (sub_block ∷ [])) all
                (omega (arith, length-drop len rest, shorter))
                (AreElements-append buffer all parsed (b ∷ range) (sub_block ∷ []) (drop len rest) h
                  (t, len, rest, good, ground arith, refl, refl)))
      ]
    ]

pub to_list-of_list : (bs : List Block) → to_list (of_list bs) ≡ bs
to_list-of_list [] = refl
to_list-of_list (b ∷ bs) = ap (λ (l : List Block). b ∷ l) (to_list-of_list bs)

-- `m_buffer`, empty where it is null.
abbrev pub buffer_of : Fields → List ℕ
buffer_of f = elim f.buffer [ none ↦ [] | some w ↦ w ]

pub parse_lem :
    (f : Fields)
    → value (node f nil) ≢ []
    → parse (node f nil) ≡ (
      node f (
          of_list
            (parse_loop (length (value (node f nil))) (buffer_of f) (value (node f nil)) []).0),
      (parse_loop (length (value (node f nil))) (buffer_of f) (value (node f nil)) []).1,
    )
unfolding parse
parse_lem f h = ground (arith, nil_of_length (value (node f nil)))

-- `parse` of a block without sub-blocks always ends. If it returns, the sub-blocks are the elements of
-- the value, one behind the other, each with the type, the bytes and the value that its header gives it, and
-- their wires together are the value. If it throws, either the sub-blocks are the elements in front of bytes
-- whose type and length cannot be read, which throws the same; or there are no sub-blocks, and behind some
-- elements of the value stands one that is longer than what is left.
pub parse-Outcome :
    (f : Fields)
    → Outcome
        (buffer_of f)
        (value (node f nil))
        (elements (parse (node f nil)).0, (parse (node f nil)).1)
parse-Outcome f = elim (List-cases (value (node f nil))) [
  | inl none_left ↦ unfold parse in rw none_left (unfold wires in (refl, refl))
  | inr some_left ↦
      rw (parse_lem f some_left, to_list-of_list)
        (parse_loop-Outcome _ (buffer_of f) (value (node f nil)) [] (value (node f nil))
          (omega arith) refl)
]

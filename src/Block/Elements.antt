-- ===== src/Block/Elements.antt =====
-- encoding/block.cpp: the operations on a block and its sub-elements. An iterator into `m_subBlocks`
-- is an index.
use ndn_cxx_logging.Base.{
  ℕ, zero, suc, ◌+◌, ◌-◌, ◌%◌, ◌^◌, Bool, true, false, Option, none, some, List, [], ◌∷◌, ◌++◌, ltb,
  ◌==◌, if◌then◌else◌, length, take, drop, Result, ok, err, ◌>>=◌,
}
use ndn_cxx_logging.Tlv.{Error, max_uint32, write_var_number}
use ndn_cxx_logging.Block.{
  Block, Fields, node, nil, cons, to_list, of_list, fields, elements, type, of_parts, has_wire,
  has_value, wire, value, value_size, size, read_header, leaf,
}

-- reset(): `m_size` stays.
unfoldable pub reset : Block → Block
reset b =
    leaf
      (record { buffer = none; type = max_uint32; wire = []; value = []; size = (fields b).size })

-- The fields behind resetWire(), which keeps the type, `m_size` and the sub-blocks.
abbrev pub no_wire : Fields → Fields
no_wire f = record f { buffer = none; wire = []; value = [] }

unfoldable pub reset_wire : Block → Block
reset_wire (node f bs) = node (no_wire f) bs

-- How a call that may throw ends. `stuck` is none of the code's: the loop ran out of fuel.
pub data Ending : Type 0 where
  returned : Ending
  threw : Error → Ending
  stuck : Ending

-- The loop of parse() over [begin, end): the sub-blocks behind it, and how it ends. `parsed` are
-- those pushed before.
unfoldable pub parse_loop : ℕ → List ℕ → List ℕ → List Block → List Block × Ending
parse_loop fuel buffer [] parsed = (parsed, returned)
parse_loop zero buffer (b ∷ range) parsed = (parsed, stuck)
parse_loop (suc fuel) buffer (b ∷ range) parsed = elim (read_header (b ∷ range)) [
  | err e ↦ (parsed, threw e)
  | ok (t, len, rest) ↦
      let element = take (length (b ∷ range) - length rest + len) (b ∷ range) in
      let sub_block = of_parts buffer t element (take len rest) in
      let more = parse_loop fuel buffer (drop len rest) (parsed ++ (sub_block ∷ [])) in
      if ltb (length rest) len then ([], threw Error.length_exceeds_buffer) else more
]

-- parse(): an element takes bytes of the value, so its length is enough fuel.
unfoldable pub parse : Block → Block × Ending
parse (node f (cons b bs)) = (node f (cons b bs), returned)
parse (node f nil) =
    let range = value (node f nil) in
    let buffer : List ℕ = elim f.buffer [ none ↦ [] | some w ↦ w ] in
    let (sub_blocks, ending) = parse_loop (length range) buffer range [] in
    if length range == 0 then (node f nil, returned) else (node f (of_list sub_blocks), ending)

-- The sum of size() over the sub-blocks.
unfoldable pub sum_sizes : List Block → Result Error ℕ
sum_sizes [] = ok 0
sum_sizes (b ∷ bs) = do n ← size b; rest ← sum_sizes bs; ok (n + rest)

-- The loop of encode() that writes the sub-blocks.
unfoldable pub write_elements : List ℕ → List Block → Result Error (List ℕ)
write_elements os [] = ok os
write_elements os (b ∷ bs) =
    if has_wire b
    then write_elements (os ++ take (fields b).size (fields b).wire) bs
    else if has_value b
    then write_elements
        ((write_var_number (write_var_number os (type b)).0 (value_size b)).0 ++ value b) bs
    else err Error.empty_value

-- What encode() writes to its stream.
unfoldable pub encoding : Block → Result Error (List ℕ)
encoding (node f bs) =
    let os = (write_var_number [] f.type).0 in
    if has_value (node f bs)
    then ok ((write_var_number os (value_size (node f bs))).0 ++ value (node f bs))
    else if length (to_list bs) == 0
    then ok (write_var_number os 0).0
    else do
      value_size ← sum_sizes (to_list bs)
      write_elements (write_var_number os (value_size % 2 ^ 64)).0 (to_list bs)

-- encode(): the stream becomes the buffer. An exception leaves the block as it was.
unfoldable pub encode : Block → Result Error Block
encode (node f bs) = if has_wire (node f bs) then ok (node f bs) else do
  buffer ← encoding (node f bs)
  (t, len, rest) ← read_header buffer
  ok (
      node
        (record f {
          buffer = some buffer;
          wire = buffer;
          size = length buffer % 2 ^ 32;
          value = rest;
        })
        bs)

unfoldable pub find_in : ℕ → List Block → Option Block
find_in t [] = none
find_in t (b ∷ bs) = if type b == t then some b else find_in t bs

-- find(type): the element at the iterator, or `none` for the end.
unfoldable pub find : Block → ℕ → Option Block
unfolding find_in
find b t = find_in t (elements b)

unfoldable pub get : Block → ℕ → Result Error Block
unfolding find
get b t = elim (find b t) [ none ↦ err Error.non_existed_type | some e ↦ ok e ]

unfoldable pub remove_from : ℕ → List Block → List Block
remove_from t [] = []
remove_from t (b ∷ bs) = if type b == t then remove_from t bs else b ∷ remove_from t bs

-- remove(type)
unfoldable pub remove : Block → ℕ → Block
unfolding remove_from
remove (node f bs) t = node (no_wire f) (of_list (remove_from t (to_list bs)))

unfoldable pub push_back : Block → Block → Block
push_back (node f bs) element = node (no_wire f) (of_list (to_list bs ++ (element ∷ [])))

-- insert(pos, element), for an iterator of the block.
unfoldable pub insert : Block → ℕ → Block → Block
insert (node f bs) pos element =
    node (no_wire f) (of_list (take pos (to_list bs) ++ (element ∷ drop pos (to_list bs))))

-- erase(position) and erase(first, last), for iterators of the block.
unfoldable pub erase : Block → ℕ → Block
erase (node f bs) position =
    node (no_wire f) (of_list (take position (to_list bs) ++ drop (suc position) (to_list bs)))

unfoldable pub erase_range : Block → ℕ → ℕ → Block
erase_range (node f bs) first last =
    node (no_wire f) (of_list (take first (to_list bs) ++ drop last (to_list bs)))

-- blockFromValue()
unfoldable pub block_from_value : Block → Result Error Block
block_from_value b = if value_size b == 0 then err Error.empty_value else do
  (t, len, rest) ← read_header (value b)
  if len == length rest
      then ok (
          leaf (record {
            buffer = (fields b).buffer;
            type = t;
            wire = value b;
            value = rest;
            size = length (value b) % 2 ^ 32;
          }))
      else err Error.value_length_mismatch

-- std::equal on ranges of one length.
unfoldable pub equal_bytes : List ℕ → List ℕ → Bool
equal_bytes [] [] = true
equal_bytes (x ∷ xs) (y ∷ ys) = if x == y then equal_bytes xs ys else false
equal_bytes _ _ = false

-- operator==: `&&` calls begin() and end() only behind equal sizes.
unfoldable pub equals : Block → Block → Result Error Bool
unfolding equal_bytes
equals a b = do
  m ← size a
  n ← size b
  if m == n then (do v ← wire a; w ← wire b; ok (equal_bytes v w)) else ok false

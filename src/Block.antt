-- ===== src/Block.antt =====
-- src/encoding/block.hpp and block.cpp: a TLV element over a shared buffer.
-- A pair of iterators into the buffer is the list of the bytes between them; the buffer is constant,
-- so blocks that share it do not change one another. A null `m_buffer` is `none`, with empty ranges.
pub mod Elements
pub mod Wire
pub mod Parse
pub mod Rows
pub mod Encode
pub mod Find
pub mod Equal
use ndn_cxx_logging.Base.{
  ℕ, zero, suc, ◌+◌, ◌-◌, ◌*◌, ◌%◌, ◌^◌, Bool, true, false, not, ◌&&◌, ◌||◌, Option, none, some,
  List, [], ◌∷◌, ◌++◌, ltb, leb, ◌==◌, if◌then◌else◌, length, take, drop, slice, Result, ok, err,
  ◌>>=◌,
}
use ndn_cxx_logging.Tlv.{
  Error, max_uint32, read_type, read_var_number, try_read_type, try_read_var_number,
  size_of_var_number, write_var_number,
}
use ndn_cxx_logging.Encoder
use ndn_cxx_logging.Encoder.{Encoder}

-- The members other than `m_subBlocks`: `wire` is [m_begin, m_end), `value` is
-- [m_value_begin, m_value_end), and `size` is `m_size`, of 32 bits.
pub record Fields : Type 0 where
  pub buffer : Option (List ℕ)
  pub type : ℕ
  pub wire : List ℕ
  pub value : List ℕ
  pub size : ℕ

mutual
  pub data Block : Type 0 where
    node : Fields → Blocks → Block

  -- `m_subBlocks`.
  pub data Blocks : Type 0 where
    nil : Blocks
    cons : Block → Blocks → Blocks

abbrev pub to_list : Blocks → List Block
to_list nil = []
to_list (cons b bs) = b ∷ to_list bs

abbrev pub of_list : List Block → Blocks
of_list [] = nil
of_list (b ∷ bs) = cons b (of_list bs)

abbrev pub fields : Block → Fields
fields (node f bs) = f

abbrev pub elements : Block → List Block
elements (node f bs) = to_list bs

abbrev pub type : Block → ℕ
type b = (fields b).type

-- A block with no sub-blocks.
abbrev pub leaf : Fields → Block
leaf f = node f nil

-- Block(): the members that the constructor leaves alone are empty; `m_size` is not read without a
-- buffer.
abbrev pub empty_block : Block
empty_block = leaf (record { buffer = none; type = max_uint32; wire = []; value = []; size = 0 })

-- Block(type)
abbrev pub of_type : ℕ → Block
of_type t = leaf (record { buffer = none; type = t; wire = []; value = []; size = 0 })

-- Block(type, value): the buffer is the value, and there is no wire.
abbrev pub of_value : ℕ → List ℕ → Block
of_value t value = leaf (record {
  buffer = some value;
  type = t;
  wire = [];
  value = value;
  size = (size_of_var_number t + size_of_var_number (length value) + length value) % 2 ^ 32;
})

-- Block(wire, type, begin, end, valueBegin, valueEnd)
abbrev pub of_parts : List ℕ → ℕ → List ℕ → List ℕ → Block
of_parts buffer t wire value = leaf (record {
  buffer = some buffer;
  type = t;
  wire = wire;
  value = value;
  size = length wire % 2 ^ 32;
})

pub empty : Block → Bool
empty b = type b == max_uint32

abbrev pub has_value : Block → Bool
has_value b = elim (fields b).buffer [ none ↦ false | some _ ↦ true ]

-- `m_buffer && m_begin != m_end`
abbrev pub has_wire : Block → Bool
has_wire b = has_value b && ltb 0 (length (fields b).wire)

-- begin(), end() and wire() throw the same way, and give the bytes of the wire.
abbrev pub wire : Block → Result Error (List ℕ)
wire b = if has_wire b then ok (fields b).wire else err Error.empty_wire

-- value() and value_size(): without a buffer the value is empty.
abbrev pub value : Block → List ℕ
value b = if has_value b then (fields b).value else []

abbrev pub value_size : Block → ℕ
value_size b = length (value b)

abbrev pub size : Block → Result Error ℕ
size b = if has_wire b || has_value b then ok (fields b).size else err Error.undefined_size

-- The type and length in front of `range`: they, and what follows.
unfoldable pub read_header : List ℕ → Result Error (ℕ × ℕ × List ℕ)
read_header range = do
  (t, behind_type) ← read_type range
  (len, rest) ← read_var_number behind_type
  ok (t, len, rest)

-- Block(buffer, begin, end, verifyLength)
unfoldable pub of_range : List ℕ → ℕ → ℕ → Bool → Result Error Block
unfolding read_header
of_range buffer begin end verify_length = do
  let range = slice begin end buffer
  (t, len, rest) ← read_header range
  if verify_length && not (len == length rest)
      then err Error.length_mismatch
      else ok (of_parts buffer t range rest)

-- Block(buffer), for the whole of a Buffer
unfoldable pub of_buffer : List ℕ → Result Error Block
unfolding read_header
of_buffer buffer = do
  (t, len, rest) ← read_header buffer
  if len == length rest then ok (of_parts buffer t buffer rest) else err Error.length_mismatch

-- Block(EncodingBuffer), and Encoder::block
unfoldable pub of_encoder : Encoder → Result Error Block
unfolding of_range
of_encoder e = of_range e.buffer e.begin e.end true

-- Block(block, begin, end, verifyLength): the bounds are tested against the block's buffer. (The
-- source dereferences a null buffer; no caller passes one.)
unfoldable pub of_block_range : Block → ℕ → ℕ → Bool → Result Error Block
unfolding of_range
of_block_range b begin end verify_length = elim (fields b).buffer [
  | none ↦ err Error.iterators_outside
  | some buffer ↦
      if leb begin (length buffer) && leb end (length buffer)
      then of_range buffer begin end verify_length
      else err Error.iterators_outside
]

-- Block(uint8_t*, maxlength), and Block(void*, maxlength): the bytes of the element are copied.
unfoldable pub of_raw : List ℕ → Result Error Block
unfolding read_header
of_raw raw = do
  (t, len, rest) ← read_header raw
  let header = length raw - length rest
  let copy = take (header + len) raw
  if ltb (length rest) len
      then err Error.not_enough_data
      else ok (of_parts copy t copy (drop header copy))

-- Block(type, block): the value is the wire of the other block, in its buffer. (Without a buffer
-- the source dereferences null before `begin()` throws.)
unfoldable pub of_block : ℕ → Block → Result Error Block
of_block t b = do
  range ← wire b
  ok (
      leaf (record {
        buffer = (fields b).buffer;
        type = t;
        wire = [];
        value = range;
        size = (size_of_var_number t + size_of_var_number (length range) + length range) % 2 ^ 32;
      }))

-- fromBuffer(buffer, offset)
unfoldable pub from_buffer : List ℕ → ℕ → Bool × Block
from_buffer buffer offset =
    let range = drop offset buffer in
    let (behind_type, t?) = try_read_type range in
    let (rest, length?) = try_read_var_number behind_type in
    elim t? [
      | none ↦ (false, empty_block)
      | some t ↦ elim length? [
        | none ↦ (false, empty_block)
        | some len ↦ if ltb (length rest) len then (false, empty_block) else (
          true,
          of_parts buffer t (take (length range - length rest + len) range) (take len rest),
        )
      ]
    ]

-- fromBuffer(uint8_t*, maxSize): the bytes of the element are copied.
unfoldable pub from_raw : List ℕ → Bool × Block
from_raw raw =
    let (behind_type, t?) = try_read_type raw in
    let (rest, length?) = try_read_var_number behind_type in
    elim t? [
      | none ↦ (false, empty_block)
      | some t ↦ elim length? [
        | none ↦ (false, empty_block)
        | some len ↦
            if ltb (length rest) len
            then (false, empty_block)
            else let header = length raw - length rest in
              let copy = take (header + len) raw in (true, of_parts copy t copy (drop header copy))
      ]
    ]

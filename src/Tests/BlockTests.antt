-- ===== src/Tests/BlockTests.antt =====
-- Concrete runs of encoding/block.cpp and block-helpers.cpp, and the theorems about them at concrete
-- inputs.
use ndn_cxx_logging.Base.{
  ℕ, ◌%◌, ◌^◌, ◌<◌, ◌≡◌, inr, refl, true, List, [], ◌∷◌, ◌++◌, none, some, map, length, ok, err,
  ◌>>=◌, arith,
}
use ndn_cxx_logging.Tlv.{Error, size_of_var_number, read_type, read_var_number, try_read_var_number}
use ndn_cxx_logging.Tlv.Format.{tlv, var_number}
use ndn_cxx_logging.Block.{
  Block, Fields, node, nil, of_list, fields, elements, value, of_buffer, of_raw, from_raw,
  from_buffer, of_parts, of_value, leaf, read_header,
}
use ndn_cxx_logging.Block.Elements.{encode, parse, parse_loop, returned, threw}
use ndn_cxx_logging.Block.Wire.{whole, tried, decode-tlv, from_raw-of_raw}
use ndn_cxx_logging.Block.Parse.{Outcome, parse-Outcome, buffer_of}
use ndn_cxx_logging.Block.Rows.{Element, tlvs, sub_block, parse_after_error}
use ndn_cxx_logging.Block.Encode.{StandFor, encode-parse}
use ndn_cxx_logging.BlockHelpers.{
  make_binary_block, make_string_block, make_empty_block, make_non_negative_integer_block,
}
use ndn_cxx_logging.Encoder.Numbers.{non_negative_integer}
use ndn_cxx_logging.BlockHelpers.Make.{make_block_wire}

-- Two elements: 8 with one byte, and 9 with none.
abbrev row : List ℕ
row = 8 ∷ 1 ∷ 5 ∷ 9 ∷ 0 ∷ []

abbrev row_fields : Fields
row_fields = record { buffer = some row; type = 7; wire = []; value = row; size = 7 }

row-parsed : parse (leaf row_fields) ≡ (
  node row_fields
      (of_list (of_parts row 8 (8 ∷ 1 ∷ 5 ∷ []) (5 ∷ []) ∷ of_parts row 9 (9 ∷ 0 ∷ []) [] ∷ [])),
  returned,
)
unfolding parse parse_loop read_header read_type read_var_number try_read_var_number
row-parsed = refl

parse-Outcome_example :
    Outcome row row (elements (parse (leaf row_fields)).0, (parse (leaf row_fields)).1)
parse-Outcome_example = parse-Outcome row_fields

-- A block to be encoded over a sub-block without a wire.
abbrev parent : Fields
parent = record { buffer = none; type = 7; wire = []; value = []; size = 0 }

abbrev one_element : List Element
one_element = (8, 5 ∷ []) ∷ []

abbrev one_sub_block : List Block
one_sub_block = of_value 8 (5 ∷ []) ∷ []

one_element-StandFor : StandFor one_element one_sub_block
unfolding var_number size_of_var_number
one_element-StandFor = ((refl, refl, inr (refl, refl, refl)), tt)

one_element-bound : length (tlvs one_element) < 2 ^ 64
unfolding tlvs var_number
one_element-bound = omega arith

encode-parse_example :
    (encode (node parent (of_list one_sub_block))
      ≡ ok (
          node
            (record parent {
              buffer = some (tlv 7 (tlvs one_element));
              wire = tlv 7 (tlvs one_element);
              size = length (tlv 7 (tlvs one_element)) % 2 ^ 32;
              value = tlvs one_element;
            })
            (of_list one_sub_block)))
    × ((do b ← of_buffer (tlv 7 (tlvs one_element)); ok (parse b))
        ≡ ok (
          node
              (fields (whole 7 (tlvs one_element)))
              (of_list (map (sub_block (tlv 7 (tlvs one_element))) one_element)),
          returned,
        ))
encode-parse_example =
    encode-parse parent one_element one_sub_block refl (omega arith)
      ((omega arith, omega arith), tt) one_element-StandFor one_element-bound

make_block_wire_example :
    (make_binary_block 8 (5 ∷ []) ≡ ok (whole 8 (5 ∷ [])))
    × (make_string_block 8 (5 ∷ []) ≡ ok (whole 8 (5 ∷ [])))
    × (make_empty_block 8 ≡ ok (whole 8 []))
    × (make_non_negative_integer_block 8 300 ≡ ok (whole 8 (non_negative_integer 300)))
make_block_wire_example = make_block_wire 8 300 (5 ∷ []) (omega arith) (omega arith)

decode-tlv_example :
    (of_buffer (tlv 8 (5 ∷ [])) ≡ ok (whole 8 (5 ∷ [])))
    × (of_raw (tlv 8 (5 ∷ []) ++ (6 ∷ [])) ≡ ok (whole 8 (5 ∷ [])))
    × (from_raw (tlv 8 (5 ∷ []) ++ (6 ∷ [])) ≡ (true, whole 8 (5 ∷ [])))
    × (from_buffer (4 ∷ (tlv 8 (5 ∷ []) ++ (6 ∷ []))) 1
        ≡ (true, of_parts (4 ∷ (tlv 8 (5 ∷ []) ++ (6 ∷ []))) 8 (tlv 8 (5 ∷ [])) (5 ∷ [])))
decode-tlv_example = decode-tlv 8 (5 ∷ []) (4 ∷ []) (6 ∷ []) (omega arith) (omega arith)

from_raw-of_raw_example : from_raw (8 ∷ 2 ∷ 5 ∷ []) ≡ tried (of_raw (8 ∷ 2 ∷ 5 ∷ []))
from_raw-of_raw_example = from_raw-of_raw (8 ∷ 2 ∷ 5 ∷ [])

-- An element, and a byte that promises a number of two bytes.
abbrev cut_row : Fields
cut_row = record {
  buffer = some (8 ∷ 1 ∷ 5 ∷ 253 ∷ []);
  type = 7;
  wire = [];
  value = 8 ∷ 1 ∷ 5 ∷ 253 ∷ [];
  size = 6;
}

cut_row-bad : read_header (253 ∷ []) ≡ err Error.insufficient_data
unfolding read_header read_type read_var_number try_read_var_number
cut_row-bad = refl

cut_row-value : value (node cut_row nil) ≡ tlvs ((8, 5 ∷ []) ∷ []) ++ (253 ∷ [])
unfolding tlvs var_number
cut_row-value = refl

parse_after_error_example :
    ((parse (node cut_row nil)).1 ≡ threw Error.insufficient_data)
    × (elements (parse (node cut_row nil)).0
        ≡ map (sub_block (buffer_of cut_row)) ((8, 5 ∷ []) ∷ []))
    × (parse (parse (node cut_row nil)).0 ≡ ((parse (node cut_row nil)).0, returned))
parse_after_error_example =
    parse_after_error cut_row 8 (5 ∷ []) [] 253 [] Error.insufficient_data
      ((omega arith, omega arith), tt) cut_row-value cut_row-bad

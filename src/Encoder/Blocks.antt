-- ===== src/Encoder/Blocks.antt =====
-- src/encoding/encoder.cpp: prependBlock and appendBlock.
use ndn_cxx_logging.Base.{ℕ, List, take, if◌then◌else◌}
use ndn_cxx_logging.Encoder.{
  Encoder, prepend_byte_array, append_byte_array, prepend_byte_array_block, append_byte_array_block,
}
use ndn_cxx_logging.Block.{Block, fields, type, value, has_wire}

-- The bytes of a wire, `size` from its begin on
abbrev wire_bytes : Block → List ℕ
wire_bytes block = take (fields block).size (fields block).wire

unfoldable pub prepend_block : Encoder → Block → Encoder × ℕ
prepend_block e block =
    if has_wire block
    then prepend_byte_array e (wire_bytes block)
    else prepend_byte_array_block e (type block) (value block)

unfoldable pub append_block : Encoder → Block → Encoder × ℕ
append_block e block =
    if has_wire block
    then append_byte_array e (wire_bytes block)
    else append_byte_array_block e (type block) (value block)

-- ===== src/Name/Wire.antt =====
-- name.cpp: the wire of a name.
pub mod RoundTrip
use ndn_cxx_logging.Base.{List, if◌then◌else◌, Result, ok, err, ◌>>=◌}
use ndn_cxx_logging.Tlv.{Error}
use ndn_cxx_logging.Block.{Block, elements, has_wire}
use ndn_cxx_logging.Block.Elements.{parse, Ending, returned}
use ndn_cxx_logging.Component.Order as ComponentOrder
use ndn_cxx_logging.Encoding.{Template, each_reversed, close, encode_alone}
use ndn_cxx_logging.Name.{Name, name_type}

-- The loop over the components, the last one first.
abbrev pub wire_encode_components : List Block → Template
wire_encode_components = each_reversed (λ c impl s. ComponentOrder.wire_encode_to impl s c)

-- wireEncode(EncodingImpl<TAG>)
abbrev pub wire_encode_to : Name → Template
wire_encode_to name = close name_type (wire_encode_components (elements name))

-- wireEncode(): the block that is assigned to the name, parsed.
unfoldable pub wire_encode : Name → Result Error (Name × Ending)
wire_encode name =
    if has_wire name
    then ok (name, returned)
    else (do block ← encode_alone (wire_encode_to name); ok (parse block))

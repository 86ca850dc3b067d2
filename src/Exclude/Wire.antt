-- ===== src/Exclude/Wire.antt =====
-- exclude.cpp: the wire of an exclude filter.
pub mod Written
pub mod Decoded
pub mod RoundTrip
use ndn_cxx_logging.Base.{
  ℕ, Bool, true, false, not, ◌||◌, Option, none, some, List, [], ◌∷◌, ◌==◌, if◌then◌else◌, Result,
  ok, err, ◌>>=◌,
}
use ndn_cxx_logging.Tlv.{Error}
use ndn_cxx_logging.Block.{Block, type, elements, has_wire, value_size}
use ndn_cxx_logging.Block.Elements.{parse, Ending, returned, threw}
use ndn_cxx_logging.Component.{empty_component, of_block}
use ndn_cxx_logging.Component.Order as ComponentOrder
use ndn_cxx_logging.Encoding.{
  Template, nothing, ◌▸◌, optional, close, empty_block, encode_alone, and_then,
}
use ndn_cxx_logging.Exclude.{Item, Exclude, append_exclude, clear}

-- tlv::Exclude and tlv::Any
abbrev pub exclude_type : ℕ
exclude_type = 16

abbrev pub any_type : ℕ
any_type = 19

abbrev pub component : Block → Template
component c impl s = ComponentOrder.wire_encode_to impl s c

-- `!item.first.empty() || !item.second`
abbrev pub is_written : Item → Bool
is_written (key, any) = not (value_size key == 0) || not any

-- The loop over the items, from the greatest key on; the first item ends up behind the others.
abbrev pub wire_encode_items : Template → List Item → Template
wire_encode_items total [] = total
wire_encode_items total ((key, any) ∷ m) =
    wire_encode_items
      (total
        ▸ optional any (empty_block any_type)
        ▸ optional (is_written (key, any)) (component key))
      m

-- wireEncode(EncodingImpl<TAG>), or `none` where it throws.
abbrev pub wire_encode_to : Exclude → Option Template
wire_encode_to e = elim e.exclude [
  | [] ↦ none
  | item ∷ m ↦ some (close exclude_type (wire_encode_items nothing (item ∷ m)))
]

-- wireEncode(): the filter with its wire.
unfoldable pub wire_encode : Exclude → Result Error Exclude
wire_encode e = if has_wire e.wire then ok e else elim (wire_encode_to e) [
  | none ↦ err Error.empty_exclude
  | some template ↦ do wire ← encode_alone template; ok (record e { wire = wire })
]

-- The loop of wireDecode over the elements behind the first Any.
unfoldable pub decode_items : Exclude → List Block → Exclude × Ending
decode_items e [] = (e, returned)
decode_items e (b ∷ []) = elim (of_block b) [
  | err error ↦ (e, threw Error.bad_exclude)
  | ok excluded_component ↦ (append_exclude e excluded_component false, returned)
]
decode_items e (b ∷ next ∷ bs) = elim (of_block b) [
  | err error ↦ (e, threw Error.bad_exclude)
  | ok excluded_component ↦ elim (type next == any_type) [
    | true ↦ decode_items (append_exclude e excluded_component true) bs
    | false ↦ decode_items (append_exclude e excluded_component false) (next ∷ bs)
  ]
]

-- What wireDecode does with the elements of `m_wire`.
unfoldable pub decode_elements : Exclude → List Block → Exclude × Ending
unfolding decode_items
decode_elements e [] = (e, threw Error.empty_exclude)
decode_elements e (first ∷ bs) =
    if type first == any_type
    then decode_items (append_exclude e empty_component true) bs
    else decode_items e (first ∷ bs)

unfoldable pub wire_decode : Exclude → Block → Exclude × Ending
unfolding decode_elements
wire_decode e wire =
    let cleared = clear e in
    let (parsed, ending) = parse wire in
    if type wire == exclude_type
    then and_then (record cleared { wire = parsed }, ending)
        (λ e1. decode_elements e1 (elements parsed))
    else (cleared, threw Error.unexpected_type)

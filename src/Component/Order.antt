-- ===== src/Component/Order.antt =====
-- name-component.hpp and name-component.cpp: equality, the canonical order, and the wire of a
-- component. An `int` that only its sign matters of is an Ordering.
pub mod Laws
pub mod Greater
use Prim.Native.Nat.{compare as compare_numbers, Ordering}
use ndn_cxx_logging.Base.{
  ℕ, suc, ◌+◌, Bool, true, false, not, List, [], ◌∷◌, ltb, ◌==◌, if◌then◌else◌, length, Result, ok,
  err, ◌>>=◌,
}
use ndn_cxx_logging.Base.Bytes.{add64}
use ndn_cxx_logging.Tlv.{Error}
use ndn_cxx_logging.Encoder
use ndn_cxx_logging.Block.{Block, type, value, value_size, has_wire, of_encoder}
use ndn_cxx_logging.Block.Elements.{equal_bytes}
use ndn_cxx_logging.BlockHelpers.{EncodingImpl, encoder_impl, estimator_impl}

-- std::memcmp over the length of the ranges.
unfoldable pub memcmp : List ℕ → List ℕ → Ordering
memcmp [] ys = Ordering.eq
memcmp (x ∷ xs) [] = Ordering.eq
memcmp (x ∷ xs) (y ∷ ys) =
    if ltb x y then Ordering.lt else if ltb y x then Ordering.gt else memcmp xs ys

-- equals, operator== and, negated, operator!=: the types are not compared.
unfoldable pub equals : Block → Block → Bool
equals c other =
    if not (value_size c == value_size other)
    then false
    else if value_size c == 0
    then true
    else equal_bytes (value c) (value other)

unfoldable pub compare : Block → Block → Ordering
unfolding memcmp
compare c other =
    if ltb (type c) (type other)
    then Ordering.lt
    else if ltb (type other) (type c)
    then Ordering.gt
    else if ltb (value_size c) (value_size other)
    then Ordering.lt
    else if ltb (value_size other) (value_size c)
    then Ordering.gt
    else if value_size c == 0
    then Ordering.eq
    else memcmp (value c) (value other)

-- operator<, and the other three
unfoldable pub lt : Block → Block → Bool
lt c other = elim (compare c other) [ Ordering.lt ↦ true | _ ↦ false ]

unfoldable pub le : Block → Block → Bool
le c other = elim (compare c other) [ Ordering.gt ↦ false | _ ↦ true ]

unfoldable pub gt : Block → Block → Bool
gt c other = elim (compare c other) [ Ordering.gt ↦ true | _ ↦ false ]

unfoldable pub ge : Block → Block → Bool
ge c other = elim (compare c other) [ Ordering.lt ↦ false | _ ↦ true ]

-- wireEncode(EncodingImpl<TAG>)
abbrev pub wire_encode_to : (impl : EncodingImpl) → impl.State → Block → impl.State × ℕ
wire_encode_to impl s c =
    let (s1, value_length) =
      if ltb 0 (value_size c) then impl.prepend_byte_array s (value c) else (s, 0) in
    let (s2, length_size) = impl.prepend_var_number s1 (value_size c) in
    let (s3, type_size) = impl.prepend_var_number s2 (type c) in
    (s3, add64 (add64 value_length length_size) type_size)

-- wireEncode(): the component itself, or what is assigned to it.
unfoldable pub wire_encode : Block → Result Error Block
wire_encode c =
    let estimated_size = (wire_encode_to estimator_impl tt c).1 in
    if has_wire c
    then ok c
    else of_encoder (wire_encode_to encoder_impl (Encoder.create estimated_size 0) c).0

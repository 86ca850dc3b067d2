-- ===== src/Encoding.antt =====
-- The encoding templates of the library: `wireEncode(EncodingImpl<TAG>&)` functions, which run on an
-- estimator and on an encoder. Each adds up the sizes of what it prepends, the last part first.
pub mod Writes
pub mod Parts
pub mod Elements
use ndn_cxx_logging.Base.{ℕ, Bool, List, [], ◌∷◌, if◌then◌else◌, take, Result, ok, err}
use ndn_cxx_logging.Base.Bytes.{add64}
use ndn_cxx_logging.Tlv.{Error}
use ndn_cxx_logging.Encoder
use ndn_cxx_logging.Block.{Block, fields, type, value, has_wire, of_encoder}
use ndn_cxx_logging.Block.Elements.{Ending, returned, threw, stuck}
use ndn_cxx_logging.BlockHelpers.{
  EncodingImpl, encoder_impl, estimator_impl, prepend_empty_block,
  prepend_non_negative_integer_block,
}

abbrev pub Template : Type 1
Template = (impl : EncodingImpl) → impl.State → impl.State × ℕ

-- `size_t totalLength = 0`
abbrev pub nothing : Template
nothing impl s = (s, 0)

-- `totalLength += part`
infixl 20 ◌▸◌
abbrev pub ◌▸◌ : Template → Template → Template
◌▸◌ total part impl s =
    let (s1, total_length) = total impl s in
    let (s2, length) = part impl s1 in (s2, add64 total_length length)

-- A part behind a condition.
abbrev pub optional : Bool → Template → Template
optional test part impl s = if test then part impl s else (s, 0)

-- A loop over the elements, the last one first.
abbrev pub each_reversed {ℓ} : {A : Type ℓ} → (A → Template) → List A → Template
each_reversed part [] = nothing
each_reversed part (x ∷ xs) = each_reversed part xs ▸ part x

-- `totalLength += prependVarNumber(totalLength)`, and the same for the type.
abbrev pub close : ℕ → Template → Template
close t total impl s =
    let (s1, total_length) = total impl s in
    let (s2, length_size) = impl.prepend_var_number s1 total_length in
    let (s3, type_size) = impl.prepend_var_number s2 t in
    (s3, add64 (add64 total_length length_size) type_size)

-- What the templates call.
abbrev pub byte_array : List ℕ → Template
byte_array array impl s = impl.prepend_byte_array s array

abbrev pub byte_array_block : ℕ → List ℕ → Template
byte_array_block t array impl s = impl.prepend_byte_array_block s t array

abbrev pub empty_block : ℕ → Template
empty_block t impl s = prepend_empty_block impl s t

abbrev pub number_block : ℕ → ℕ → Template
number_block t n impl s = prepend_non_negative_integer_block impl s t n

-- prependBlock: the wire of a block that has one, and its type and value otherwise.
abbrev pub block : Block → Template
block b =
    if has_wire b
    then byte_array (take (fields b).size (fields b).wire)
    else byte_array_block (type b) (value b)

-- prependNestedBlock
abbrev pub nested : ℕ → Template → Template
nested t part = close t part

-- The body of the functions `wireEncode()`: a run on an estimator, and one on an encoder of the size
-- that the first one gives.
unfoldable pub encode_alone : Template → Result Error Block
encode_alone template =
    let estimated_size = (template estimator_impl tt).1 in
    of_encoder (template encoder_impl (Encoder.create estimated_size 0)).0

-- A member function that may throw leaves the object as far as it came.
abbrev pub and_then {ℓ} : {S : Type ℓ} → S × Ending → (S → S × Ending) → S × Ending
and_then (s, returned) behind = behind s
and_then (s, threw e) behind = (s, threw e)
and_then (s, stuck) behind = (s, stuck)

-- A call that may throw, in such a function.
abbrev pub reading {ℓ} :
    {S : Type ℓ} {A : Type 0} → Result Error A → S → (A → S × Ending) → S × Ending
reading (err e) s behind = (s, threw e)
reading (ok a) s behind = behind a

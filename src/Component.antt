-- ===== src/Component.antt =====
-- src/name-component.hpp and name-component.cpp: a component of a name is a Block of one of two
-- types.
pub mod Uri
pub mod Number
pub mod Order
use ndn_cxx_logging.Base.{
  ℕ, suc, ◌+◌, ◌-◌, ◌*◌, ◌/◌, ◌%◌, ◌^◌, Bool, true, false, not, ◌&&◌, ◌||◌, Option, none, some,
  List, [], ◌∷◌, ◌++◌, ltb, leb, ◌==◌, if◌then◌else◌, length, slice, replicate, take, drop, Result,
  ok, err, ◌>>=◌, bit_and,
}
use ndn_cxx_logging.Base.Bytes.{add64}
use ndn_cxx_logging.Tlv.{Error, read_non_negative_integer}
use ndn_cxx_logging.Encoder
use ndn_cxx_logging.Encoder.{Encoder}
use ndn_cxx_logging.Estimator
use ndn_cxx_logging.Block.{
  Block, fields, type, value, value_size, has_value, has_wire, of_type, of_value, of_encoder, size,
}
use ndn_cxx_logging.Block.Elements.{equal_bytes}
use ndn_cxx_logging.BlockHelpers.{
  EncodingImpl, encoder_impl, estimator_impl, make_binary_block, make_string_block,
  make_non_negative_integer_block, read_non_negative_integer_block,
}
use ndn_cxx_logging.StringHelper.{
  Libraries, from_hex, print_hex, unescape, hex_digit, StringHelperError,
}

-- tlv::ImplicitSha256DigestComponent and tlv::NameComponent
abbrev pub implicit_sha256_digest_component : ℕ
implicit_sha256_digest_component = 1

abbrev pub name_component : ℕ
name_component = 8

-- crypto::SHA256_DIGEST_SIZE
abbrev pub sha256_digest_size : ℕ
sha256_digest_size = 32

abbrev pub segment_marker : ℕ
segment_marker = 0x00

abbrev pub segment_offset_marker : ℕ
segment_offset_marker = 0xFB

abbrev pub version_marker : ℕ
version_marker = 0xFD

abbrev pub timestamp_marker : ℕ
timestamp_marker = 0xFC

abbrev pub sequence_number_marker : ℕ
sequence_number_marker = 0xFE

-- "sha256digest="
abbrev pub sha256_digest_uri_prefix : List ℕ
sha256_digest_uri_prefix =
    b's' ∷ b'h' ∷ b'a' ∷ b'2' ∷ b'5' ∷ b'6' ∷ b'd' ∷ b'i' ∷ b'g' ∷ b'e' ∷ b's' ∷ b't' ∷ b'=' ∷ []

unfoldable pub is_generic : Block → Bool
is_generic c = type c == name_component

unfoldable pub is_implicit_sha256_digest : Block → Bool
is_implicit_sha256_digest c =
    type c == implicit_sha256_digest_component && value_size c == sha256_digest_size

-- Component()
abbrev pub empty_component : Block
empty_component = of_type name_component

-- Component(wire), and wireDecode
unfoldable pub of_block : Block → Result Error Block
unfolding is_generic is_implicit_sha256_digest
of_block wire =
    if not (is_generic wire) && not (is_implicit_sha256_digest wire)
    then err Error.not_a_component
    else ok wire

-- Component(buffer), for a shared Buffer
abbrev pub of_buffer : List ℕ → Block
of_buffer buffer = of_value name_component buffer

-- Component(value, valueLen), and Component(Buffer) and Component(const char*)
unfoldable pub of_bytes : List ℕ → Result Error Block
of_bytes bytes = make_binary_block name_component bytes

-- Component(string)
unfoldable pub of_string : List ℕ → Result Error Block
of_string str = make_string_block name_component str

-- fromImplicitSha256Digest(buffer): the digest becomes the block's buffer.
unfoldable pub from_implicit_sha256_digest : List ℕ → Result Error Block
from_implicit_sha256_digest digest =
    if length digest == sha256_digest_size
    then ok (of_value implicit_sha256_digest_component digest)
    else err Error.wrong_digest_length

-- fromImplicitSha256Digest(digest, digestSize)
unfoldable pub from_implicit_sha256_digest_bytes : List ℕ → Result Error Block
from_implicit_sha256_digest_bytes digest =
    if length digest == sha256_digest_size
    then make_binary_block implicit_sha256_digest_component digest
    else err Error.wrong_digest_length

-- `value.find_first_not_of(".") == npos`
unfoldable pub only_periods : List ℕ → Bool
only_periods [] = true
only_periods (c ∷ value) = if c == b'.' then only_periods value else false

-- The value of the string between the two offsets, trimmed.
unfoldable pub from_escaped_string : Libraries → List ℕ → ℕ → ℕ → Result Error Block
from_escaped_string l escaped_string begin_offset end_offset =
    let trimmed_string = l.trim (slice begin_offset end_offset escaped_string) in
    let prefix_size = length sha256_digest_uri_prefix in
    let value = unescape trimmed_string in
    if equal_bytes (take prefix_size trimmed_string) sha256_digest_uri_prefix
    then if not (length trimmed_string == prefix_size + sha256_digest_size * 2)
      then err Error.bad_digest_size
      else elim (from_hex l (drop prefix_size trimmed_string)) [
        | ok digest ↦ from_implicit_sha256_digest digest
        | err e ↦ err Error.bad_digest_hex
      ]
    else if only_periods value
    then if leb (length value) 2 then err Error.illegal_uri else of_bytes (drop 3 value)
    else of_bytes value

-- The characters that stand for themselves.
unfoldable pub is_unescaped : ℕ → Bool
is_unescaped x =
    (leb 0x30 x && leb x 0x39)
    || (leb 0x41 x && leb x 0x5a)
    || (leb 0x61 x && leb x 0x7a)
    || x == 0x2b
    || x == 0x2d
    || x == 0x2e
    || x == 0x5f

-- A number below 256 on a stream with the flags hex and uppercase, without padding.
unfoldable pub hex_number : ℕ → List ℕ
hex_number x =
    if ltb x 16
    then hex_digit true x ∷ []
    else hex_digit true (x / 16) ∷ hex_digit true (x % 16) ∷ []

unfoldable pub escape : List ℕ → List ℕ
unfolding is_unescaped hex_number
escape [] = []
escape (x ∷ value) =
    (if is_unescaped x
      then x ∷ []
      else b'%' ∷ ((if ltb x 16 then b'0' ∷ [] else []) ++ hex_number x))
    ++ escape value

unfoldable pub to_uri : Block → List ℕ
unfolding print_hex
to_uri c =
    if type c == implicit_sha256_digest_component
    then sha256_digest_uri_prefix ++ print_hex (value c) false
    else if only_periods (value c)
    then b'.' ∷ b'.' ∷ b'.' ∷ replicate (value_size c) b'.'
    else escape (value c)

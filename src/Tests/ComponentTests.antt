-- ===== src/Tests/ComponentTests.antt =====
-- Concrete runs of name-component.cpp and util/string-helper.cpp, and the theorems about them at
-- concrete inputs.
use Prim.Native.Nat.{Ordering}
use ndn_cxx_logging.Base.{
  ℕ, ◌*◌, ◌+◌, ◌≡◌, inl, refl, true, false, List, [], ◌∷◌, none, some, slice, ok, ◌==◌,
  if◌then◌else◌, arith,
}
use ndn_cxx_logging.Block.{Block, type, value, of_value}
use ndn_cxx_logging.Block.Wire.{whole}
use ndn_cxx_logging.StringHelper.{
  Libraries, IsDocumented, from_hex, print_hex, from_hex_char, hex_digit,
}
use ndn_cxx_logging.StringHelper.Escape.{from_hex-print_hex}
use ndn_cxx_logging.Component.{
  from_escaped_string, to_uri, escape, only_periods, is_unescaped, hex_number, name_component,
  implicit_sha256_digest_component,
}
use ndn_cxx_logging.Component.Uri.{from_escaped_string-to_uri}
use ndn_cxx_logging.Component.Number.{
  from_number, to_number, from_number_with_marker, to_number_with_marker, is_number,
  is_number_with_marker,
}
use ndn_cxx_logging.Component.Number.RoundTrip.{to_number-from_number}
use ndn_cxx_logging.Component.Order.{compare, equals}
use ndn_cxx_logging.Component.Order.Laws.{equals_ignores_type}

-- Pairs of digits as bytes; a pair that is none is left out.
unfoldable pub decode : List ℕ → List ℕ
decode [] = []
decode (c ∷ []) = []
decode (c ∷ d ∷ rest) =
    let behind = decode rest in
    elim (from_hex_char c) [
      | none ↦ behind
      | some hi ↦ elim (from_hex_char d) [ none ↦ behind | some lo ↦ (hi * 16 + lo) ∷ behind ]
    ]

-- A `trim` that finds no spaces, and the decoder.
abbrev pub libraries : Libraries
libraries = record { trim = λ s. s; hex_decode = decode }

decode_pair_lem :
    (c d hi lo : ℕ) (rest : List ℕ)
    → from_hex_char c ≡ some hi
    → from_hex_char d ≡ some lo
    → decode (c ∷ d ∷ rest) ≡ (hi * 16 + lo) ∷ decode rest
unfolding decode
decode_pair_lem c d hi lo rest h k = rw (h, decode) (rw k refl)

decode_nil_lem : decode [] ≡ []
unfolding decode
decode_nil_lem = refl

pub libraries-IsDocumented : IsDocumented libraries
libraries-IsDocumented = record {
  trim_none = λ s h. refl;
  decode_nil = decode_nil_lem;
  decode_pair = decode_pair_lem;
}

from_hex-print_hex_example : from_hex libraries (print_hex (1 ∷ 171 ∷ []) false) ≡ ok (1 ∷ 171 ∷ [])
from_hex-print_hex_example =
    from_hex-print_hex libraries false (1 ∷ 171 ∷ []) libraries-IsDocumented (omega arith)

-- The value "a/", whose URI is "a%2F".
abbrev slashed : Block
slashed = of_value name_component (b'a' ∷ b'/' ∷ [])

-- "/a%2F", of which the component is the part behind the slash.
abbrev uri : List ℕ
uri = b'/' ∷ b'a' ∷ b'%' ∷ b'2' ∷ b'F' ∷ []

slashed-uri : slice 1 5 uri ≡ to_uri slashed
unfolding to_uri only_periods escape is_unescaped hex_number hex_digit
slashed-uri = refl

from_escaped_string-to_uri_example : from_escaped_string libraries uri 1 5 ≡ (
    if type slashed == name_component
    then ok (whole name_component (value slashed))
    else ok (of_value implicit_sha256_digest_component (value slashed)))
from_escaped_string-to_uri_example =
    from_escaped_string-to_uri libraries uri 1 5 slashed libraries-IsDocumented slashed-uri
      (omega arith) (omega arith) (inl refl)

to_number-from_number_example :
    ((c : Block) × (from_number 300 ≡ ok c) × (is_number c ≡ true) × (to_number c ≡ ok 300))
    × ((c : Block) × (from_number_with_marker 253 300 ≡ ok c)
        × (is_number_with_marker c 254 ≡ (253 == 254))
        × (to_number_with_marker c 253 ≡ ok 300))
to_number-from_number_example = to_number-from_number 300 253 254 (omega arith)

-- "A", "B" and "AA", and the digest with the value "A".
abbrev a : Block
a = of_value name_component (b'A' ∷ [])

abbrev b : Block
b = of_value name_component (b'B' ∷ [])

abbrev aa : Block
aa = of_value name_component (b'A' ∷ b'A' ∷ [])

abbrev digest_a : Block
digest_a = of_value implicit_sha256_digest_component (b'A' ∷ [])

a_before_b : compare a b ≡ Ordering.lt
unfolding compare
a_before_b = refl

b_before_aa : compare b aa ≡ Ordering.lt
unfolding compare
b_before_aa = refl

equals_ignores_type_example : (equals digest_a a ≡ true) × (compare digest_a a ≡ Ordering.lt)
equals_ignores_type_example = equals_ignores_type digest_a a refl (omega arith)

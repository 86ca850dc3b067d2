-- ===== src/StringHelper/Escape.antt =====
-- util/string-helper.cpp: reading back hexadecimal digits and escapes.
use ndn_cxx_logging.Base.{
  ℕ, ◌+◌, ◌*◌, ◌/◌, ◌%◌, ◌<◌, ◌≡◌, ◌≢◌, refl, ap, ◌∙◌, Bool, true, false, some, List, [], ◌∷◌, ◌++◌,
  length, arith, ok, bit_or,
}
use ndn_cxx_logging.Base.Bits.{bit_or_shifted}
use ndn_cxx_logging.Base.Bytes.{IsBytes}
use ndn_cxx_logging.StringHelper.{
  hex_digit, print_hex, from_hex_char, is_space, Libraries, IsDocumented, from_hex, unescape,
  unescape_one,
}

-- A digit that is written is read back, in both cases.
pub from_hex_char-hex_digit :
    (is_upper_case : Bool) (d : ℕ) → d < 16 → from_hex_char (hex_digit is_upper_case d) ≡ some d
unfolding from_hex_char hex_digit
from_hex_char-hex_digit is_upper_case d h = ground arith

pub hex_digit-not_space : (u : Bool) (d : ℕ) → d < 16 → is_space (hex_digit u d) ≡ false
unfolding hex_digit
hex_digit-not_space u d h = ground arith

pub hex_decode-print_hex :
    (l : Libraries) (u : Bool) (bytes : List ℕ)
    → IsDocumented l
    → IsBytes bytes
    → (l.hex_decode (print_hex bytes u) ≡ bytes) × (length (print_hex bytes u) ≡ length bytes * 2)
unfolding print_hex
hex_decode-print_hex l u [] doc h = (doc.decode_nil, refl)
hex_decode-print_hex l u (x ∷ bytes) doc (hx, h) =
    let (ih, len) = hex_decode-print_hex l u bytes doc h in
    let whole : x / 16 * 16 + x % 16 ≡ x = omega arith in
    (
      doc.decode_pair _ _ (x / 16) (x % 16) (print_hex bytes u)
            (from_hex_char-hex_digit u (x / 16) (omega arith))
            (from_hex_char-hex_digit u (x % 16) (omega arith))
          ∙ rw (whole, ih) refl,
      omega (arith, len),
    )

-- `fromHex` reads back the bytes that `printHex` writes, in upper and in lower case. For
-- bytes below 256, and a hexadecimal decoder that does what it documents.
pub from_hex-print_hex :
    (l : Libraries) (u : Bool) (bytes : List ℕ)
    → IsDocumented l
    → IsBytes bytes
    → from_hex l (print_hex bytes u) ≡ ok bytes
unfolding from_hex
from_hex-print_hex l u bytes doc h =
    let (whole, len) = hex_decode-print_hex l u bytes doc h in ground (arith, whole, len)

unescape_one_hex :
    (percent a b hi lo : ℕ)
    → from_hex_char a ≡ some hi
    → from_hex_char b ≡ some lo
    → unescape_one percent a b ≡ bit_or (hi * 16) lo ∷ []
unfolding unescape_one
unescape_one_hex percent a b hi lo h1 h2 = ground arith

-- An escape of a byte is read back, in front of anything.
pub unescape_escaped :
    (x : ℕ) (rest : List ℕ)
    → x < 256
    → unescape (b'%' ∷ hex_digit true (x / 16) ∷ hex_digit true (x % 16) ∷ rest) ≡ x ∷ unescape rest
unfolding unescape
unescape_escaped x rest h =
    let a = hex_digit true (x / 16) in
    let b = hex_digit true (x % 16) in
    let byte : unescape_one b'%' a b ≡ x ∷ [] =
      unescape_one_hex b'%' a b (x / 16) (x % 16)
        (from_hex_char-hex_digit true (x / 16) (omega arith))
        (from_hex_char-hex_digit true (x % 16) (omega arith))
      ∙ ap (λ (n : ℕ). n ∷ []) (bit_or_shifted 4 (x / 16) (x % 16) (omega arith) ∙ omega arith) in
    ap (λ (l : List ℕ). l ++ unescape rest) byte

pub unescape_plain : (x : ℕ) (rest : List ℕ) → x ≢ b'%' → unescape (x ∷ rest) ≡ x ∷ unescape rest
unfolding unescape
unescape_plain x [] h = refl
unescape_plain x (a ∷ []) h = refl
unescape_plain x (a ∷ b ∷ rest) h = ground arith

-- ===== src/StringHelper.antt =====
-- src/util/string-helper.cpp: hexadecimal text and the escapes of URIs. A string is the list of its
-- bytes.
pub mod Escape
use ndn_cxx_logging.Base.{
  ℕ, ◌+◌, ◌-◌, ◌*◌, ◌/◌, ◌%◌, ◌≤◌, ◌<◌, ◌≡◌, ◌≢◌, Bool, true, false, ◌&&◌, ◌||◌, not, Option, none,
  some, List, [], ◌∷◌, ◌++◌, ltb, leb, ◌==◌, if◌then◌else◌, length, bit_or, All, Result, ok, err,
}

-- One hexadecimal digit of a stream with the flag std::ios::hex, and std::ios::uppercase or not.
unfoldable pub hex_digit : Bool → ℕ → ℕ
hex_digit is_upper_case d =
    if ltb d 10 then b'0' + d else (if is_upper_case then b'A' else b'a') + (d - 10)

-- printHex: each byte at width 2, filled with '0'.
unfoldable pub print_hex : List ℕ → Bool → List ℕ
print_hex [] is_upper_case = []
print_hex (x ∷ buffer) is_upper_case =
    hex_digit is_upper_case (x / 16)
    ∷ hex_digit is_upper_case (x % 16)
    ∷ print_hex buffer is_upper_case

unfoldable pub to_hex : List ℕ → Bool → List ℕ
unfolding print_hex
to_hex buffer is_upper_case = if length buffer == 0 then [] else print_hex buffer is_upper_case

-- fromHexChar: -1 is `none`.
unfoldable pub from_hex_char : ℕ → Option ℕ
from_hex_char c =
    if leb b'0' c && leb c b'9'
    then some (c - b'0')
    else if leb b'A' c && leb c b'F'
    then some (c - b'A' + 10)
    else if leb b'a' c && leb c b'f'
    then some (c - b'a' + 10)
    else none

-- The characters of std::isspace in the classic locale.
abbrev pub is_space : ℕ → Bool
is_space c = c == 32 || (leb 9 c && leb c 13)

-- What the file calls of other libraries: boost::algorithm::trim, which leaves a text without
-- spaces as it is, and CryptoPP::HexDecoder, which turns each pair of hexadecimal digits into a byte.
pub record Libraries : Type 0 where
  pub trim : List ℕ → List ℕ
  pub hex_decode : List ℕ → List ℕ

pub record IsDocumented (l : Libraries) : Type 0 where
  pub trim_none : (s : List ℕ) → All (λ c. is_space c ≡ false) s → l.trim s ≡ s
  pub decode_nil : l.hex_decode [] ≡ []
  pub decode_pair :
      (c d hi lo : ℕ) (rest : List ℕ)
      → from_hex_char c ≡ some hi
      → from_hex_char d ≡ some lo
      → l.hex_decode (c ∷ d ∷ rest) ≡ (hi * 16 + lo) ∷ l.hex_decode rest

pub data StringHelperError : Type 0 where
  odd_length non_hex_characters : StringHelperError

unfoldable pub from_hex : Libraries → List ℕ → Result StringHelperError (List ℕ)
from_hex l hex_string =
    let buffer = l.hex_decode hex_string in
    if not (length hex_string % 2 == 0)
    then err odd_length
    else if not (length buffer * 2 == length hex_string)
    then err non_hex_characters
    else ok buffer

-- What an escape with its two characters becomes: `(hi << 4) | lo`, or itself if they are no
-- hexadecimal digits.
unfoldable pub unescape_one : ℕ → ℕ → ℕ → List ℕ
unescape_one percent a b = elim (from_hex_char a) [
  | none ↦ percent ∷ a ∷ b ∷ []
  | some hi ↦ elim (from_hex_char b) [
    | none ↦ percent ∷ a ∷ b ∷ []
    | some lo ↦ bit_or (hi * 16) lo ∷ []
  ]
]

-- unescape: two more characters must stand behind a '%' that counts.
unfoldable pub unescape : List ℕ → List ℕ
unescape [] = []
unescape (c ∷ []) = c ∷ []
unescape (c ∷ a ∷ []) = c ∷ a ∷ []
unescape (c ∷ a ∷ b ∷ rest) =
    let behind = unescape rest in
    let next = unescape (a ∷ b ∷ rest) in
    if c == b'%' then unescape_one c a b ++ behind else c ∷ next

-- ===== src/Name/Uri/Characters.antt =====
-- name.cpp: what the URI of a component is made of, and finding the slash behind it.
use ndn_cxx_logging.Base.{
  ℕ, zero, suc, ◌/◌, ◌%◌, ◌<◌, ◌≡◌, ◌≢◌, refl, true, false, Bool, some, List, [], ◌∷◌, ◌++◌, ◌==◌,
  length, take, replicate, arith, All, All-append, Bool-cases, inl, inr,
}
use ndn_cxx_logging.Base.Bytes.{IsBytes}
use ndn_cxx_logging.Block.{Block, type, value, value_size}
use ndn_cxx_logging.StringHelper.{hex_digit, print_hex, is_space}
use ndn_cxx_logging.StringHelper.Escape.{hex_digit-not_space}
use ndn_cxx_logging.Component.{
  to_uri as component_to_uri, escape, is_unescaped, only_periods, implicit_sha256_digest_component,
  sha256_digest_uri_prefix,
}
use ndn_cxx_logging.Component.Uri.{escape_byte}
use ndn_cxx_logging.Base.Strings.{find_char}

-- A character that stands for nothing in the URI of a name.
abbrev pub IsOrdinary : ℕ → Type 0
IsOrdinary c = (is_space c ≡ false) × (c ≢ b'/') × (c ≢ b':')

hex_digit-IsOrdinary : (u : Bool) (d : ℕ) → d < 16 → IsOrdinary (hex_digit u d)
hex_digit-IsOrdinary u d h =
    (hex_digit-not_space u d h, unfold hex_digit in ground arith, unfold hex_digit in ground arith)

is_unescaped-IsOrdinary : (x : ℕ) → is_unescaped x ≡ true → IsOrdinary x
unfolding is_unescaped
is_unescaped-IsOrdinary x h = (ground arith, ground arith, ground arith)

escape-IsOrdinary : (bytes : List ℕ) → IsBytes bytes → All IsOrdinary (escape bytes)
unfolding escape
escape-IsOrdinary [] h = tt
escape-IsOrdinary (x ∷ bytes) (hx, h) = elim (Bool-cases (is_unescaped x)) [
  | inl plain ↦ rw plain (is_unescaped-IsOrdinary x plain, escape-IsOrdinary bytes h)
  | inr escaped ↦
      rw (escaped, escape_byte x)
        (
          (refl, omega arith, omega arith),
          (
            hex_digit-IsOrdinary true (x / 16) (omega arith),
            (hex_digit-IsOrdinary true (x % 16) (omega arith), escape-IsOrdinary bytes h),
          ),
        )
]

print_hex-IsOrdinary : (bytes : List ℕ) → IsBytes bytes → All IsOrdinary (print_hex bytes false)
unfolding print_hex
print_hex-IsOrdinary [] h = tt
print_hex-IsOrdinary (x ∷ bytes) h = (
  hex_digit-IsOrdinary false (x / 16) (omega arith),
  (hex_digit-IsOrdinary false (x % 16) (omega arith), print_hex-IsOrdinary bytes h.1),
)

periods-IsOrdinary : (n : ℕ) → All IsOrdinary (replicate n b'.')
periods-IsOrdinary zero = tt
periods-IsOrdinary (suc n) = ((refl, omega arith, omega arith), periods-IsOrdinary n)

-- "sha256digest"
abbrev letters : List ℕ
letters = take 12 sha256_digest_uri_prefix

prefix-IsOrdinary : All IsOrdinary sha256_digest_uri_prefix
unfolding escape is_unescaped
prefix-IsOrdinary =
    All-append IsOrdinary letters (b'=' ∷ []) (escape-IsOrdinary letters (omega arith))
      ((refl, omega arith, omega arith), tt)

escape-some : (bytes : List ℕ) → only_periods bytes ≡ false → 0 < length (escape bytes)
unfolding escape only_periods
escape-some [] h = absurd (cc h)
escape-some (x ∷ bytes) h = ground arith

-- The URI of a component has a character, and only ordinary ones.
pub component_to_uri-IsOrdinary :
    (c : Block)
    → IsBytes (value c)
    → All IsOrdinary (component_to_uri c) × (0 < length (component_to_uri c))
unfolding component_to_uri
component_to_uri-IsOrdinary c h = elim (Bool-cases (type c == implicit_sha256_digest_component)) [
  | inl digest ↦ rw digest (
    All-append IsOrdinary sha256_digest_uri_prefix (print_hex (value c) false) prefix-IsOrdinary
        (print_hex-IsOrdinary (value c) h),
    omega arith,
  )
  | inr generic ↦ elim (Bool-cases (only_periods (value c))) [
    | inl periods ↦
        rw (generic, periods)
          (
            All-append IsOrdinary (replicate 3 b'.') (replicate (value_size c) b'.')
                (periods-IsOrdinary 3) (periods-IsOrdinary (value_size c)),
            omega arith,
          )
    | inr other ↦ rw (generic, other) (escape-IsOrdinary (value c) h, escape-some (value c) other)
  ]
]

-- The first slash is the one behind ordinary characters.
pub find_char-slash :
    (s rest : List ℕ) → All IsOrdinary s → find_char b'/' (s ++ (b'/' ∷ rest)) ≡ some (length s)
unfolding find_char
find_char-slash [] rest h = refl
find_char-slash (x ∷ s) rest h = ground (arith, find_char-slash s rest h.1)

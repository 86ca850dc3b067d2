-- ===== src/Component/Uri.antt =====
-- name-component.cpp: fromEscapedString against toUri.
use ndn_cxx_logging.Base.{
  ℕ, zero, suc, ◌/◌, ◌%◌, ◌^◌, ◌<◌, ◌≡◌, ◌≢◌, refl, ap, ◌∙◌, true, false, List, [], ◌∷◌, ◌++◌, ltb,
  leb, ◌==◌, if◌then◌else◌, length, slice, replicate, take, drop, arith, ok, err, All, All-append,
  All-take, Bool-cases, ltb→lt, inl, inr, ◌⊎◌,
}
use ndn_cxx_logging.Base.Bytes.{IsBytes}
use ndn_cxx_logging.Tlv.{Error}
use ndn_cxx_logging.Block.{Block, value, type, value_size, of_value}
use ndn_cxx_logging.Block.Elements.{equal_bytes}
use ndn_cxx_logging.Block.Equal.{equal_bytes-eq}
use ndn_cxx_logging.Block.Wire.{whole}
use ndn_cxx_logging.BlockHelpers.Make.{make_binary_block-whole}
use ndn_cxx_logging.StringHelper.{Libraries, IsDocumented, hex_digit, print_hex, unescape, is_space}
use ndn_cxx_logging.StringHelper.Escape.{
  unescape_escaped, unescape_plain, hex_digit-not_space, from_hex-print_hex, hex_decode-print_hex,
}
use ndn_cxx_logging.Component.{
  escape, is_unescaped, hex_number, only_periods, to_uri, from_escaped_string, name_component,
  implicit_sha256_digest_component, sha256_digest_size, sha256_digest_uri_prefix, of_bytes,
  from_implicit_sha256_digest,
}

-- A character of a URI that `toUri` writes for a value: no space, and not '='.
abbrev IsPlain : ℕ → Type 0
IsPlain c = (is_space c ≡ false) × (c ≢ b'=')

-- A byte that is escaped is '%' and its two digits.
pub escape_byte :
    (x : ℕ)
    → (if ltb x 16 then b'0' ∷ [] else []) ++ hex_number x
      ≡ hex_digit true (x / 16) ∷ hex_digit true (x % 16) ∷ []
unfolding hex_number
escape_byte x = elim (Bool-cases (ltb x 16)) [
  | inl small ↦
      let high : x / 16 ≡ 0 = omega (arith, ltb→lt x 16 small) in
      let low : x % 16 ≡ x = omega (arith, ltb→lt x 16 small) in
      rw (small, high, low) (unfold hex_digit in refl)
  | inr large ↦ rw large refl
]

unescape-escape : (bytes : List ℕ) → IsBytes bytes → unescape (escape bytes) ≡ bytes
unfolding escape
unescape-escape [] h = unfold unescape in refl
unescape-escape (x ∷ bytes) (hx, h) = elim (Bool-cases (is_unescaped x)) [
  | inl plain ↦ rw plain (
      unescape_plain x (escape bytes) (unfold is_unescaped in ground arith)
      ∙ ap (λ (l : List ℕ). x ∷ l) (unescape-escape bytes h))
  | inr escaped ↦
      rw (escaped, escape_byte x)
        (unescape_escaped x (escape bytes) hx
          ∙ ap (λ (l : List ℕ). x ∷ l) (unescape-escape bytes h))
]

hex_digit-IsPlain : (d : ℕ) → d < 16 → IsPlain (hex_digit true d)
hex_digit-IsPlain d h = (hex_digit-not_space true d h, unfold hex_digit in ground arith)

is_unescaped-IsPlain : (x : ℕ) → is_unescaped x ≡ true → IsPlain x
unfolding is_unescaped
is_unescaped-IsPlain x h = ground arith

escape-IsPlain : (bytes : List ℕ) → IsBytes bytes → All IsPlain (escape bytes)
unfolding escape
escape-IsPlain [] h = tt
escape-IsPlain (x ∷ bytes) (hx, h) = elim (Bool-cases (is_unescaped x)) [
  | inl plain ↦ rw plain (is_unescaped-IsPlain x plain, escape-IsPlain bytes h)
  | inr escaped ↦
      rw (escaped, escape_byte x)
        (
          (refl, omega arith),
          (
            hex_digit-IsPlain (x / 16) (omega arith),
            (hex_digit-IsPlain (x % 16) (omega arith), escape-IsPlain bytes h),
          ),
        )
]

not_space : (s : List ℕ) → All IsPlain s → All (λ c. is_space c ≡ false) s
not_space [] h = tt
not_space (c ∷ s) h = (h.0.0, not_space s h.1)

-- Plain characters are no digest prefix, which ends in '='.
plain_prefix :
    (s : List ℕ) → All IsPlain s → equal_bytes (take 13 s) sha256_digest_uri_prefix ≡ false
plain_prefix s h = elim (Bool-cases (equal_bytes (take 13 s) sha256_digest_uri_prefix)) [
  | inl same ↦
      let plain : All IsPlain sha256_digest_uri_prefix =
        rw (equal_bytes-eq (take 13 s) _ same) at (All-take IsPlain 13 s h) in
      absurd (plain.1.1.1.1.1.1.1.1.1.1.1.1.0.1 refl)
  | inr other ↦ other
]

periods-IsPlain : (n : ℕ) → All IsPlain (replicate n b'.')
periods-IsPlain zero = tt
periods-IsPlain (suc n) = ((refl, omega arith), periods-IsPlain n)

only_periods-replicate :
    (bytes : List ℕ) → only_periods bytes ≡ true → bytes ≡ replicate (length bytes) b'.'
unfolding only_periods
only_periods-replicate [] h = refl
only_periods-replicate (c ∷ bytes) h = ground (arith, only_periods-replicate bytes)

only_periods_periods : (n : ℕ) → only_periods (replicate n b'.') ≡ true
unfolding only_periods
only_periods_periods zero = refl
only_periods_periods (suc n) = only_periods_periods n

unescape_periods : (n : ℕ) → unescape (replicate n b'.') ≡ replicate n b'.'
unescape_periods zero = unfold unescape in refl
unescape_periods (suc n) =
    unescape_plain b'.' (replicate n b'.') (omega arith)
    ∙ ap (λ (l : List ℕ). b'.' ∷ l) (unescape_periods n)

print_hex-not_space :
    (bytes : List ℕ) → IsBytes bytes → All (λ c. is_space c ≡ false) (print_hex bytes false)
unfolding print_hex
print_hex-not_space [] h = tt
print_hex-not_space (x ∷ bytes) h = (
  hex_digit-not_space false (x / 16) (omega arith),
  (hex_digit-not_space false (x % 16) (omega arith), print_hex-not_space bytes h.1),
)

digest_uri-not_space :
    (digest : List ℕ)
    → IsBytes digest
    → All (λ c. is_space c ≡ false) (sha256_digest_uri_prefix ++ print_hex digest false)
digest_uri-not_space digest h =
    All-append (λ c. is_space c ≡ false) sha256_digest_uri_prefix (print_hex digest false)
      (
        refl,
        (
          refl,
          (
            refl,
            (refl, (refl, (refl, (refl, (refl, (refl, (refl, (refl, (refl, (refl, tt)))))))))),
          ),
        ),
      )
      (print_hex-not_space digest h)

-- The string between the offsets is plain: no trimming, and no digest.
module _ (l : Libraries) (doc : IsDocumented l) (str : List ℕ) (from to : ℕ) where
  from_plain :
      (s : List ℕ)
      → slice from to str ≡ s
      → All IsPlain s
      → from_escaped_string l str from to ≡ (
          if only_periods (unescape s)
          then if leb (length (unescape s)) 2
            then err Error.illegal_uri
            else of_bytes (drop 3 (unescape s))
          else of_bytes (unescape s))
  unfolding from_escaped_string
  from_plain s e h = ground (arith, e, doc.trim_none s (not_space s h), plain_prefix s h)

  from_escaped :
      (bytes : List ℕ)
      → slice from to str ≡ escape bytes
      → IsBytes bytes
      → only_periods bytes ≡ false
      → from_escaped_string l str from to ≡ of_bytes bytes
  from_escaped bytes e h other =
      from_plain (escape bytes) e (escape-IsPlain bytes h)
      ∙ rw (unescape-escape bytes h, other) refl

  from_periods :
      (n : ℕ)
      → slice from to str ≡ replicate (suc (suc (suc n))) b'.'
      → from_escaped_string l str from to ≡ of_bytes (replicate n b'.')
  from_periods n e =
      from_plain (replicate (suc (suc (suc n))) b'.') e (periods-IsPlain (suc (suc (suc n))))
      ∙ rw (unescape_periods (suc (suc (suc n))), only_periods_periods (suc (suc (suc n))))
          (ground arith)

  from_digest :
      (digest : List ℕ)
      → slice from to str ≡ sha256_digest_uri_prefix ++ print_hex digest false
      → IsBytes digest
      → length digest ≡ 32
      → from_escaped_string l str from to ≡ ok (of_value implicit_sha256_digest_component digest)
  unfolding from_escaped_string from_implicit_sha256_digest equal_bytes
  from_digest digest e h len =
      let text = sha256_digest_uri_prefix ++ print_hex digest false in
      ground (
        arith,
        e,
        len,
        doc.trim_none text (digest_uri-not_space digest h),
        (hex_decode-print_hex l false digest doc h).1,
        from_hex-print_hex l false digest doc h,
      )

to_uri_digest :
    (c : Block)
    → type c ≡ implicit_sha256_digest_component
    → to_uri c ≡ sha256_digest_uri_prefix ++ print_hex (value c) false
unfolding to_uri
to_uri_digest c h = ground (arith, h)

to_uri_periods :
    (c : Block)
    → type c ≡ name_component
    → only_periods (value c) ≡ true
    → to_uri c ≡ replicate (suc (suc (suc (value_size c)))) b'.'
unfolding to_uri
to_uri_periods c h p = ground (arith, h, p)

to_uri_escaped :
    (c : Block)
    → type c ≡ name_component
    → only_periods (value c) ≡ false
    → to_uri c ≡ escape (value c)
unfolding to_uri
to_uri_escaped c h p = ground (arith, h, p)

pub of_bytes-whole :
    (bytes : List ℕ) → length bytes < 2 ^ 63 → of_bytes bytes ≡ ok (whole name_component bytes)
unfolding of_bytes
of_bytes-whole bytes h = make_binary_block-whole name_component bytes (omega arith) h

-- A component read from its URI, wherever the URI stands in a string. A generic component with any
-- bytes for its value comes back with exactly these bytes: escaped, or as three periods and more
-- where the value has only periods. An implicit digest comes back as the digest.
-- For bytes below 256, values shorter than 2^63 bytes and digests of 32 bytes, and a `trim` and a
-- hexadecimal decoder that do what they document.
pub from_escaped_string-to_uri :
    (l : Libraries) (str : List ℕ) (from to : ℕ) (c : Block)
    → IsDocumented l
    → slice from to str ≡ to_uri c
    → IsBytes (value c)
    → length (value c) < 2 ^ 63
    → ((type c ≡ name_component)
        ⊎ ((type c ≡ implicit_sha256_digest_component) × (length (value c) ≡ sha256_digest_size)))
    → from_escaped_string l str from to ≡ (
        if type c == name_component
        then ok (whole name_component (value c))
        else ok (of_value implicit_sha256_digest_component (value c)))
from_escaped_string-to_uri l str from to c doc e h fits (inl generic) =
    rw generic (elim (Bool-cases (only_periods (value c))) [
      | inl periods ↦
          from_periods l doc str from to (value_size c) (e ∙ to_uri_periods c generic periods)
          ∙ rw (← only_periods-replicate (value c) periods) (of_bytes-whole (value c) fits)
      | inr other ↦
          from_escaped l doc str from to (value c) (e ∙ to_uri_escaped c generic other) h other
          ∙ of_bytes-whole (value c) fits
    ])
from_escaped_string-to_uri l str from to c doc e h fits (inr (digest, len)) =
    rw digest (from_digest l doc str from to (value c) (e ∙ to_uri_digest c digest) h len)

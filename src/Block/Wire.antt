-- ===== src/Block/Wire.antt =====
-- Blocks decoded from the bytes of an encoding.
use ndn_cxx_logging.Base.{
  ℕ, ◌+◌, ◌-◌, ◌^◌, ◌<◌, ◌≡◌, refl, sym, ap, ◌∙◌, Bool, true, false, List, ◌++◌, some, length, take,
  drop, slice, arith, length-append, Result, ok, err, take-append, drop-append, nil_of_length,
}
use mathlib.Core.List.{append-nil, append_assoc}
use ndn_cxx_logging.Tlv.{Error, read_type, try_read_type, try_read_var_number}
use ndn_cxx_logging.Tlv.Bounds.{read_var_number-try}
use ndn_cxx_logging.Tlv.Format.{var_number, tlv}
use ndn_cxx_logging.Tlv.RoundTrip.{
  read_type-append, read_var_number-append, try_read_type-append, try_read_var_number-var_number,
}
use ndn_cxx_logging.Encoder.{Encoder}
use ndn_cxx_logging.Encoder.Room.{Holds, Holds-content}
use ndn_cxx_logging.Block.{
  Block, of_parts, read_header, of_range, of_buffer, of_encoder, of_raw, from_buffer, from_raw,
  empty_block,
}

-- A block that owns exactly its wire.
abbrev pub whole : ℕ → List ℕ → Block
whole t value = of_parts (tlv t value) t (tlv t value) value

pub read_header-append :
    (t n : ℕ) (rest : List ℕ)
    → t < 2 ^ 32
    → n < 2 ^ 64
    → read_header (var_number t ++ (var_number n ++ rest)) ≡ ok (t, n, rest)
unfolding read_header
read_header-append t n rest ht hn =
    ground (arith, read_type-append t (var_number n ++ rest) ht, read_var_number-append n rest hn)

pub of_range-tlv :
    (buffer : List ℕ) (begin end t : ℕ) (value : List ℕ)
    → t < 2 ^ 32
    → length value < 2 ^ 64
    → slice begin end buffer ≡ tlv t value
    → of_range buffer begin end true ≡ ok (of_parts buffer t (tlv t value) value)
unfolding of_range
of_range-tlv buffer begin end t value ht hv e =
    ground (arith, e, read_header-append t (length value) value ht hv)

Holds-exact : (e : Encoder) (bytes : List ℕ) → Holds e 0 bytes 0 → e.buffer ≡ bytes
Holds-exact e bytes h =
    h.buffer
    ∙ rw (nil_of_length h.pre h.length_pre, nil_of_length h.post h.length_post) (append-nil bytes)

-- What an encoder that was filled exactly holds is the block's buffer, wire and value.
pub of_encoder-Holds :
    (e : Encoder) (t : ℕ) (value : List ℕ)
    → t < 2 ^ 32
    → length value < 2 ^ 64
    → Holds e 0 (tlv t value) 0
    → of_encoder e ≡ ok (whole t value)
unfolding of_encoder
of_encoder-Holds e t value ht hv h =
    of_range-tlv e.buffer e.begin e.end t value ht hv (Holds-content e 0 (tlv t value) 0 h)
    ∙ rw (Holds-exact e (tlv t value) h)

-- Where the two pointer constructors agree with `fromBuffer`.
abbrev pub tried : Result Error Block → Bool × Block
tried (ok b) = (true, b)
tried (err e) = (false, empty_block)

-- On any bytes, `Block::fromBuffer(uint8_t*, size_t)` returns true with the block that the
-- constructor from a pointer makes, and false with the empty block exactly where the constructor
-- throws.
pub from_raw-of_raw : (raw : List ℕ) → from_raw raw ≡ tried (of_raw raw)
unfolding from_raw of_raw read_type try_read_type
from_raw-of_raw raw =
    ground (arith, read_var_number-try raw, read_var_number-try (try_read_var_number raw).0)

of_buffer-tlv :
    (t : ℕ) (value : List ℕ)
    → t < 2 ^ 32
    → length value < 2 ^ 64
    → of_buffer (tlv t value) ≡ ok (whole t value)
unfolding of_buffer
of_buffer-tlv t value ht hv = ground (arith, read_header-append t (length value) value ht hv)

pub tlv-append :
    (t : ℕ) (value more : List ℕ)
    → tlv t value ++ more ≡ var_number t ++ (var_number (length value) ++ (value ++ more))
tlv-append t value more =
    append_assoc (var_number t) (var_number (length value) ++ value) more
    ∙ ap (λ (l : List ℕ). var_number t ++ l) (append_assoc (var_number (length value)) value more)

-- Bytes in three parts: type and length, the value, and what follows the element.
module _ (raw header value more : List ℕ) (parts : raw ≡ header ++ (value ++ more)) where
  header_cut : length raw - length (value ++ more) ≡ length header
  header_cut =
      omega (arith, ap (λ (l : List ℕ). length l) parts, length-append header (value ++ more))

  pub element_cut : take (length raw - length (value ++ more) + length value) raw ≡ header ++ value
  element_cut =
      rw (header_cut, parts, ← append_assoc header value more)
        (take-append _ (header ++ value) more (length-append header value))

  value_cut : drop (length raw - length (value ++ more)) (header ++ value) ≡ value
  value_cut = rw header_cut (drop-append _ header value refl)

  of_raw_parts :
      (t : ℕ)
      → read_header raw ≡ ok (t, length value, value ++ more)
      → of_raw raw ≡ ok (of_parts (header ++ value) t (header ++ value) value)
  unfolding of_raw
  of_raw_parts t e = ground (arith, e, element_cut, value_cut, length-append value more)

  from_buffer_parts :
      (buffer : List ℕ) (offset t : ℕ) (behind_type : List ℕ)
      → drop offset buffer ≡ raw
      → try_read_type raw ≡ (behind_type, some t)
      → try_read_var_number behind_type ≡ (value ++ more, some (length value))
      → from_buffer buffer offset ≡ (true, of_parts buffer t (header ++ value) value)
  unfolding from_buffer
  from_buffer_parts buffer offset t behind_type d e1 e2 = ground (
    arith,
    d,
    e1,
    e2,
    element_cut,
    take-append (length value) value more refl,
    length-append value more,
  )

pub tlv-parts :
    (t : ℕ) (value more : List ℕ)
    → tlv t value ++ more ≡ (var_number t ++ var_number (length value)) ++ (value ++ more)
tlv-parts t value more =
    tlv-append t value more
    ∙ sym (append_assoc (var_number t) (var_number (length value)) (value ++ more))

of_raw-tlv :
    (t : ℕ) (value more : List ℕ)
    → t < 2 ^ 32
    → length value < 2 ^ 64
    → of_raw (tlv t value ++ more) ≡ ok (whole t value)
of_raw-tlv t value more ht hv =
    let header = var_number t ++ var_number (length value) in
    of_raw_parts (tlv t value ++ more) header value more (tlv-parts t value more) t
      (rw tlv-append (read_header-append t (length value) (value ++ more) ht hv))
    ∙ ap (λ (l : List ℕ). ok (of_parts l t l value))
        (append_assoc (var_number t) (var_number (length value)) value)

from_buffer-tlv :
    (t : ℕ) (value before more : List ℕ)
    → t < 2 ^ 32
    → length value < 2 ^ 64
    → from_buffer (before ++ (tlv t value ++ more)) (length before)
      ≡ (true, of_parts (before ++ (tlv t value ++ more)) t (tlv t value) value)
from_buffer-tlv t value before more ht hv =
    let raw = tlv t value ++ more in
    let header = var_number t ++ var_number (length value) in
    let behind_type = var_number (length value) ++ (value ++ more) in
    from_buffer_parts raw header value more (tlv-parts t value more) (before ++ raw) (length before)
      t behind_type (drop-append (length before) before raw refl)
      (rw tlv-append (try_read_type-append t behind_type ht))
      (try_read_var_number-var_number (length value) (value ++ more) hv)
    ∙ ap (λ (l : List ℕ). (true, of_parts (before ++ raw) t l value))
        (append_assoc (var_number t) (var_number (length value)) value)

-- Each constructor that parses finds the type and value of a TLV: the whole buffer, a pointer into
-- bytes that may go on behind it, and an offset into a buffer. For types of 32 bits and
-- values shorter than 2^64 bytes.
pub decode-tlv :
    (t : ℕ) (value before more : List ℕ)
    → t < 2 ^ 32
    → length value < 2 ^ 64
    → (of_buffer (tlv t value) ≡ ok (whole t value))
      × (of_raw (tlv t value ++ more) ≡ ok (whole t value))
      × (from_raw (tlv t value ++ more) ≡ (true, whole t value))
      × (from_buffer (before ++ (tlv t value ++ more)) (length before)
          ≡ (true, of_parts (before ++ (tlv t value ++ more)) t (tlv t value) value))
decode-tlv t value before more ht hv = (
  of_buffer-tlv t value ht hv,
  of_raw-tlv t value more ht hv,
  rw (from_raw-of_raw, of_raw-tlv t value more ht hv) refl,
  from_buffer-tlv t value before more ht hv,
)

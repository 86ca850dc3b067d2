-- ===== src/Tlv/Bounds.antt =====
-- What a read of encoding/tlv.hpp takes from any range, and the range of what it returns.
use ndn_cxx_logging.Base.{
  ℕ, suc, ◌≤◌, ◌<◌, ◌^◌, ◌≡◌, refl, List, [], ◌∷◌, ltb, ◌==◌, leb, if◌then◌else◌, length, arith,
  take, drop, none, some, ok, err, length-take, length-drop, All-take, All-drop, ◌-◌, ◌∙◌,
}
use ndn_cxx_logging.Base.Bytes.{IsByte, IsBytes, be_to_host, be_to_host-lt}
use ndn_cxx_logging.Tlv.{Error, try_read_var_number, read_var_number, load_be, size_of_var_number}

-- What the throwing overload throws where the other returns false.
abbrev pub read_error : List ℕ → Error
read_error [] = Error.empty_buffer
read_error (b ∷ range) = Error.insufficient_data

pub read_var_number-try :
    (range : List ℕ)
    → read_var_number range ≡ elim (try_read_var_number range).1 [
      | none ↦ err (read_error range)
      | some n ↦ ok (n, (try_read_var_number range).0)
    ]
unfolding read_var_number
read_var_number-try [] = unfold try_read_var_number in refl
read_var_number-try (b ∷ range) = refl

load_be_takes :
    (k : ℕ) (range rest : List ℕ) (n : ℕ)
    → load_be k range ≡ (rest, some n)
    → (k ≤ length range) × (rest ≡ drop k range) × (n ≡ be_to_host (take k range))
unfolding load_be
load_be_takes k range rest n h = ground arith

-- The bytes behind the first octet of a VAR-NUMBER.
unfoldable pub width : ℕ → ℕ
width first = if ltb first 253 then 0 else if first == 253 then 2 else if first == 254 then 4 else 8

try_takes :
    (first : ℕ) (range rest : List ℕ) (n : ℕ)
    → try_read_var_number (first ∷ range) ≡ (rest, some n)
    → (width first ≤ length range)
      × (rest ≡ drop (width first) range)
      × (n ≡ (if ltb first 253 then first else be_to_host (take (width first) range)))
unfolding try_read_var_number width
try_takes first range rest n h = ground (
  arith,
  load_be_takes 2 range rest n,
  load_be_takes 4 range rest n,
  load_be_takes 8 range rest n,
)

try_of_read :
    (range rest : List ℕ) (n : ℕ)
    → read_var_number range ≡ ok (n, rest)
    → try_read_var_number range ≡ (rest, some n)
try_of_read range rest n h = ground (arith, read_var_number-try range)

-- A read takes one byte at least, from the front.
pub read_var_number_suffix :
    (range : List ℕ) (n : ℕ) (rest : List ℕ)
    → read_var_number range ≡ ok (n, rest)
    → (length rest < length range) × (rest ≡ drop (length range - length rest) range)
read_var_number_suffix [] n rest h = unfold read_var_number in cc
read_var_number_suffix (b ∷ range) n rest h =
    let t = try_takes b range rest n (try_of_read (b ∷ range) rest n h) in
    let len : length rest ≡ length range - width b = rw t.1 (length-drop (width b) range) in
    let cut : length (b ∷ range) - length rest ≡ suc (width b) = omega (arith, t.0, len) in
    (omega (arith, len), t.1 ∙ rw cut)

-- The number is one of the width's.
number_fits :
    (first : ℕ) (range : List ℕ) (n : ℕ)
    → IsBytes range
    → n ≡ (if ltb first 253 then first else be_to_host (take (width first) range))
    → first < 256
    → (n < 2 ^ 64) × (size_of_var_number n ≤ suc (width first)) × (width first ≤ 8)
unfolding width size_of_var_number
number_fits first range n hb e hf = ground (
  arith,
  be_to_host-lt (take 2 range) (All-take IsByte 2 range hb),
  be_to_host-lt (take 4 range) (All-take IsByte 4 range hb),
  be_to_host-lt (take 8 range) (All-take IsByte 8 range hb),
  length-take 2 range,
  length-take 4 range,
  length-take 8 range,
)

-- The number that the octets behind the first one make, or that the first one is.
abbrev pub number : ℕ → List ℕ → ℕ
number first range = if ltb first 253 then first else be_to_host (take (width first) range)

read_var_number_bytes :
    (first : ℕ) (range : List ℕ)
    → read_var_number (first ∷ range) ≡ (
        if leb (width first) (length range)
        then ok (number first range, drop (width first) range)
        else err Error.insufficient_data)
unfolding read_var_number try_read_var_number load_be width
read_var_number_bytes first range = ground arith

-- `readVarNumber` of a first octet and any bytes behind it: where there are as many bytes as the first octet
-- asks for (none below 253, and 2, 4 or 8 from 253 on), it returns the number that they make and
-- what is behind them, and otherwise it throws. Every such number is accepted, also one that has a shorter
-- encoding; it is a uint64, its shortest encoding is no longer than what was taken, 9 bytes are taken at
-- most, and what is left is bytes again.
pub read_var_number_takes :
    (first : ℕ) (range : List ℕ)
    → IsBytes (first ∷ range)
    → (read_var_number (first ∷ range) ≡ (
        if leb (width first) (length range)
        then ok (number first range, drop (width first) range)
        else err Error.insufficient_data))
      × (number first range < 2 ^ 64)
      × (size_of_var_number (number first range) ≤ suc (width first))
      × (suc (width first) ≤ 9)
      × IsBytes (drop (width first) range)
read_var_number_takes first range hb =
    let (small, short, most) = number_fits first range (number first range) hb.1 refl hb.0 in
    (
      read_var_number_bytes first range,
      small,
      short,
      omega (arith, most),
      All-drop IsByte (width first) range hb.1,
    )

-- ===== src/Tlv/Stream.antt =====
-- The readers of encoding/tlv.hpp for std::istream_iterator against those for other iterators.
use ndn_cxx_logging.Base.{
  ℕ, zero, suc, ◌+◌, ◌*◌, ◌%◌, ◌≤◌, ◌<◌, ◌^◌, ◌≡◌, refl, List, [], ◌∷◌, ltb, length, arith, take,
  drop, Option, none, some, bit_or, ap, Bool-cases, inl, inr,
}
use ndn_cxx_logging.Base.Bytes.{IsBytes, be_to_host_from}
use ndn_cxx_logging.Base.Bits.{bit_or_byte}
use ndn_cxx_logging.Tlv.{
  try_read_var_number, try_read_var_number_stream, load_be, load_shift, shift_in,
  read_non_negative_integer, read_non_negative_integer_stream, load_or_throw,
}
use native.Mathlib.Nat.{pow-suc, one-le-pow, mul-le-mul_left, mul-le-mul_right}

-- One round: the value still fits 64 bits, with `k` more bytes to come.
shift_room :
    (k value b : ℕ)
    → b < 256
    → (value + 1) * 256 ^ suc k ≤ 2 ^ 64
    → (bit_or (value * 256 % 2 ^ 64) b ≡ value * 256 + b)
      × ((value * 256 + b + 1) * 256 ^ k ≤ 2 ^ 64)
shift_room k value b hb h =
    let split : (value + 1) * 256 ^ suc k ≡ (value + 1) * 256 * 256 ^ k =
      omega (arith, ap (λ (t : ℕ). (value + 1) * t) (pow-suc 256 k)) in
    let grow : (value + 1) * 256 * 1 ≤ (value + 1) * 256 * 256 ^ k =
      mul-le-mul_left ((value + 1) * 256) (one-le-pow k 256 (omega arith)) in
    let next : (value * 256 + b + 1) * 256 ^ k ≤ (value + 1) * 256 * 256 ^ k =
      mul-le-mul_right (256 ^ k) (omega arith) in
    let small : value * 256 % 2 ^ 64 ≡ value * 256 = omega arith in
    (rw small (bit_or_byte value b hb), omega arith)

shift_in_enough :
    (k : ℕ) (range : List ℕ) (value : ℕ)
    → IsBytes range
    → (value + 1) * 256 ^ k ≤ 2 ^ 64
    → k ≤ length range
    → shift_in k range value ≡ (drop k range, 0, be_to_host_from value (take k range))
unfolding shift_in be_to_host_from
shift_in_enough zero range value hb h l = refl
shift_in_enough (suc k) [] value hb h l = absurd (omega arith)
shift_in_enough (suc k) (b ∷ range) value hb h l =
    let (same, room) = shift_room k value b hb.0 h in
    rw same (shift_in_enough k range (value * 256 + b) hb.1 room (omega arith))

shift_in_short :
    (k : ℕ) (range : List ℕ) (value : ℕ)
    → length range < k
    → ((shift_in k range value).0 ≡ []) × (0 < (shift_in k range value).1)
unfolding shift_in
shift_in_short zero range value l = absurd (omega arith)
shift_in_short (suc k) [] value l = (refl, omega arith)
shift_in_short (suc k) (b ∷ range) value l = shift_in_short k range _ (omega arith)

-- A stream whose read fails is used up, where other iterators stay.
abbrev pub used_up : List ℕ × Option ℕ → List ℕ × Option ℕ
used_up (rest, none) = ([], none)
used_up (rest, some n) = (rest, some n)

load_shift-load_be :
    (k : ℕ) (range : List ℕ)
    → IsBytes range
    → 256 ^ k ≤ 2 ^ 64
    → load_shift k range ≡ used_up (load_be k range)
unfolding load_shift load_be
load_shift-load_be k range hb h = elim (Bool-cases (ltb (length range) k)) [
  | inl short ↦ ground (arith, shift_in_short k range 0)
  | inr enough ↦ ground (arith, shift_in_enough k range 0 hb)
]

-- On bytes the stream overload of `readVarNumber` reads the number that the other overload reads
-- and leaves the same bytes behind it; where the other fails it fails too, with the stream used up.
pub try_read_var_number_stream-eq :
    (range : List ℕ)
    → IsBytes range
    → try_read_var_number_stream range ≡ used_up (try_read_var_number range)
unfolding try_read_var_number_stream try_read_var_number
try_read_var_number_stream-eq [] hb = refl
try_read_var_number_stream-eq (b ∷ range) hb = ground (
  arith,
  load_shift-load_be 2 range hb.1,
  load_shift-load_be 4 range hb.1,
  load_shift-load_be 8 range hb.1,
)

load_or_throw-used_up : (p : List ℕ × Option ℕ) → load_or_throw (used_up p) ≡ load_or_throw p
unfolding load_or_throw
load_or_throw-used_up (rest, none) = refl
load_or_throw-used_up (rest, some n) = refl

throw_same :
    (k : ℕ) (range : List ℕ)
    → IsBytes range
    → 256 ^ k ≤ 2 ^ 64
    → load_or_throw (load_shift k range) ≡ load_or_throw (load_be k range)
throw_same k range hb h = rw (load_shift-load_be k range hb h) (load_or_throw-used_up _)

-- On bytes the two overloads of `readNonNegativeInteger` return the same number with the same rest,
-- or throw the same error.
pub read_non_negative_integer_stream-eq :
    (size : ℕ) (range : List ℕ)
    → IsBytes range
    → read_non_negative_integer_stream size range ≡ read_non_negative_integer size range
read_non_negative_integer_stream-eq size range hb =
    unfold read_non_negative_integer_stream read_non_negative_integer in
    simp (
      throw_same 2 range hb (omega arith),
      throw_same 4 range hb (omega arith),
      throw_same 8 range hb (omega arith),
    )

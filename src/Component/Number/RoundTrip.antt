-- ===== src/Component/Number/RoundTrip.antt =====
-- name-component.cpp: the numbers that are put into components are read back, and the markers keep
-- the kinds of number apart.
use ndn_cxx_logging.Base.{
  ℕ, ◌+◌, ◌^◌, ◌<◌, ◌≡◌, ◌⊎◌, ap, ◌∙◌, true, List, [], ◌∷◌, ◌++◌, ◌==◌, length, arith, ok,
}
use ndn_cxx_logging.Base.Bytes.{length-host_to_be, add64}
use ndn_cxx_logging.Tlv.{size_of_var_number}
use ndn_cxx_logging.Tlv.Format.{var_number, size_of_var_number_bounds}
use ndn_cxx_logging.Encoder
use ndn_cxx_logging.Encoder.Room.{Holds, create-Holds, prepend_byte_array-Holds}
use ndn_cxx_logging.Encoder.Numbers.{
  non_negative_integer, prepend_non_negative_integer-Holds, prepend_var_number-Holds,
}
use ndn_cxx_logging.Estimator
use ndn_cxx_logging.Estimator.Agree.{prepend_non_negative_integer-length, prepend_var_number-size}
use ndn_cxx_logging.Block.{Block}
use ndn_cxx_logging.Block.Wire.{whole, of_encoder-Holds}
use ndn_cxx_logging.BlockHelpers.Make.{
  read_non_negative_integer-append, make_non_negative_integer_block-whole,
}
use ndn_cxx_logging.BlockHelpers.{read_non_negative_integer_block}
use ndn_cxx_logging.Component.{name_component}
use ndn_cxx_logging.Component.Number.{
  is_number, is_number_with_marker, to_number, to_number_with_marker, from_number,
  from_number_with_marker,
}
use mathlib.Core.List.{append-nil}
use mathlib.Core.Path.{subst}

-- A number takes 1, 2, 4 or 8 bytes.
length-non_negative_integer :
    (n : ℕ)
    → (length (non_negative_integer n) ≡ 1)
      ⊎ ((length (non_negative_integer n) ≡ 2)
          ⊎ ((length (non_negative_integer n) ≡ 4) ⊎ (length (non_negative_integer n) ≡ 8)))
unfolding non_negative_integer
length-non_negative_integer n =
    ground (arith, length-host_to_be 2 n, length-host_to_be 4 n, length-host_to_be 8 n)

abbrev value_length : (marker n : ℕ) → ℕ
value_length marker n =
    add64 (Estimator.prepend_non_negative_integer n) (Estimator.prepend_byte_array (marker ∷ []))

value_length_lem : (marker n : ℕ) → value_length marker n ≡ length (marker ∷ non_negative_integer n)
unfolding Estimator.prepend_byte_array
value_length_lem marker n =
    omega (arith, prepend_non_negative_integer-length n, length-non_negative_integer n)

pub from_number_with_marker-whole :
    (marker n : ℕ)
    → from_number_with_marker marker n ≡ ok (whole name_component (marker ∷ non_negative_integer n))
unfolding from_number_with_marker
from_number_with_marker-whole marker n =
    let vl =
      add64 (Estimator.prepend_non_negative_integer n)
        (Estimator.prepend_byte_array (marker ∷ [])) in
    let vl_eq : vl ≡ length (marker ∷ non_negative_integer n) = value_length_lem marker n in
    let total =
      add64 (add64 vl (Estimator.prepend_var_number vl))
        (Estimator.prepend_var_number name_component) in
    let start = Encoder.create total 0 in
    let parts : total
        ≡ length (non_negative_integer n)
          + (1 + (size_of_var_number vl + (size_of_var_number name_component + 0))) =
      omega (
        arith,
        vl_eq,
        length-non_negative_integer n,
        prepend_var_number-size vl,
        prepend_var_number-size name_component,
        size_of_var_number_bounds vl,
        size_of_var_number_bounds name_component,
      ) in
    let room = subst (λ k. Holds start k [] 0) parts (create-Holds total) in
    let bytes = marker ∷ non_negative_integer n in
    let e1 = (Encoder.prepend_non_negative_integer start n).0 in
    let e3 = (Encoder.prepend_var_number (Encoder.prepend_byte_array e1 (marker ∷ [])).0 vl).0 in
    let filled = (Encoder.prepend_var_number e3 name_component).0 in
    of_encoder-Holds _ name_component bytes (omega arith)
      (omega (arith, length-non_negative_integer n))
      (subst (λ b. Holds filled 0 b 0)
        (ap (λ (l : List ℕ). var_number name_component ++ (var_number vl ++ (marker ∷ l)))
            (append-nil (non_negative_integer n))
          ∙ ap (λ (k : ℕ). var_number name_component ++ (var_number k ++ bytes)) vl_eq)
        (prepend_var_number-Holds _ 0 _ 0 name_component (
          prepend_var_number-Holds _ _ _ 0 vl (
            prepend_byte_array-Holds _ _ _ 0 (marker ∷ [])
              (prepend_non_negative_integer-Holds start _ [] 0 n room)))))

is_number-whole : (n : ℕ) → is_number (whole name_component (non_negative_integer n)) ≡ true
unfolding is_number
is_number-whole n = ground (arith, length-non_negative_integer n)

to_number-whole :
    (n : ℕ) → n < 2 ^ 64 → to_number (whole name_component (non_negative_integer n)) ≡ ok n
unfolding to_number read_non_negative_integer_block
to_number-whole n h = ground (
  arith,
  is_number-whole n,
  append-nil (non_negative_integer n),
  read_non_negative_integer-append n [] h,
)

is_number_with_marker-whole :
    (marker other n : ℕ)
    → is_number_with_marker (whole name_component (marker ∷ non_negative_integer n)) other
      ≡ (marker == other)
unfolding is_number_with_marker
is_number_with_marker-whole marker other n = ground (arith, length-non_negative_integer n)

to_number_with_marker-whole :
    (marker n : ℕ)
    → n < 2 ^ 64
    → to_number_with_marker (whole name_component (marker ∷ non_negative_integer n)) marker ≡ ok n
unfolding to_number_with_marker
to_number_with_marker-whole marker n h = ground (
  arith,
  is_number_with_marker-whole marker marker n,
  append-nil (non_negative_integer n),
  read_non_negative_integer-append n [] h,
)

-- A component that `fromNumber` makes passes `isNumber`, and `toNumber` gives the uint64 back.
-- `toNumberWithMarker` gives back the uint64 of a component that `fromNumberWithMarker` makes with
-- the same marker (that of a version, a segment, an offset or a sequence number), and the component
-- passes the test for that marker and for no other.
pub to_number-from_number :
    (n marker other : ℕ)
    → n < 2 ^ 64
    → ((c : Block) × (from_number n ≡ ok c) × (is_number c ≡ true) × (to_number c ≡ ok n))
      × ((c : Block) × (from_number_with_marker marker n ≡ ok c)
          × (is_number_with_marker c other ≡ (marker == other))
          × (to_number_with_marker c marker ≡ ok n))
unfolding from_number
to_number-from_number n marker other h = (
  (
    whole name_component (non_negative_integer n),
    make_non_negative_integer_block-whole name_component n (omega arith),
    is_number-whole n,
    to_number-whole n h,
  ),
  (
    whole name_component (marker ∷ non_negative_integer n),
    from_number_with_marker-whole marker n,
    is_number_with_marker-whole marker other n,
    to_number_with_marker-whole marker n h,
  ),
)

-- ===== src/Tlv/Format.antt =====
-- What the number writers of encoding/tlv.hpp put on the wire, in plain terms.
use ndn_cxx_logging.Base.{
  ℕ, ◌+◌, ◌≤◌, ◌≡◌, refl, List, [], ◌∷◌, ◌++◌, ltb, leb, if◌then◌else◌, length, arith,
  length-append,
}
use ndn_cxx_logging.Base.Bytes.{IsBytes, host_to_be, length-host_to_be, host_to_be-IsBytes}
use ndn_cxx_logging.Tlv.{
  max_uint16, max_uint32, size_of_var_number, write_var_number, size_of_non_negative_integer,
  write_non_negative_integer,
}

-- The shortest VAR-NUMBER that holds `n`.
unfoldable pub var_number : ℕ → List ℕ
var_number n =
    if ltb n 253
    then n ∷ []
    else if leb n max_uint16
    then 253 ∷ host_to_be 2 n
    else if leb n max_uint32
    then 254 ∷ host_to_be 4 n
    else 255 ∷ host_to_be 8 n

-- A TLV: its type, the length of its value, and the value.
abbrev pub tlv : ℕ → List ℕ → List ℕ
tlv type value = var_number type ++ (var_number (length value) ++ value)

pub length-var_number : (n : ℕ) → length (var_number n) ≡ size_of_var_number n
unfolding var_number size_of_var_number
length-var_number n =
    ground (arith, length-host_to_be 2 n, length-host_to_be 4 n, length-host_to_be 8 n)

pub size_of_var_number_bounds : (n : ℕ) → (1 ≤ size_of_var_number n) × (size_of_var_number n ≤ 9)
unfolding size_of_var_number
size_of_var_number_bounds n = ground arith

pub var_number-IsBytes : (n : ℕ) → IsBytes (var_number n)
unfolding var_number
var_number-IsBytes n =
    ground (arith, host_to_be-IsBytes 2 n, host_to_be-IsBytes 4 n, host_to_be-IsBytes 8 n)

-- The stream is extended by the encoding, and the call returns its size.
pub write_var_number_lem :
    (os : List ℕ) (n : ℕ) → write_var_number os n ≡ (os ++ var_number n, size_of_var_number n)
unfolding write_var_number var_number size_of_var_number
write_var_number_lem os n = ground arith

-- `sizeOfVarNumber` is the number of bytes that `writeVarNumber` puts on the stream and the number
-- that it returns, it is 1 to 9, and it is no smaller for a larger number.
pub size_of_var_number-write :
    (os : List ℕ) (n m : ℕ)
    → n ≤ m
    → (length (write_var_number os n).0 ≡ length os + size_of_var_number n)
      × ((write_var_number os n).1 ≡ size_of_var_number n)
      × (1 ≤ size_of_var_number n)
      × (size_of_var_number n ≤ 9)
      × (size_of_var_number n ≤ size_of_var_number m)
size_of_var_number-write os n m h = (
  rw write_var_number_lem (omega (arith, length-append os (var_number n), length-var_number n)),
  rw write_var_number_lem refl,
  (size_of_var_number_bounds n).0,
  (size_of_var_number_bounds n).1,
  unfold size_of_var_number in ground arith,
)

-- `sizeOfNonNegativeInteger` is the number of bytes that `writeNonNegativeInteger` puts on the
-- stream and the number that it returns.
pub size_of_non_negative_integer-write :
    (os : List ℕ) (n : ℕ)
    → (length (write_non_negative_integer os n).0 ≡ length os + size_of_non_negative_integer n)
      × ((write_non_negative_integer os n).1 ≡ size_of_non_negative_integer n)
unfolding write_non_negative_integer size_of_non_negative_integer
size_of_non_negative_integer-write os n = ground (
  arith,
  length-host_to_be 2 n,
  length-host_to_be 4 n,
  length-host_to_be 8 n,
  length-append os (n ∷ []),
  length-append os (host_to_be 2 n),
  length-append os (host_to_be 4 n),
  length-append os (host_to_be 8 n),
)

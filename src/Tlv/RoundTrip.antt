-- ===== src/Tlv/RoundTrip.antt =====
-- Reading back what the writers of encoding/tlv.hpp wrote, and what a read accepts.
use ndn_cxx_logging.Base.{
  ℕ, ◌<◌, ◌^◌, ◌≡◌, refl, List, [], ◌∷◌, ◌++◌, ltb, if◌then◌else◌, length, arith, length-append,
  take-append, drop-append, none, some, ok, err,
}
use ndn_cxx_logging.Base.Bytes.{host_to_be, length-host_to_be, be_to_host-host_to_be}
use ndn_cxx_logging.Tlv.{
  Error, try_read_var_number, try_read_type, read_var_number, read_type, write_var_number, load_be,
  read_non_negative_integer, size_of_non_negative_integer, write_non_negative_integer,
}
use ndn_cxx_logging.Tlv.Format.{var_number, write_var_number_lem}

pub load_be-append :
    (k n : ℕ) (rest : List ℕ) → n < 256 ^ k → load_be k (host_to_be k n ++ rest) ≡ (rest, some n)
unfolding load_be
load_be-append k n rest h = ground (
  arith,
  length-host_to_be k n,
  length-append (host_to_be k n) rest,
  take-append k (host_to_be k n) rest (length-host_to_be k n),
  drop-append k (host_to_be k n) rest (length-host_to_be k n),
  be_to_host-host_to_be k n h,
)

pub try_read_var_number-var_number :
    (n : ℕ) (rest : List ℕ)
    → n < 2 ^ 64
    → try_read_var_number (var_number n ++ rest) ≡ (rest, some n)
unfolding try_read_var_number var_number
try_read_var_number-var_number n rest h =
    ground (arith, load_be-append 2 n rest, load_be-append 4 n rest, load_be-append 8 n rest)

read_var_number_of_try :
    (range : List ℕ) (n : ℕ) (rest : List ℕ)
    → try_read_var_number range ≡ (rest, some n)
    → read_var_number range ≡ ok (n, rest)
unfolding read_var_number try_read_var_number
read_var_number_of_try [] n rest h = cc
read_var_number_of_try (b ∷ range) n rest h = ground arith

-- The throwing overload, in front of any bytes.
pub read_var_number-append :
    (n : ℕ) (rest : List ℕ) → n < 2 ^ 64 → read_var_number (var_number n ++ rest) ≡ ok (n, rest)
read_var_number-append n rest h =
    read_var_number_of_try _ n rest (try_read_var_number-var_number n rest h)

pub read_type-append :
    (n : ℕ) (rest : List ℕ) → n < 2 ^ 32 → read_type (var_number n ++ rest) ≡ ok (n, rest)
unfolding read_type
read_type-append n rest h = ground (arith, read_var_number-append n rest)

pub try_read_type-append :
    (n : ℕ) (rest : List ℕ) → n < 2 ^ 32 → try_read_type (var_number n ++ rest) ≡ (rest, some n)
unfolding try_read_type
try_read_type-append n rest h = ground (arith, try_read_var_number-var_number n rest)

-- Every uint64 that `writeVarNumber` puts on a stream is read back by `readVarNumber`, with what
-- follows it left over. `readType` reads it too, but throws "TLV type code exceeds allowed maximum"
-- exactly when the number does not fit 32 bits.
pub read_var_number-write :
    (n : ℕ) (rest : List ℕ)
    → n < 2 ^ 64
    → (read_var_number ((write_var_number [] n).0 ++ rest) ≡ ok (n, rest))
      × (read_type ((write_var_number [] n).0 ++ rest)
          ≡ (if ltb n (2 ^ 32) then ok (n, rest) else err Error.type_exceeds_maximum))
unfolding read_type
read_var_number-write n rest h =
    rw write_var_number_lem
      (read_var_number-append n rest h, ground (arith, read_var_number-append n rest))

-- The integer that `writeNonNegativeInteger` writes is read back from the number of bytes that
-- `sizeOfNonNegativeInteger` says, with what follows it left over. For integers of 64 bits.
pub read_non_negative_integer-write :
    (n : ℕ) (rest : List ℕ)
    → n < 2 ^ 64
    → read_non_negative_integer
        (size_of_non_negative_integer n)
        ((write_non_negative_integer [] n).0 ++ rest)
      ≡ ok (n, rest)
unfolding read_non_negative_integer write_non_negative_integer size_of_non_negative_integer
read_non_negative_integer-write n rest h =
    ground (arith, load_be-append 2 n rest, load_be-append 4 n rest, load_be-append 8 n rest)

load_be_short : (k : ℕ) (range : List ℕ) → length range < k → load_be k range ≡ (range, none)
unfolding load_be
load_be_short k range h = ground arith

-- A read fails on every proper prefix of an encoding.
pub try_read_var_number_truncated :
    (n x : ℕ) (front back : List ℕ)
    → n < 2 ^ 64
    → (write_var_number [] n).0 ≡ front ++ (x ∷ back)
    → (try_read_var_number front).1 ≡ none
unfolding try_read_var_number write_var_number
try_read_var_number_truncated n x [] back h e = refl
try_read_var_number_truncated n x (b ∷ front) back h e = ground (
  arith,
  length-host_to_be 2 n,
  length-host_to_be 4 n,
  length-host_to_be 8 n,
  length-append front (x ∷ back),
  load_be_short 2 front,
  load_be_short 4 front,
  load_be_short 8 front,
)

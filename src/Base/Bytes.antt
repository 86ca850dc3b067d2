-- ===== src/Base/Bytes.antt =====
-- Bytes, and numbers in network byte order (`htobe16` to `be64toh` of encoding/endian.hpp).
use Prim.Native.Nat.{ℕ, zero, suc, ◌+◌, ◌*◌, ◌/◌, ◌%◌, ◌^◌, ◌≤◌, ◌<◌}
use mathlib.Core.Path.{◌≡◌, refl, ap}
use mathlib.Core.List.{List, [], ◌∷◌, ◌++◌}
use native.Mathlib.Omega.{arith}
use native.Mathlib.Nat.{pow-suc, mul-le-mul_right}
use ndn_cxx_logging.Base.Lists.{length, length-append, All, All-append}

abbrev pub IsByte : ℕ → Type 0
IsByte b = b < 256

abbrev pub IsBytes : List ℕ → Type 0
IsBytes = All IsByte

-- `size_t` a + b.
abbrev pub add64 : ℕ → ℕ → ℕ
add64 a b = (a + b) % 2 ^ 64

-- The number that bytes stand for, the most significant first, behind those read into `acc`.
unfoldable pub be_to_host_from : ℕ → List ℕ → ℕ
be_to_host_from acc [] = acc
be_to_host_from acc (b ∷ bs) = be_to_host_from (acc * 256 + b) bs

abbrev pub be_to_host : List ℕ → ℕ
be_to_host = be_to_host_from 0

-- The `k` bytes of `v` in network order; bits above them are lost.
unfoldable pub host_to_be : ℕ → ℕ → List ℕ
host_to_be zero v = []
host_to_be (suc k) v = host_to_be k (v / 256) ++ (v % 256 ∷ [])

pub length-host_to_be : (k v : ℕ) → length (host_to_be k v) ≡ k
unfolding host_to_be
length-host_to_be zero v = refl
length-host_to_be (suc k) v =
    omega
      (arith, length-append (host_to_be k (v / 256)) (v % 256 ∷ []), length-host_to_be k (v / 256))

pub host_to_be-IsBytes : (k v : ℕ) → IsBytes (host_to_be k v)
unfolding host_to_be
host_to_be-IsBytes zero v = tt
host_to_be-IsBytes (suc k) v =
    All-append IsByte (host_to_be k (v / 256)) (v % 256 ∷ []) (host_to_be-IsBytes k (v / 256))
      (omega arith)

be_to_host_from-snoc :
    (acc : ℕ) (xs : List ℕ) (b : ℕ)
    → be_to_host_from acc (xs ++ (b ∷ [])) ≡ be_to_host_from acc xs * 256 + b
unfolding be_to_host_from
be_to_host_from-snoc acc [] b = refl
be_to_host_from-snoc acc (x ∷ xs) b = be_to_host_from-snoc (acc * 256 + x) xs b

pub be_to_host-host_to_be : (k v : ℕ) → v < 256 ^ k → be_to_host (host_to_be k v) ≡ v
unfolding host_to_be be_to_host_from
be_to_host-host_to_be zero v h = omega arith
be_to_host-host_to_be (suc k) v h = omega (
  arith,
  be_to_host_from-snoc 0 (host_to_be k (v / 256)) (v % 256),
  be_to_host-host_to_be k (v / 256) (omega (arith, pow-suc 256 k)),
)

-- Reading does not leave the range of the width.
be_to_host_from-lt :
    (acc : ℕ) (xs : List ℕ) → IsBytes xs → be_to_host_from acc xs < (acc + 1) * 256 ^ length xs
unfolding be_to_host_from
be_to_host_from-lt acc [] h = omega arith
be_to_host_from-lt acc (x ∷ xs) h =
    let room : acc * 256 + x + 1 ≤ (acc + 1) * 256 = omega arith in
    omega (
      arith,
      be_to_host_from-lt (acc * 256 + x) xs h.1,
      ap (λ (t : ℕ). (acc + 1) * t) (pow-suc 256 (length xs)),
      mul-le-mul_right (256 ^ length xs) room,
    )

pub be_to_host-lt : (xs : List ℕ) → IsBytes xs → be_to_host xs < 256 ^ length xs
be_to_host-lt xs h = omega (arith, be_to_host_from-lt 0 xs h)

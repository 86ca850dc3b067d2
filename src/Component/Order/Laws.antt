-- ===== src/Component/Order/Laws.antt =====
-- name-component.cpp: compare is a total order of types and values, and what equals compares.
use Prim.Native.Nat.{Ordering}
use ndn_cxx_logging.Base.{ℕ, ◌<◌, ◌≡◌, ◌↔◌, refl, true, List, [], ◌∷◌, length, arith, nil_of_length}
use ndn_cxx_logging.Block.{Block, type, value}
use ndn_cxx_logging.Block.Equal.{equal_bytes-eq, equal_bytes_refl}
use ndn_cxx_logging.Component.Order.{memcmp, equals, compare}

-- The sign of the opposite comparison.
abbrev pub opposite : Ordering → Ordering
opposite Ordering.lt = Ordering.gt
opposite Ordering.eq = Ordering.eq
opposite Ordering.gt = Ordering.lt

memcmp-opposite : (xs ys : List ℕ) → memcmp ys xs ≡ opposite (memcmp xs ys)
unfolding memcmp
memcmp-opposite [] [] = refl
memcmp-opposite [] (y ∷ ys) = refl
memcmp-opposite (x ∷ xs) [] = refl
memcmp-opposite (x ∷ xs) (y ∷ ys) = ground (arith, memcmp-opposite xs ys)

memcmp-eq : (xs ys : List ℕ) → length xs ≡ length ys → memcmp xs ys ≡ Ordering.eq → xs ≡ ys
unfolding memcmp
memcmp-eq [] [] l h = refl
memcmp-eq [] (y ∷ ys) l h = absurd (omega arith)
memcmp-eq (x ∷ xs) [] l h = absurd (omega arith)
memcmp-eq (x ∷ xs) (y ∷ ys) l h = ground (arith, memcmp-eq xs ys)

memcmp_refl : (xs : List ℕ) → memcmp xs xs ≡ Ordering.eq
unfolding memcmp
memcmp_refl [] = refl
memcmp_refl (x ∷ xs) = ground (arith, memcmp_refl xs)

memcmp_trans :
    (xs ys zs : List ℕ)
    → length xs ≡ length ys
    → length ys ≡ length zs
    → memcmp xs ys ≡ Ordering.lt
    → memcmp ys zs ≡ Ordering.lt
    → memcmp xs zs ≡ Ordering.lt
unfolding memcmp
memcmp_trans [] ys zs l m h k = cc
memcmp_trans (x ∷ xs) [] zs l m h k = cc
memcmp_trans (x ∷ xs) (y ∷ ys) [] l m h k = cc
memcmp_trans (x ∷ xs) (y ∷ ys) (z ∷ zs) l m h k = ground (arith, memcmp_trans xs ys zs)

pub compare-opposite : (a b : Block) → compare b a ≡ opposite (compare a b)
unfolding compare
compare-opposite a b = ground (arith, memcmp-opposite (value a) (value b))

pub compare-eq : (a b : Block) → compare a b ≡ Ordering.eq → (type a ≡ type b) × (value a ≡ value b)
unfolding compare
compare-eq a b h =
    let same : length (value a) ≡ length (value b) = ground arith in
    ground
      (arith, memcmp-eq (value a) (value b) same, nil_of_length (value a), nil_of_length (value b))

pub compare-same : (a b : Block) → type a ≡ type b → value a ≡ value b → compare a b ≡ Ordering.eq
unfolding compare
compare-same a b ht hv = ground (arith, memcmp_refl (value b), hv)

-- `compare` is 0 exactly for components of one type and one value, and its sign is the opposite one
-- with the components exchanged, so exactly one of before, equal and after holds.
pub compare_order :
    (a b : Block)
    → ((compare a b ≡ Ordering.eq) ↔ ((type a ≡ type b) × (value a ≡ value b)))
      × (compare b a ≡ opposite (compare a b))
compare_order a b = ((compare-eq a b, λ same. compare-same a b same.0 same.1), compare-opposite a b)

-- "Before" in the order of `compare` is transitive.
pub compare_trans :
    (a b c : Block)
    → compare a b ≡ Ordering.lt
    → compare b c ≡ Ordering.lt
    → compare a c ≡ Ordering.lt
unfolding compare
compare_trans a b c h k = ground (arith, memcmp_trans (value a) (value b) (value c))

-- `compare` sees the type and the value only.
pub compare_eq_left : (a b c : Block) → compare a b ≡ Ordering.eq → compare a c ≡ compare b c
unfolding compare
compare_eq_left a b c h =
    let (same_type, same_value) = compare-eq a b h in rw (same_type, same_value) refl

pub compare_eq_right : (a b c : Block) → compare b c ≡ Ordering.eq → compare a c ≡ compare a b
unfolding compare
compare_eq_right a b c h =
    let (same_type, same_value) = compare-eq b c h in rw (same_type, same_value) refl

pub equals_iff : (a b : Block) → (equals a b ≡ true) ↔ (value a ≡ value b)
unfolding equals
equals_iff a b = (
  (λ h. ground (
    arith,
    equal_bytes-eq (value a) (value b),
    nil_of_length (value a),
    nil_of_length (value b),
  )),
  (λ e. ground (arith, e, equal_bytes_refl (value b))),
)

-- Two components of different types with the same value, such as a generic component whose value is
-- a digest of 32 bytes and the implicit digest itself, are equal by `equals` (and `==`), but not by
-- `compare`, in whose order one of them is before the other.
pub equals_ignores_type :
    (a b : Block)
    → value a ≡ value b
    → type a < type b
    → (equals a b ≡ true) × (compare a b ≡ Ordering.lt)
unfolding compare
equals_ignores_type a b e h = ((equals_iff a b).1 e, ground arith)

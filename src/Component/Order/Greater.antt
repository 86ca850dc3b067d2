-- ===== src/Component/Order/Greater.antt =====
-- name-component.hpp: operator>, the order of the maps over std::greater.
use Prim.Native.Nat.{Ordering}
use ndn_cxx_logging.Base.{◌≡◌, refl, true, false, not, inl, inr, arith, Bool-cases}
use ndn_cxx_logging.Block.{Block, type, value, value_size}
use ndn_cxx_logging.Component.Order.{compare, gt, ge, equals}
use ndn_cxx_logging.Component.Order.Laws.{
  compare-opposite, compare_trans, compare_eq_left, compare_eq_right, compare-eq, compare-same,
  equals_iff,
}

pub gt_asym : (a b : Block) → gt a b ≡ true → gt b a ≡ false
unfolding gt
gt_asym a b h = ground (arith, compare-opposite a b)

pub gt_refl : (a : Block) → gt a a ≡ false
gt_refl a = elim (Bool-cases (gt a a)) [ inl h ↦ gt_asym a a h | inr h ↦ h ]

pub gt_trans : (a b c : Block) → gt a b ≡ true → gt b c ≡ true → gt a c ≡ true
unfolding gt
gt_trans a b c h k =
    ground
      (arith, compare-opposite a b, compare-opposite b c, compare-opposite a c, compare_trans c b a)

-- `c` is at most `b`.
pub gt-le : (a b c : Block) → gt a b ≡ true → gt c b ≡ false → gt a c ≡ true
unfolding gt
gt-le a b c h k = ground (
  arith,
  compare-opposite a b,
  compare-opposite c b,
  compare-opposite a c,
  compare_trans c b a,
  compare_eq_right a c b,
)

-- `a` is at least `b`.
pub ge-gt : (a b c : Block) → gt b a ≡ false → gt b c ≡ true → gt a c ≡ true
unfolding gt
ge-gt a b c h k = ground (
  arith,
  compare-opposite a b,
  compare-opposite b c,
  compare-opposite a c,
  compare_trans c b a,
  compare_eq_left a b c,
)

pub ge-not-gt : (a b : Block) → ge a b ≡ not (gt b a)
unfolding ge gt
ge-not-gt a b = ground (arith, compare-opposite a b)

same_order : (a b : Block) → compare a b ≡ Ordering.eq → equals a b ≡ true
same_order a b h = (equals_iff a b).1 (compare-eq a b h).1

-- Components of one type are equal exactly if neither is greater.
pub equals-neither : (a b : Block) → gt a b ≡ false → gt b a ≡ false → equals a b ≡ true
unfolding gt
equals-neither a b h k = ground (arith, compare-opposite a b, same_order a b)

pub equals-greater : (a b : Block) → type a ≡ type b → gt a b ≡ true → equals a b ≡ false
unfolding gt
equals-greater a b t h = elim (Bool-cases (equals a b)) [
  | inr different ↦ different
  | inl same ↦ ground (arith, compare-same a b t ((equals_iff a b).0 same))
]

pub equals-less : (a b : Block) → type a ≡ type b → gt b a ≡ true → equals a b ≡ false
unfolding gt
equals-less a b t h = elim (Bool-cases (equals a b)) [
  | inr different ↦ different
  | inl same ↦ ground (arith, compare-same a b t ((equals_iff a b).0 same), compare-opposite a b)
]

-- Equal components of one type are on the same side of every component.
pub gt-same :
    (key a b : Block)
    → type a ≡ type b
    → equals a b ≡ true
    → (gt key a ≡ gt key b) × (equals key a ≡ equals key b)
unfolding gt equals
gt-same key a b t h =
    let same : value a ≡ value b = (equals_iff a b).0 h in
    (
      rw (gt, compare_eq_right key a b (compare-same a b t same)) refl,
      rw (equals, value_size, same) refl,
    )

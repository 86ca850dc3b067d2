-- ===== src/Name/Order.antt =====
-- name.cpp: equals, isPrefixOf and compare. An `int` that only its sign matters of is an Ordering.
pub mod Laws
use Prim.Native.Nat.{Ordering}
use ndn_cxx_logging.Base.{
  ℕ, zero, suc, ◌+◌, ◌-◌, ◌%◌, ◌^◌, pos, min, Bool, true, false, not, List, [], ◌∷◌, ltb, ◌==◌,
  if◌then◌else◌, Result, ok, err, ◌>>=◌,
}
use ndn_cxx_logging.Tlv.{Error}
use ndn_cxx_logging.Block.{Block, elements}
use ndn_cxx_logging.Component.Order as ComponentOrder
use ndn_cxx_logging.Name.{Name, at, size, npos}

-- The loop of equals and isPrefixOf: the components of the first name are those of the second one
-- at the same places.
unfoldable pub same_components : List Block → List Block → Bool
same_components [] others = true
same_components (c ∷ cs) [] = false
same_components (c ∷ cs) (other ∷ others) =
    if not (ComponentOrder.equals c other) then false else same_components cs others

-- equals, operator== and, negated, operator!=
unfoldable pub equals : Name → Name → Bool
unfolding same_components
equals name other =
    if not (size name == size other)
    then false
    else same_components (elements name) (elements other)

unfoldable pub is_prefix_of : Name → Name → Bool
unfolding same_components
is_prefix_of name other =
    if ltb (size other) (size name) then false else same_components (elements name) (elements other)

-- The loop of compare, over `count` components from the two positions: 0 if none differs.
unfoldable pub compare_components : ℕ → Name → ℕ → Name → ℕ → Result Error Ordering
compare_components zero name pos1 other pos2 = ok Ordering.eq
compare_components (suc count) name pos1 other pos2 = do
  component ← at name (pos pos1)
  other_component ← at other (pos pos2)
  let behind = compare_components count name (suc pos1) other (suc pos2)
  elim (ComponentOrder.compare component other_component) [
    | Ordering.lt ↦ ok Ordering.lt
    | Ordering.gt ↦ ok Ordering.gt
    | Ordering.eq ↦ behind
  ]

-- `count1 - count2`, of 64 bits without a sign, as an `int` of 32 bits.
unfoldable pub difference : ℕ → ℕ → Ordering
difference count1 count2 =
    let d = (count1 + (2 ^ 64 - count2)) % 2 ^ 32 in
    if d == 0 then Ordering.eq else if ltb d (2 ^ 31) then Ordering.gt else Ordering.lt

-- compare(pos1, count1, other, pos2, count2)
unfoldable pub compare_ranges : Name → ℕ → ℕ → Name → ℕ → ℕ → Result Error Ordering
unfolding compare_components difference
compare_ranges name pos1 count1 other pos2 count2 = do
  let n = min count1 ((size name + (2 ^ 64 - pos1)) % 2 ^ 64)
  let m = min count2 ((size other + (2 ^ 64 - pos2)) % 2 ^ 64)
  result ← compare_components (min n m) name pos1 other pos2
  elim result [
    | Ordering.lt ↦ ok Ordering.lt
    | Ordering.gt ↦ ok Ordering.gt
    | Ordering.eq ↦ ok (difference n m)
  ]

-- compare(other)
unfoldable pub compare : Name → Name → Result Error Ordering
unfolding compare_ranges
compare name other = compare_ranges name 0 npos other 0 npos

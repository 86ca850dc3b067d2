-- ===== src/Name/Order/Laws.antt =====
-- name.cpp: compare is the order of the lists of components.
use Prim.Native.Nat.{Ordering}
use ndn_cxx_logging.Base.{
  ℕ, zero, suc, ◌+◌, ◌-◌, ◌%◌, ◌^◌, ◌≤◌, ◌<◌, ◌≡◌, refl, sym, ap, ◌∙◌, min, List, [], ◌∷◌, length,
  drop, arith, Result, ok, ◌↔◌,
}
use ndn_cxx_logging.Tlv.{Error}
use ndn_cxx_logging.Block.{Block, elements, value, type}
use ndn_cxx_logging.Component.Order as ComponentOrder
use ndn_cxx_logging.Component.Order.Laws.{
  opposite, compare-opposite, compare-eq, compare-same, compare_trans, compare_eq_left,
  compare_eq_right,
}
use ndn_cxx_logging.Name.{Name, size, npos}
use ndn_cxx_logging.Name.SubName.{at-drop}
use ndn_cxx_logging.Name.Order.{compare_components, difference, compare_ranges, compare}

-- The canonical order of names: the first components that differ decide, and a proper prefix is
-- before.
unfoldable pub canonical : List Block → List Block → Ordering
canonical [] [] = Ordering.eq
canonical [] (y ∷ ys) = Ordering.lt
canonical (x ∷ xs) [] = Ordering.gt
canonical (x ∷ xs) (y ∷ ys) = elim (ComponentOrder.compare x y) [
  | Ordering.lt ↦ Ordering.lt
  | Ordering.gt ↦ Ordering.gt
  | Ordering.eq ↦ canonical xs ys
]

-- The loop, and what compare makes of its result.
unfoldable decided : ℕ → ℕ → Ordering → Ordering
decided n m Ordering.lt = Ordering.lt
decided n m Ordering.gt = Ordering.gt
decided n m Ordering.eq = difference n m

-- The loop without the bounds of `at`.
unfoldable first_difference : ℕ → List Block → List Block → Ordering
first_difference zero xs ys = Ordering.eq
first_difference (suc count) [] ys = Ordering.eq
first_difference (suc count) (x ∷ xs) [] = Ordering.eq
first_difference (suc count) (x ∷ xs) (y ∷ ys) = elim (ComponentOrder.compare x y) [
  | Ordering.lt ↦ Ordering.lt
  | Ordering.gt ↦ Ordering.gt
  | Ordering.eq ↦ first_difference count xs ys
]

compare_components_lem :
    (count : ℕ) (name : Name) (i : ℕ) (other : Name) (j : ℕ)
    → i + count ≤ size name
    → j + count ≤ size other
    → compare_components count name i other j
      ≡ ok (first_difference count (drop i (elements name)) (drop j (elements other)))
unfolding compare_components first_difference
compare_components_lem zero name i other j h k = refl
compare_components_lem (suc count) name i other j h k =
    let (x, found_x, cut_x) = at-drop name i (omega arith) in
    let (y, found_y, cut_y) = at-drop other j (omega arith) in
    rw (found_x, found_y, cut_x, cut_y)
      (ground (
        arith,
        compare_components_lem count name (suc i) other (suc j) (omega arith) (omega arith),
      ))

difference-suc : (n m : ℕ) → n < 2 ^ 31 → m < 2 ^ 31 → difference (suc n) (suc m) ≡ difference n m
unfolding difference
difference-suc n m h k =
    let same : suc n + (2 ^ 64 - suc m) ≡ n + (2 ^ 64 - m) = omega arith in rw same refl

decided-suc :
    (n m : ℕ) (d : Ordering) → n < 2 ^ 31 → m < 2 ^ 31 → decided (suc n) (suc m) d ≡ decided n m d
unfolding decided
decided-suc n m Ordering.lt h k = refl
decided-suc n m Ordering.gt h k = refl
decided-suc n m Ordering.eq h k = difference-suc n m h k

canonical-first_difference :
    (xs ys : List Block)
    → length xs < 2 ^ 31
    → length ys < 2 ^ 31
    → decided (length xs) (length ys) (first_difference (min (length xs) (length ys)) xs ys)
      ≡ canonical xs ys
unfolding decided first_difference canonical
canonical-first_difference [] [] h k = unfold difference in refl
canonical-first_difference [] (y ∷ ys) h k = unfold difference in ground arith
canonical-first_difference (x ∷ xs) [] h k = unfold difference in ground arith
canonical-first_difference (x ∷ xs) (y ∷ ys) h k =
    let both : min (suc (length xs)) (suc (length ys)) ≡ suc (min (length xs) (length ys)) =
      omega arith in
    rw (both, decided-suc (length xs) (length ys) _ (omega arith) (omega arith))
      (ground (arith, canonical-first_difference xs ys (omega arith) (omega arith)))

decided_lem :
    (n m : ℕ) (d : Ordering)
    → ◌≡◌ {A = Result Error Ordering}
        (elim d [
          | Ordering.lt ↦ ok Ordering.lt
          | Ordering.gt ↦ ok Ordering.gt
          | Ordering.eq ↦ ok (difference n m)
        ])
        (ok (decided n m d))
unfolding decided
decided_lem n m Ordering.lt = refl
decided_lem n m Ordering.gt = refl
decided_lem n m Ordering.eq = refl

-- `compare` does not throw, and its sign is the canonical order of the components: the first ones
-- that differ decide, and a proper prefix is before. For names shorter than 2^31 components, whose
-- sizes an `int` can hold.
pub compare-canonical :
    (name other : Name)
    → size name < 2 ^ 31
    → size other < 2 ^ 31
    → compare name other ≡ ok (canonical (elements name) (elements other))
unfolding compare compare_ranges
compare-canonical name other h k =
    let whole1 : min npos ((size name + (2 ^ 64 - 0)) % 2 ^ 64) ≡ size name = omega arith in
    let whole2 : min npos ((size other + (2 ^ 64 - 0)) % 2 ^ 64) ≡ size other = omega arith in
    let n = min npos ((size name + (2 ^ 64 - 0)) % 2 ^ 64) in
    let m = min npos ((size other + (2 ^ 64 - 0)) % 2 ^ 64) in
    let count = min (size name) (size other) in
    let found = first_difference count (elements name) (elements other) in
    let loop : compare_components (min n m) name 0 other 0 ≡ ok found =
      rw (whole1, whole2)
        (compare_components_lem count name 0 other 0 (omega arith) (omega arith)) in
    rw loop (
      decided_lem n m found
      ∙ rw (whole1, whole2, canonical-first_difference (elements name) (elements other) h k) refl)

canonical-opposite : (xs ys : List Block) → canonical ys xs ≡ opposite (canonical xs ys)
unfolding canonical
canonical-opposite [] [] = refl
canonical-opposite [] (y ∷ ys) = refl
canonical-opposite (x ∷ xs) [] = refl
canonical-opposite (x ∷ xs) (y ∷ ys) =
    rw (canonical, compare-opposite x y) (ground (arith, canonical-opposite xs ys))

-- The same types and values, place by place.
abbrev pub SameComponents : List Block → List Block → Type 0
SameComponents [] [] = Unit
SameComponents (x ∷ xs) (y ∷ ys) = (type x ≡ type y) × (value x ≡ value y) × SameComponents xs ys
SameComponents _ _ = ⊥

canonical-eq : (xs ys : List Block) → canonical xs ys ≡ Ordering.eq → SameComponents xs ys
unfolding canonical
canonical-eq [] [] h = tt
canonical-eq [] (y ∷ ys) h = absurd (cc h)
canonical-eq (x ∷ xs) [] h = absurd (cc h)
canonical-eq (x ∷ xs) (y ∷ ys) h =
    let heads : ComponentOrder.compare x y ≡ Ordering.eq = ground arith in
    let tails : canonical xs ys ≡ Ordering.eq = ground arith in
    let (same_type, same_value) = compare-eq x y heads in
    (same_type, same_value, canonical-eq xs ys tails)

canonical-same : (xs ys : List Block) → SameComponents xs ys → canonical xs ys ≡ Ordering.eq
unfolding canonical
canonical-same [] [] h = refl
canonical-same [] (y ∷ ys) h = absurd h
canonical-same (x ∷ xs) [] h = absurd h
canonical-same (x ∷ xs) (y ∷ ys) (t, v, h) =
    rw (canonical, compare-same x y t v) (canonical-same xs ys h)

canonical_trans :
    (xs ys zs : List Block)
    → canonical xs ys ≡ Ordering.lt
    → canonical ys zs ≡ Ordering.lt
    → canonical xs zs ≡ Ordering.lt
unfolding canonical
canonical_trans [] [] zs h k = cc
canonical_trans [] (y ∷ ys) [] h k = cc
canonical_trans [] (y ∷ ys) (z ∷ zs) h k = refl
canonical_trans (x ∷ xs) [] zs h k = cc
canonical_trans (x ∷ xs) (y ∷ ys) [] h k = cc
canonical_trans (x ∷ xs) (y ∷ ys) (z ∷ zs) h k = ground (
  arith,
  compare_trans x y z,
  compare_eq_left x y z,
  compare_eq_right x y z,
  canonical_trans xs ys zs,
)

-- Whatever `compare` gives for two names, it gives the opposite sign for them exchanged, and 0
-- exactly if the names have the same types and values of components place by place. For names
-- shorter than 2^31 components.
pub compare-opposite_sign :
    (name other : Name) (o : Ordering)
    → size name < 2 ^ 31
    → size other < 2 ^ 31
    → compare name other ≡ ok o
    → (compare other name ≡ ok (opposite o))
      × ((o ≡ Ordering.eq) ↔ SameComponents (elements name) (elements other))
compare-opposite_sign name other o h k e =
    let given : canonical (elements name) (elements other) ≡ o =
      cc (e, compare-canonical name other h k) in
    (
      compare-canonical other name k h
          ∙ ap (λ (d : Ordering). ok d)
              (canonical-opposite (elements name) (elements other)
                ∙ ap (λ (d : Ordering). opposite d) given),
      (
        (λ same. canonical-eq (elements name) (elements other) (given ∙ same)),
        (λ same. sym given ∙ canonical-same (elements name) (elements other) same),
      ),
    )

-- "Before" in the order of `compare` is transitive. For names shorter than 2^31 components.
pub compare_names_trans :
    (a b c : Name)
    → size a < 2 ^ 31
    → size b < 2 ^ 31
    → size c < 2 ^ 31
    → compare a b ≡ ok Ordering.lt
    → compare b c ≡ ok Ordering.lt
    → compare a c ≡ ok Ordering.lt
compare_names_trans a b c ha hb hc h k =
    let before1 : canonical (elements a) (elements b) ≡ Ordering.lt =
      cc (h, compare-canonical a b ha hb) in
    let before2 : canonical (elements b) (elements c) ≡ Ordering.lt =
      cc (k, compare-canonical b c hb hc) in
    compare-canonical a c ha hc
    ∙ ap (λ (d : Ordering). ok d)
        (canonical_trans (elements a) (elements b) (elements c) before1 before2)

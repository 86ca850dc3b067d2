-- ===== src/Exclude/Order.antt =====
-- exclude.cpp: the operations of the map behind a greater first key, and where that key is not greater.
use ndn_cxx_logging.Base.{
  ℕ, suc, ◌+◌, ◌≡◌, refl, ap, ◌∙◌, Bool, true, false, none, some, List, [], ◌∷◌, ◌++◌,
  if◌then◌else◌, length, get_elem?, arith, All, inl, inr, Bool-cases,
}
use ndn_cxx_logging.Block.{Block}
use ndn_cxx_logging.Component.Order.{gt, equals}
use ndn_cxx_logging.Component.Order.Greater.{gt_trans, gt-le, ge-gt}
use ndn_cxx_logging.Exclude.{Item, lower_bound, insert, mark_any, open_range, close_range}

-- `isExcluded`, on the items.
unfoldable pub excluded : List Item → Block → Bool
excluded m comp = elim (get_elem? m (lower_bound m comp)) [
  | none ↦ false
  | some (key, any) ↦ if any then true else equals key comp
]

-- What excludeRange does to the items.
abbrev pub set_range : List Item → Block → Block → List Item
set_range m from to = close_range (open_range m from).0 (open_range m from).1 to

-- The keys are below `c`.
abbrev pub AllBelow : Block → List Item → Type 0
AllBelow c m = All (λ item. gt c item.0 ≡ true) m

-- The keys descend.
abbrev pub IsDescending : List Item → Type 0
IsDescending [] = Unit
IsDescending ((key, any) ∷ m) = AllBelow key m × IsDescending m

module _ (key : Block) (any : Bool) (m : List Item) (c : Block) where
  pub excluded-greater : gt key c ≡ true → excluded ((key, any) ∷ m) c ≡ excluded m c
  unfolding excluded lower_bound
  excluded-greater h = ground (arith, h)

  pub excluded-here :
      gt key c ≡ false → excluded ((key, any) ∷ m) c ≡ (if any then true else equals key c)
  unfolding excluded lower_bound
  excluded-here h = ground (arith, h)

  pub insert-greater :
      (flag : Bool)
      → gt key c ≡ true
      → insert ((key, any) ∷ m) c flag
        ≡ ((key, any) ∷ (insert m c flag).0, suc (insert m c flag).1, (insert m c flag).2)
  unfolding insert lower_bound
  insert-greater flag h = ground (arith, h)

  pub open_range-greater :
      gt key c ≡ true
      → open_range ((key, any) ∷ m) c ≡ ((key, any) ∷ (open_range m c).0, suc (open_range m c).1)
  unfolding open_range lower_bound mark_any
  open_range-greater h = ground (arith, h, insert-greater true h)

  pub close_range-greater :
      (new_from : ℕ)
      → gt key c ≡ true
      → close_range ((key, any) ∷ m) (suc new_from) c ≡ (key, any) ∷ close_range m new_from c
  unfolding close_range lower_bound
  close_range-greater new_from h = ground (arith, h, insert-greater false h)

-- The first key, if there is one, is not above `c`.
abbrev pub IsAt : Block → List Item → Type 0
IsAt c [] = Unit
IsAt c ((key, any) ∷ m) = gt key c ≡ false

abbrev pub AllAbove : Block → List Item → Type 0
AllAbove c m = All (λ item. gt item.0 c ≡ true) m

-- The items above a component, and the others.
pub split_items :
    (m : List Item) (c : Block)
    → (above : List Item) × (others : List Item) × (m ≡ above ++ others)
      × AllAbove c above
      × IsAt c others
split_items [] c = ([], [], refl, tt, tt)
split_items ((key, any) ∷ m) c = elim (Bool-cases (gt key c)) [
  | inl greater ↦
      let (above, others, e, h, k) = split_items m c in
      ((key, any) ∷ above, others, ap (λ (l : List Item). (key, any) ∷ l) e, (greater, h), k)
  | inr here ↦ ([], (key, any) ∷ m, refl, tt, here)
]

pub excluded-above :
    (above others : List Item) (c : Block)
    → AllAbove c above
    → excluded (above ++ others) c ≡ excluded others c
excluded-above [] others c h = refl
excluded-above ((key, any) ∷ above) others c h =
    excluded-greater key any (above ++ others) c h.0 ∙ excluded-above above others c h.1

-- A range is opened in front of the first key that is not greater.
pub open_range-above :
    (above others : List Item) (from : Block)
    → AllAbove from above
    → open_range (above ++ others) from
      ≡ (above ++ (open_range others from).0, length above + (open_range others from).1)
open_range-above [] others from h = ap (λ (n : ℕ). ((open_range others from).0, n)) (omega arith)
open_range-above ((key, any) ∷ above) others from h =
    rw
      (
        open_range-greater key any (above ++ others) from h.0,
        open_range-above above others from h.1,
      )
      (ap (λ (n : ℕ). ((key, any) ∷ (above ++ (open_range others from).0), n)) (omega arith))

-- The items from the start of the range on.
abbrev pub opened : List Item → Block → List Item
opened [] from = (from, true) ∷ []
opened ((key, true) ∷ m) from = (key, true) ∷ m
opened ((key, false) ∷ m) from =
    if gt from key then (from, true) ∷ (key, false) ∷ m else (key, true) ∷ m

pub open_range-here :
    (m : List Item) (from : Block) → IsAt from m → open_range m from ≡ (opened m from, 0)
unfolding open_range lower_bound insert mark_any
open_range-here [] from h = refl
open_range-here ((key, true) ∷ m) from h = ground (arith, h)
open_range-here ((key, false) ∷ m) from h = ground (arith, h)

-- An opened range excludes everything that is not below its start, and leaves the rest.
pub opened-excluded :
    (m : List Item) (from c : Block)
    → IsAt from m
    → excluded (opened m from) c ≡ (if gt from c then excluded m c else true)
opened-excluded [] from c h =
    ground (arith, excluded-here from true [] c, excluded-greater from true [] c)
opened-excluded ((key, true) ∷ m) from c h =
    ground (
      arith,
      h,
      excluded-here key true m c,
      ge-gt from key c,
      gt-le key from c,
      gt_trans key c from,
    )
opened-excluded ((key, false) ∷ m) from c h = elim (Bool-cases (gt from key)) [
  | inl e ↦ rw e (
      ground (
        arith,
        excluded-here from true ((key, false) ∷ m) c,
        excluded-greater from true ((key, false) ∷ m) c,
      ))
  | inr e ↦ rw e (
      ground (
        arith,
        h,
        excluded-here key true m c,
        excluded-greater key true m c,
        excluded-greater key false m c,
        ge-gt from key c,
        gt-le from key c,
        ge-gt key from c,
      ))
]

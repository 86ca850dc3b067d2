-- ===== src/Exclude.antt =====
-- src/exclude.hpp and exclude.cpp: the components that an Interest excludes.
-- The std::map with std::greater is its items from the greatest key to the smallest one. An iterator
-- into it is the index of its item, and `end()` is the number of items; it stays at its item when
-- another one is inserted.
pub mod Order
pub mod Range
pub mod Meaning
pub mod Operations
pub mod Sorted
pub mod Wire
use ndn_cxx_logging.Base.{
  ℕ, zero, suc, ◌+◌, Bool, true, false, not, ◌&&◌, ◌||◌, Option, none, some, List, [], ◌∷◌, ◌++◌,
  ◌==◌, if◌then◌else◌, length, get_elem?, take, drop, Result, ok, err,
}
use ndn_cxx_logging.Block.{Block, empty_block}
use ndn_cxx_logging.Block.Elements.{reset}
use ndn_cxx_logging.Component.{empty_component}
use ndn_cxx_logging.Component.Order.{gt, ge, equals}

-- A component, and whether the range up to the next greater one is excluded with it.
abbrev pub Item : Type 0
Item = Block × Bool

-- `m_exclude`, and `m_wire`
pub record Exclude : Type 0 where
  pub exclude : List Item
  pub wire : Block

-- Exclude()
abbrev pub empty_exclude : Exclude
empty_exclude = record { exclude = []; wire = empty_block }

-- Exclude::Error
pub data ExcludeError : Type 0 where
  invalid_range : ExcludeError

-- std::map::lower_bound: the first item whose key is not greater.
unfoldable pub lower_bound : List Item → Block → ℕ
lower_bound [] c = 0
lower_bound ((key, any) ∷ m) c = if gt key c then suc (lower_bound m c) else 0

-- `it != end() && it->second`
abbrev pub has_any : List Item → ℕ → Bool
has_any m it = elim (get_elem? m it) [ none ↦ false | some (key, any) ↦ any ]

-- std::map::insert: the items, where the item of the key is, and whether it is a new one.
unfoldable pub insert : List Item → Block → Bool → List Item × ℕ × Bool
unfolding lower_bound
insert m c any =
    let it = lower_bound m c in
    let inserted : List Item × ℕ × Bool = (take it m ++ ((c, any) ∷ drop it m), it, true) in
    elim (get_elem? m it) [
      | none ↦ inserted
      | some (key, old) ↦ if gt c key then inserted else (m, it, false)
    ]

-- `it->second = true`
unfoldable pub mark_any : List Item → ℕ → List Item
mark_any [] it = []
mark_any ((key, any) ∷ m) zero = (key, true) ∷ m
mark_any ((key, any) ∷ m) (suc it) = (key, any) ∷ mark_any m it

-- `m_exclude[name] = any`
unfoldable pub assign : List Item → Block → Bool → List Item
unfolding lower_bound
assign m c any =
    let it = lower_bound m c in
    let inserted = take it m ++ ((c, any) ∷ drop it m) in
    elim (get_elem? m it) [
      | none ↦ inserted
      | some (key, old) ↦ if gt c key then inserted else take it m ++ ((key, any) ∷ drop (suc it) m)
    ]

-- appendExclude: `m_wire` stays.
unfoldable pub append_exclude : Exclude → Block → Bool → Exclude
unfolding assign
append_exclude e name any = record e { exclude = assign e.exclude name any }

unfoldable pub is_excluded : Exclude → Block → Bool
unfolding lower_bound
is_excluded e comp = elim (get_elem? e.exclude (lower_bound e.exclude comp)) [
  | none ↦ false
  | some (key, any) ↦ if any then true else equals key comp
]

unfoldable pub exclude_one : Exclude → Block → Exclude
unfolding is_excluded insert
exclude_one e comp =
    if not (is_excluded e comp)
    then record { exclude = (insert e.exclude comp false).0; wire = reset e.wire }
    else e

-- The start of a range in excludeRange and excludeAfter: the items, and `newFrom`.
unfoldable pub open_range : List Item → Block → List Item × ℕ
unfolding lower_bound insert mark_any
open_range m from =
    let new_from = lower_bound m from in
    let (m1, it, is_new) = insert m from true in
    if has_any m new_from then (m, new_from) else (if is_new then m1 else mark_any m1 it, it)

-- The end of a range in excludeRange, behind `newFrom`: `to` is inserted, or the range that ends there
-- goes on, and everything between is erased. An item that is inserted stands in front of `newFrom`.
unfoldable pub close_range : List Item → ℕ → Block → List Item
unfolding lower_bound insert
close_range m new_from to =
    let new_to = lower_bound m to in
    let (m1, it, is_new) = insert m to false in
    if new_to == new_from || not (has_any m new_to)
    then take (suc it) m1 ++ drop (if is_new then suc new_from else new_from) m1
    else take new_to m ++ drop new_from m

unfoldable pub exclude_range : Exclude → Block → Block → Result ExcludeError Exclude
unfolding open_range close_range
exclude_range e from to =
    let (m, new_from) = open_range e.exclude from in
    if ge from to
    then err invalid_range
    else ok (record { exclude = close_range m new_from to; wire = reset e.wire })

unfoldable pub exclude_before : Exclude → Block → Result ExcludeError Exclude
unfolding exclude_range
exclude_before e to = exclude_range e empty_component to

-- excludeAfter: nothing is erased where `newFrom` is the first item.
unfoldable pub exclude_after : Exclude → Block → Exclude
unfolding open_range
exclude_after e from =
    let (m, new_from) = open_range e.exclude from in
    record { exclude = if new_from == 0 then m else drop new_from m; wire = reset e.wire }

unfoldable pub empty : Exclude → Bool
empty e = length e.exclude == 0

unfoldable pub clear : Exclude → Exclude
clear e = record { exclude = []; wire = reset e.wire }

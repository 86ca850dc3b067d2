-- ===== src/Block/Find.antt =====
-- encoding/block.cpp: get, find, remove, insert and erase on the sub-blocks.
use ndn_cxx_logging.Base.{
  ℕ, suc, ◌≤◌, ◌≡◌, ◌≢◌, ◌⊎◌, inl, inr, refl, ap, false, none, some, List, [], ◌∷◌, ◌++◌, ◌==◌,
  ==_iff, if◌then◌else◌, length, take, drop, arith, ok, err, All, Bool-cases, take-append-drop,
  take-append, drop_behind, length-take,
}
use ndn_cxx_logging.Tlv.{Error}
use ndn_cxx_logging.Block.{Block, node, to_list, of_list, elements, type, has_wire}
use ndn_cxx_logging.Block.Elements.{find_in, find, get, remove_from, remove, insert, erase}
use ndn_cxx_logging.Block.Parse.{to_list-of_list}

-- `e` is the first of `bs` with type `t`.
abbrev IsFirst : ℕ → List Block → Block → Type 0
IsFirst t bs e =
    (before : List Block) × (after : List Block) × (bs ≡ before ++ (e ∷ after))
    × (type e ≡ t)
    × All (λ b. type b ≢ t) before

find_in_cases :
    (t : ℕ) (bs : List Block)
    → ((e : Block) × (find_in t bs ≡ some e) × IsFirst t bs e)
      ⊎ ((find_in t bs ≡ none) × All (λ b. type b ≢ t) bs)
unfolding find_in
find_in_cases t [] = inr (refl, tt)
find_in_cases t (b ∷ bs) = elim (Bool-cases (type b == t)) [
  | inl here ↦ inl (b, rw here refl, ([], bs, refl, (==_iff (type b) t).0 here, tt))
  | inr there ↦
      let other : type b ≢ t = λ e. ground (arith, there, e) in
      elim (find_in_cases t bs) [
        | inl (e, found, (before, after, split, same, none_before)) ↦ inl (
          e,
          rw there found,
          (b ∷ before, after, ap (λ (l : List Block). b ∷ l) split, same, (other, none_before)),
        )
        | inr (absent, all) ↦ inr (rw there absent, (other, all))
      ]
]

-- `get` returns the first sub-block of the type, or throws; it throws exactly when no sub-block has
-- the type.
get_cases :
    (b : Block) (t : ℕ)
    → ((e : Block) × (get b t ≡ ok e) × IsFirst t (elements b) e)
      ⊎ ((get b t ≡ err Error.non_existed_type) × All (λ s. type s ≢ t) (elements b))
unfolding get find
get_cases b t = elim (find_in_cases t (elements b)) [
  | inl (e, found, first) ↦ inl (e, rw (found, get, find), first)
  | inr (absent, all) ↦ inr (rw (absent, get, find), all)
]

find_in-remove_from :
    (t u : ℕ) (bs : List Block)
    → find_in u (remove_from t bs) ≡ (if t == u then none else find_in u bs)
unfolding find_in remove_from
find_in-remove_from t u [] = ground arith
find_in-remove_from t u (b ∷ bs) = ground (arith, find_in-remove_from t u bs)

-- Behind `remove(type)` nothing of the type is found, what `find` gives for any other type is as
-- before, and the block has no wire.
find-remove :
    (b : Block) (t u : ℕ)
    → (find (remove b t) u ≡ (if t == u then none else find b u)) × (has_wire (remove b t) ≡ false)
unfolding find remove
find-remove (node f bs) t u = (rw to_list-of_list (find_in-remove_from t u (to_list bs)), refl)

-- `erase` at the position of an `insert` takes the element out again: the sub-blocks are as before.
-- The `insert` puts the element there and keeps the others in order. For positions up to the end.
erase-insert :
    (b : Block) (pos : ℕ) (e : Block)
    → pos ≤ length (elements b)
    → (elements (erase (insert b pos e) pos) ≡ elements b)
      × (elements (insert b pos e) ≡ take pos (elements b) ++ (e ∷ drop pos (elements b)))
unfolding erase insert
erase-insert (node f bs) pos e h =
    let xs = to_list bs in
    let inserted = take pos xs ++ (e ∷ drop pos xs) in
    let cut : length (take pos xs) ≡ pos = omega (arith, length-take pos xs) in
    (
      rw
          (
            to_list-of_list (
                take pos (to_list (of_list inserted))
                ++ drop (suc pos) (to_list (of_list inserted))),
            to_list-of_list inserted,
            take-append pos (take pos xs) (e ∷ drop pos xs) cut,
          )
          (rw (drop_behind pos (take pos xs) e (drop pos xs) cut) (take-append-drop pos xs)),
      to_list-of_list _,
    )

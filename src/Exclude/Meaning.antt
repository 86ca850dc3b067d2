-- ===== src/Exclude/Meaning.antt =====
-- exclude.cpp: what excludeRange, excludeOne and excludeAfter mean for isExcluded.
use ndn_cxx_logging.Base.{
  ℕ, suc, ◌+◌, ◌≡◌, refl, sym, ap, ◌∙◌, Bool, true, false, ◌&&◌, ◌||◌, List, [], ◌∷◌, ◌++◌, ◌==◌,
  length, arith,
}
use mathlib.Core.Path.{subst}
use ndn_cxx_logging.Block.{Block, type}
use ndn_cxx_logging.Component.Order.{gt}
use ndn_cxx_logging.Component.Order.Greater.{gt-le}
use ndn_cxx_logging.Exclude.{Item, lower_bound, has_any, open_range, close_range}
use ndn_cxx_logging.Exclude.Order.{
  excluded, set_range, excluded-greater, excluded-here, open_range-above, open_range-here, opened,
  close_range-greater, IsAt, AllAbove, split_items,
}
use ndn_cxx_logging.Exclude.Range.{
  closed, close_range-here, opened-IsOpen, is_inside, between, AllTyped, lower_bound-above,
  AllAbove-less, closed-excluded,
}

-- What follows the keys above `to` is what matters.
excluded-behind :
    (above others new : List Item) (from to c : Block)
    → AllAbove to above
    → excluded new c ≡ (excluded others c || between from to c)
    → excluded (above ++ new) c ≡ (excluded (above ++ others) c || between from to c)
excluded-behind [] others new from to c h e = e
excluded-behind ((key, any) ∷ above) others new from to c h e = ground (
  arith,
  excluded-behind above others new from to c,
  excluded-here key any (above ++ new) c,
  excluded-greater key any (above ++ new) c,
  excluded-here key any (above ++ others) c,
  excluded-greater key any (above ++ others) c,
  gt-le key to c,
)

close_range-above :
    (above others : List Item) (new_from : ℕ) (to : Block)
    → AllAbove to above
    → close_range (above ++ others) (length above + new_from) to
      ≡ above ++ close_range others new_from to
close_range-above [] others new_from to h = ap (λ (n : ℕ). close_range others n to) (omega arith)
close_range-above ((key, any) ∷ above) others new_from to h =
    ap (λ (n : ℕ). close_range ((key, any) ∷ (above ++ others)) n to) (omega arith)
    ∙ close_range-greater key any (above ++ others) to (length above + new_from) h.0
    ∙ ap (λ (l : List Item). (key, any) ∷ l) (close_range-above above others new_from to h.1)

pub AllTyped-behind :
    (above others : List Item) (c : Block) → AllTyped c (above ++ others) → AllTyped c others
AllTyped-behind [] others c h = h
AllTyped-behind ((key, any) ∷ above) others c h = AllTyped-behind above others c h.1

has_any-above :
    (above others : List Item) (it : ℕ)
    → has_any (above ++ others) (length above + it) ≡ has_any others it
has_any-above [] others it = ap (λ (n : ℕ). has_any others n) (omega arith)
has_any-above (item ∷ above) others it =
    let shift : suc (length above) + it ≡ suc (length above + it) = omega arith in
    ap (λ (n : ℕ). has_any (item ∷ (above ++ others)) n) shift ∙ has_any-above above others it

==-add : (n a b : ℕ) → (n + a == n + b) ≡ (a == b)
==-add n a b = ground arith

is_inside-above :
    (above others : List Item) (from to : Block)
    → AllAbove from above
    → AllAbove to above
    → is_inside (above ++ others) from to ≡ is_inside others from to
is_inside-above above others from to h k =
    rw
      (
        lower_bound-above above others from h,
        lower_bound-above above others to k,
        has_any-above above others (lower_bound others from),
      )
      (ap (λ (b : Bool). has_any others (lower_bound others from) && b)
        (==-add (length above) (lower_bound others from) (lower_bound others to)))

pub IsAt-front : (above others : List Item) (c : Block) → IsAt c (above ++ others) → IsAt c above
IsAt-front [] others c h = tt
IsAt-front (item ∷ above) others c h = h

pub set_range-parts :
    (above between others : List Item) (from to : Block)
    → gt to from ≡ true
    → AllAbove to above
    → AllAbove from between
    → IsAt from others
    → IsAt to between
    → set_range (above ++ (between ++ others)) from to
      ≡ above ++ closed between (opened others from) to
set_range-parts above between others from to order h k at ends =
    let begun : open_range (above ++ (between ++ others)) from
        ≡ (above ++ (between ++ opened others from), length above + (length between + 0)) =
      rw
        (
          open_range-above above (between ++ others) from (AllAbove-less above to from order h),
          open_range-above between others from k,
          open_range-here others from at,
        )
        refl in
    rw (begun, close_range-above above (between ++ opened others from) (length between + 0) to h)
      (ap (λ (l : List Item). above ++ l)
        (ap (λ (n : ℕ). close_range (between ++ opened others from) n to) (omega arith)
          ∙ close_range-here between (opened others from) to ends
              (opened-IsOpen others from to at order)))

-- The items after excludeRange exclude what they did and, with `from < to`, everything from `from` to `to`,
-- if that range is not within one that they exclude already.
pub set_range-excluded :
    (m : List Item) (from to c : Block)
    → gt to from ≡ true
    → type to ≡ type c
    → AllTyped c m
    → is_inside m from to ≡ false
    → excluded (set_range m from to) c ≡ (excluded m c || between from to c)
set_range-excluded m from to c order typed all_typed outside =
    let (above, lower, split1, h, at1) = split_items m to in
    let (between, others, split2, k, at2) = split_items lower from in
    let split : m ≡ above ++ (between ++ others) =
      split1 ∙ ap (λ (l : List Item). above ++ l) split2 in
    let at : IsAt to (between ++ others) = subst (λ l. IsAt to l) split2 at1 in
    let typed2 : AllTyped c (between ++ others) =
      AllTyped-behind above (between ++ others) c (subst (λ l. AllTyped c l) split all_typed) in
    let outside2 : is_inside (between ++ others) from to ≡ false =
      sym
        (is_inside-above above (between ++ others) from to (AllAbove-less above to from order h) h)
      ∙ sym (ap (λ (l : List Item). is_inside l from to) split)
      ∙ outside in
    rw
      (
        split,
        set_range-parts above between others from to order h k at2
            (IsAt-front between others to at),
      )
      (excluded-behind above (between ++ others) (closed between (opened others from) to) from to c
        h (closed-excluded others from c at2 between to order typed k at typed2 outside2))

-- ===== src/Exclude/Operations.antt =====
-- exclude.cpp: excludeOne, excludeRange and excludeAfter against the components that isExcluded finds.
use ndn_cxx_logging.Base.{
  ℕ, ◌+◌, ◌≡◌, refl, sym, ap, ◌∙◌, Bool, true, false, not, ◌||◌, List, [], ◌∷◌, ◌++◌, ◌==◌,
  if◌then◌else◌, length, drop, arith, inl, inr, Bool-cases, ok, err, drop-append,
}
use mathlib.Core.Path.{subst}
use ndn_cxx_logging.Block.{Block, type}
use ndn_cxx_logging.Block.Elements.{reset}
use ndn_cxx_logging.Component.Order.{gt, equals}
use ndn_cxx_logging.Component.Order.Greater.{
  gt_trans, gt-le, ge-gt, gt_asym, ge-not-gt, equals-neither, equals-greater, equals-less, gt-same,
}
use ndn_cxx_logging.Exclude.{
  Item, Exclude, invalid_range, lower_bound, insert, is_excluded, exclude_range, exclude_one,
  exclude_after,
}
use ndn_cxx_logging.Exclude.Order.{
  excluded, set_range, excluded-greater, excluded-here, open_range-above, open_range-here, opened,
  opened-excluded, insert-greater, IsAt, AllAbove, split_items, excluded-above,
}
use ndn_cxx_logging.Exclude.Range.{AllAbove-less, below-excluded, is_inside, between, AllTyped}
use ndn_cxx_logging.Exclude.Meaning.{set_range-parts, AllTyped-behind, set_range-excluded}

is_excluded-items : (e : Exclude) (c : Block) → is_excluded e c ≡ excluded e.exclude c
unfolding is_excluded excluded
is_excluded-items e c = refl

pub exclude_range-ok :
    (e : Exclude) (from to : Block)
    → gt to from ≡ true
    → exclude_range e from to
      ≡ ok (record { exclude = set_range e.exclude from to; wire = reset e.wire })
unfolding exclude_range
exclude_range-ok e from to order = rw (ge-not-gt from to, order) refl

-- excludeRange with `from < to` succeeds, and a component is excluded then exactly if it was, or is from
-- `from` to `to`. The component, `to` and the keys have one type, and the range is not within one with
-- ANY that the filter has.
pub exclude_range-is_excluded :
    (e : Exclude) (from to c : Block)
    → gt to from ≡ true
    → type to ≡ type c
    → AllTyped c e.exclude
    → is_inside e.exclude from to ≡ false
    → (e2 : Exclude) × (exclude_range e from to ≡ ok e2)
      × (is_excluded e2 c ≡ (is_excluded e c || between from to c))
unfolding is_excluded excluded
exclude_range-is_excluded e from to c order typed all_typed outside = (
  record { exclude = set_range e.exclude from to; wire = reset e.wire },
  exclude_range-ok e from to order,
  set_range-excluded e.exclude from to c order typed all_typed outside,
)

-- A range within one with ANY, from the key `key` on: excludeRange with `from < to` still succeeds, but puts
-- `to` in the middle without ANY, so that a component above `to` and below the next greater key, which was
-- excluded, no longer is. The component and `to` have one type.
pub exclude_range-inside :
    (above others : List Item) (wire key from to c : Block)
    → AllAbove c above
    → gt key from ≡ false
    → gt to from ≡ true
    → gt c to ≡ true
    → type to ≡ type c
    → (e2 : Exclude) × (exclude_range
          (record { exclude = above ++ ((key, true) ∷ others); wire = wire })
          from
          to
        ≡ ok e2)
      × (excluded (above ++ ((key, true) ∷ others)) c ≡ true)
      × (is_excluded e2 c ≡ false)
unfolding is_excluded excluded
exclude_range-inside above others wire key from to c h at order beyond typed =
    let to_above : AllAbove to above = AllAbove-less above c to beyond h in
    let greater : gt to key ≡ true = gt-le to from key order at in
    let after : set_range (above ++ ((key, true) ∷ others)) from to
        ≡ above ++ ((to, false) ∷ (key, true) ∷ others) =
      set_range-parts above [] ((key, true) ∷ others) from to order to_above tt at tt in
    (
      record { exclude = set_range (above ++ ((key, true) ∷ others)) from to; wire = reset wire },
      exclude_range-ok (record { exclude = above ++ ((key, true) ∷ others); wire = wire }) from to
          order,
      excluded-above above ((key, true) ∷ others) c h
          ∙ excluded-here key true others c (gt_asym c key (gt_trans c to key beyond greater)),
      ap (λ (l : List Item). excluded l c) after
          ∙ excluded-above above ((to, false) ∷ (key, true) ∷ others) c h
          ∙ excluded-here to false ((key, true) ∷ others) c (gt_asym c to beyond)
          ∙ equals-less to c typed beyond,
    )

-- A range that is empty, or of one component, is an error.
pub exclude_range-invalid :
    (e : Exclude) (from to : Block)
    → gt to from ≡ false
    → exclude_range e from to ≡ err invalid_range
unfolding exclude_range
exclude_range-invalid e from to order = rw (ge-not-gt from to, order) refl

drop_all :
    (above others : List Item) (n : ℕ)
    → length above ≡ n
    → (if n == 0 then above ++ others else drop n (above ++ others)) ≡ others
drop_all [] others n h = ground (arith, h, drop-append n [] others h)
drop_all (item ∷ above) others n h = ground (arith, drop-append n (item ∷ above) others h)

pub after-opened :
    (m above others : List Item) (from wire : Block)
    → m ≡ above ++ others
    → AllAbove from above
    → IsAt from others
    → (exclude_after (record { exclude = m; wire = wire }) from).exclude ≡ opened others from
unfolding exclude_after
after-opened m above others from wire split h at =
    rw (split, open_range-above above others from h, open_range-here others from at)
      (drop_all above (opened others from) (length above + 0) (omega arith))

after-excluded :
    (above others : List Item) (from c : Block)
    → AllAbove from above
    → IsAt from others
    → excluded (opened others from) c ≡ (excluded (above ++ others) c || not (gt from c))
after-excluded above others from c h at =
    ground (arith, opened-excluded others from c at, below-excluded others from c at above h)

-- After excludeAfter, a component is excluded exactly if it was, or is not below `from`.
pub exclude_after-is_excluded :
    (e : Exclude) (from c : Block)
    → is_excluded (exclude_after e from) c ≡ (is_excluded e c || not (gt from c))
unfolding is_excluded excluded
exclude_after-is_excluded e from c =
    let (above, others, split, h, at) = split_items e.exclude from in
    let after = after-opened e.exclude above others from e.wire split h at in
    ap (λ (l : List Item). excluded l c) after
    ∙ after-excluded above others from c h at
    ∙ ap (λ (l : List Item). excluded l c || not (gt from c)) (sym split)

pub insert-above :
    (above others : List Item) (comp : Block) (any : Bool)
    → AllAbove comp above
    → (insert (above ++ others) comp any).0 ≡ above ++ (insert others comp any).0
insert-above [] others comp any h = refl
insert-above ((key, old) ∷ above) others comp any h =
    ap (λ (r : List Item × ℕ × Bool). r.0) (insert-greater key old (above ++ others) comp any h.0)
    ∙ ap (λ (l : List Item). (key, old) ∷ l) (insert-above above others comp any h.1)

-- A component that is not excluded yet is no key.
pub insert-here :
    (m : List Item) (comp : Block)
    → IsAt comp m
    → excluded m comp ≡ false
    → (insert m comp false).0 ≡ (comp, false) ∷ m
unfolding insert lower_bound
insert-here [] comp h k = refl
insert-here ((key, any) ∷ m) comp h k =
    ground (arith, excluded-here key any m comp, equals-neither key comp)

one-excluded :
    (m : List Item) (comp c : Block)
    → IsAt comp m
    → type comp ≡ type c
    → AllTyped c m
    → excluded m comp ≡ false
    → excluded ((comp, false) ∷ m) c ≡ (excluded m c || equals comp c)
unfolding excluded
one-excluded [] comp c h typed all_typed k =
    ground (
      arith,
      excluded-here comp false [] c,
      excluded-greater comp false [] c,
      equals-greater comp c,
    )
one-excluded ((key, any) ∷ m) comp c h typed all_typed k = ground (
  arith,
  excluded-here key any m comp,
  excluded-here key any m c,
  excluded-here comp false ((key, any) ∷ m) c,
  excluded-greater comp false ((key, any) ∷ m) c,
  equals-greater comp c,
  equals-neither key comp,
  equals-less key c,
  ge-gt c comp key,
  gt_asym c key,
)

-- Keys above `comp` are in front.
one-behind :
    (above others : List Item) (comp c : Block)
    → AllAbove comp above
    → type comp ≡ type c
    → excluded ((comp, false) ∷ others) c ≡ (excluded others c || equals comp c)
    → excluded (above ++ ((comp, false) ∷ others)) c
      ≡ (excluded (above ++ others) c || equals comp c)
one-behind [] others comp c h typed e = e
one-behind ((key, any) ∷ above) others comp c h typed e = ground (
  arith,
  one-behind above others comp c,
  excluded-here key any (above ++ ((comp, false) ∷ others)) c,
  excluded-greater key any (above ++ ((comp, false) ∷ others)) c,
  excluded-here key any (above ++ others) c,
  excluded-greater key any (above ++ others) c,
  ge-gt c key comp,
  equals-less comp c,
)

one-items :
    (m : List Item) (comp c : Block)
    → type comp ≡ type c
    → AllTyped c m
    → excluded m comp ≡ false
    → excluded (insert m comp false).0 c ≡ (excluded m c || equals comp c)
one-items m comp c typed all_typed k =
    let (above, others, split, h, at) = split_items m comp in
    let k2 : excluded others comp ≡ false =
      sym (excluded-above above others comp h)
      ∙ sym (ap (λ (l : List Item). excluded l comp) split)
      ∙ k in
    let typed2 : AllTyped c others =
      AllTyped-behind above others c (subst (λ l. AllTyped c l) split all_typed) in
    rw (split, insert-above above others comp false h, insert-here others comp at k2)
      (one-behind above others comp c h typed (one-excluded others comp c at typed typed2 k2))

excluded-same :
    (m : List Item) (a b : Block)
    → type a ≡ type b
    → equals a b ≡ true
    → excluded m a ≡ excluded m b
unfolding excluded
excluded-same [] a b typed same = refl
excluded-same ((key, any) ∷ m) a b typed same =
    let (same_gt, same_equals) = gt-same key a b typed same in
    ground (
      arith,
      excluded-same m a b typed same,
      excluded-here key any m a,
      excluded-here key any m b,
      excluded-greater key any m a,
      excluded-greater key any m b,
    )

or_absorb : (a b : Bool) → (b ≡ true → a ≡ true) → a ≡ (a || b)
or_absorb a b h = ground arith

-- After excludeOne, a component is excluded exactly if it was, or equals the new one. The components and the
-- keys have one type.
pub exclude_one-is_excluded :
    (e : Exclude) (comp c : Block)
    → type comp ≡ type c
    → AllTyped c e.exclude
    → is_excluded (exclude_one e comp) c ≡ (is_excluded e c || equals comp c)
unfolding is_excluded excluded exclude_one
exclude_one-is_excluded e comp c typed all_typed = elim (Bool-cases (is_excluded e comp)) [
  | inl already ↦ rw already (
      or_absorb (is_excluded e c) (equals comp c)
        (λ same. sym (excluded-same e.exclude comp c typed same) ∙ already))
  | inr new ↦ rw new (one-items e.exclude comp c typed all_typed new)
]

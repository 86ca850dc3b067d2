-- ===== src/Exclude/Range.antt =====
-- exclude.cpp: the end of a range that excludeRange opened.
use ndn_cxx_logging.Base.{
  ◌+◌, ◌≡◌, refl, sym, ap, ◌∙◌, Bool, true, false, not, ◌&&◌, ◌||◌, List, [], ◌∷◌, ◌++◌, ◌==◌,
  if◌then◌else◌, length, arith, All, inl, inr, Bool-cases, drop-append,
}
use ndn_cxx_logging.Block.{Block, type}
use ndn_cxx_logging.Component.Order.{gt}
use ndn_cxx_logging.Component.Order.Greater.{gt_trans, gt-le, gt_asym, equals-neither, equals-less}
use ndn_cxx_logging.Exclude.{Item, lower_bound, has_any, insert, close_range}
use ndn_cxx_logging.Exclude.Order.{
  excluded, excluded-greater, excluded-here, opened, opened-excluded, IsAt, AllAbove,
  excluded-above,
}

-- The items up to the end of a range, whose start is the first item of `rest`.
abbrev pub closed : List Item → List Item → Block → List Item
closed [] rest to = (to, false) ∷ rest
closed ((key, true) ∷ between) rest to = rest
closed ((key, false) ∷ between) rest to = (if gt to key then to else key, false) ∷ rest

-- `rest` starts with a range that begins below `to`.
abbrev pub IsOpen : List Item → Block → Type 0
IsOpen [] to = ⊥
IsOpen ((key, any) ∷ rest) to = (any ≡ true) × (gt to key ≡ true)

pub close_range-here :
    (between rest : List Item) (to : Block)
    → IsAt to between
    → IsOpen rest to
    → close_range (between ++ rest) (length between) to ≡ closed between rest to
unfolding close_range lower_bound insert
close_range-here [] [] to h k = absurd k
close_range-here [] ((key, any) ∷ rest) to h k = ground (arith, gt_asym to key)
close_range-here ((key, true) ∷ between) rest to h k =
    ground (arith, h, drop-append (length between) between rest refl)
close_range-here ((key, false) ∷ between) rest to h k =
    ground (arith, h, drop-append (length between) between rest refl)

pub opened-IsOpen :
    (m : List Item) (from to : Block) → IsAt from m → gt to from ≡ true → IsOpen (opened m from) to
opened-IsOpen [] from to h k = (refl, k)
opened-IsOpen ((key, true) ∷ m) from to h k = (refl, gt-le to from key k h)
opened-IsOpen ((key, false) ∷ m) from to h k = elim (Bool-cases (gt from key)) [
  | inl e ↦ rw e (refl, k)
  | inr e ↦ rw e (refl, gt-le to from key k h)
]

-- The range is within one that is excluded already.
abbrev pub is_inside : List Item → Block → Block → Bool
is_inside m from to = has_any m (lower_bound m from) && (lower_bound m from == lower_bound m to)

-- The components from `from` to `to`
abbrev pub between : Block → Block → Block → Bool
between from to c = not (gt from c) && not (gt c to)

abbrev pub AllTyped : Block → List Item → Type 0
AllTyped c m = All (λ item. type item.0 ≡ type c) m

pub lower_bound-above :
    (above others : List Item) (c : Block)
    → AllAbove c above
    → lower_bound (above ++ others) c ≡ length above + lower_bound others c
unfolding lower_bound
lower_bound-above [] others c h = omega arith
lower_bound-above ((key, any) ∷ above) others c h =
    rw (lower_bound, h.0, lower_bound-above above others c h.1) (omega arith)

-- A component above the first key, without a range from there on
excluded-beyond :
    (m : List Item) (from to c : Block)
    → IsAt from m
    → gt to from ≡ true
    → gt c to ≡ true
    → AllTyped c m
    → has_any m 0 ≡ false
    → excluded m c ≡ false
unfolding excluded
excluded-beyond [] from to c h order beyond t any = refl
excluded-beyond ((key, true) ∷ m) from to c h order beyond t any = cc
excluded-beyond ((key, false) ∷ m) from to c h order beyond t any =
    let above : gt c key ≡ true = gt-le c from key (gt_trans c to from beyond order) h in
    ground (arith, excluded-here key false m c, gt_asym c key, equals-less key c)

lower_bound-here : (m : List Item) (c : Block) → IsAt c m → lower_bound m c ≡ 0
unfolding lower_bound
lower_bound-here [] c h = refl
lower_bound-here ((key, any) ∷ m) c h = rw h refl

pub AllAbove-less :
    (above : List Item) (from c : Block) → gt from c ≡ true → AllAbove from above → AllAbove c above
AllAbove-less [] from c h k = tt
AllAbove-less ((key, any) ∷ above) from c h k =
    (gt_trans key from c k.0 h, AllAbove-less above from c h k.1)

-- The start of the range is among the items `others`.
module _ (others : List Item) (from c : Block) (at : IsAt from others) where
  -- In front of the opened range stands its end.
  ended-excluded :
      (end : Block) (before : Bool)
      → gt end from ≡ true
      → type end ≡ type c
      → (gt from c ≡ true → before ≡ excluded others c)
      → (gt c end ≡ true → before ≡ false)
      → excluded ((end, false) ∷ opened others from) c ≡ (before || between from end c)
  ended-excluded end before order typed below beyond = ground (
    arith,
    opened-excluded others from c at,
    excluded-here end false (opened others from) c,
    excluded-greater end false (opened others from) c,
    equals-neither end c,
    equals-less end c,
    gt_asym end c,
    gt_asym from c,
    gt_trans end from c,
  )

  -- The component is below the range.
  pub below-excluded :
      (above : List Item)
      → AllAbove from above
      → gt from c ≡ true
      → excluded (above ++ others) c ≡ excluded others c
  below-excluded above h below = excluded-above above others c (AllAbove-less above from c below h)

  pub closed-excluded :
      (above : List Item) (to : Block)
      → gt to from ≡ true
      → type to ≡ type c
      → AllAbove from above
      → IsAt to (above ++ others)
      → AllTyped c (above ++ others)
      → is_inside (above ++ others) from to ≡ false
      → excluded (closed above (opened others from) to) c
        ≡ (excluded (above ++ others) c || between from to c)
  closed-excluded [] to order typed h k t outside =
      let outside2 : has_any others 0 ≡ false =
        ground (arith, lower_bound-here others from at, lower_bound-here others to k) in
      ended-excluded to (excluded others c) order typed (λ below. refl)
        (λ beyond. excluded-beyond others from to c at order beyond t outside2)
  closed-excluded ((key, true) ∷ above) to order typed h k t outside = ground (
    arith,
    opened-excluded others from c at,
    below-excluded ((key, true) ∷ above) h,
    excluded-here key true (above ++ others) c,
    gt-le c to key,
    gt_asym c key,
    gt_asym from c,
    gt_trans c to from,
  )
  closed-excluded ((key, false) ∷ above) to order typed h k t outside =
      let before = excluded ((key, false) ∷ (above ++ others)) c in
      let beyond : gt c to ≡ true → before ≡ false = λ greater. ground (
        arith,
        excluded-here key false (above ++ others) c,
        gt-le c to key,
        gt_asym c key,
        equals-less key c,
      ) in
      elim (Bool-cases (gt to key)) [
        | inl e ↦
            rw e (
              ended-excluded to before order typed (below-excluded ((key, false) ∷ above) h) beyond)
        | inr e ↦
            let same : gt c key ≡ gt c to = ground (arith, gt-le c key to, gt-le c to key) in
            let ended : excluded ((key, false) ∷ opened others from) c
                ≡ (before || between from key c) =
              ended-excluded key before h.0 t.0 (below-excluded ((key, false) ∷ above) h)
                (λ greater. beyond (sym same ∙ greater)) in
            rw e (ended ∙ ap (λ (b : Bool). before || (not (gt from c) && not b)) same)
      ]

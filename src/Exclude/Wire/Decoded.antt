-- ===== src/Exclude/Wire/Decoded.antt =====
-- exclude.cpp: wireDecode on the elements that wireEncode writes.
use ndn_cxx_logging.Base.{
  ok, ℕ, ◌+◌, ◌≤◌, ◌≡◌, ◌⊎◌, inl, inr, refl, ap, ◌∙◌, Bool, true, false, not, List, [], ◌∷◌, ◌++◌,
  map, length, arith, ◌==◌, All, Bool-cases, nil_of_length,
}
use mathlib.Core.List.{append-nil}
use mathlib.Core.Path.{subst}
use ndn_cxx_logging.Block.{Block, type, value, value_size}
use ndn_cxx_logging.Block.Elements.{returned}
use ndn_cxx_logging.Block.Rows.{Element, sub_block}
use ndn_cxx_logging.Component.{name_component, of_block, empty_component}
use ndn_cxx_logging.Component.Order.{gt, compare}
use ndn_cxx_logging.Component.Order.Greater.{gt_asym}
use ndn_cxx_logging.Encoding.Elements.{element}
use ndn_cxx_logging.Exclude.{Item, Exclude, assign, append_exclude, lower_bound}
use ndn_cxx_logging.Exclude.Order.{IsDescending, AllBelow, AllAbove}
use ndn_cxx_logging.Exclude.Sorted.{IsDescending-front, IsDescending-above}
use ndn_cxx_logging.Exclude.Wire.{any_type, is_written, decode_items, decode_elements}
use ndn_cxx_logging.Exclude.Wire.Written.{
  item_parts, parts_onto, parts, IsKey, IsGeneric, IsWritable,
}

-- The first key, if there is one, is below `c`.
abbrev pub Above : Block → List Item → Type 0
Above c [] = Unit
Above c ((key, any) ∷ m) = gt c key ≡ true

-- A greater key comes in front.
assign-front : (m : List Item) (c : Block) (any : Bool) → Above c m → assign m c any ≡ (c, any) ∷ m
unfolding assign lower_bound
assign-front [] c any h = refl
assign-front ((key, old) ∷ m) c any h = ground (arith, h, gt_asym c key)

abbrev NotAny : List Element → Type 0
NotAny [] = Unit
NotAny ((t, v) ∷ es) = (t == any_type) ≡ false

abbrev AllWritten : List Item → Type 0
AllWritten m = All (λ item. is_written item ≡ true) m

key-not_any : (key : Block) (any : Bool) → IsKey (key, any) → (type key == any_type) ≡ false
key-not_any key any (inl generic, size) = rw generic refl
key-not_any key any (inr (digest, digest_size), size) = rw digest refl

module _ (buffer : List ℕ) where
  -- The item that an item comes back as
  abbrev pub decoded : Item → Item
  decoded (key, any) = (sub_block buffer (element key), any)

  gt-decoded :
      (a b : Block) → gt (sub_block buffer (element a)) (sub_block buffer (element b)) ≡ gt a b
  unfolding gt compare
  gt-decoded a b = refl

  of_block-key :
      (key : Block) (any : Bool)
      → IsKey (key, any)
      → of_block (sub_block buffer (element key)) ≡ ok (sub_block buffer (element key))
  unfolding of_block
  of_block-key key any (inl generic, size) = rw generic refl
  of_block-key key any (inr (digest, digest_size), size) = rw (digest, digest_size) refl

  key_step :
      (e : Exclude) (es : List Element) (key : Block) (any : Bool)
      → IsKey (key, any)
      → is_written (key, any) ≡ true
      → NotAny es
      → decode_items e (map (sub_block buffer) (item_parts (key, any) ++ es))
        ≡ decode_items
            (append_exclude e (sub_block buffer (element key)) any)
            (map (sub_block buffer) es)
  unfolding decode_items
  key_step e es key true good there h = rw (there, decode_items, of_block-key key true good) refl
  key_step e [] key false good there h = rw (there, decode_items, of_block-key key false good) refl
  key_step e ((t, v) ∷ es) key false good there h =
      rw (there, decode_items, of_block-key key false good, h) refl

  -- The items are assigned from the smallest key on, in front of those that are there.
  items_step :
      (m base : List Item) (es : List Element) (wire : Block)
      → All IsKey m
      → AllWritten m
      → IsDescending m
      → All (λ item. Above (sub_block buffer (element item.0)) base) m
      → NotAny es
      → decode_items
          (record { exclude = base; wire = wire })
          (map (sub_block buffer) (parts_onto es m))
        ≡ decode_items
            (record { exclude = map decoded m ++ base; wire = wire })
            (map (sub_block buffer) es)
  unfolding append_exclude
  items_step [] base es wire good there sorted above h = refl
  items_step ((key, any) ∷ m) base es wire good there sorted above h =
      let in_front : Above (sub_block buffer (element key)) (map decoded m ++ base) =
        front m sorted.0 above.0 in
      let item_first : NotAny (item_parts (key, any) ++ es) =
        rw there.0 (key-not_any key any good.0) in
      items_step m base (item_parts (key, any) ++ es) wire good.1 there.1 sorted.1 above.1
        item_first
      ∙ key_step (record { exclude = map decoded m ++ base; wire = wire }) es key any good.0 there.0
          h
      ∙ ap
          (λ (l : List Item).
            decode_items (record { exclude = l; wire = wire }) (map (sub_block buffer) es))
          (assign-front (map decoded m ++ base) (sub_block buffer (element key)) any in_front)
    where
      front :
          (l : List Item)
          → AllBelow key l
          → Above (sub_block buffer (element key)) base
          → Above (sub_block buffer (element key)) (map decoded l ++ base)
      front [] below k = k
      front ((other, flag) ∷ l) below k = gt-decoded key other ∙ below.0

-- A component without bytes is the smallest one.
empty_least :
    (key other : Block)
    → type key ≡ name_component
    → value_size key ≡ 0
    → type other ≡ name_component
    → gt key other ≡ false
unfolding gt compare
empty_least key other h k l = ground arith

last_alone :
    (key : Block) (any : Bool) (m : List Item)
    → All IsGeneric ((key, any) ∷ m)
    → AllBelow key m
    → is_written (key, any) ≡ false
    → ((key, any) ∷ m) ≡ ((key, true) ∷ [])
last_alone key true [] good below absent = refl
last_alone key false [] good below absent = absurd (ground arith)
last_alone key any ((other, flag) ∷ m) good below absent =
    absurd (ground (arith, empty_least key other, below.0, good.0, good.1.0))

-- Only the last item, of the empty component with Any, may be written without its component.
written_cases :
    (m : List Item)
    → All IsGeneric m
    → IsDescending m
    → AllWritten m
      ⊎ ((front : List Item) × (key : Block) × (m ≡ front ++ ((key, true) ∷ []))
          × (value_size key ≡ 0)
          × AllWritten front
          × (type key ≡ name_component))
written_cases [] good sorted = inl tt
written_cases ((key, any) ∷ m) good sorted = elim (Bool-cases (is_written (key, any))) [
  | inl there ↦ elim (written_cases m good.1 sorted.1) [
    | inl all ↦ inl (there, all)
    | inr (front, last, split, none, all, generic) ↦ inr (
      (key, any) ∷ front,
      last,
      ap (λ (l : List Item). (key, any) ∷ l) split,
      none,
      (there, all),
      generic,
    )
  ]
  | inr absent ↦ inr ([], key, last_alone key any m good sorted.0 absent, ground arith, tt, good.0)
]

parts_onto-append :
    (m : List Item) (es : List Element) (item : Item)
    → parts_onto es (m ++ (item ∷ [])) ≡ item_parts item ++ parts_onto es m
parts_onto-append [] es item = refl
parts_onto-append (first ∷ m) es item = parts_onto-append m (item_parts first ++ es) item

-- The first element is a component.
parts_onto-NotAny :
    (m : List Item) (es : List Element)
    → All IsKey m
    → AllWritten m
    → NotAny es
    → NotAny (parts_onto es m)
parts_onto-NotAny [] es good there h = h
parts_onto-NotAny ((key, any) ∷ m) es good there h =
    let item_first : NotAny (item_parts (key, any) ++ es) =
      rw there.0 (key-not_any key any good.0) in
    parts_onto-NotAny m (item_parts (key, any) ++ es) good.1 there.1 item_first

-- What an item is, apart from the buffers
abbrev pub shown : Item → Element × Bool
shown (key, any) = (element key, any)

map-shown : (buffer : List ℕ) (m : List Item) → map shown (map (decoded buffer) m) ≡ map shown m
map-shown buffer [] = refl
map-shown buffer (item ∷ m) =
    ap (λ (l : List (Element × Bool)). shown item ∷ l) (map-shown buffer m)

parts_onto-length :
    (m : List Item) (es : List Element)
    → AllWritten m
    → 1 ≤ length es + length m
    → 1 ≤ length (parts_onto es m)
parts_onto-length [] es there h = omega arith
parts_onto-length ((key, any) ∷ m) es there h =
    let item_first : 1 ≤ length (item_parts (key, any) ++ es) + length m =
      rw there.0 (omega arith) in
    parts_onto-length m (item_parts (key, any) ++ es) there.1 item_first

without_any :
    (buffer : List ℕ) (e : Exclude) (es : List Element)
    → NotAny es
    → 1 ≤ length es
    → decode_elements e (map (sub_block buffer) es) ≡ decode_items e (map (sub_block buffer) es)
unfolding decode_elements
without_any buffer e [] h k = absurd (omega arith)
without_any buffer e ((t, v) ∷ es) h k = rw h refl

AllBelow-none :
    (buffer : List ℕ) (m : List Item) → All (λ item. Above (sub_block buffer (element item.0)) []) m
AllBelow-none buffer [] = tt
AllBelow-none buffer (item ∷ m) = (tt, AllBelow-none buffer m)

-- Every item is written with its component.
all_written :
    (buffer : List ℕ) (m : List Item) (wire : Block)
    → All IsKey m
    → IsDescending m
    → AllWritten m
    → 1 ≤ length m
    → decode_elements (record { exclude = []; wire = wire }) (map (sub_block buffer) (parts m))
      ≡ (record { exclude = map (decoded buffer) m ++ []; wire = wire }, returned)
unfolding decode_items
all_written buffer m wire good sorted all there =
    without_any buffer (record { exclude = []; wire = wire }) (parts m)
      (parts_onto-NotAny m [] good all tt) (parts_onto-length m [] all (omega arith))
    ∙ items_step buffer m [] [] wire good all sorted (AllBelow-none buffer m) tt

-- The smallest item is Any alone.
module _ (buffer : List ℕ) (key : Block) (generic : type key ≡ name_component)
    (nothing_there : value key ≡ []) where
  gt-empty_component : (c : Block) → gt (sub_block buffer (element c)) empty_component ≡ gt c key
  unfolding gt compare
  gt-empty_component c = rw (gt, compare, generic, nothing_there) refl

  front-Above :
      (front : List Item)
      → AllAbove key front
      → All (λ item. Above (sub_block buffer (element item.0)) ((empty_component, true) ∷ [])) front
  front-Above [] h = tt
  front-Above (item ∷ front) h = (gt-empty_component item.0 ∙ h.0, front-Above front h.1)

  last_shown :
      (front : List Item)
      → map shown (map (decoded buffer) front ++ ((empty_component, true) ∷ []))
        ≡ map shown (front ++ ((key, true) ∷ []))
  last_shown [] = rw (generic, nothing_there) refl
  last_shown (item ∷ front) = ap (λ (l : List (Element × Bool)). shown item ∷ l) (last_shown front)

  any_first :
      (front : List Item) (wire : Block)
      → All IsKey front
      → IsDescending front
      → AllWritten front
      → AllAbove key front
      → decode_elements
          (record { exclude = []; wire = wire })
          (map (sub_block buffer) (parts (front ++ ((key, true) ∷ []))))
        ≡ (
          record {
            exclude = map (decoded buffer) front ++ ((empty_component, true) ∷ []);
            wire = wire;
          },
          returned,
        )
  unfolding decode_items decode_elements append_exclude assign lower_bound
  any_first front wire good sorted all above =
      let any_element : item_parts (key, true) ≡ (any_type, []) ∷ [] = rw nothing_there refl in
      let es : parts (front ++ ((key, true) ∷ [])) ≡ (any_type, []) ∷ parts front =
        parts_onto-append front [] (key, true)
        ∙ ap (λ (l : List Element). l ++ parts front) any_element in
      rw es (
        items_step buffer front ((empty_component, true) ∷ []) [] wire good all sorted
          (front-Above front above) tt)

All-front :
    (front others : List Item) → All IsKey (front ++ others) → All IsKey front × All IsKey others
All-front [] others h = (tt, h)
All-front (item ∷ front) others h =
    let (before, behind) = All-front front others h.1 in ((h.0, before), behind)

pub decode_elements-parts :
    (buffer : List ℕ) (m : List Item) (wire : Block)
    → All IsKey m
    → IsDescending m
    → (not (length m == 0) ≡ true)
    → IsWritable m
    → (e2 : Exclude) × (decode_elements
          (record { exclude = []; wire = wire })
          (map (sub_block buffer) (parts m))
        ≡ (e2, returned))
      × (map shown e2.exclude ≡ map shown m)
unfolding decode_elements decode_items
decode_elements-parts buffer m wire good sorted there writable = elim (cases writable) [
  | inl all ↦ (
    record { exclude = map (decoded buffer) m ++ []; wire = wire },
    all_written buffer m wire good sorted all (ground arith),
    rw append-nil (map-shown buffer m),
  )
  | inr (front, key, split, none, all, generic_last) ↦
      let nothing_there : value key ≡ [] = nil_of_length (value key) (ground arith) in
      let sorted2 = subst (λ l. IsDescending l) split sorted in
      let (good_front, good_last) =
        All-front front ((key, true) ∷ []) (subst (λ l. All IsKey l) split good) in
      (
        record {
          exclude = map (decoded buffer) front ++ ((empty_component, true) ∷ []);
          wire = wire;
        },
        rw split (
            any_first buffer key generic_last nothing_there front wire good_front
              (IsDescending-front front ((key, true) ∷ []) sorted2).0 all
              (IsDescending-above front key true [] sorted2)),
        rw split (last_shown buffer key generic_last nothing_there front),
      )
]
  where
    cases :
        IsWritable m
        → AllWritten m
          ⊎ ((front : List Item) × (key : Block) × (m ≡ front ++ ((key, true) ∷ []))
              × (value_size key ≡ 0)
              × AllWritten front
              × (type key ≡ name_component))
    cases (inl all) = inl all
    cases (inr generic) = written_cases m generic sorted

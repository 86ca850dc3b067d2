-- ===== src/Name/SubName.antt =====
-- name.cpp: the components of sub-names and prefixes.
use ndn_cxx_logging.Base.{
  ℕ, zero, suc, ◌+◌, ◌-◌, ◌%◌, ◌^◌, ◌≤◌, ◌<◌, ◌≡◌, refl, sym, ap, ◌∙◌, ℤ, pos, negsuc, min, some,
  List, [], ◌∷◌, ◌++◌, leb, ltb, ◌==◌, ◌||◌, true, length-drop, if◌then◌else◌, length, get_elem?,
  take, drop, slice, arith, ok, take_all, inl, inr, Bool-cases,
}
use ndn_cxx_logging.Block.{Block, Fields, node, of_list, fields, elements}
use ndn_cxx_logging.Block.Elements.{push_back, no_wire}
use ndn_cxx_logging.Block.Parse.{to_list-of_list}
use ndn_cxx_logging.Name.{
  Name, empty_name, size, get, at, append, append_range, start_component, get_sub_name, get_prefix,
  npos,
}
use mathlib.Core.List.{append_assoc, append-nil}

-- The element at a position, in front of what is behind it.
get_elem?-drop {ℓ} :
    {A : Type ℓ} (i : ℕ) (xs : List A)
    → i < length xs
    → (x : A) × (get_elem? xs i ≡ some x) × (drop i xs ≡ x ∷ drop (suc i) xs)
get_elem?-drop i [] h = absurd (omega arith)
get_elem?-drop zero (x ∷ xs) h = (x, refl, refl)
get_elem?-drop (suc i) (x ∷ xs) h = get_elem?-drop i xs (omega arith)

-- `at` inside the bounds.
pub at-drop :
    (name : Name) (i : ℕ)
    → i < size name
    → (c : Block) × (at name (pos i) ≡ ok c)
      × (drop i (elements name) ≡ c ∷ drop (suc i) (elements name))
unfolding at get
at-drop name i h =
    let (c, found, cut) = get_elem?-drop i (elements name) h in (c, ground (arith, found), cut)

-- The loop does not throw, and appends the components in order.
append_range-elements :
    (count i : ℕ) (name : Name) (f : Fields) (front : List Block)
    → no_wire f ≡ f
    → i + count ≤ size name
    → append_range count name i (node f (of_list front))
      ≡ ok (node f (of_list (front ++ take count (drop i (elements name)))))
unfolding append_range
append_range-elements zero i name f front hf h = rw append-nil refl
append_range-elements (suc count) i name f front hf h =
    let (c, found, cut) = at-drop name i (omega arith) in
    let pushed : append (node f (of_list front)) c ≡ node f (of_list (front ++ (c ∷ []))) =
      unfold append push_back in rw (hf, to_list-of_list front) refl in
    rw (found, pushed, cut)
      (append_range-elements count (suc i) name f (front ++ (c ∷ [])) hf (omega arith)
        ∙ rw (append_assoc front (c ∷ []) (take count (drop (suc i) (elements name)))) refl)

-- A name of components, without a wire.
abbrev pub name_of : List Block → Name
name_of components = node (fields empty_name) (of_list components)

range_of_empty :
    (count start : ℕ) (name : Name)
    → start + count ≤ size name
    → append_range count name start empty_name
      ≡ ok (name_of (take count (drop start (elements name))))
range_of_empty count start name h =
    append_range-elements count start name (fields empty_name) [] refl h

-- The first component of a sub-name: one from the end where the number is negative, and the first
-- of all if that is out of bounds.
abbrev pub first_component : Name → ℤ → ℕ
first_component name (pos i) = i
first_component name (negsuc i) = size name - suc i

-- A number of 64 bits with a sign.
abbrev pub IsSsize : ℤ → Type 0
IsSsize (pos i) = i < 2 ^ 63
IsSsize (negsuc i) = i < 2 ^ 63

start_component_lem :
    (name : Name) (i : ℤ)
    → size name < 2 ^ 63
    → IsSsize i
    → start_component name i ≡ first_component name i
unfolding start_component
start_component_lem name (pos i) h k = refl
start_component_lem name (negsuc i) h k = ground arith

-- The position behind the last component of a sub-name.
abbrev last_component : Name → ℕ → ℕ → ℕ
last_component name first n_components =
    if n_components == npos then size name else min (size name) ((first + n_components) % 2 ^ 64)

last_component-le : (name : Name) (first n : ℕ) → last_component name first n ≤ size name
last_component-le name first n = ground arith

sub_range :
    (name : Name) (first last : ℕ)
    → last ≤ size name
    → append_range (last - first) name first empty_name
      ≡ ok (name_of (slice first last (elements name)))
sub_range name first last h = elim (Bool-cases (leb first last)) [
  | inl within ↦ range_of_empty (last - first) first name (ground arith)
  | inr behind ↦
      let none_left : last - first ≡ 0 = ground arith in rw none_left (unfold append_range in refl)
]

-- The loop of `getSubName`, between the two positions that it computes
sub_name_slice :
    (name : Name) (i : ℤ) (n : ℕ)
    → size name < 2 ^ 63
    → IsSsize i
    → get_sub_name name i n
      ≡ ok (
          name_of (
            slice
              (first_component name i)
              (last_component name (first_component name i) n)
              (elements name)))
unfolding get_sub_name
sub_name_slice name i n h k = rw (start_component_lem name i h k) (
    sub_range name (first_component name i) (last_component name (first_component name i) n)
      (last_component-le name (first_component name i) n))

take_enough {ℓ} : {A : Type ℓ} (n : ℕ) (xs : List A) → length xs ≤ n → take n xs ≡ xs
take_enough zero [] h = refl
take_enough zero (x ∷ xs) h = absurd (omega arith)
take_enough (suc n) [] h = refl
take_enough (suc n) (x ∷ xs) h = ap (λ t. x ∷ t) (take_enough n xs (omega arith))

take-min {ℓ} : {A : Type ℓ} (n : ℕ) (xs : List A) → take (min (length xs) n) xs ≡ take n xs
take-min n xs = elim (Bool-cases (leb n (length xs))) [
  | inl short ↦ ap (λ (k : ℕ). take k xs) (ground arith)
  | inr long ↦
      let all : min (length xs) n ≡ length xs = ground arith in
      rw all (take_all xs ∙ sym (take_enough n xs (ground arith)))
]

-- A range that ends behind a number of components, or with the last one
slice_enough :
    (name : Name) (first n : ℕ)
    → slice first (min (size name) (first + n)) (elements name)
      ≡ take n (drop first (elements name))
slice_enough name first n =
    let left : min (size name) (first + n) - first ≡ min (length (drop first (elements name))) n =
      ground (arith, length-drop first (elements name)) in
    rw left (take-min n (drop first (elements name)))

-- The components of a sub-name: as many as there are from the first position on, and none where the sum of
-- position and number does not fit into 64 bits.
abbrev pub sub_components : Name → ℕ → ℕ → List Block
sub_components name first n =
    if (n == npos) || ltb (first + n) (2 ^ 64) then take n (drop first (elements name)) else []

slice-sub_components :
    (name : Name) (first n : ℕ)
    → size name < 2 ^ 63
    → first < 2 ^ 63
    → n < 2 ^ 64
    → slice first (last_component name first n) (elements name) ≡ sub_components name first n
slice-sub_components name first n h k l = elim (Bool-cases (n == npos)) [
  | inl all ↦
      let end : size name ≡ min (size name) (first + n) = ground arith in
      rw all (ap (λ (m : ℕ). slice first m (elements name)) end ∙ slice_enough name first n)
  | inr counted ↦ elim (Bool-cases (ltb (first + n) (2 ^ 64))) [
    | inl fits ↦
        let sum : (first + n) % 2 ^ 64 ≡ first + n = ground arith in
        rw (counted, fits, sum) (slice_enough name first n)
    | inr wraps ↦
        let none_left : min (size name) ((first + n) % 2 ^ 64) - first ≡ 0 = ground arith in
        rw (counted, wraps, none_left) refl
  ]
]

first_component-lt :
    (name : Name) (i : ℤ) → size name < 2 ^ 63 → IsSsize i → first_component name i < 2 ^ 63
first_component-lt name (pos i) h k = k
first_component-lt name (negsuc i) h k = omega arith

-- `getSubName` does not throw. It gives as many components as it is asked for from the first position
-- on, or all that there are until the end, in a name without a wire; a negative position counts from the
-- end and stops at the first component. But where the first position and a number other than npos have a
-- sum of 2^64 or more, the name is empty. For names shorter than 2^63 components, positions that are
-- no further than 2^63 from zero, and numbers of 64 bits.
pub get_sub_name_lem :
    (name : Name) (i : ℤ) (n : ℕ)
    → size name < 2 ^ 63
    → IsSsize i
    → n < 2 ^ 64
    → get_sub_name name i n ≡ ok (name_of (sub_components name (first_component name i) n))
get_sub_name_lem name i n h k l =
    sub_name_slice name i n h k
    ∙ ap (λ (cs : List Block). ok (name_of cs))
        (slice-sub_components name (first_component name i) n h (first_component-lt name i h k) l)

-- The components from the first one on, for a number of them that does not wrap.
from_first :
    (name : Name) (n : ℕ)
    → size name < 2 ^ 63
    → n < 2 ^ 64
    → get_sub_name name (pos 0) n ≡ ok (name_of (take n (elements name)))
from_first name n h k =
    let fits : ((n == npos) || ltb (0 + n) (2 ^ 64)) ≡ true = ground arith in
    get_sub_name_lem name (pos 0) n h (omega arith) k ∙ rw fits refl

-- `getPrefix(n)` is the first `n` components, or all of a shorter name. `getPrefix(-n)` leaves out
-- the last `n` components; but of a name with fewer than `n` it is the whole name, and not the empty
-- one. For names shorter than 2^63 components.
pub get_prefix_lem :
    (name : Name) (i : ℤ)
    → size name < 2 ^ 63
    → IsSsize i
    → get_prefix name i
      ≡ ok (
          name_of (elim i [
            | pos n ↦ take n (elements name)
            | negsuc k ↦
                if leb (suc k) (size name)
                then take (size name - suc k) (elements name)
                else elements name
          ]))
unfolding get_prefix
get_prefix_lem name (pos n) h k = from_first name n h (omega arith)
get_prefix_lem name (negsuc k) h l =
    let sum = (size name + (2 ^ 64 - suc k)) % 2 ^ 64 in
    from_first name sum h (omega arith)
    ∙ ap (λ (l : List Block). ok (name_of l))
        (elim (Bool-cases (leb (suc k) (size name))) [
          | inl within ↦ let cut : sum ≡ size name - suc k = ground arith in rw (within, cut) refl
          | inr beyond ↦ rw beyond (take_enough sum (elements name) (ground arith))
        ])

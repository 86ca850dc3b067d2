-- ===== src/Name/Prefix.antt =====
-- name.cpp: isPrefixOf and equals with a prefix.
use ndn_cxx_logging.Base.{
  ◌^◌, ◌≤◌, ◌<◌, ◌≡◌, refl, pos, false, List, [], ◌∷◌, ltb, if◌then◌else◌, length, take, arith, ok,
  length-take,
}
use ndn_cxx_logging.Block.{Block, elements}
use ndn_cxx_logging.Name.{Name, size, get_prefix}
use ndn_cxx_logging.Name.SubName.{name_of, get_prefix_lem}
use ndn_cxx_logging.Name.Order.{same_components, equals, is_prefix_of}
use ndn_cxx_logging.Block.Parse.{to_list-of_list}

same_components-take :
    (xs ys : List Block) → same_components xs ys ≡ same_components xs (take (length xs) ys)
unfolding same_components
same_components-take [] ys = refl
same_components-take (x ∷ xs) [] = refl
same_components-take (x ∷ xs) (y ∷ ys) = ground (arith, same_components-take xs ys)

-- `equals` with the components in front, in any name that has enough of them.
equals-take :
    (name other : Name)
    → size name ≤ size other
    → equals name (name_of (take (size name) (elements other)))
      ≡ same_components (elements name) (elements other)
unfolding equals
equals-take name other h =
    let front = take (size name) (elements other) in
    let enough : length front ≡ size name =
      omega (arith, length-take (size name) (elements other)) in
    rw (to_list-of_list front, enough)
      (ground (arith, same_components-take (elements name) (elements other)))

-- A prefix by `isPrefixOf` is a name that equals the prefix of its length of the other name: the
-- test is false for a longer name, and for any other name it is `equals` with what `getPrefix`
-- gives. For names shorter than 2^63 components.
pub is_prefix_of-get_prefix :
    (name other : Name)
    → size name < 2 ^ 63
    → size other < 2 ^ 63
    → (p : Name) × (get_prefix other (pos (size name)) ≡ ok p)
      × (is_prefix_of name other ≡ (if ltb (size other) (size name) then false else equals name p))
unfolding is_prefix_of
is_prefix_of-get_prefix name other h k = (
  name_of (take (size name) (elements other)),
  get_prefix_lem other (pos (size name)) k h,
  ground (arith, equals-take name other),
)

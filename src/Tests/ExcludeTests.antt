-- ===== src/Tests/ExcludeTests.antt =====
-- Concrete runs of exclude.cpp, and the theorems about it at concrete inputs.
use ndn_cxx_logging.Base.{
  inl, inr, replicate, map, arith, ◌>>=◌, ◌≡◌, refl, true, false, ◌||◌, not, [], ◌∷◌, ok,
}
use ndn_cxx_logging.Block.{Block, of_value, empty_block}
use ndn_cxx_logging.Component.{name_component, implicit_sha256_digest_component}
use ndn_cxx_logging.Component.Order.{gt, compare, memcmp, equals}
use ndn_cxx_logging.Tlv.Format.{tlv, var_number}
use ndn_cxx_logging.Block.{of_buffer}
use ndn_cxx_logging.Block.Elements.{returned}
use ndn_cxx_logging.Block.Rows.{tlvs}
use ndn_cxx_logging.Block.Wire.{whole}
use ndn_cxx_logging.Component.{empty_component}
use ndn_cxx_logging.Exclude.Wire.{exclude_type, wire_encode, wire_decode}
use ndn_cxx_logging.Exclude.Wire.Written.{parts}
use ndn_cxx_logging.Exclude.Wire.Decoded.{shown}
use ndn_cxx_logging.Exclude.Wire.RoundTrip.{exclude-wire_decode}
use ndn_cxx_logging.Exclude.{
  Exclude, is_excluded, exclude_one, exclude_range, exclude_after, lower_bound,
}
use ndn_cxx_logging.Exclude.Order.{excluded}
use ndn_cxx_logging.Exclude.Range.{between}
use ndn_cxx_logging.Exclude.Operations.{
  exclude_one-is_excluded, exclude_after-is_excluded, exclude_range-is_excluded,
  exclude_range-inside,
}

abbrev a : Block
a = of_value name_component (b'a' ∷ [])

abbrev b : Block
b = of_value name_component (b'b' ∷ [])

abbrev c : Block
c = of_value name_component (b'c' ∷ [])

abbrev d : Block
d = of_value name_component (b'd' ∷ [])

abbrev f : Block
f = of_value name_component (b'f' ∷ [])

-- "b,*,d"
abbrev filter : Exclude
filter = record { exclude = (d, false) ∷ (b, true) ∷ []; wire = empty_block }

exclude_range-is_excluded_example :
    (e2 : Exclude) × (exclude_range filter c f ≡ ok e2)
    × (is_excluded e2 d ≡ (is_excluded filter d || between c f d))
unfolding gt compare memcmp lower_bound
exclude_range-is_excluded_example =
    exclude_range-is_excluded filter c f d refl refl (refl, (refl, tt)) refl

exclude_one-is_excluded_example :
    is_excluded (exclude_one filter a) d ≡ (is_excluded filter d || equals a d)
exclude_one-is_excluded_example = exclude_one-is_excluded filter a d refl (refl, (refl, tt))

exclude_after-is_excluded_example :
    is_excluded (exclude_after filter c) f ≡ (is_excluded filter f || not (gt c f))
exclude_after-is_excluded_example = exclude_after-is_excluded filter c f

-- "b,*" excludes "d"; with the range from "b" to "c" it does not.
exclude_range-inside_example :
    (e2 : Exclude) × (exclude_range (record { exclude = (b, true) ∷ []; wire = empty_block }) b c
      ≡ ok e2)
    × (excluded ((b, true) ∷ []) d ≡ true)
    × (is_excluded e2 d ≡ false)
unfolding gt compare memcmp
exclude_range-inside_example = exclude_range-inside [] [] empty_block b b c d tt refl refl refl refl

-- "*,b,d,*": Any from the empty component on
abbrev from_empty : Exclude
from_empty = record {
  exclude = (d, true) ∷ (b, false) ∷ (empty_component, true) ∷ [];
  wire = empty_block;
}

exclude-wire_decode_example :
    (wire_encode from_empty
      ≡ ok (record from_empty { wire = whole exclude_type (tlvs (parts from_empty.exclude)) }))
    × (e2 : Exclude) × ((do
      w ← of_buffer (tlv exclude_type (tlvs (parts from_empty.exclude)))
      ok (wire_decode filter w))
        ≡ ok (e2, returned))
    × (map shown e2.exclude ≡ map shown from_empty.exclude)
unfolding gt compare memcmp tlvs var_number
exclude-wire_decode_example =
    exclude-wire_decode from_empty filter refl
      ((inl refl, omega arith), ((inl refl, omega arith), ((inl refl, omega arith), tt)))
      ((refl, (refl, tt)), ((refl, tt), (tt, tt))) (inr (refl, (refl, (refl, tt)))) refl
      (omega arith)

-- An implicit digest, below every generic component
abbrev digest : Block
digest = of_value implicit_sha256_digest_component (replicate 32 7)

-- Behind a digest the Any of the empty component is the digest's.
digest_with_any :
    parts ((empty_component, true) ∷ (digest, false) ∷ []) ≡ parts ((digest, true) ∷ [])
digest_with_any = refl

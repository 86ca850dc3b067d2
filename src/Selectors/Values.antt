-- ===== src/Selectors/Values.antt =====
-- selectors.cpp: the numbers that wireDecode reads back, and the parts that wireEncode leaves out.
use ndn_cxx_logging.Base.{
  ℕ, ◌%◌, ◌^◌, ◌<◌, ◌≡◌, refl, ℤ, pos, negsuc, is_negative, to_signed, to_uint64, true, false, not,
  List, [], ltb, if◌then◌else◌, arith, ok, nil_of_length,
}
use ndn_cxx_logging.Encoder.Numbers.{non_negative_integer}
use ndn_cxx_logging.Block.{Block}
use ndn_cxx_logging.Block.Rows.{sub_block}
use ndn_cxx_logging.BlockHelpers.{read_non_negative_integer_block}
use ndn_cxx_logging.BlockHelpers.Make.{read_non_negative_integer-append}
use ndn_cxx_logging.Exclude as ExcludeFilter
use ndn_cxx_logging.Exclude.{Exclude, empty_exclude}
use ndn_cxx_logging.KeyLocator as Locator
use ndn_cxx_logging.KeyLocator.{
  KeyLocator, LocatorType, empty_key_locator, key_locator_none, key_locator_name,
  key_locator_key_digest, key_locator_unknown,
}
use ndn_cxx_logging.Name.{Name}
use ndn_cxx_logging.Selectors.{Selectors}
use ndn_cxx_logging.Selectors.Parts.{number_element, has_exclude}
use mathlib.Core.List.{append-nil}

-- A number of 32 bits with a sign
abbrev pub IsInt : ℤ → Type 0
IsInt (pos n) = n < 2 ^ 31
IsInt (negsuc k) = Unit

-- A negative number is left out, and comes back as -1.
abbrev pub int_back : ℤ → ℤ
int_back n = if is_negative n then negsuc 0 else n

pub read_int :
    (buffer : List ℕ) (t : ℕ) (n : ℤ)
    → IsInt n
    → is_negative n ≡ false
    → (read_non_negative_integer_block (sub_block buffer (number_element t n)) ≡ ok (to_uint64 n))
      × (to_signed 32 (to_uint64 n) ≡ n)
unfolding read_non_negative_integer_block
read_int buffer t (pos n) h k =
    let low : n % 2 ^ 64 ≡ n = omega arith in
    let lower : n % 2 ^ 32 ≡ n = omega arith in
    let positive : ltb n (2 ^ 31) ≡ true = ground arith in
    (
      rw low (
          ground (
            arith,
            append-nil (non_negative_integer n),
            read_non_negative_integer-append n [] (omega arith),
          )),
      rw (low, lower, positive) refl,
    )
read_int buffer t (negsuc n) h k = cc

no_locator_of :
    (kind : LocatorType) (name : Name) (digest wire : Block)
    → not (Locator.empty (record { kind = kind; name = name; key_digest = digest; wire = wire }))
      ≡ false
    → kind ≡ key_locator_none
no_locator_of key_locator_none name digest wire h = refl
no_locator_of key_locator_name name digest wire h = cc
no_locator_of key_locator_key_digest name digest wire h = cc
no_locator_of key_locator_unknown name digest wire h = cc

pub no_locator : (k : KeyLocator) → not (Locator.empty k) ≡ false → k.kind ≡ key_locator_none
no_locator k h = no_locator_of k.kind k.name k.key_digest k.wire h

pub no_items : (s : Selectors) → has_exclude s ≡ false → s.exclude.exclude ≡ []
unfolding ExcludeFilter.empty
no_items s h = nil_of_length s.exclude.exclude (ground arith)

-- ===== src/Encoder/Numbers.antt =====
-- The number writers of encoding/encoder.cpp: what they put into an encoder with enough room.
use ndn_cxx_logging.Base.{
  ℕ, suc, ◌+◌, ◌≡◌, sym, ap, ◌∙◌, List, [], ◌∷◌, ◌++◌, ltb, leb, if◌then◌else◌, length, arith,
  Bool-cases, inl, inr,
}
use ndn_cxx_logging.Base.Bytes.{host_to_be, length-host_to_be}
use ndn_cxx_logging.Tlv.{max_uint8, max_uint16, max_uint32, size_of_var_number}
use ndn_cxx_logging.Tlv.Format.{var_number, tlv}
use ndn_cxx_logging.Encoder.{
  Encoder, prepend_byte_array, append_byte_array, prepend_byte, append_byte, prepend_var_number,
  append_var_number, prepend_non_negative_integer, append_non_negative_integer,
  prepend_byte_array_block, append_byte_array_block,
}
use ndn_cxx_logging.Encoder.Room.{
  Holds, prepend_byte_array-Holds, append_byte_array-Holds, prepend_byte-Holds, append_byte-Holds,
}
use mathlib.Core.List.{append_assoc}
use mathlib.Core.Path.{subst}

-- The shortest of 1, 2, 4 and 8 bytes for `n`, in network order: what the integer writers of an
-- encoder write.
unfoldable pub non_negative_integer : ℕ → List ℕ
non_negative_integer n =
    if leb n max_uint8
    then n ∷ []
    else if leb n max_uint16
    then host_to_be 2 n
    else if leb n max_uint32
    then host_to_be 4 n
    else host_to_be 8 n

module _ (e : Encoder) (front : ℕ) (bytes : List ℕ) (back : ℕ) where
  more_front : (k l : ℕ) → k ≡ l → Holds e k bytes back → Holds e l bytes back
  more_front k l p h = subst (λ m. Holds e m bytes back) p h

  more_back : (k l : ℕ) → k ≡ l → Holds e front bytes k → Holds e front bytes l
  more_back k l p h = subst (λ m. Holds e front bytes m) p h

-- A marker byte and an array of `k` bytes.
module _ (e : Encoder) (front : ℕ) (bytes : List ℕ) (back marker k : ℕ) (array : List ℕ) where
  marked_front :
      length array ≡ k
      → Holds e (suc k + front) bytes back
      → Holds
          (prepend_byte (prepend_byte_array e array).0 marker).0
          front
          (marker ∷ (array ++ bytes))
          back
  marked_front l h = prepend_byte-Holds _ front (array ++ bytes) back marker (
      prepend_byte_array-Holds e (1 + front) bytes back array
        (more_front e front bytes back _ _ (omega (arith, l)) h))

  marked_back :
      length array ≡ k
      → Holds e front bytes (suc k + back)
      → Holds
          (append_byte_array (append_byte e marker).0 array).0
          front
          (bytes ++ (marker ∷ array))
          back
  marked_back l h =
      subst (λ b. Holds (append_byte_array (append_byte e marker).0 array).0 front b back)
        (append_assoc bytes (marker ∷ []) array)
        (append_byte_array-Holds _ front (bytes ++ (marker ∷ [])) back array (
          append_byte-Holds e front bytes (length array + back) marker
            (more_back e front bytes back _ _ (omega (arith, l)) h)))

pub prepend_var_number-Holds :
    (e : Encoder) (front : ℕ) (bytes : List ℕ) (back n : ℕ)
    → Holds e (size_of_var_number n + front) bytes back
    → Holds (prepend_var_number e n).0 front (var_number n ++ bytes) back
unfolding prepend_var_number var_number size_of_var_number
prepend_var_number-Holds e front bytes back n = elim (Bool-cases (ltb n 253)) [
  | inl one ↦ rw one (prepend_byte-Holds e front bytes back n)
  | inr a ↦ elim (Bool-cases (leb n max_uint16)) [
    | inl two ↦ rw (a, two) (marked_front e front bytes back 253 2 _ (length-host_to_be 2 n))
    | inr b ↦ elim (Bool-cases (leb n max_uint32)) [
      | inl four ↦ rw (a, b, four) (marked_front e front bytes back 254 4 _ (length-host_to_be 4 n))
      | inr c ↦ rw (a, b, c) (marked_front e front bytes back 255 8 _ (length-host_to_be 8 n))
    ]
  ]
]

pub append_var_number-Holds :
    (e : Encoder) (front : ℕ) (bytes : List ℕ) (back n : ℕ)
    → Holds e front bytes (size_of_var_number n + back)
    → Holds (append_var_number e n).0 front (bytes ++ var_number n) back
unfolding append_var_number var_number size_of_var_number
append_var_number-Holds e front bytes back n = elim (Bool-cases (ltb n 253)) [
  | inl one ↦ rw one (append_byte-Holds e front bytes back n)
  | inr a ↦ elim (Bool-cases (leb n max_uint16)) [
    | inl two ↦ rw (a, two) (marked_back e front bytes back 253 2 _ (length-host_to_be 2 n))
    | inr b ↦ elim (Bool-cases (leb n max_uint32)) [
      | inl four ↦ rw (a, b, four) (marked_back e front bytes back 254 4 _ (length-host_to_be 4 n))
      | inr c ↦ rw (a, b, c) (marked_back e front bytes back 255 8 _ (length-host_to_be 8 n))
    ]
  ]
]

-- Both integer writers are one write of the bytes.
pub prepend_non_negative_integer_lem :
    (e : Encoder) (n : ℕ)
    → prepend_non_negative_integer e n ≡ prepend_byte_array e (non_negative_integer n)
unfolding prepend_non_negative_integer non_negative_integer prepend_byte_array prepend_byte
prepend_non_negative_integer_lem e n = ground arith

append_non_negative_integer_lem :
    (e : Encoder) (n : ℕ)
    → append_non_negative_integer e n ≡ append_byte_array e (non_negative_integer n)
unfolding append_non_negative_integer non_negative_integer append_byte_array append_byte
append_non_negative_integer_lem e n = ground arith

pub prepend_non_negative_integer-Holds :
    (e : Encoder) (front : ℕ) (bytes : List ℕ) (back n : ℕ)
    → Holds e (length (non_negative_integer n) + front) bytes back
    → Holds (prepend_non_negative_integer e n).0 front (non_negative_integer n ++ bytes) back
prepend_non_negative_integer-Holds e front bytes back n h =
    rw prepend_non_negative_integer_lem
      (prepend_byte_array-Holds e front bytes back (non_negative_integer n) h)

pub prepend_byte_array_block-Holds :
    (e : Encoder) (front : ℕ) (bytes : List ℕ) (back type : ℕ) (array : List ℕ)
    → Holds e
        (length array + (size_of_var_number (length array) + (size_of_var_number type + front)))
        bytes
        back
    → Holds (prepend_byte_array_block e type array).0 front (tlv type array ++ bytes) back
unfolding prepend_byte_array_block
prepend_byte_array_block-Holds e front bytes back type array h =
    subst (λ b. Holds (prepend_byte_array_block e type array).0 front b back)
      (ap (λ (t : List ℕ). var_number type ++ t)
          (sym (append_assoc (var_number (length array)) array bytes))
        ∙ sym (append_assoc (var_number type) (var_number (length array) ++ array) bytes))
      (prepend_var_number-Holds _ front _ back type (
        prepend_var_number-Holds _ (size_of_var_number type + front) (array ++ bytes) back
          (length array) (prepend_byte_array-Holds e _ bytes back array h)))

pub append_byte_array_block-Holds :
    (e : Encoder) (front : ℕ) (bytes : List ℕ) (back type : ℕ) (array : List ℕ)
    → Holds e front bytes
        (size_of_var_number type + (size_of_var_number (length array) + (length array + back)))
    → Holds (append_byte_array_block e type array).0 front (bytes ++ tlv type array) back
unfolding append_byte_array_block
append_byte_array_block-Holds e front bytes back type array h =
    subst (λ b. Holds (append_byte_array_block e type array).0 front b back)
      (append_assoc (bytes ++ var_number type) (var_number (length array)) array
        ∙ append_assoc bytes (var_number type) (var_number (length array) ++ array))
      (append_byte_array-Holds _ front _ back array (
        append_var_number-Holds _ front (bytes ++ var_number type) (length array + back)
          (length array) (append_var_number-Holds e front bytes _ type h)))

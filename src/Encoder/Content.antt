-- ===== src/Encoder/Content.antt =====
-- encoding/encoder.cpp on any valid encoder, with reallocation: the calls put bytes in front of and
-- behind what is encoded.
use ndn_cxx_logging.Base.{
  ℕ, ◌+◌, ◌-◌, ◌*◌, ◌%◌, ◌^◌, ◌≤◌, ◌<◌, ◌≡◌, refl, sym, ap, ◌∙◌, true, false, List, ◌++◌, ltb,
  length, replicate, take, drop, arith, length-append, length-take, length-drop, length-replicate,
  Bool-cases, inl, inr, ltb_false→le, le→ltb_false, drop_all,
}
use ndn_cxx_logging.Encoder.{
  Encoder, reserve, reserve_back, reserve_front, prepend_byte_array, append_byte_array, content,
}
use ndn_cxx_logging.Encoder.Room.{
  Holds, IsValid, Holds-of_IsValid, IsValid-of_Holds, Holds-length, Holds-content,
  prepend_byte_array-Holds, append_byte_array-Holds, reserve_front_enough, reserve_back_enough,
}
use native.Mathlib.Nat.{zero-add}
use mathlib.Core.List.{append_assoc, append-nil}

reserve-Holds_front :
    (e : Encoder) (front : ℕ) (bytes : List ℕ) (back size : ℕ)
    → length e.buffer ≤ size
    → Holds e front bytes back
    → Holds (reserve e size true) (size - length e.buffer + front) bytes back
unfolding reserve
reserve-Holds_front e front bytes back size l h =
    let len = Holds-length e front bytes back h in
    let zeros : List ℕ = replicate size 0 in
    let zeros_size : length zeros ≡ size = length-replicate size 0 in
    rw (le→ltb_false size (length e.buffer) l) (record {
      pre = take (size - length e.buffer) zeros ++ h.pre;
      post = h.post;
      buffer =
          ap (λ (t : List ℕ). take (size - length e.buffer) zeros ++ (e.buffer ++ t))
            (drop_all (size - length e.buffer + length e.buffer) zeros (omega (arith, zeros_size)))
          ∙ ap (λ (t : List ℕ). take (size - length e.buffer) zeros ++ t)
              (append-nil e.buffer ∙ h.buffer)
          ∙ sym (append_assoc (take (size - length e.buffer) zeros) h.pre (bytes ++ h.post));
      length_pre = omega (
        arith,
        h.length_pre,
        length-append (take (size - length e.buffer) zeros) h.pre,
        length-take (size - length e.buffer) zeros,
        zeros_size,
      );
      length_post = h.length_post;
      begin = omega (arith, h.begin, len);
      end = omega (arith, h.end, len);
    })

reserve-Holds_back :
    (e : Encoder) (front : ℕ) (bytes : List ℕ) (back size : ℕ)
    → length e.buffer ≤ size
    → Holds e front bytes back
    → Holds (reserve e size false) front bytes (size - length e.buffer + back)
unfolding reserve
reserve-Holds_back e front bytes back size l h =
    let zeros : List ℕ = replicate size 0 in
    let zeros_size : length zeros ≡ size = length-replicate size 0 in
    rw (le→ltb_false size (length e.buffer) l) (record {
      pre = h.pre;
      post = h.post ++ drop (length e.buffer) zeros;
      buffer =
          ap (λ (k : ℕ). e.buffer ++ drop k zeros) (zero-add (length e.buffer))
          ∙ ap (λ (t : List ℕ). t ++ drop (length e.buffer) zeros) h.buffer
          ∙ append_assoc h.pre (bytes ++ h.post) (drop (length e.buffer) zeros)
          ∙ ap (λ (t : List ℕ). h.pre ++ t)
              (append_assoc bytes h.post (drop (length e.buffer) zeros));
      length_pre = h.length_pre;
      length_post = omega (
        arith,
        h.length_post,
        length-append h.post (drop (length e.buffer) zeros),
        length-drop (length e.buffer) zeros,
        zeros_size,
      );
      begin = h.begin;
      end = h.end;
    })

-- The calls that make room keep the bytes.
reserve_front-Holds :
    (e : Encoder) (front : ℕ) (bytes : List ℕ) (back n : ℕ)
    → length e.buffer * 2 + n < 2 ^ 64
    → Holds e front bytes back
    → (room : ℕ) × Holds (reserve_front e n) (n + room) bytes back
unfolding reserve_front
reserve_front-Holds e front bytes back n fits h = elim (Bool-cases (ltb e.begin n)) [
  | inl more ↦
      let wrap : (length e.buffer * 2 + n) % 2 ^ 64 ≡ length e.buffer * 2 + n = omega arith in
      let room : length e.buffer * 2 + n - length e.buffer + front ≡ n + (length e.buffer + front) =
        omega arith in
      (
        length e.buffer + front,
        rw (more, wrap, ← room)
            (reserve-Holds_front e front bytes back (length e.buffer * 2 + n) (omega arith) h),
      )
  | inr enough ↦
      let room : n + (front - n) ≡ front = omega (arith, h.begin, ltb_false→le e.begin n enough) in
      (front - n, rw (enough, room) h)
]

reserve_back-Holds :
    (e : Encoder) (front : ℕ) (bytes : List ℕ) (back n : ℕ)
    → length e.buffer * 2 + n < 2 ^ 64
    → Holds e front bytes back
    → (room : ℕ) × Holds (reserve_back e n) front bytes (n + room)
unfolding reserve_back
reserve_back-Holds e front bytes back n fits h =
    elim (Bool-cases (ltb (length e.buffer) (e.end + n))) [
      | inl more ↦
          let wrap : (length e.buffer * 2 + n) % 2 ^ 64 ≡ length e.buffer * 2 + n = omega arith in
          let room : length e.buffer * 2 + n - length e.buffer + back
              ≡ n + (length e.buffer + back) =
            omega arith in
          (
            length e.buffer + back,
            rw (more, wrap, ← room)
                (reserve-Holds_back e front bytes back (length e.buffer * 2 + n) (omega arith) h),
          )
      | inr enough ↦
          let len = Holds-length e front bytes back h in
          let room : n + (back - n) ≡ back =
            omega (arith, h.end, len, ltb_false→le (length e.buffer) (e.end + n) enough) in
          (back - n, rw (enough, room) h)
    ]

-- A second call of `reserveFront` finds the room that the first one made.
prepend_after_reserve :
    (e : Encoder) (array : List ℕ) (front : ℕ) (bytes : List ℕ) (back : ℕ)
    → Holds (reserve_front e (length array)) (length array + front) bytes back
    → (prepend_byte_array e array).0 ≡ (prepend_byte_array (reserve_front e (length array)) array).0
unfolding prepend_byte_array
prepend_after_reserve e array front bytes back h =
    rw (
      reserve_front_enough (reserve_front e (length array)) (length array) (omega (arith, h.begin)))

append_after_reserve :
    (e : Encoder) (array : List ℕ) (front : ℕ) (bytes : List ℕ) (back : ℕ)
    → Holds (reserve_back e (length array)) front bytes (length array + back)
    → (append_byte_array e array).0 ≡ (append_byte_array (reserve_back e (length array)) array).0
unfolding append_byte_array
append_after_reserve e array front bytes back h = rw (
    reserve_back_enough (reserve_back e (length array)) (length array)
      (omega (arith, h.end, Holds-length _ front bytes (length array + back) h)))

-- On a valid encoder whose buffer can still be doubled, `prependByteArray` puts the array in front
-- of what is encoded and changes none of that, whether it reallocates or not; it returns the
-- array's length, and the encoder stays valid.
pub prepend_byte_array-content :
    (e : Encoder) (array : List ℕ)
    → IsValid e
    → length e.buffer * 2 + length array < 2 ^ 64
    → IsValid (prepend_byte_array e array).0
      × (content (prepend_byte_array e array).0 ≡ array ++ content e)
      × ((prepend_byte_array e array).1 ≡ length array)
prepend_byte_array-content e array v fits =
    let (room, h) =
      reserve_front-Holds e _ (content e) _ (length array) fits (Holds-of_IsValid e v) in
    let after = prepend_byte_array-Holds _ room (content e) _ array h in
    rw (prepend_after_reserve e array room (content e) _ h) (
      IsValid-of_Holds _ room (array ++ content e) _ after,
      Holds-content _ room (array ++ content e) _ after,
      unfold prepend_byte_array in refl,
    )

-- On a valid encoder whose buffer can still be doubled, `appendByteArray` puts the array behind
-- what is encoded and changes none of that, whether it reallocates or not; it returns the array's
-- length, and the encoder stays valid.
pub append_byte_array-content :
    (e : Encoder) (array : List ℕ)
    → IsValid e
    → length e.buffer * 2 + length array < 2 ^ 64
    → IsValid (append_byte_array e array).0
      × (content (append_byte_array e array).0 ≡ content e ++ array)
      × ((append_byte_array e array).1 ≡ length array)
append_byte_array-content e array v fits =
    let (room, h) =
      reserve_back-Holds e _ (content e) _ (length array) fits (Holds-of_IsValid e v) in
    let after = append_byte_array-Holds _ _ (content e) room array h in
    rw (append_after_reserve e array _ (content e) room h) (
      IsValid-of_Holds _ _ (content e ++ array) room after,
      Holds-content _ _ (content e ++ array) room after,
      unfold append_byte_array in refl,
    )

-- ===== src/Encoder/Room.antt =====
-- encoding/encoder.cpp: the buffer around the encoded bytes, and how a call changes it.
use ndn_cxx_logging.Base.{
  ℕ, ◌+◌, ◌-◌, ◌≤◌, ◌≡◌, refl, sym, ap, ◌∙◌, List, [], ◌∷◌, ◌++◌, length, replicate, overlay, take,
  drop, arith, length-append, length-take, length-drop, length-replicate, take-append, drop-append,
  take-append_le, drop_add, slice_parts, slice-append, le→ltb_false,
}
use ndn_cxx_logging.Encoder.{
  Encoder, create, reserve_back, reserve_front, prepend_byte_array, append_byte_array, prepend_byte,
  append_byte, content,
}
use mathlib.Core.List.{append_assoc, append-nil}

-- The buffer holds `bytes`, with `front` bytes of room before them and `back` behind.
pub record Holds (e : Encoder) (front : ℕ) (bytes : List ℕ) (back : ℕ) : Type 0 where
  pub pre : List ℕ
  pub post : List ℕ
  pub buffer : e.buffer ≡ pre ++ (bytes ++ post)
  pub length_pre : length pre ≡ front
  pub length_post : length post ≡ back
  pub begin : e.begin ≡ front
  pub end : e.end ≡ front + length bytes

pub Holds-content :
    (e : Encoder) (front : ℕ) (bytes : List ℕ) (back : ℕ)
    → Holds e front bytes back
    → content e ≡ bytes
Holds-content e front bytes back h =
    rw (h.buffer, h.begin, h.end) (slice-append front _ h.pre bytes h.post h.length_pre refl)

pub Holds-length :
    (e : Encoder) (front : ℕ) (bytes : List ℕ) (back : ℕ)
    → Holds e front bytes back
    → length e.buffer ≡ front + length bytes + back
Holds-length e front bytes back h = omega (
  arith,
  ap (λ (l : List ℕ). length l) h.buffer,
  length-append h.pre (bytes ++ h.post),
  length-append bytes h.post,
  h.length_pre,
  h.length_post,
)

-- Writing over the end of what stands in front.
overlay_before :
    (pre rest array : List ℕ) (front : ℕ)
    → length pre ≡ length array + front
    → overlay (pre ++ rest) front array ≡ take front pre ++ (array ++ rest)
overlay_before pre rest array front h =
    let all : drop (length array + front) (pre ++ rest) ≡ rest = drop-append _ pre rest h in
    let swap : front + length array ≡ length array + front = omega arith in
    rw (take-append_le front pre rest (omega arith), swap, all) refl

overlay_behind :
    (pre post array : List ℕ) (front : ℕ)
    → length pre ≡ front
    → length array ≤ length post
    → overlay (pre ++ post) front array ≡ pre ++ (array ++ drop (length array) post)
overlay_behind pre post array front h l =
    rw
      (
        take-append front pre post h,
        drop_add front (length array) (pre ++ post),
        drop-append front pre post h,
      )
      refl

pub reserve_front_enough : (e : Encoder) (n : ℕ) → n ≤ e.begin → reserve_front e n ≡ e
unfolding reserve_front
reserve_front_enough e n h = rw (le→ltb_false e.begin n h)

pub reserve_back_enough : (e : Encoder) (n : ℕ) → e.end + n ≤ length e.buffer → reserve_back e n ≡ e
unfolding reserve_back
reserve_back_enough e n h = rw (le→ltb_false (length e.buffer) (e.end + n) h)

-- With enough room nothing is reallocated: the array takes the end of the room in front.
pub prepend_byte_array-Holds :
    (e : Encoder) (front : ℕ) (bytes : List ℕ) (back : ℕ) (array : List ℕ)
    → Holds e (length array + front) bytes back
    → Holds (prepend_byte_array e array).0 front (array ++ bytes) back
unfolding prepend_byte_array
prepend_byte_array-Holds e front bytes back array h =
    let start : e.begin - length array ≡ front = omega (arith, h.begin) in
    rw (reserve_front_enough e (length array) (omega (arith, h.begin))) (record {
      pre = take front h.pre;
      post = h.post;
      buffer =
          rw (start, h.buffer, append_assoc array bytes h.post)
            (overlay_before h.pre (bytes ++ h.post) array front h.length_pre);
      length_pre = omega (arith, length-take front h.pre, h.length_pre);
      length_post = h.length_post;
      begin = start;
      end = omega (arith, h.end, length-append array bytes);
    })

-- So too at the back.
pub append_byte_array-Holds :
    (e : Encoder) (front : ℕ) (bytes : List ℕ) (back : ℕ) (array : List ℕ)
    → Holds e front bytes (length array + back)
    → Holds (append_byte_array e array).0 front (bytes ++ array) back
unfolding append_byte_array
append_byte_array-Holds e front bytes back array h =
    let enough : e.end + length array ≤ length e.buffer =
      omega (arith, h.end, Holds-length e front bytes (length array + back) h) in
    let seam : length (h.pre ++ bytes) ≡ front + length bytes =
      omega (arith, length-append h.pre bytes, h.length_pre) in
    rw (reserve_back_enough e (length array) enough) (record {
      pre = h.pre;
      post = drop (length array) h.post;
      buffer =
          rw (h.end, h.buffer, ← append_assoc h.pre bytes h.post)
            (overlay_behind (h.pre ++ bytes) h.post array _ seam (omega (arith, h.length_post))
              ∙ append_assoc h.pre bytes _
              ∙ ap (λ (t : List ℕ). h.pre ++ t) (sym (append_assoc bytes array _)));
      length_pre = h.length_pre;
      length_post = omega (arith, length-drop (length array) h.post, h.length_post);
      begin = h.begin;
      end = omega (arith, h.end, length-append bytes array);
    })

pub prepend_byte-Holds :
    (e : Encoder) (front : ℕ) (bytes : List ℕ) (back b : ℕ)
    → Holds e (1 + front) bytes back
    → Holds (prepend_byte e b).0 front (b ∷ bytes) back
unfolding prepend_byte
prepend_byte-Holds e front bytes back b h =
    unfold prepend_byte_array in prepend_byte_array-Holds e front bytes back (b ∷ []) h

pub append_byte-Holds :
    (e : Encoder) (front : ℕ) (bytes : List ℕ) (back b : ℕ)
    → Holds e front bytes (1 + back)
    → Holds (append_byte e b).0 front (bytes ++ (b ∷ [])) back
unfolding append_byte
append_byte-Holds e front bytes back b h =
    unfold append_byte_array in append_byte_array-Holds e front bytes back (b ∷ []) h

-- A fresh encoder is empty, with the room that its arguments say.
pub create-Holds : (total : ℕ) → Holds (create total 0) total [] 0
unfolding create
create-Holds total = record {
  pre = replicate total 0;
  post = [];
  buffer = sym (append-nil (replicate total 0));
  length_pre = length-replicate total 0;
  length_post = refl;
  begin = ground arith;
  end = ground arith;
}

-- The invariant that encoder.hpp states of its iterators.
pub record IsValid (e : Encoder) : Type 0 where
  pub ordered : e.begin ≤ e.end
  pub within : e.end ≤ length e.buffer

pub Holds-of_IsValid :
    (e : Encoder) → IsValid e → Holds e e.begin (content e) (length e.buffer - e.end)
Holds-of_IsValid e v = record {
  pre = take e.begin e.buffer;
  post = drop e.end e.buffer;
  buffer = sym (slice_parts e.begin e.end e.buffer v.ordered);
  length_pre = omega (arith, v, length-take e.begin e.buffer);
  length_post = length-drop e.end e.buffer;
  begin = refl;
  end = omega (
    arith,
    v,
    length-take (e.end - e.begin) (drop e.begin e.buffer),
    length-drop e.begin e.buffer,
  );
}

pub IsValid-of_Holds :
    (e : Encoder) (front : ℕ) (bytes : List ℕ) (back : ℕ) → Holds e front bytes back → IsValid e
IsValid-of_Holds e front bytes back h =
    omega (arith, h.begin, h.end, Holds-length e front bytes back h)

-- ===== src/Encoding/Parts.antt =====
-- What the functions that the templates call write: the encoders' own, those of
-- encoding/block-helpers.cpp, and wireEncode of components and names.
use ndn_cxx_logging.Base.{
  ℕ, ◌^◌, ◌≤◌, ◌<◌, ◌≡◌, refl, ap, ◌∙◌, true, List, [], ◌∷◌, ltb, length, arith,
}
use ndn_cxx_logging.Base.Bytes.{length-host_to_be}
use ndn_cxx_logging.Tlv.Format.{tlv}
use ndn_cxx_logging.Encoder
use ndn_cxx_logging.Encoder.{Encoder}
use ndn_cxx_logging.Encoder.Room.{prepend_byte_array-Holds}
use ndn_cxx_logging.Encoder.Numbers.{non_negative_integer, prepend_non_negative_integer_lem}
use ndn_cxx_logging.Estimator
use ndn_cxx_logging.Estimator.Agree.{prepend_non_negative_integer-length}
use ndn_cxx_logging.Block.{Block, type, value}
use ndn_cxx_logging.BlockHelpers.{encoder_impl, estimator_impl}
use ndn_cxx_logging.Component.Order as ComponentOrder
use ndn_cxx_logging.Encoding.{
  Template, nothing, optional, close, byte_array, byte_array_block, empty_block, number_block,
}
use ndn_cxx_logging.Encoding.Writes.{Writes, Writes-nothing, Writes-header}

pub Writes-byte_array : (array : List ℕ) → length array < 2 ^ 64 → Writes (byte_array array) array
unfolding Estimator.prepend_byte_array
Writes-byte_array array fits = record {
  estimate = omega arith;
  count = λ e. unfold Encoder.prepend_byte_array in omega arith;
  room = λ e front behind h. prepend_byte_array-Holds e front behind 0 array h;
}

-- A template that does on both runs what another one does.
Writes-same :
    (template other : Template) (bytes : List ℕ)
    → (template estimator_impl tt).1 ≡ (other estimator_impl tt).1
    → ((e : Encoder) → template encoder_impl e ≡ other encoder_impl e)
    → Writes other bytes
    → Writes template bytes
Writes-same template other bytes estimated run h = record {
  estimate = estimated ∙ h.estimate;
  count = λ e. ap (λ (r : Encoder × ℕ). r.1) (run e) ∙ h.count e;
  room = λ e front behind room. rw (run e) (h.room e front behind room);
}

pub Writes-byte_array_block :
    (t : ℕ) (array : List ℕ)
    → length array < 2 ^ 64
    → Writes (byte_array_block t array) (tlv t array)
unfolding Encoder.prepend_byte_array_block Estimator.prepend_byte_array_block
    Encoder.prepend_byte_array Estimator.prepend_byte_array
Writes-byte_array_block t array fits =
    Writes-same (byte_array_block t array) (close t (byte_array array)) (tlv t array) refl
      (λ e. refl) (Writes-header (byte_array array) t array (Writes-byte_array array fits) fits)

pub Writes-empty_block : (t : ℕ) → Writes (empty_block t) (tlv t [])
Writes-empty_block t =
    Writes-same (empty_block t) (close t nothing) (tlv t []) (omega arith)
      (λ e. ap (λ (n : ℕ). ((close t nothing encoder_impl e).0, n)) (omega arith))
      (Writes-header nothing t [] Writes-nothing (omega arith))

number : ℕ → Template
number n impl s = impl.prepend_non_negative_integer s n

non_negative_integer-size : (n : ℕ) → length (non_negative_integer n) ≤ 8
unfolding non_negative_integer
non_negative_integer-size n =
    ground (arith, length-host_to_be 2 n, length-host_to_be 4 n, length-host_to_be 8 n)

Writes-number : (n : ℕ) → Writes (number n) (non_negative_integer n)
unfolding number
Writes-number n = record {
  estimate = omega (arith, prepend_non_negative_integer-length n, non_negative_integer-size n);
  count = λ e.
      rw prepend_non_negative_integer_lem
        (unfold Encoder.prepend_byte_array in omega (arith, non_negative_integer-size n));
  room = λ e front behind h.
      rw prepend_non_negative_integer_lem
        (prepend_byte_array-Holds e front behind 0 (non_negative_integer n) h);
}

pub Writes-number_block : (t n : ℕ) → Writes (number_block t n) (tlv t (non_negative_integer n))
unfolding number
Writes-number_block t n =
    Writes-header (number n) t (non_negative_integer n) (Writes-number n)
      (omega (arith, non_negative_integer-size n))

-- The part of a value, where there is one.
value_part : List ℕ → Template
value_part v = optional (ltb 0 (length v)) (byte_array v)

Writes-value_part : (v : List ℕ) → length v < 2 ^ 64 → Writes (value_part v) v
unfolding value_part
Writes-value_part [] fits = Writes-nothing
Writes-value_part (b ∷ v) fits =
    let some_value : ltb 0 (length (b ∷ v)) ≡ true = ground arith in
    rw some_value (Writes-byte_array (b ∷ v) fits)

value_part-length :
    (v : List ℕ)
    → ((value_part v estimator_impl tt).1 ≡ length v)
      × ((e : Encoder) → (value_part v encoder_impl e).1 ≡ length v)
unfolding value_part Estimator.prepend_byte_array Encoder.prepend_byte_array
value_part-length v = (ground arith, λ e. ground arith)

-- A component has its type and value on the wire.
pub Writes-component :
    (c : Block)
    → length (value c) < 2 ^ 64
    → Writes (λ impl s. ComponentOrder.wire_encode_to impl s c) (tlv (type c) (value c))
unfolding value_part
Writes-component c fits =
    let v = value c in
    let (estimated, counted) = value_part-length v in
    Writes-same (λ impl s. ComponentOrder.wire_encode_to impl s c) (close (type c) (value_part v))
      (tlv (type c) v) (rw estimated refl) (λ e. rw (counted e) refl)
      (Writes-header (value_part v) (type c) v (Writes-value_part v fits) fits)

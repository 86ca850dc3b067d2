-- ===== src/Encoding/Writes.antt =====
-- What an encoding template writes, on either of the two runs.
use ndn_cxx_logging.Base.{
  All, ℕ, ◌+◌, ◌%◌, ◌^◌, ◌<◌, ◌≡◌, refl, sym, ap, ◌∙◌, Bool, true, false, List, [], ◌∷◌, ◌++◌,
  length, arith, length-append, if◌then◌else◌, ok,
}
use ndn_cxx_logging.Base.Bytes.{add64}
use ndn_cxx_logging.Tlv.{size_of_var_number}
use ndn_cxx_logging.Tlv.Format.{var_number, tlv, length-var_number}
use ndn_cxx_logging.Encoder
use ndn_cxx_logging.Encoder.{Encoder}
use ndn_cxx_logging.Encoder.Room.{Holds, create-Holds}
use ndn_cxx_logging.Encoder.Numbers.{prepend_var_number-Holds}
use ndn_cxx_logging.Estimator.Agree.{prepend_var_number-size, var_number-agree}
use ndn_cxx_logging.Block.Wire.{whole, of_encoder-Holds}
use ndn_cxx_logging.BlockHelpers.{encoder_impl, estimator_impl}
use ndn_cxx_logging.Encoding.{Template, nothing, ◌▸◌, optional, each_reversed, close, encode_alone}
use mathlib.Core.List.{append_assoc, append-nil}
use mathlib.Core.Path.{subst}

-- The template puts `bytes` in front of what the encoder holds, for which room of their size is
-- enough, and both runs return their size, as a number of 64 bits.
pub record Writes (template : Template) (bytes : List ℕ) : Type 0 where
  pub estimate : (template estimator_impl tt).1 ≡ length bytes % 2 ^ 64
  pub count : (e : Encoder) → (template encoder_impl e).1 ≡ length bytes % 2 ^ 64
  pub room :
      (e : Encoder) (front : ℕ) (behind : List ℕ)
      → Holds e (length bytes + front) behind 0
      → Holds (template encoder_impl e).0 front (bytes ++ behind) 0

pub Writes-nothing : Writes nothing []
Writes-nothing = record {
  estimate = refl;
  count = λ e. refl;
  room = λ e front behind h. subst (λ k. Holds e k behind 0) (omega arith) h;
}

-- The parts stand in the reverse order on the wire.
pub Writes-▸ :
    (total part : Template) (v w : List ℕ)
    → Writes total v
    → Writes part w
    → Writes (total ▸ part) (w ++ v)
Writes-▸ total part v w ht hp = record {
  estimate = omega (arith, ht.estimate, hp.estimate, length-append w v);
  count = λ e. omega (arith, ht.count e, hp.count (total encoder_impl e).0, length-append w v);
  room = λ e front behind h.
      subst (λ l. Holds ((total ▸ part) encoder_impl e).0 front l 0) (sym (append_assoc w v behind))
        (hp.room (total encoder_impl e).0 front (v ++ behind) (
          ht.room e (length w + front) behind
            (subst (λ k. Holds e k behind 0) (omega (arith, length-append w v)) h)));
}

pub Writes-optional :
    (test : Bool) (part : Template) (w : List ℕ)
    → Writes part w
    → Writes (optional test part) (if test then w else [])
Writes-optional true part w h = h
Writes-optional false part w h = Writes-nothing

-- What a loop writes: the parts of the elements, the first one in front.
abbrev pub all_parts {ℓ} : {A : Type ℓ} → (A → List ℕ) → List A → List ℕ
all_parts bytes [] = []
all_parts bytes (x ∷ xs) = bytes x ++ all_parts bytes xs

pub Writes-each {ℓ κ} :
    {A : Type ℓ} (IsGood : A → Type κ) (part : A → Template) (bytes : A → List ℕ)
    → ((x : A) → IsGood x → Writes (part x) (bytes x))
    → (xs : List A) → All IsGood xs
    → Writes (each_reversed part xs) (all_parts bytes xs)
Writes-each IsGood part bytes good [] h = Writes-nothing
Writes-each IsGood part bytes good (x ∷ xs) (h, hs) =
    Writes-▸ (each_reversed part xs) (part x) (all_parts bytes xs) (bytes x)
      (Writes-each IsGood part bytes good xs hs) (good x h)

pub length-tlv :
    (t : ℕ) (v : List ℕ)
    → length (tlv t v) ≡ length v + (size_of_var_number (length v) + size_of_var_number t)
length-tlv t v = omega (
  arith,
  length-append (var_number t) (var_number (length v) ++ v),
  length-append (var_number (length v)) v,
  length-var_number t,
  length-var_number (length v),
)

pub var_number-size :
    (e : Encoder) (n : ℕ) → (Encoder.prepend_var_number e n).1 ≡ size_of_var_number n
var_number-size e n = (var_number-agree e n).0 ∙ prepend_var_number-size n

sum_of_sizes :
    (a b c : ℕ) (t : ℕ) (v : List ℕ)
    → length v < 2 ^ 64
    → a ≡ length v
    → b ≡ size_of_var_number a
    → c ≡ size_of_var_number t
    → add64 (add64 a b) c ≡ length (tlv t v) % 2 ^ 64
sum_of_sizes a b c t v h ha hb hc =
    let hb' : b ≡ size_of_var_number (length v) = rw (hb, ha) refl in omega (arith, length-tlv t v)

-- The header in front of a value.
pub Writes-header :
    (total : Template) (t : ℕ) (v : List ℕ)
    → Writes total v
    → length v < 2 ^ 64
    → Writes (close t total) (tlv t v)
Writes-header total t v h fits = record {
  estimate =
      sum_of_sizes _ _ _ t v fits (omega (arith, h.estimate)) (prepend_var_number-size _)
        (prepend_var_number-size t);
  count = λ e.
      sum_of_sizes _ _ _ t v fits (omega (arith, h.count e)) (var_number-size _ _)
        (var_number-size _ t);
  room = λ e front behind room.
      let total_length : (total encoder_impl e).1 ≡ length v = omega (arith, h.count e) in
      let behind_type = size_of_var_number t + front in
      let sizes : length (tlv t v) + front
          ≡ length v + (size_of_var_number (length v) + behind_type) =
        omega (arith, length-tlv t v) in
      subst (λ l. Holds (close t total encoder_impl e).0 front l 0)
        (ap (λ (l : List ℕ). var_number t ++ l)
            (sym (append_assoc (var_number (length v)) v behind))
          ∙ sym (append_assoc (var_number t) (var_number (length v) ++ v) behind))
        (prepend_var_number-Holds _ front (var_number (length v) ++ (v ++ behind)) 0 t (
          rw total_length (
            prepend_var_number-Holds _ behind_type (v ++ behind) 0 (length v) (
              h.room e (size_of_var_number (length v) + behind_type) behind
                (subst (λ k. Holds e k behind 0) sizes room)))));
}

-- A template that writes a TLV makes exactly that block.
pub encode_alone-whole :
    (template : Template) (t : ℕ) (v : List ℕ)
    → Writes template (tlv t v)
    → t < 2 ^ 32
    → length (tlv t v) < 2 ^ 64
    → encode_alone template ≡ ok (whole t v)
unfolding encode_alone
encode_alone-whole template t v h ht fits =
    let size = (template estimator_impl tt).1 in
    let start = Encoder.create size 0 in
    let exact : size ≡ length (tlv t v) + 0 = omega (arith, h.estimate) in
    let room = subst (λ k. Holds start k [] 0) exact (create-Holds size) in
    of_encoder-Holds _ t v ht (omega (arith, length-tlv t v)) (
      subst (λ l. Holds (template encoder_impl start).0 0 l 0) (append-nil (tlv t v))
        (h.room start 0 [] room))

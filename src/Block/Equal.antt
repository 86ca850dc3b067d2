-- ===== src/Block/Equal.antt =====
-- std::equal, as encoding/block.cpp and name-component.hpp call it: equality of byte strings.
use ndn_cxx_logging.Base.{ℕ, ◌≡◌, ◌↔◌, refl, true, List, [], ◌∷◌, ==_refl, arith}
use ndn_cxx_logging.Block.Elements.{equal_bytes}
use mathlib.Core.Path.{subst}

pub equal_bytes-eq : (xs ys : List ℕ) → equal_bytes xs ys ≡ true → xs ≡ ys
unfolding equal_bytes
equal_bytes-eq [] [] h = refl
equal_bytes-eq [] (y ∷ ys) h = cc
equal_bytes-eq (x ∷ xs) [] h = cc
equal_bytes-eq (x ∷ xs) (y ∷ ys) h = ground (arith, equal_bytes-eq xs ys)

pub equal_bytes_refl : (xs : List ℕ) → equal_bytes xs xs ≡ true
unfolding equal_bytes
equal_bytes_refl [] = refl
equal_bytes_refl (x ∷ xs) = rw (==_refl x) (equal_bytes_refl xs)

pub equal_bytes_iff : (xs ys : List ℕ) → (equal_bytes xs ys ≡ true) ↔ (xs ≡ ys)
equal_bytes_iff xs ys =
    (equal_bytes-eq xs ys, λ e. subst (λ l. equal_bytes xs l ≡ true) e (equal_bytes_refl xs))

-- ===== src/Base/Strings.antt =====
-- Strings as lists of bytes: finding a character, and equality.
use Prim.Native.Nat.{ℕ, suc}
use mathlib.Core.Path.{◌≡◌, refl}
use mathlib.Core.Logic.{◌≢◌, ◌↔◌}
use mathlib.Core.Bool.{Bool, true, false}
use mathlib.Core.Option.{Option, none, some}
use mathlib.Core.List.{List, [], ◌∷◌, ◌++◌}
use native.Mathlib.Omega.{arith}
use ndn_cxx_logging.Base.Tests.{◌==◌, if◌then◌else◌, ==_refl}
use ndn_cxx_logging.Base.Lists.{All, length}
use mathlib.Core.Path.{subst}

-- std::string::find of a character: npos is `none`.
unfoldable pub find_char : ℕ → List ℕ → Option ℕ
find_char c [] = none
find_char c (x ∷ s) =
    if x == c then some 0 else elim (find_char c s) [ none ↦ none | some i ↦ some (suc i) ]

pub find_char-none : (c : ℕ) (s : List ℕ) → All (λ x. x ≢ c) s → find_char c s ≡ none
unfolding find_char
find_char-none c [] h = refl
find_char-none c (x ∷ s) h = ground (arith, find_char-none c s h.1)

-- The first one is where it is put behind other characters.
pub find_char-first :
    (c : ℕ) (s rest : List ℕ) → All (λ x. x ≢ c) s → find_char c (s ++ (c ∷ rest)) ≡ some (length s)
unfolding find_char
find_char-first c [] rest h = ground arith
find_char-first c (x ∷ s) rest h = ground (arith, find_char-first c s rest h.1)

-- operator== of strings.
unfoldable pub string_equals : List ℕ → List ℕ → Bool
string_equals [] [] = true
string_equals (x ∷ s) (y ∷ t) = if x == y then string_equals s t else false
string_equals _ _ = false

pub string_equals-eq : (s t : List ℕ) → string_equals s t ≡ true → s ≡ t
unfolding string_equals
string_equals-eq [] [] h = refl
string_equals-eq [] (y ∷ t) h = cc
string_equals-eq (x ∷ s) [] h = cc
string_equals-eq (x ∷ s) (y ∷ t) h = ground (arith, string_equals-eq s t)

pub string_equals_refl : (s : List ℕ) → string_equals s s ≡ true
unfolding string_equals
string_equals_refl [] = refl
string_equals_refl (x ∷ s) = rw (==_refl x) (string_equals_refl s)

pub string_equals_iff : (s t : List ℕ) → (string_equals s t ≡ true) ↔ (s ≡ t)
string_equals_iff s t =
    (string_equals-eq s t, λ e. subst (λ l. string_equals s l ≡ true) e (string_equals_refl s))

pub string_equals_sym : (s t : List ℕ) → string_equals s t ≡ string_equals t s
unfolding string_equals
string_equals_sym [] [] = refl
string_equals_sym [] (y ∷ t) = refl
string_equals_sym (x ∷ s) [] = refl
string_equals_sym (x ∷ s) (y ∷ t) = ground (arith, string_equals_sym s t)

-- ===== src/Logger/Config.antt =====
-- logger-factory.cpp: what a configuration string sets.
use ndn_cxx_logging.Base.{
  ℕ, suc, ◌≡◌, ◌≢◌, refl, ap, ◌∙◌, List, [], ◌∷◌, ◌++◌, if◌then◌else◌, All, arith, ok, length, drop,
  take-append, drop_behind,
}
use ndn_cxx_logging.Base.Strings.{find_char-first, string_equals}
use ndn_cxx_logging.Logger.{
  LogLevel, LoggerFactory, default_module, level_name, parse_level, parse_module, config_modules,
  set_modules, set_severity_level_impl, set_severity_levels,
}
use ndn_cxx_logging.Logger.Levels.{configured, configured-set}
use mathlib.Core.List.{append_assoc}

-- A level for a module, or for all of them.
abbrev pub Assignment : Type 0
Assignment = List ℕ × LogLevel

-- The name has none of the two characters that a configuration is cut at.
abbrev pub IsModuleName : List ℕ → Type 0
IsModuleName m = All (λ c. (c ≢ b':') × (c ≢ b'=')) m

abbrev pub HasModuleName : Assignment → Type 0
HasModuleName (m, level) = IsModuleName m

-- "module=LEVEL:", for each assignment.
unfoldable pub texts : List Assignment → List ℕ
texts [] = []
texts ((m, level) ∷ assignments) = (m ++ (b'=' ∷ level_name level)) ++ (b':' ∷ texts assignments)

abbrev pub assign_all : LoggerFactory → List Assignment → LoggerFactory
assign_all factory [] = factory
assign_all factory ((m, level) ∷ assignments) =
    assign_all (set_severity_level_impl factory m level) assignments

-- The last assignment that concerns the module.
abbrev pub last_level : List Assignment → List ℕ → LogLevel → LogLevel
last_level [] n level = level
last_level ((m, level) ∷ assignments) n old =
    last_level assignments n
      (if string_equals m default_module then level else if string_equals m n then level else old)

configured-assign_all :
    (factory : LoggerFactory) (assignments : List Assignment) (n : List ℕ)
    → configured (assign_all factory assignments) n
      ≡ last_level assignments n (configured factory n)
configured-assign_all factory [] n = refl
configured-assign_all factory ((m, level) ∷ assignments) n =
    configured-assign_all (set_severity_level_impl factory m level) assignments n
    ∙ ap (λ (l : LogLevel). last_level assignments n l) (configured-set factory m n level)

config_modules-line :
    (line rest : List ℕ)
    → All (λ c. c ≢ b':') line
    → config_modules (line ++ (b':' ∷ rest)) ≡ line ∷ config_modules rest
unfolding config_modules
config_modules-line [] rest h = refl
config_modules-line (c ∷ line) rest h = ground (arith, config_modules-line line rest h.1)

level_name-no_colon : (level : LogLevel) → All (λ c. c ≢ b':') (level_name level)
level_name-no_colon LogLevel.fatal = omega arith
level_name-no_colon LogLevel.none_level = omega arith
level_name-no_colon LogLevel.error = omega arith
level_name-no_colon LogLevel.warn = omega arith
level_name-no_colon LogLevel.info = omega arith
level_name-no_colon LogLevel.debug = omega arith
level_name-no_colon LogLevel.trace = omega arith
level_name-no_colon LogLevel.all = omega arith

parse_level-level_name : (level : LogLevel) → parse_level (level_name level) ≡ ok level
unfolding parse_level string_equals
parse_level-level_name LogLevel.fatal = refl
parse_level-level_name LogLevel.none_level = refl
parse_level-level_name LogLevel.error = refl
parse_level-level_name LogLevel.warn = refl
parse_level-level_name LogLevel.info = refl
parse_level-level_name LogLevel.debug = refl
parse_level-level_name LogLevel.trace = refl
parse_level-level_name LogLevel.all = refl

line-no_colon :
    (m : List ℕ) (level : LogLevel)
    → IsModuleName m
    → All (λ c. c ≢ b':') (m ++ (b'=' ∷ level_name level))
line-no_colon [] level h = (omega arith, level_name-no_colon level)
line-no_colon (c ∷ m) level h = (h.0.0, line-no_colon m level h.1)

no_equals : (m : List ℕ) → IsModuleName m → All (λ c. c ≢ b'=') m
no_equals [] h = tt
no_equals (c ∷ m) h = (h.0.1, no_equals m h.1)

parse_module-line :
    (m : List ℕ) (level : LogLevel)
    → IsModuleName m
    → parse_module (m ++ (b'=' ∷ level_name level)) ≡ ok (m, level)
unfolding parse_module
parse_module-line m level h =
    let found = find_char-first b'=' m (level_name level) (no_equals m h) in
    let front = take-append (length m) m (b'=' ∷ level_name level) refl in
    let back : parse_level (drop (suc (length m)) (m ++ (b'=' ∷ level_name level))) ≡ ok level =
      rw (drop_behind (length m) m b'=' (level_name level) refl) (parse_level-level_name level) in
    rw (parse_module, found, back) (rw front refl)

-- A configuration that begins with assignments, "module=LEVEL:" for names without a colon and an
-- equals sign, makes them one after the other, and goes on behind them: if what follows throws, they
-- stay. Behind them a module is configured to the level of the last assignment for it or for "*".
pub set_severity_levels-texts :
    (factory : LoggerFactory) (assignments : List Assignment) (rest n : List ℕ)
    → All HasModuleName assignments
    → (set_severity_levels factory (texts assignments ++ rest)
        ≡ set_severity_levels (assign_all factory assignments) rest)
      × (configured (assign_all factory assignments) n
          ≡ last_level assignments n (configured factory n))
unfolding set_severity_levels texts
set_severity_levels-texts factory [] rest n h = (refl, refl)
set_severity_levels-texts factory ((m, level) ∷ assignments) rest n h =
    let line = m ++ (b'=' ∷ level_name level) in
    let (made, last) =
      set_severity_levels-texts (set_severity_level_impl factory m level) assignments rest n h.1 in
    let lines : config_modules ((line ++ (b':' ∷ texts assignments)) ++ rest)
        ≡ line ∷ config_modules (texts assignments ++ rest) =
      rw (append_assoc line (b':' ∷ texts assignments) rest)
        (config_modules-line line (texts assignments ++ rest) (line-no_colon m level h.0)) in
    (
      rw lines (rw (set_modules, parse_module-line m level h.0) made),
      configured-assign_all factory ((m, level) ∷ assignments) n,
    )

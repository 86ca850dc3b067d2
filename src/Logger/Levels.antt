-- ===== src/Logger/Levels.antt =====
-- logger-factory.cpp: the loggers' levels follow from the enabled levels.
use ndn_cxx_logging.Base.{
  ℕ, ◌≡◌, refl, sym, Option, none, some, List, [], ◌∷◌, if◌then◌else◌, All, All-append, Bool-cases,
  inl, inr, arith, Result-cases,
}
use ndn_cxx_logging.Base.Strings.{
  string_equals, string_equals-eq, string_equals_refl, string_equals_sym,
}
use ndn_cxx_logging.Logger.{
  LogLevel, Logger, LoggerFactory, default_module, find_level, assign_level, level_of_new,
  add_logger, set_all, set_equal_range, set_severity_level_impl, set_modules, parse_module,
  set_severity_levels, config_modules, create,
}

-- What the factory is configured to: the level of a module, its own, or the default one, or INFO.
abbrev pub configured : LoggerFactory → List ℕ → LogLevel
configured factory module_name = level_of_new factory.enabled_level module_name

-- Every logger has the level that the factory is configured to for its module.
abbrev pub IsConsistent : LoggerFactory → Type 0
IsConsistent factory =
    All (λ logger. logger.current_level ≡ configured factory logger.module_name) factory.loggers

find_level-assign :
    (levels : List (List ℕ × LogLevel)) (m n : List ℕ) (level : LogLevel)
    → find_level (assign_level levels m level) n
      ≡ (if string_equals m n then some level else find_level levels n)
unfolding find_level assign_level
find_level-assign [] m n level = refl
find_level-assign ((key, old) ∷ levels) m n level = ground (
  arith,
  find_level-assign levels m n level,
  string_equals-eq key m,
  string_equals-eq key n,
  string_equals-eq m n,
  string_equals_refl n,
)

-- A configured level after one call: the default module is every module, and takes the place of what
-- was configured before; any other module is itself.
pub configured-set :
    (factory : LoggerFactory) (m n : List ℕ) (level : LogLevel)
    → configured (set_severity_level_impl factory m level) n ≡ (
        if string_equals m default_module
        then level
        else if string_equals m n
        then level
        else configured factory n)
unfolding set_severity_level_impl level_of_new
configured-set factory m n level = elim (Bool-cases (string_equals m default_module)) [
  | inl default ↦
      rw default (unfold find_level in ground (arith, string_equals_refl default_module))
  | inr own ↦ ground (
    arith,
    find_level-assign factory.enabled_level m n level,
    find_level-assign factory.enabled_level m default_module level,
  )
]

set_all-levels :
    (level : LogLevel) (of : List ℕ → LogLevel) (loggers : List Logger)
    → ((n : List ℕ) → of n ≡ level)
    → All (λ logger. logger.current_level ≡ of logger.module_name) (set_all level loggers)
unfolding set_all
set_all-levels level of [] h = tt
set_all-levels level of (logger ∷ loggers) h =
    (sym (h logger.module_name), set_all-levels level of loggers h)

set_equal_range-levels :
    (m : List ℕ) (level : LogLevel) (old new : List ℕ → LogLevel) (loggers : List Logger)
    → ((n : List ℕ) → new n ≡ (if string_equals m n then level else old n))
    → All (λ logger. logger.current_level ≡ old logger.module_name) loggers
    → All
        (λ logger. logger.current_level ≡ new logger.module_name)
        (set_equal_range m level loggers)
unfolding set_equal_range
set_equal_range-levels m level old new [] h k = tt
set_equal_range-levels m level old new (logger ∷ loggers) h (k, ks) = (
  ground (arith, h logger.module_name, string_equals_sym m logger.module_name, k),
  set_equal_range-levels m level old new loggers h ks,
)

add_logger-IsConsistent :
    (factory : LoggerFactory) (module_name : List ℕ)
    → IsConsistent factory
    → IsConsistent (add_logger factory module_name)
unfolding add_logger
add_logger-IsConsistent factory module_name h = All-append _ factory.loggers _ h (refl, tt)

set_severity_level_impl-IsConsistent :
    (factory : LoggerFactory) (m : List ℕ) (level : LogLevel)
    → IsConsistent factory
    → IsConsistent (set_severity_level_impl factory m level)
unfolding set_severity_level_impl
set_severity_level_impl-IsConsistent factory m level h =
    elim (Bool-cases (string_equals m default_module)) [
      | inl default ↦ rw default (
          set_all-levels level _ factory.loggers
            (λ n. ground (arith, configured-set factory m n level)))
      | inr own ↦ rw own (
          set_equal_range-levels m level (configured factory) _ factory.loggers
            (λ n. ground (arith, configured-set factory m n level)) h)
    ]

set_modules-IsConsistent :
    (factory : LoggerFactory) (modules : List (List ℕ))
    → IsConsistent factory
    → IsConsistent (set_modules factory modules).0
unfolding set_modules
set_modules-IsConsistent factory [] h = h
set_modules-IsConsistent factory (config_module ∷ modules) h =
    elim (Result-cases (parse_module config_module)) [
      | inl ((m, level), good) ↦
          rw (set_modules, good)
            (set_modules-IsConsistent (set_severity_level_impl factory m level) modules
              (set_severity_level_impl-IsConsistent factory m level h))
      | inr (e, bad) ↦ rw (set_modules, bad) h
    ]

-- A call of the factory: the construction of a logger, and setSeverityLevels.
pub data Call : Type 0 where
  add set_levels : List ℕ → Call

unfoldable pub after_call : LoggerFactory → Call → LoggerFactory
after_call factory (Call.add module_name) = add_logger factory module_name
after_call factory (Call.set_levels config) = (set_severity_levels factory config).0

unfoldable pub after_calls : LoggerFactory → List Call → LoggerFactory
after_calls factory [] = factory
after_calls factory (call ∷ calls) = after_calls (after_call factory call) calls

after_calls-IsConsistent :
    (factory : LoggerFactory) (calls : List Call)
    → IsConsistent factory
    → IsConsistent (after_calls factory calls)
unfolding after_calls after_call set_severity_levels
after_calls-IsConsistent factory [] h = h
after_calls-IsConsistent factory (Call.add m ∷ calls) h =
    after_calls-IsConsistent (add_logger factory m) calls (add_logger-IsConsistent factory m h)
after_calls-IsConsistent factory (Call.set_levels config ∷ calls) h =
    after_calls-IsConsistent _ calls (set_modules-IsConsistent factory (config_modules config) h)

-- In whatever order loggers are constructed and levels are set, before or behind one another, and
-- also if a configuration throws half-way: every logger has the level that the factory is configured
-- to for its module.
pub create-IsConsistent :
    (environ : Option (List ℕ)) (calls : List Call)
    → IsConsistent (after_calls (create environ).0 calls)
unfolding create set_severity_levels
create-IsConsistent none calls = after_calls-IsConsistent _ calls tt
create-IsConsistent (some config) calls =
    after_calls-IsConsistent _ calls (set_modules-IsConsistent _ (config_modules config) tt)

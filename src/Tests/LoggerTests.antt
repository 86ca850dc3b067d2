-- ===== src/Tests/LoggerTests.antt =====
-- Concrete runs of logger-factory.cpp, and the theorems about it at concrete inputs.
use ndn_cxx_logging.Base.{ℕ, ◌≡◌, some, List, [], ◌∷◌, ◌++◌, if◌then◌else◌, arith}
use ndn_cxx_logging.Base.Strings.{string_equals}
use ndn_cxx_logging.Logger.{
  LogLevel, LoggerFactory, default_module, set_severity_level_impl, set_severity_levels, create,
}
use ndn_cxx_logging.Logger.Levels.{
  configured, configured-set, IsConsistent, Call, after_calls, create-IsConsistent,
}
use ndn_cxx_logging.Logger.Config.{
  Assignment, texts, assign_all, last_level, set_severity_levels-texts,
}

-- Modules "a" and "b"
abbrev module_a : List ℕ
module_a = b'a' ∷ []

abbrev module_b : List ℕ
module_b = b'b' ∷ []

abbrev factory : LoggerFactory
factory = record {
  enabled_level = (module_a, LogLevel.trace) ∷ [];
  loggers = record { module_name = module_a; current_level = LogLevel.trace } ∷ [];
}

configured-set_example :
    configured (set_severity_level_impl factory module_b LogLevel.warn) module_a ≡ (
      if string_equals module_b default_module
      then LogLevel.warn
      else if string_equals module_b module_a
      then LogLevel.warn
      else configured factory module_a)
configured-set_example = configured-set factory module_b module_a LogLevel.warn

-- A logger of "a", "*=DEBUG" from the environment, then "a=TRACE" and another logger.
create-IsConsistent_example : IsConsistent (
    after_calls (create (some (texts ((default_module, LogLevel.debug) ∷ [])))).0 (
      Call.add module_a
      ∷ Call.set_levels (texts ((module_a, LogLevel.trace) ∷ []))
      ∷ Call.add module_b
      ∷ []))
create-IsConsistent_example =
    create-IsConsistent (some (texts ((default_module, LogLevel.debug) ∷ []))) (
      Call.add module_a
      ∷ Call.set_levels (texts ((module_a, LogLevel.trace) ∷ []))
      ∷ Call.add module_b
      ∷ [])

abbrev assignments : List Assignment
assignments = (default_module, LogLevel.error) ∷ (module_a, LogLevel.all) ∷ []

set_severity_levels-texts_example :
    (set_severity_levels factory (texts assignments ++ module_b)
      ≡ set_severity_levels (assign_all factory assignments) module_b)
    × (configured (assign_all factory assignments) module_b
        ≡ last_level assignments module_b (configured factory module_b))
set_severity_levels-texts_example =
    set_severity_levels-texts factory assignments module_b module_b
      (((omega arith, omega arith), tt), (((omega arith, omega arith), tt), tt))

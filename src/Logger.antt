-- ===== src/Logger.antt =====
-- src/util/logger.hpp, logger.cpp, logger-factory.hpp and logger-factory.cpp: the levels of loggers.
-- A string is the list of its bytes. The calls are made one after the other: the mutex is held for one
-- module of a configuration at a time, so calls of several threads may stand between two modules.
pub mod Levels
pub mod Config
use ndn_cxx_logging.Base.{
  ℕ, zero, suc, ℤ, pos, negsuc, Bool, true, false, Option, none, some, List, [], ◌∷◌, ◌++◌, leb,
  ◌==◌, if◌then◌else◌, take, drop, Result, ok, err,
}
use ndn_cxx_logging.Base.Strings.{find_char, string_equals}

pub data LogLevel : Type 0 where
  fatal none_level error warn info debug trace all : LogLevel

-- The values of the enumerators.
abbrev pub level_value : LogLevel → ℤ
level_value LogLevel.fatal = negsuc 0
level_value LogLevel.none_level = pos 0
level_value LogLevel.error = pos 1
level_value LogLevel.warn = pos 2
level_value LogLevel.info = pos 3
level_value LogLevel.debug = pos 4
level_value LogLevel.trace = pos 5
level_value LogLevel.all = pos 255

-- `m >= n` on an int.
abbrev pub int_geb : ℤ → ℤ → Bool
int_geb (pos m) (pos n) = leb n m
int_geb (pos m) (negsuc n) = true
int_geb (negsuc m) (pos n) = false
int_geb (negsuc m) (negsuc n) = leb m n

pub record Logger : Type 0 where
  pub module_name : List ℕ
  pub current_level : LogLevel

unfoldable pub is_level_enabled : Logger → LogLevel → Bool
is_level_enabled logger level = int_geb (level_value logger.current_level) (level_value level)

abbrev pub set_level : LogLevel → Logger → Logger
set_level level logger = record logger { current_level = level }

-- The maps: `enabled_level` has one entry for each of its keys, and `loggers` are the objects that
-- the pointers of the multimap point to. A logger is added by its constructor only, so no object has
-- two entries.
pub record LoggerFactory : Type 0 where
  pub enabled_level : List (List ℕ × LogLevel)
  pub loggers : List Logger

-- "*"
abbrev pub default_module : List ℕ
default_module = b'*' ∷ []

-- std::unordered_map::find
unfoldable pub find_level : List (List ℕ × LogLevel) → List ℕ → Option LogLevel
find_level [] module_name = none
find_level ((key, level) ∷ levels) module_name =
    if string_equals key module_name then some level else find_level levels module_name

-- `m_enabledLevel[moduleName] = level`
unfoldable pub assign_level :
    List (List ℕ × LogLevel) → List ℕ → LogLevel → List (List ℕ × LogLevel)
assign_level [] module_name level = (module_name, level) ∷ []
assign_level ((key, old) ∷ levels) module_name level =
    if string_equals key module_name
    then (key, level) ∷ levels
    else (key, old) ∷ assign_level levels module_name level

-- addLogger: the level that the new logger gets.
unfoldable pub level_of_new : List (List ℕ × LogLevel) → List ℕ → LogLevel
unfolding find_level
level_of_new levels module_name = elim (find_level levels module_name) [
  | some level ↦ level
  | none ↦ elim (find_level levels default_module) [ some level ↦ level | none ↦ LogLevel.info ]
]

-- addLogger, and the constructor of a logger, which calls it.
unfoldable pub add_logger : LoggerFactory → List ℕ → LoggerFactory
unfolding level_of_new
add_logger factory module_name = record factory {
  loggers =
      factory.loggers
      ++ (record {
        module_name = module_name;
        current_level = level_of_new factory.enabled_level module_name;
      }
          ∷ []);
}

-- The loop over all loggers, and the one over those of one module.
unfoldable pub set_all : LogLevel → List Logger → List Logger
set_all level [] = []
set_all level (logger ∷ loggers) = set_level level logger ∷ set_all level loggers

unfoldable pub set_equal_range : List ℕ → LogLevel → List Logger → List Logger
set_equal_range module_name level [] = []
set_equal_range module_name level (logger ∷ loggers) =
    (if string_equals logger.module_name module_name then set_level level logger else logger)
    ∷ set_equal_range module_name level loggers

-- setSeverityLevelImpl
unfoldable pub set_severity_level_impl : LoggerFactory → List ℕ → LogLevel → LoggerFactory
unfolding set_all set_equal_range assign_level
set_severity_level_impl factory module_name level =
    if string_equals module_name default_module
    then record {
      enabled_level = (default_module, level) ∷ [];
      loggers = set_all level factory.loggers;
    }
    else record {
      enabled_level = assign_level factory.enabled_level module_name level;
      loggers = set_equal_range module_name level factory.loggers;
    }

-- The two std::invalid_argument exceptions.
pub data ConfigError : Type 0 where
  wrong_configuration unrecognized_level : ConfigError

-- "FATAL", and the other names.
abbrev pub level_name : LogLevel → List ℕ
level_name LogLevel.fatal = b'F' ∷ b'A' ∷ b'T' ∷ b'A' ∷ b'L' ∷ []
level_name LogLevel.none_level = b'N' ∷ b'O' ∷ b'N' ∷ b'E' ∷ []
level_name LogLevel.error = b'E' ∷ b'R' ∷ b'R' ∷ b'O' ∷ b'R' ∷ []
level_name LogLevel.warn = b'W' ∷ b'A' ∷ b'R' ∷ b'N' ∷ []
level_name LogLevel.info = b'I' ∷ b'N' ∷ b'F' ∷ b'O' ∷ []
level_name LogLevel.debug = b'D' ∷ b'E' ∷ b'B' ∷ b'U' ∷ b'G' ∷ []
level_name LogLevel.trace = b'T' ∷ b'R' ∷ b'A' ∷ b'C' ∷ b'E' ∷ []
level_name LogLevel.all = b'A' ∷ b'L' ∷ b'L' ∷ []

unfoldable pub parse_level : List ℕ → Result ConfigError LogLevel
parse_level level_str =
    if string_equals level_str (level_name LogLevel.fatal)
    then ok LogLevel.fatal
    else if string_equals level_str (level_name LogLevel.none_level)
    then ok LogLevel.none_level
    else if string_equals level_str (level_name LogLevel.error)
    then ok LogLevel.error
    else if string_equals level_str (level_name LogLevel.warn)
    then ok LogLevel.warn
    else if string_equals level_str (level_name LogLevel.info)
    then ok LogLevel.info
    else if string_equals level_str (level_name LogLevel.debug)
    then ok LogLevel.debug
    else if string_equals level_str (level_name LogLevel.trace)
    then ok LogLevel.trace
    else if string_equals level_str (level_name LogLevel.all)
    then ok LogLevel.all
    else err unrecognized_level

-- A character in front of the first line.
abbrev pub onto_line : ℕ → List (List ℕ) → List (List ℕ)
onto_line c [] = (c ∷ []) ∷ []
onto_line c (line ∷ lines) = (c ∷ line) ∷ lines

-- The lines that std::getline reads with the delimiter ':'. There is none behind the last delimiter
-- if nothing follows it.
unfoldable pub config_modules : List ℕ → List (List ℕ)
config_modules [] = []
config_modules (c ∷ config) =
    if c == b':' then [] ∷ config_modules config else onto_line c (config_modules config)

-- One round of setSeverityLevelsImpl: the module and the level of "module=level".
unfoldable pub parse_module : List ℕ → Result ConfigError (List ℕ × LogLevel)
unfolding parse_level
parse_module config_module = elim (find_char b'=' config_module) [
  | none ↦ err wrong_configuration
  | some ind ↦ elim (parse_level (drop (suc ind) config_module)) [
    | err e ↦ err e
    | ok level ↦ ok (take ind config_module, level)
  ]
]

-- The loop of setSeverityLevelsImpl: the factory behind it, and what it throws.
unfoldable pub set_modules : LoggerFactory → List (List ℕ) → LoggerFactory × Option ConfigError
unfolding parse_module
set_modules factory [] = (factory, none)
set_modules factory (config_module ∷ modules) = elim (parse_module config_module) [
  | err e ↦ (factory, some e)
  | ok (module_name, level) ↦
      set_modules (set_severity_level_impl factory module_name level) modules
]

-- setSeverityLevelsImpl, and setSeverityLevels
unfoldable pub set_severity_levels : LoggerFactory → List ℕ → LoggerFactory × Option ConfigError
unfolding set_modules config_modules
set_severity_levels factory config = set_modules factory (config_modules config)

-- LoggerFactory(): `environ` is the variable NDN_CXX_LOG, if there is one. Where it throws, the program has no
-- factory and the next call of get() runs it again; the model gives what it had built by then.
unfoldable pub create : Option (List ℕ) → LoggerFactory × Option ConfigError
unfolding set_severity_levels
create environ =
    let factory : LoggerFactory = record { enabled_level = []; loggers = [] } in
    elim environ [ none ↦ (factory, none) | some config ↦ set_severity_levels factory config ]

-- ===== src/Logging.antt =====
-- The configuration of loggers and their cache: minet/src/common/Log.cpp, and
-- minet/src/components/Logger.cpp and LoggerFactory.cpp.
pub mod Levels
pub mod Loads
pub mod Makes
pub mod Cache
mod Tests
use minet_core.Prelude.{
  ℕ, ◌+◌, List, [], ◌∷◌, Option, none, some, Bool, true, false, ◌&&◌, leb, ◌==◌, if◌then◌else◌,
  Bytes, codes, bytes_eq, equal,
}
use minet_core.Prelude.Map.{Map, find, insert}
use minet_core.Prelude.Result.{Result, Exception, returned, thrown, ◌>>=◌}

pub data LogLevel : Type 0 where
  all fine debug info warning error critical disabled invalid : LogLevel

-- `tolower` in the C locale
abbrev pub to_lower : ℕ → ℕ
to_lower c = if leb b'A' c && leb c b'Z' then c + 32 else c

abbrev pub lower : Bytes → Bytes
lower [] = []
lower (c ∷ s) = to_lower c ∷ lower s

-- The tests of `ParseLogLevel` on the text in lower case.
unfoldable pub level_of : Bytes → LogLevel
level_of s =
    if equal s (codes "all")
    then LogLevel.all
    else if equal s (codes "fine")
    then LogLevel.fine
    else if equal s (codes "debug")
    then LogLevel.debug
    else if equal s (codes "info")
    then LogLevel.info
    else if equal s (codes "warning")
    then LogLevel.warning
    else if equal s (codes "error")
    then LogLevel.error
    else if equal s (codes "critical")
    then LogLevel.critical
    else if equal s (codes "disabled")
    then LogLevel.disabled
    else LogLevel.invalid

-- `ParseLogLevel`
unfoldable pub parse_log_level : Bytes → LogLevel
parse_log_level s = level_of (lower s)

pub record LoggerSink : Type 0 where
  pub pattern : Bytes
  pub file : Bytes

pub record LoggerSpecification : Type 0 where
  pub name : Bytes
  pub level : LogLevel
  pub pattern : Bytes
  pub sinks : List LoggerSink

pub record LoggerConfig : Type 0 where
  pub default_level : LogLevel
  pub default_pattern : Bytes
  pub default_sinks : List LoggerSink
  pub specifications : Map Bytes LoggerSpecification

-- What is used of the library for JSON: whether `find` has a key, `value` for a text with a default, and
-- `value` with an empty object, of which the entries are gone through, with their keys. All but the
-- first throw on what has another type, as `key` does on what is no object.
pub record LogJson (C : Type 0) : Type 0 where
  pub has : C → Bytes → Bool
  pub text : C → Bytes → Bytes → Result Bytes
  pub entries : C → Bytes → Result (List C)
  pub named_entries : C → Bytes → Result (List (Result Bytes × C))

-- `parent ? parent->Level : LogLevel::Debug`
abbrev pub parent_level : Option LoggerSpecification → LogLevel
parent_level none = LogLevel.debug
parent_level (some s) = s.level

-- `parent ? parent->Pattern : ""`
abbrev pub parent_pattern : Option LoggerSpecification → Bytes
parent_pattern none = []
parent_pattern (some s) = s.pattern

-- The level that was parsed, or the exception.
abbrev pub valid_level : LogLevel → Result LogLevel
valid_level LogLevel.invalid = thrown Exception.runtime_error
valid_level level = returned level

-- The `catch` of `LoadLoggerConfig`
abbrev pub as_runtime_error {ℓ} : {A : Type ℓ} → Result A → Result A
as_runtime_error (returned a) = returned a
as_runtime_error (thrown e) = thrown Exception.runtime_error

-- `emplace`, which keeps what is there.
abbrev pub insert_if_absent :
    LoggerSpecification
    → Map Bytes LoggerSpecification
    → Option LoggerSpecification
    → Map Bytes LoggerSpecification
insert_if_absent s m none = insert s.name s m
insert_if_absent s m (some t) = m

abbrev pub emplace :
    LoggerSpecification → Map Bytes LoggerSpecification → Map Bytes LoggerSpecification
emplace s m = insert_if_absent s m (find s.name m)

module _ {C : Type 0} (json : LogJson C) where
  -- The level of `_ParseLoggerSpecification`
  abbrev pub read_level : C → Option LoggerSpecification → Result LogLevel
  read_level c parent =
      if json.has c (codes "level")
      then (do
        text ← json.text c (codes "level") (codes "Debug")
        valid_level (parse_log_level text))
      else returned (parent_level parent)

  -- The loop over the sinks: one without a file is left out.
  unfoldable pub read_sinks : Bytes → List C → Result (List LoggerSink)
  read_sinks pattern [] = returned []
  read_sinks pattern (c ∷ cs) = do
    p ← json.text c (codes "pattern") pattern
    file ← json.text c (codes "file") []
    sinks ← read_sinks pattern cs
    returned (if equal file [] then sinks else record { pattern = p; file = file } ∷ sinks)

  -- `_ParseLoggerSpecification`; the name is left empty.
  unfoldable pub parse_specification : C → Option LoggerSpecification → Result LoggerSpecification
  parse_specification c parent = do
    level ← read_level c parent
    pattern ← json.text c (codes "pattern") (parent_pattern parent)
    entries ← json.entries c (codes "sinks")
    sinks ← read_sinks pattern entries
    returned (record { name = []; level = level; pattern = pattern; sinks = sinks })

  -- The loop over the loggers.
  unfoldable pub read_loggers :
      LoggerSpecification
      → List (Result Bytes × C)
      → Map Bytes LoggerSpecification
      → Result (Map Bytes LoggerSpecification)
  read_loggers parent [] m = returned m
  read_loggers parent ((key, c) ∷ cs) m = do
    s ← parse_specification c (some parent)
    name ← key
    read_loggers parent cs (emplace (record s { name = name }) m)

  -- The `try` of `LoadLoggerConfig`
  abbrev pub read_all : LoggerSpecification → C → Result (Map Bytes LoggerSpecification)
  read_all d c = do loggers ← json.named_entries c (codes "loggers"); read_loggers d loggers []

  -- `LoadLoggerConfig`
  unfoldable pub load_logger_config : C → Result LoggerConfig
  load_logger_config c = do
    d ← parse_specification c none
    m ← as_runtime_error (read_all d c)
    returned (record {
      default_level = d.level;
      default_pattern = d.pattern;
      default_sinks = d.sinks;
      specifications = m;
    })

-- `spdlog::level::level_enum`
pub data SpdLevel : Type 0 where
  trace debug info warn err critical off : SpdLevel

-- `LogLevelToSpdLogLevel`
abbrev pub to_spd_level : LogLevel → SpdLevel
to_spd_level LogLevel.all = SpdLevel.trace
to_spd_level LogLevel.fine = SpdLevel.trace
to_spd_level LogLevel.debug = SpdLevel.debug
to_spd_level LogLevel.info = SpdLevel.info
to_spd_level LogLevel.warning = SpdLevel.warn
to_spd_level LogLevel.error = SpdLevel.err
to_spd_level LogLevel.critical = SpdLevel.critical
to_spd_level LogLevel.disabled = SpdLevel.off
to_spd_level LogLevel.invalid = SpdLevel.off

-- A logger of the library, behind `_impl` of `Logger`. `flush_on` gets the same level.
pub record Logger (S : Type 0) : Type 0 where
  pub name : Bytes
  pub sinks : List S
  pub level : SpdLevel
  pub flush_level : SpdLevel

-- What is used of the library for logging, on its state: the constructors of sinks on the standard
-- outputs and on a file, which throws when it cannot be opened, `set_pattern`, `register_logger`, which
-- throws when the name is taken, what a logger does with a message of a level, and `flush`.
pub record Spdlog (K S : Type 0) : Type 0 where
  pub stdout : K → S × K
  pub stderr : K → S × K
  pub file : K → Bytes → Result S × K
  pub set_pattern : K → S → Bytes → K
  pub register : K → Bytes → Result {0} Unit × K
  pub log : K → Logger S → SpdLevel → Bytes → K
  pub flush : K → Logger S → K

-- `LoggerFactory`, where loggers are shared.
pub record LoggerFactory (S : Type 0) : Type 0 where
  pub config : LoggerConfig
  pub loggers : Map Bytes (Logger S)

-- The specification of a logger, or the defaults.
abbrev pub specification : LoggerConfig → Bytes → Option LoggerSpecification → LoggerSpecification
specification c name none = record {
  name = name;
  level = c.default_level;
  pattern = c.default_pattern;
  sinks = c.default_sinks;
}
specification c name (some s) = s

module _ {K S : Type 0} (spd : Spdlog K S) where
  -- The constructor of a sink, by its file.
  abbrev pub make_sink : K → Bytes → Result S × K
  make_sink k file =
      if equal file (codes "stdout")
      then (let (s, k') = spd.stdout k in (returned s, k'))
      else if equal file (codes "stderr")
      then (let (s, k') = spd.stderr k in (returned s, k'))
      else spd.file k file

  -- `if (!sink.Pattern.empty())`
  abbrev pub with_pattern : K → Bytes → S → K
  with_pattern k pattern s = if equal pattern [] then k else spd.set_pattern k s pattern

  abbrev pub then_sinks : S → Result (List S) × K → Result (List S) × K
  then_sinks s (r, k) = ((do ss ← r; returned (s ∷ ss)), k)

  -- With a sink, or without one.
  abbrev pub after_sink : (S → K → Result (List S) × K) → Result S × K → Result (List S) × K
  after_sink more (thrown e, k) = (thrown e, k)
  after_sink more (returned s, k) = more s k

  -- The loop over the sinks of a specification.
  unfoldable pub init_sinks : K → List LoggerSink → Result (List S) × K
  init_sinks k [] = (returned [], k)
  init_sinks k (x ∷ xs) =
      after_sink (λ s k. then_sinks s (init_sinks (with_pattern k x.pattern s) xs))
        (make_sink k x.file)

  -- The end of `_Init`
  abbrev pub after_register :
      LoggerSpecification → List S → Result {0} Unit × K → Result (Logger S) × K
  after_register spec ss (thrown e, k) = (thrown e, k)
  after_register spec ss (returned u, k) = (
    returned (record {
      name = spec.name;
      sinks = ss;
      level = to_spd_level spec.level;
      flush_level = to_spd_level spec.level;
    }),
    k,
  )

  abbrev pub after_sinks : LoggerSpecification → Result (List S) × K → Result (Logger S) × K
  after_sinks spec (thrown e, k) = (thrown e, k)
  after_sinks spec (returned ss, k) = after_register spec ss (spd.register k spec.name)

  -- The constructor of `Logger`, with `_Init`
  unfoldable pub init : K → LoggerSpecification → Result (Logger S) × K
  init k spec = after_sinks spec (init_sinks k spec.sinks)

  abbrev pub after_init :
      LoggerFactory S → Bytes → Result (Logger S) × K → Result (Logger S) × LoggerFactory S × K
  after_init f name (thrown e, k) = (thrown e, f, k)
  after_init f name (returned l, k) =
      (returned l, record f { loggers = insert name l f.loggers }, k)

  -- `GetLogger`, after the search for the name
  abbrev pub find_or_make :
      LoggerFactory S → K → Bytes → Option (Logger S) → Result (Logger S) × LoggerFactory S × K
  find_or_make f k name (some l) = (returned l, f, k)
  find_or_make f k name none =
      after_init f name (init k (specification f.config name (find name f.config.specifications)))

  -- `GetLogger`
  unfoldable pub get_logger : LoggerFactory S → K → Bytes → Result (Logger S) × LoggerFactory S × K
  get_logger f k name = find_or_make f k name (find name f.loggers)

  -- What the member functions for messages do; without an `_impl`, as in the dummy logger, nothing.
  abbrev pub log : SpdLevel → Option (Logger S) → Bytes → K → K
  log level none message k = k
  log level (some l) message k = spd.log k l level message

  -- `Trace`, with a text or with a format, which the library makes a text
  abbrev pub log_trace : Option (Logger S) → Bytes → K → K
  log_trace l message k = log SpdLevel.trace l message k

  -- `Debug`
  abbrev pub log_debug : Option (Logger S) → Bytes → K → K
  log_debug l message k = log SpdLevel.debug l message k

  -- `Info`
  abbrev pub log_info : Option (Logger S) → Bytes → K → K
  log_info l message k = log SpdLevel.info l message k

  -- `Warn`
  abbrev pub log_warn : Option (Logger S) → Bytes → K → K
  log_warn l message k = log SpdLevel.warn l message k

  -- `Error`
  abbrev pub log_error : Option (Logger S) → Bytes → K → K
  log_error l message k = log SpdLevel.err l message k

  -- `Critical`
  abbrev pub log_critical : Option (Logger S) → Bytes → K → K
  log_critical l message k = log SpdLevel.critical l message k

  -- The destructor
  abbrev pub destroy : Option (Logger S) → K → K
  destroy none k = k
  destroy (some l) k = spd.flush k l

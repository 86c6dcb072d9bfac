-- ===== src/Logging/Loads.antt =====
-- What the configuration of loggers comes to: minet/src/common/Log.cpp.
use minet_core.Prelude.{
  List, [], ◌∷◌, Option, none, some, true, if◌then◌else◌, ◌≡◌, ◌≢◌, ◌⊎◌, inl, inr, refl, sym, All,
  Bool-cases, Bytes, codes, bytes_eq, equal, equal_iff,
}
use mathlib.Core.Path.{subst}
use minet_core.Prelude.Map.{Map, find, insert}
use minet_core.Prelude.Result.{Result, returned, thrown, ◌>>=◌}
use minet_core.Logging.{
  LogLevel, parse_log_level, LoggerSink, LoggerSpecification, LoggerConfig, LogJson, parent_level,
  parent_pattern, valid_level, as_runtime_error, read_level, read_sinks, parse_specification,
  insert_if_absent, emplace, read_loggers, read_all, load_logger_config,
}

-- A specification can be used: its level is none that was not understood, and every sink has a file.
pub record IsUsable (s : LoggerSpecification) : Type 0 where
  pub level_is : s.level ≢ LogLevel.invalid
  pub sinks_are : All (λ (x : LoggerSink). x.file ≢ []) s.sinks

-- An entry of the specifications.
abbrev pub IsEntry : Bytes × LoggerSpecification → Type 0
IsEntry (name, s) = (s.name ≡ name) × IsUsable s

pub record IsValid (c : LoggerConfig) : Type 0 where
  pub level_is : c.default_level ≢ LogLevel.invalid
  pub sinks_are : All (λ (x : LoggerSink). x.file ≢ []) c.default_sinks
  pub specifications_are : All IsEntry c.specifications

-- A call returns, with a property; what follows from an exception is `F`.
abbrev Good {ℓ} : {A : Type ℓ} → Type 0 → (A → Type 0) → Result A → Type 0
Good F P (returned a) = P a
Good F P (thrown e) = F

Good-bind {ℓ κ} :
    {A : Type ℓ} {B : Type κ} (F : Type 0) (P : A → Type 0) (Q : B → Type 0) (r : Result A)
    (f : A → Result B)
    → Good F P r
    → ((a : A) → P a → Good F Q (f a))
    → Good F Q (r >>= f)
Good-bind F P Q (returned a) f h g = g a h
Good-bind F P Q (thrown e) f h g = h

-- A level that is valid, or `F`.
abbrev IsLevel : Type 0 → LogLevel → Type 0
IsLevel F l = (l ≢ LogLevel.invalid) ⊎ F

valid_level-Good :
    (F : Type 0) (l : LogLevel) → IsLevel F l → Good F (λ m. m ≢ LogLevel.invalid) (valid_level l)
valid_level-Good F LogLevel.invalid (inl h) = absurd (h refl)
valid_level-Good F LogLevel.invalid (inr x) = x
valid_level-Good F LogLevel.all h = λ e. cc
valid_level-Good F LogLevel.fine h = λ e. cc
valid_level-Good F LogLevel.debug h = λ e. cc
valid_level-Good F LogLevel.info h = λ e. cc
valid_level-Good F LogLevel.warning h = λ e. cc
valid_level-Good F LogLevel.error h = λ e. cc
valid_level-Good F LogLevel.critical h = λ e. cc
valid_level-Good F LogLevel.disabled h = λ e. cc

module _ (F : Type 0) {C : Type 0} (json : LogJson C) where
  -- A sink has a text, or nothing, for its pattern and for its file; where it does not, there is `F`.
  pub record IsSinkOr (c : C) : Type 0 where
    pub pattern_is : (default : Bytes) → Good F (λ s. Unit) (json.text c (codes "pattern") default)
    pub file_is : Good F (λ s. Unit) (json.text c (codes "file") [])

  -- A specification has the word for a level, or no level, a text or nothing for its pattern, and sinks that have
  -- their types; where it does not, there is `F`.
  pub record IsSpecificationOr (c : C) : Type 0 where
    pub level_is :
        json.has c (codes "level") ≡ true
        → Good F (λ s. IsLevel F (parse_log_level s)) (json.text c (codes "level") (codes "Debug"))
    pub pattern_is : (default : Bytes) → Good F (λ s. Unit) (json.text c (codes "pattern") default)
    pub sinks_are : Good F (All IsSinkOr) (json.entries c (codes "sinks"))

  -- A logger of the configuration has its key, and is a specification.
  abbrev pub IsNamedOr : Result Bytes × C → Type 0
  IsNamedOr (key, c) = Good F (λ s. Unit) key × IsSpecificationOr c

  -- A configuration is a specification of the defaults, and has specifications for its loggers.
  pub record IsConfigOr (c : C) : Type 0 where
    pub defaults_are : IsSpecificationOr c
    pub loggers_are : Good F (All IsNamedOr) (json.named_entries c (codes "loggers"))

-- The JSON of a configuration has the types that are asked for: at the keys "level", "pattern" and "sinks" of the
-- configuration and of each entry of "loggers", and at "pattern" and "file" of each sink; and each level in
-- it is the word for a level.
abbrev pub IsTyped : {C : Type 0} → LogJson C → C → Type 0
IsTyped json c = IsConfigOr ⊥ json c

any-Good {ℓ} : {A : Type ℓ} (P : A → Type 0) (r : Result A) → ((a : A) → P a) → Good Unit P r
any-Good P (returned a) h = h a
any-Good P (thrown e) h = tt

any-All {ℓ} : {A : Type ℓ} (P : A → Type 0) (xs : List A) → ((a : A) → P a) → All P xs
any-All P [] h = tt
any-All P (x ∷ xs) h = (h x, any-All P xs h)

any-IsSinkOr : {C : Type 0} (json : LogJson C) (c : C) → IsSinkOr Unit json c
any-IsSinkOr json c = record {
  pattern_is = λ default. any-Good _ (json.text c (codes "pattern") default) (λ s. tt);
  file_is = any-Good _ (json.text c (codes "file") []) (λ s. tt);
}

any-IsSpecificationOr : {C : Type 0} (json : LogJson C) (c : C) → IsSpecificationOr Unit json c
any-IsSpecificationOr json c = record {
  level_is = λ h. any-Good _ (json.text c (codes "level") (codes "Debug")) (λ s. inr tt);
  pattern_is = λ default. any-Good _ (json.text c (codes "pattern") default) (λ s. tt);
  sinks_are = any-Good _ (json.entries c (codes "sinks")) (λ cs. any-All _ cs (any-IsSinkOr json));
}

any-IsNamedOr : {C : Type 0} (json : LogJson C) (x : Result Bytes × C) → IsNamedOr Unit json x
any-IsNamedOr json (key, c) = (any-Good _ key (λ s. tt), any-IsSpecificationOr json c)

any-IsConfigOr : {C : Type 0} (json : LogJson C) (c : C) → IsConfigOr Unit json c
any-IsConfigOr json c = record {
  defaults_are = any-IsSpecificationOr json c;
  loggers_are =
      any-Good _ (json.named_entries c (codes "loggers")) (λ cs. any-All _ cs (any-IsNamedOr json));
}

module _ (F : Type 0) {C : Type 0} (json : LogJson C) where
  -- The parent, if there is one, can be used.
  abbrev IsParent : Option LoggerSpecification → Type 0
  IsParent none = Unit
  IsParent (some s) = IsUsable s

  parent_level-ne :
      (parent : Option LoggerSpecification)
      → IsParent parent
      → parent_level parent ≢ LogLevel.invalid
  parent_level-ne none h e = cc
  parent_level-ne (some s) h e = h.level_is e

  read_level-Good :
      (c : C) (parent : Option LoggerSpecification)
      → IsSpecificationOr F json c
      → IsParent parent
      → Good F (λ m. m ≢ LogLevel.invalid) (read_level json c parent)
  read_level-Good c parent typed h = elim (Bool-cases (json.has c (codes "level"))) [
    | inl e ↦ rw e (
        Good-bind F _ _ (json.text c (codes "level") (codes "Debug")) _ (typed.level_is e)
          λ t ne. valid_level-Good F (parse_log_level t) ne)
    | inr e ↦ rw e (parent_level-ne parent h)
  ]

  abbrev HasFile : LoggerSink → Type 0
  HasFile x = x.file ≢ []

  keep_sink :
      (pattern file : Bytes) (xs : List LoggerSink)
      → All HasFile xs
      → All HasFile (if equal file [] then xs else record { pattern = pattern; file = file } ∷ xs)
  keep_sink pattern file xs h = elim (Bool-cases (equal file [])) [
    | inl e ↦ rw e h
    | inr e ↦ rw e ((λ empty. let same = (equal_iff file []).1 empty in cc), h)
  ]

  read_sinks-Good :
      (pattern : Bytes) (cs : List C)
      → All (IsSinkOr F json) cs
      → Good F (All HasFile) (read_sinks json pattern cs)
  unfolding read_sinks
  read_sinks-Good pattern [] typed = tt
  read_sinks-Good pattern (c ∷ cs) (t, ts) =
      Good-bind F _ _ (json.text c (codes "pattern") pattern) _ (t.pattern_is pattern) λ p u.
        Good-bind F _ _ (json.text c (codes "file") []) _ t.file_is λ file u.
          Good-bind F (All HasFile) _ (read_sinks json pattern cs) _ (read_sinks-Good pattern cs ts)
            λ xs h. keep_sink p file xs h

  parse_specification-Good :
      (c : C) (parent : Option LoggerSpecification)
      → IsSpecificationOr F json c
      → IsParent parent
      → Good F IsUsable (parse_specification json c parent)
  unfolding parse_specification
  parse_specification-Good c parent typed h =
      Good-bind F _ _ (read_level json c parent) _ (read_level-Good c parent typed h) λ level ne.
        Good-bind F _ _ (json.text c (codes "pattern") (parent_pattern parent)) _
          (typed.pattern_is _)
          λ pattern u. Good-bind F _ _ (json.entries c (codes "sinks")) _ typed.sinks_are λ es ts.
            Good-bind F (All HasFile) _ (read_sinks json pattern es) _
              (read_sinks-Good pattern es ts) λ xs h. record { level_is = ne; sinks_are = h }

  insert-All :
      (s : LoggerSpecification) (m : Map Bytes LoggerSpecification)
      → IsUsable s
      → All IsEntry m
      → All IsEntry (insert s.name s m)
  unfolding insert
  insert-All s [] h hs = ((refl, h), tt)
  insert-All s ((name, t) ∷ m) h (g, gs) = elim (Bool-cases (equal name s.name)) [
    | inl e ↦ rw e ((sym ((equal_iff name s.name).0 e), h), gs)
    | inr e ↦ rw e (g, insert-All s m h gs)
  ]

  insert_if_absent-All :
      (s : LoggerSpecification) (m : Map Bytes LoggerSpecification) (o : Option LoggerSpecification)
      → IsUsable s
      → All IsEntry m
      → All IsEntry (insert_if_absent s m o)
  insert_if_absent-All s m none h hs = insert-All s m h hs
  insert_if_absent-All s m (some t) h hs = hs

  emplace-All :
      (s : LoggerSpecification) (m : Map Bytes LoggerSpecification)
      → IsUsable s
      → All IsEntry m
      → All IsEntry (emplace s m)
  emplace-All s m h hs = insert_if_absent-All s m (find s.name m) h hs

  read_loggers-Good :
      (parent : LoggerSpecification) (cs : List (Result Bytes × C))
      (m : Map Bytes LoggerSpecification)
      → IsUsable parent
      → All (IsNamedOr F json) cs
      → All IsEntry m
      → Good F (All IsEntry) (read_loggers json parent cs m)
  unfolding read_loggers
  read_loggers-Good parent [] m p keys h = h
  read_loggers-Good parent ((key, c) ∷ cs) m p ((k, typed), ks) h =
      Good-bind F _ _ (parse_specification json c (some parent)) _
        (parse_specification-Good c (some parent) typed p)
        λ s u. Good-bind F _ _ key _ k λ name t.
          let s' : LoggerSpecification = record s { name = name } in
          read_loggers-Good parent cs (emplace s' m) p ks
            (emplace-All s' m (record { level_is = u.level_is; sinks_are = u.sinks_are }) h)

  as_runtime_error-Good {ℓ} :
      {A : Type ℓ} (P : A → Type 0) (r : Result A) → Good F P r → Good F P (as_runtime_error r)
  as_runtime_error-Good P (returned a) h = h
  as_runtime_error-Good P (thrown e) h = h

  IsValid-of :
      (d : LoggerSpecification) (m : Map Bytes LoggerSpecification)
      → IsUsable d
      → All IsEntry m
      → IsValid (record {
        default_level = d.level;
        default_pattern = d.pattern;
        default_sinks = d.sinks;
        specifications = m;
      })
  IsValid-of d m u h = record {
    level_is = u.level_is;
    sinks_are = u.sinks_are;
    specifications_are = h;
  }

  read_all-Good :
      (d : LoggerSpecification) (c : C)
      → IsConfigOr F json c
      → IsUsable d
      → Good F (All IsEntry) (read_all json d c)
  read_all-Good d c typed u =
      Good-bind F _ (All IsEntry) (json.named_entries c (codes "loggers")) _ typed.loggers_are
        λ cs keys. read_loggers-Good d cs [] u keys tt

  load-Good : (c : C) → IsConfigOr F json c → Good F IsValid (load_logger_config json c)
  unfolding load_logger_config
  load-Good c typed =
      Good-bind F _ IsValid (parse_specification json c none) _
        (parse_specification-Good c none typed.defaults_are tt)
        λ d u.
          Good-bind F (All IsEntry) IsValid (as_runtime_error (read_all json d c)) _
            (as_runtime_error-Good (All IsEntry) (read_all json d c) (read_all-Good d c typed u))
            λ m h. IsValid-of d m u h

module _ {C : Type 0} (json : LogJson C) where
  -- Any configuration that is loaded is valid.
  pub loaded-IsValid :
      (c : C) (config : LoggerConfig) → load_logger_config json c ≡ returned config → IsValid config
  loaded-IsValid c config e =
      subst (Good Unit IsValid) e (load-Good Unit json c (any-IsConfigOr json c))

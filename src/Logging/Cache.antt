-- ===== src/Logging/Cache.antt =====
-- The loggers that a factory has made: minet/src/components/LoggerFactory.cpp and Logger.cpp.
use minet_core.Prelude.{
  List, [], ◌∷◌, Option, none, some, Bool, true, false, if◌then◌else◌, ◌≡◌, ◌≢◌, ◌⊎◌, inl, inr,
  refl, sym, ap, ◌∙◌, All, length, Bool-cases, Bytes, bytes_eq, equal, equal_iff,
}
use mathlib.Core.Path.{subst}
use minet_core.Prelude.Map.{Map, find, insert, find-insert, find-insert_self}
use minet_core.Prelude.Result.{Result, Exception, returned, thrown}
use minet_core.Logging.Loads.{IsEntry, IsValid}
use minet_core.Logging.Makes.{IsSpdLevel, Refuses, IsBy, init-IsBy, init-thrown}
use minet_core.Logging.{
  LogLevel, LoggerSink, LoggerSpecification, LoggerConfig, Spdlog, Logger, LoggerFactory, init,
  specification, after_init, find_or_make, get_logger,
}

-- The level and the sinks that a configuration asks for under a name: those of the entry for the name, and
-- the defaults when there is none.
pub data Asks (c : LoggerConfig) (name : Bytes) : LogLevel → List LoggerSink → Type 0 where
  by_entry :
      {s : LoggerSpecification} → find name c.specifications ≡ some s → Asks c name s.level s.sinks
  by_default : find name c.specifications ≡ none → Asks c name c.default_level c.default_sinks

specification-Asks :
    (c : LoggerConfig) (name : Bytes) (o : Option LoggerSpecification)
    → find name c.specifications ≡ o
    → Asks c name (specification c name o).level (specification c name o).sinks
specification-Asks c name none e = by_default e
specification-Asks c name (some s) e = by_entry e

-- What a logger of a name has to be: it has the name, and what the configuration asks for under the name.
pub record IsOf {S : Type 0} (c : LoggerConfig) (name : Bytes) (l : Logger S) : Type 0 where
  pub level : LogLevel
  pub sinks : List LoggerSink
  pub asked : Asks c name level sinks
  pub name_is : l.name ≡ name
  pub level_is : IsSpdLevel level l.level
  pub flush_level_is : IsSpdLevel level l.flush_level
  pub sinks_are : length l.sinks ≡ length sinks

-- Every logger of a factory is what it has to be.
abbrev pub Made : {S : Type 0} → LoggerFactory S → Type 0
Made {S} f = (name : Bytes) (l : Logger S) → find name f.loggers ≡ some l → IsOf f.config name l

-- A factory gives a logger, and keeps its configuration; or it has none for the name, the library throws, and it
-- keeps its loggers too.
pub data Gives {K S : Type 0} (spd : Spdlog K S) (f : LoggerFactory S) (name : Bytes)
    : Result (Logger S) × LoggerFactory S × K → Type 0 where
  gives :
      {l : Logger S} {f' : LoggerFactory S} {k : K}
      → IsOf f.config name l
      → f'.config ≡ f.config
      → Made f'
      → Gives spd f name (returned l, f', k)
  refuses :
      {e : Exception} {k : K}
      → find name f.loggers ≡ none
      → Refuses spd name e
      → Gives spd f name (thrown e, f, k)

pick {ℓ} :
    {A : Type ℓ} (b : Bool) (a : A) (rest : Option A) {s : A}
    → (if b then some a else rest) ≡ some s
    → ((b ≡ true) × (a ≡ s)) ⊎ (rest ≡ some s)
pick true a rest e = inl (refl, cc)
pick false a rest e = inr e

find-name :
    (name : Bytes) (m : Map Bytes LoggerSpecification) {s : LoggerSpecification}
    → All IsEntry m
    → find name m ≡ some s
    → s.name ≡ name
unfolding find
find-name name [] hs e = cc
find-name name ((n, t) ∷ m) (h, hs) e = elim (pick (equal n name) t _ e) [
  | inl (same, at) ↦
      sym (ap (λ (s : LoggerSpecification). s.name) at) ∙ h.0 ∙ (equal_iff n name).0 same
  | inr later ↦ find-name name m hs later
]

specification-name :
    (c : LoggerConfig) (name : Bytes) (o : Option LoggerSpecification)
    → All IsEntry c.specifications
    → find name c.specifications ≡ o
    → (specification c name o).name ≡ name
specification-name c name none h e = refl
specification-name c name (some s) h e = find-name name c.specifications h e

module _ {K S : Type 0} (spd : Spdlog K S) where
  -- The results of `GetLogger`.
  abbrev Got : Type 0
  Got = Result (Logger S) × LoggerFactory S × K

  after_init-found :
      (f : LoggerFactory S) (name : Bytes) (r : Result (Logger S) × K) {l : Logger S}
      → (after_init spd f name r).0 ≡ returned l
      → find name (after_init spd f name r).1.loggers ≡ some l
  after_init-found f name (thrown e, k) h = cc
  after_init-found f name (returned l', k) h =
      let same : l' ≡ _ = cc in find-insert_self name l' f.loggers ∙ ap some same

  find_or_make-found :
      (f : LoggerFactory S) (k : K) (name : Bytes) (o : Option (Logger S)) {l : Logger S}
      → find name f.loggers ≡ o
      → (find_or_make spd f k name o).0 ≡ returned l
      → find name (find_or_make spd f k name o).1.loggers ≡ some l
  find_or_make-found f k name (some l) e h = cc
  find_or_make-found f k name none e h =
      after_init-found f name
        (init spd k (specification f.config name (find name f.config.specifications))) h

  none-ne : {l : Logger S} → none ≢ some l
  none-ne e = cc

  after_init-keeps :
      (f : LoggerFactory S) (name other : Bytes) (r : Result (Logger S) × K) {l : Logger S}
      → find other f.loggers ≡ none
      → find name f.loggers ≡ some l
      → find name (after_init spd f other r).1.loggers ≡ some l
  after_init-keeps f name other (thrown e, k) absent h = h
  after_init-keeps f name other (returned l', k) absent h =
      find-insert other name l' f.loggers ∙ elim (Bool-cases (equal other name)) [
        | inl e ↦
            let found = ap (λ n. find n f.loggers) ((equal_iff other name).0 e) in
            absurd (none-ne (sym absent ∙ found ∙ h))
        | inr e ↦ rw e h
      ]

  find_or_make-keeps :
      (f : LoggerFactory S) (k : K) (name other : Bytes) (o : Option (Logger S)) {l : Logger S}
      → find other f.loggers ≡ o
      → find name f.loggers ≡ some l
      → find name (find_or_make spd f k other o).1.loggers ≡ some l
  find_or_make-keeps f k name other (some l) e h = h
  find_or_make-keeps f k name other none e h = after_init-keeps f name other (init spd k _) e h

  -- When `GetLogger` has returned a logger for a name, then after a call for any name it returns the same
  -- logger for that name again, and neither the factory nor the library changes.
  pub get_logger-same :
      (f : LoggerFactory S) (k k' k'' : K) (name other : Bytes) (l : Logger S)
      → (get_logger spd f k name).0 ≡ returned l
      → let f1 = (get_logger spd f k name).1 in
        let f2 = (get_logger spd f1 k' other).1 in
        get_logger spd f2 k'' name ≡ (returned l, f2, k'')
  unfolding get_logger
  get_logger-same f k k' k'' name other l h =
      let f1 = (get_logger spd f k name).1 in
      let f2 = (get_logger spd f1 k' other).1 in
      let known =
        find_or_make-keeps f1 k' name other _ refl (find_or_make-found f k name _ refl h) in
      ap (find_or_make spd f2 k'' name) known

  IsBy-IsOf :
      (c : LoggerConfig) (name : Bytes) (l : Logger S)
      → IsValid c
      → IsBy spd (specification c name (find name c.specifications)) l
      → IsOf c name l
  IsBy-IsOf c name l valid by = record {
    level = (specification c name (find name c.specifications)).level;
    sinks = (specification c name (find name c.specifications)).sinks;
    asked = specification-Asks c name (find name c.specifications) refl;
    name_is = by.name_by ∙ specification-name c name _ valid.specifications_are refl;
    level_is = by.level_by;
    flush_level_is = by.flush_level_by;
    sinks_are = by.sinks_by;
  }

  Made-insert :
      (f : LoggerFactory S) (name : Bytes) (l : Logger S)
      → Made f
      → IsOf f.config name l
      → Made (record f { loggers = insert name l f.loggers })
  Made-insert f name l made h n t e =
      let step = sym (find-insert name n l f.loggers) ∙ e in
      elim (pick (equal name n) l _ step) [
        | inl (same, at) ↦
            subst (λ m. IsOf f.config m t) ((equal_iff name n).0 same)
              (subst (IsOf f.config name) at h)
        | inr later ↦ made n t later
      ]

  after_init-Gives :
      (f : LoggerFactory S) (name : Bytes) (r : Result (Logger S)) (k : K)
      → Made f
      → find name f.loggers ≡ none
      → ((l : Logger S) → r ≡ returned l → IsOf f.config name l)
      → ((e : Exception) → r ≡ thrown e → Refuses spd name e)
      → Gives spd f name (after_init spd f name (r, k))
  after_init-Gives f name (thrown e) k made absent h g = refuses absent (g e refl)
  after_init-Gives f name (returned l) k made absent h g =
      gives (h l refl) refl (Made-insert f name l made (h l refl))

  find_or_make-Gives :
      (f : LoggerFactory S) (k : K) (name : Bytes) (o : Option (Logger S))
      → IsValid f.config
      → Made f
      → find name f.loggers ≡ o
      → Gives spd f name (find_or_make spd f k name o)
  find_or_make-Gives f k name (some l) valid made e = gives (made name l e) refl made
  find_or_make-Gives f k name none valid made e =
      let s = specification f.config name (find name f.config.specifications) in
      let named : s.name ≡ name =
        specification-name f.config name (find name f.config.specifications)
          valid.specifications_are refl in
      let r = init spd k s in
      after_init-Gives f name r.0 r.1 made e
        (λ l h. IsBy-IsOf f.config name l valid (init-IsBy spd k s h))
        λ x h. subst (λ n. Refuses spd n x) named (init-thrown spd k s h)

  -- With a valid configuration and loggers that are what they have to be, `GetLogger` gives the logger of the name,
  -- with the level, for messages and for flushing, and the number of sinks that the configuration asks for,
  -- and keeps all loggers what they have to be. It throws only when there was no logger of the name and the
  -- library throws, which cannot open a file or register the name; the factory is then as before.
  pub get_logger-Gives :
      (f : LoggerFactory S) (k : K) (name : Bytes)
      → IsValid f.config
      → Made f
      → Gives spd f name (get_logger spd f k name)
  unfolding get_logger
  get_logger-Gives f k name valid made =
      find_or_make-Gives f k name (find name f.loggers) valid made refl

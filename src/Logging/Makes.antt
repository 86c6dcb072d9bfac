-- ===== src/Logging/Makes.antt =====
-- What `Logger::_Init` makes of a specification: minet/src/components/Logger.cpp.
use minet_core.Prelude.{
  ℕ, suc, List, [], ◌∷◌, Bool, true, false, if◌then◌else◌, ◌≡◌, refl, sym, ap, ◌∙◌, length, Bytes,
  codes, bytes_eq, equal,
}
use mathlib.Core.Path.{subst}
use minet_core.Prelude.Result.{Result, Exception, returned, thrown}
use minet_core.Logging.{
  LogLevel, SpdLevel, LoggerSink, LoggerSpecification, Spdlog, Logger, to_spd_level, make_sink,
  with_pattern, then_sinks, after_sink, init_sinks, after_register, after_sinks, init,
}

-- The level of the library for a level of the configuration.
pub data IsSpdLevel : LogLevel → SpdLevel → Type 0 where
  all_is : IsSpdLevel LogLevel.all SpdLevel.trace
  fine_is : IsSpdLevel LogLevel.fine SpdLevel.trace
  debug_is : IsSpdLevel LogLevel.debug SpdLevel.debug
  info_is : IsSpdLevel LogLevel.info SpdLevel.info
  warning_is : IsSpdLevel LogLevel.warning SpdLevel.warn
  error_is : IsSpdLevel LogLevel.error SpdLevel.err
  critical_is : IsSpdLevel LogLevel.critical SpdLevel.critical
  disabled_is : IsSpdLevel LogLevel.disabled SpdLevel.off
  invalid_is : IsSpdLevel LogLevel.invalid SpdLevel.off

to_spd_level-IsSpdLevel : (l : LogLevel) → IsSpdLevel l (to_spd_level l)
to_spd_level-IsSpdLevel LogLevel.all = all_is
to_spd_level-IsSpdLevel LogLevel.fine = fine_is
to_spd_level-IsSpdLevel LogLevel.debug = debug_is
to_spd_level-IsSpdLevel LogLevel.info = info_is
to_spd_level-IsSpdLevel LogLevel.warning = warning_is
to_spd_level-IsSpdLevel LogLevel.error = error_is
to_spd_level-IsSpdLevel LogLevel.critical = critical_is
to_spd_level-IsSpdLevel LogLevel.disabled = disabled_is
to_spd_level-IsSpdLevel LogLevel.invalid = invalid_is

-- Why the library throws: it cannot open a file, or the name is registered.
pub data Refuses {K S : Type 0} (spd : Spdlog K S) (name : Bytes) (e : Exception) : Type 0 where
  cannot_open : {k : K} {file : Bytes} → (spd.file k file).0 ≡ thrown e → Refuses spd name e
  cannot_register : {k : K} → (spd.register k name).0 ≡ thrown e → Refuses spd name e

module _ {K S : Type 0} (spd : Spdlog K S) where
  then_sinks-length :
      (s : S) (n : ℕ) (r : Result (List S)) (k : K) {ss : List S}
      → ((ts : List S) → r ≡ returned ts → length ts ≡ n)
      → (then_sinks spd s (r, k)).0 ≡ returned ss
      → length ss ≡ suc n
  then_sinks-length s n (returned ts) k h e =
      let same : s ∷ ts ≡ _ = cc in sym (ap length same) ∙ ap suc (h ts refl)
  then_sinks-length s n (thrown x) k h e = cc

  after_sink-length :
      (more : S → K → Result (List S) × K) (n : ℕ) (r : Result S) (k : K) {ss : List S}
      → ((s : S) (k : K) (ts : List S) → (more s k).0 ≡ returned ts → length ts ≡ n)
      → (after_sink spd more (r, k)).0 ≡ returned ss
      → length ss ≡ n
  after_sink-length more n (returned s) k h e = h s k _ e
  after_sink-length more n (thrown x) k h e = cc

  init_sinks-length :
      (xs : List LoggerSink) (k : K) {ss : List S}
      → (init_sinks spd k xs).0 ≡ returned ss
      → length ss ≡ length xs
  unfolding init_sinks
  init_sinks-length [] k h = let same : [] ≡ _ = cc in sym (ap length same)
  init_sinks-length (x ∷ xs) k h =
      let r = make_sink spd k x.file in
      after_sink-length _ (suc (length xs)) r.0 r.1
        (λ s k ts.
          let more = init_sinks spd (with_pattern spd k x.pattern s) xs in
          then_sinks-length s (length xs) more.0 more.1
            (λ us. init_sinks-length xs (with_pattern spd k x.pattern s)))
        h

  make_sink-thrown :
      (k : K) (file : Bytes) {e : Exception} (stdout stderr : Bool)
      → (if stdout
          then (returned (spd.stdout k).0, (spd.stdout k).1)
          else if stderr
          then (returned (spd.stderr k).0, (spd.stderr k).1)
          else spd.file k file).0
        ≡ thrown e
      → (spd.file k file).0 ≡ thrown e
  make_sink-thrown k file true stderr h = cc
  make_sink-thrown k file false true h = cc
  make_sink-thrown k file false false h = h

  -- The library could not open a file.
  abbrev CannotOpen : Exception → Type 0
  CannotOpen e = (k : K) × (file : Bytes) × ((spd.file k file).0 ≡ thrown e)

  then_sinks-thrown :
      (s : S) (r : Result (List S)) (k : K) {e : Exception}
      → (then_sinks spd s (r, k)).0 ≡ thrown e
      → r ≡ thrown e
  then_sinks-thrown s (returned ts) k h = cc
  then_sinks-thrown s (thrown x) k h = h

  after_sink-thrown :
      (more : S → K → Result (List S) × K) (r : Result S) (k : K) {e : Exception}
      → (r ≡ thrown e → CannotOpen e)
      → ((s : S) (k : K) → (more s k).0 ≡ thrown e → CannotOpen e)
      → (after_sink spd more (r, k)).0 ≡ thrown e
      → CannotOpen e
  after_sink-thrown more (returned s) k f g h = g s k h
  after_sink-thrown more (thrown x) k f g h = f cc

  init_sinks-thrown :
      (xs : List LoggerSink) (k : K) {e : Exception}
      → (init_sinks spd k xs).0 ≡ thrown e
      → CannotOpen e
  unfolding init_sinks
  init_sinks-thrown [] k h = cc
  init_sinks-thrown (x ∷ xs) k h =
      let r = make_sink spd k x.file in
      after_sink-thrown _ r.0 r.1
        (λ t. (
          k,
          x.file,
          make_sink-thrown k x.file (equal x.file (codes "stdout")) (equal x.file (codes "stderr"))
              t,
        ))
        (λ s k' t.
          let more = init_sinks spd (with_pattern spd k' x.pattern s) xs in
          init_sinks-thrown xs (with_pattern spd k' x.pattern s)
            (then_sinks-thrown s more.0 more.1 t))
        h

  after_register-thrown :
      (s : LoggerSpecification) (ss : List S) (r : Result {0} Unit) (k : K) {e : Exception}
      → (after_register spd s ss (r, k)).0 ≡ thrown e
      → r ≡ thrown e
  after_register-thrown s ss (thrown x) k h = cc
  after_register-thrown s ss (returned u) k h = cc

  after_sinks-thrown :
      (s : LoggerSpecification) (r : Result (List S)) (k : K) {e : Exception}
      → (r ≡ thrown e → CannotOpen e)
      → (after_sinks spd s (r, k)).0 ≡ thrown e
      → Refuses spd s.name e
  after_sinks-thrown s (thrown x) k f h = let (k', file, t) = f cc in cannot_open t
  after_sinks-thrown s (returned ss) k f h =
      let r = spd.register k s.name in cannot_register (after_register-thrown s ss r.0 r.1 h)

  pub init-thrown :
      (k : K) (s : LoggerSpecification) {e : Exception}
      → (init spd k s).0 ≡ thrown e
      → Refuses spd s.name e
  unfolding init
  init-thrown k s h =
      let r = init_sinks spd k s.sinks in
      after_sinks-thrown s r.0 r.1 (init_sinks-thrown s.sinks k) h

  -- A logger that was made by a specification.
  pub record IsBy (s : LoggerSpecification) (l : Logger S) : Type 0 where
    pub name_by : l.name ≡ s.name
    pub level_by : IsSpdLevel s.level l.level
    pub flush_level_by : IsSpdLevel s.level l.flush_level
    pub sinks_by : length l.sinks ≡ length s.sinks

  after_register-IsBy :
      (s : LoggerSpecification) (ss : List S) (r : Result {0} Unit) (k : K) {l : Logger S}
      → length ss ≡ length s.sinks
      → (after_register spd s ss (r, k)).0 ≡ returned l
      → IsBy s l
  after_register-IsBy s ss (thrown e) k n h = cc
  after_register-IsBy s ss (returned u) k {l} n h =
      let level_same : to_spd_level s.level ≡ l.level = cc in
      let flush_same : to_spd_level s.level ≡ l.flush_level = cc in
      record {
        name_by = cc;
        level_by = subst (IsSpdLevel s.level) level_same (to_spd_level-IsSpdLevel s.level);
        flush_level_by = subst (IsSpdLevel s.level) flush_same (to_spd_level-IsSpdLevel s.level);
        sinks_by = cc;
      }

  after_sinks-IsBy :
      (s : LoggerSpecification) (r : Result (List S)) (k : K) {l : Logger S}
      → ((ss : List S) → r ≡ returned ss → length ss ≡ length s.sinks)
      → (after_sinks spd s (r, k)).0 ≡ returned l
      → IsBy s l
  after_sinks-IsBy s (thrown e) k n h = cc
  after_sinks-IsBy s (returned ss) k n h =
      after_register-IsBy s ss (spd.register k s.name).0 (spd.register k s.name).1 (n ss refl) h

  pub init-IsBy :
      (k : K) (s : LoggerSpecification) {l : Logger S} → (init spd k s).0 ≡ returned l → IsBy s l
  unfolding init
  init-IsBy k s h =
      let r = init_sinks spd k s.sinks in
      after_sinks-IsBy s r.0 r.1 (λ ss. init_sinks-length s.sinks k) h

-- ===== src/Logging/Levels.antt =====
-- The words for levels: `ParseLogLevel` of minet/src/common/Log.cpp.
use minet_core.Prelude.{
  [], if◌then◌else◌, ◌≡◌, ◌≢◌, ◌↔◌, ◌⊎◌, inl, inr, refl, sym, ap, ◌∙◌, Bool-cases, Bytes, codes,
  equal, equal_iff,
}
use minet_core.Logging.{LogLevel, lower, level_of, parse_log_level}

-- The word for a level in a configuration.
abbrev pub level_name : LogLevel → Bytes
level_name LogLevel.all = codes "all"
level_name LogLevel.fine = codes "fine"
level_name LogLevel.debug = codes "debug"
level_name LogLevel.info = codes "info"
level_name LogLevel.warning = codes "warning"
level_name LogLevel.error = codes "error"
level_name LogLevel.critical = codes "critical"
level_name LogLevel.disabled = codes "disabled"
level_name LogLevel.invalid = []

-- A level is the one that a text names, or invalid.
abbrev Names : Bytes → LogLevel → Type 0
Names s l = (l ≡ LogLevel.invalid) ⊎ (s ≡ level_name l)

if-Names :
    (s : Bytes) (l rest : LogLevel)
    → Names s rest
    → Names s (if equal s (level_name l) then l else rest)
if-Names s l rest h = elim (Bool-cases (equal s (level_name l))) [
  | inl e ↦ rw e (inr ((equal_iff s (level_name l)).0 e))
  | inr e ↦ rw e h
]

level_of-Names : (s : Bytes) → Names s (level_of s)
unfolding level_of
level_of-Names s = if-Names s LogLevel.all _ (
    if-Names s LogLevel.fine _ (
      if-Names s LogLevel.debug _ (
        if-Names s LogLevel.info _ (
          if-Names s LogLevel.warning _ (
            if-Names s LogLevel.error _
              (if-Names s LogLevel.critical _ (if-Names s LogLevel.disabled _ (inl refl))))))))

level_of-level_name : (l : LogLevel) → level_of (level_name l) ≡ l
unfolding level_of equal
level_of-level_name LogLevel.all = refl
level_of-level_name LogLevel.fine = refl
level_of-level_name LogLevel.debug = refl
level_of-level_name LogLevel.info = refl
level_of-level_name LogLevel.warning = refl
level_of-level_name LogLevel.error = refl
level_of-level_name LogLevel.critical = refl
level_of-level_name LogLevel.disabled = refl
level_of-level_name LogLevel.invalid = refl

-- A text gives a level that is not invalid exactly when it is the word for that level, in any case of letters.
pub parse_log_level_iff :
    (s : Bytes) (l : LogLevel)
    → l ≢ LogLevel.invalid
    → (parse_log_level s ≡ l) ↔ (lower s ≡ level_name l)
unfolding parse_log_level
parse_log_level_iff s l h = (
  (λ e. elim (level_of-Names (lower s)) [
    | inl bad ↦ absurd (h (sym e ∙ bad))
    | inr named ↦ named ∙ ap level_name e
  ]),
  λ e. ap level_of e ∙ level_of-level_name l,
)

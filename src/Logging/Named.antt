-- ===== src/Logging/Named.antt =====
-- Which level a value of `LOG_LEVEL` names.
use solana_exporter.Base.{
  Text, codes, text_eqb_iff, to_lower, Option, none, some, ◌≡◌, ◌≢◌, refl, arith, ap, ◌∙◌,
}
use solana_exporter.Logging.{
  Level, debug, info, warn, error, panic, fatal, level_of, get_env_log_level,
}

abbrev name_of : Level → Text
name_of debug = codes "debug"
name_of info = codes "info"
name_of warn = codes "warn"
name_of error = codes "error"
name_of panic = codes "panic"
name_of fatal = codes "fatal"

-- The variable is set, to the name of the level in any case.
abbrev pub Names : Option Text → Level → Type 0
Names none l = ⊥
Names (some value) l = to_lower value ≡ name_of l

level_of_sound : (name : Text) → (level_of name ≢ info → name ≡ name_of (level_of name))
unfolding level_of
level_of_sound name = ground (
  arith,
  text_eqb_iff name (codes "debug"),
  text_eqb_iff name (codes "info"),
  text_eqb_iff name (codes "warn"),
  text_eqb_iff name (codes "error"),
  text_eqb_iff name (codes "panic"),
  text_eqb_iff name (codes "fatal"),
)

level_of_name : (l : Level) → level_of (name_of l) ≡ l
unfolding level_of
level_of_name debug = refl
level_of_name info = refl
level_of_name warn = refl
level_of_name error = refl
level_of_name panic = refl
level_of_name fatal = refl

-- A level whose name `LOG_LEVEL` holds, in upper or lower case, is the logger's level; and the logger has
-- another level than `info` only if `LOG_LEVEL` holds its name.
pub get_env_log_level-Names :
    (variable : Option Text)
    → ((l : Level) → Names variable l → get_env_log_level variable ≡ l)
      × (get_env_log_level variable ≢ info → Names variable (get_env_log_level variable))
unfolding get_env_log_level
get_env_log_level-Names none = ((λ l h. absurd h), (λ h. absurd (h refl)))
get_env_log_level-Names (some value) =
    ((λ l h. ap level_of h ∙ level_of_name l), (λ h. level_of_sound (to_lower value) h))

-- ===== src/Observability/Levels.antt =====
-- The logger's reading of a level that the validator accepts.
use fluffy_dollop.Base.{◌≡◌, ◌≢◌, refl, ◌↔◌, ◌⊎◌, inl, inr, true, arith}
use fluffy_dollop.Base.Text.{Text, lit, eq_text_iff}
use fluffy_dollop.Config.Validator.{contains, to_lower, valid_log_levels}
use fluffy_dollop.Observability.{
  LogLevel, debug, info, warn, error, parse_log_level, LogHandler, json_handler, text_handler,
}

abbrev pub level_name : LogLevel → Text
level_name debug = lit "debug"
level_name info = lit "info"
level_name warn = lit "warn"
level_name error = lit "error"

abbrev pub format_name : LogHandler → Text
format_name json_handler = lit "json"
format_name text_handler = lit "text"

known_lower :
    (to_lower (lit "debug") ≡ lit "debug")
    × (to_lower (lit "info") ≡ lit "info")
    × (to_lower (lit "warn") ≡ lit "warn")
    × (to_lower (lit "error") ≡ lit "error")
unfolding to_lower
known_lower = (refl, refl, refl, refl)

-- An accepted level reads as one of the four in lower case.
accepted_level :
    (lower : Text)
    → contains valid_log_levels lower ≡ true
    → (lower ≡ lit "debug") ⊎ (lower ≡ lit "info") ⊎ (lower ≡ lit "warn") ⊎ (lower ≡ lit "error")
unfolding contains
accepted_level lower ok = ground (
  arith,
  eq_text_iff (lit "debug") lower,
  eq_text_iff (lit "info") lower,
  eq_text_iff (lit "warn") lower,
  eq_text_iff (lit "error") lower,
)

-- What the level is, by what it is read as.
parse_log_level_reads :
    (level : Text)
    → ((level ≡ lit "debug") × (parse_log_level level ≡ debug))
      ⊎ ((level ≡ lit "info") × (parse_log_level level ≡ info))
      ⊎ ((level ≡ lit "warn") × (parse_log_level level ≡ warn))
      ⊎ ((level ≡ lit "error") × (parse_log_level level ≡ error))
      ⊎ ((level ≢ lit "debug")
          × (level ≢ lit "info")
          × (level ≢ lit "warn")
          × (level ≢ lit "error")
          × (parse_log_level level ≡ info))
unfolding parse_log_level
parse_log_level_reads level = ground (
  arith,
  eq_text_iff level (lit "debug"),
  eq_text_iff level (lit "info"),
  eq_text_iff level (lit "warn"),
  eq_text_iff level (lit "error"),
)

-- The logger runs at the level that the validator has accepted exactly if the level is written in
-- lower case or is a spelling of info: any other spelling falls back to info.
pub parse_log_level-accepted :
    (level : Text)
    → contains valid_log_levels (to_lower level) ≡ true
    → (level_name (parse_log_level level) ≡ to_lower level)
      ↔ ((to_lower level ≡ level) ⊎ (to_lower level ≡ lit "info"))
parse_log_level-accepted level ok =
    let known = known_lower in
    elim (parse_log_level_reads level) [
      | inl (e, r) ↦ ground arith
      | inr (inl (e, r)) ↦ ground arith
      | inr (inr (inl (e, r))) ↦ ground arith
      | inr (inr (inr (inl (e, r)))) ↦ ground arith
      | inr (inr (inr (inr (d, i, w, x, r)))) ↦ elim (accepted_level (to_lower level) ok) [
        | inl l ↦ ground arith
        | inr (inl l) ↦ ground arith
        | inr (inr (inl l)) ↦ ground arith
        | inr (inr (inr l)) ↦ ground arith
      ]
    ]

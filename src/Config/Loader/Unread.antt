-- ===== src/Config/Loader/Unread.antt =====
-- What the loader's variables reach.
use mathlib.Core.Path.{subst}
use fluffy_dollop.Base.{
  ◌≡◌, refl, inl, Bool, true, false, ◌&&◌, ◌==◌, List, [], ◌∷◌, arith, if◌then◌else◌,
}
use fluffy_dollop.Base.Text.{Text, lit}
use fluffy_dollop.Go.Float.{Float64}
use fluffy_dollop.Config.Types.{Config}
use fluffy_dollop.Config.Issue.{Section, Issues}
use fluffy_dollop.Config.Defaults.{get_defaults}
use fluffy_dollop.Config.Validator.{validate}
use fluffy_dollop.Config.Validator.Whole.{IsUsable, validate_iff}
use fluffy_dollop.Config.Loader.{Environment, Parsers, read_config, accept, load}

-- The name begins with these bytes.
abbrev pub begins : Text → Text → Bool
begins [] name = true
begins (a ∷ word) [] = false
begins (a ∷ word) (b ∷ name) = (a == b) && begins word name

-- The environment with all variables unset whose name begins with THROTTLER_.
abbrev pub without_throttler : Environment → Environment
without_throttler env name = if begins (lit "THROTTLER_") name then [] else env name

module _ (F : Float64) (P : Parsers F.Float) where
  open F use {Float}

  accepted_valid :
      (env : Environment) (read c : Config Float) (errs : List (Section × Issues))
      → accept F P env read errs ≡ inl c
      → (errs ≡ []) × (read ≡ c)
  accepted_valid env read c [] h = (refl, ground arith)
  accepted_valid env read c (e ∷ errs) h = ground arith

  -- A configuration that the loader returns is usable in every section that the validator checks,
  -- whatever the environment holds.
  pub load-IsUsable : (env : Environment) (c : Config Float) → load F P env ≡ inl c → IsUsable F c
  unfolding load
  load-IsUsable env c h =
      let (valid, same) =
        accepted_valid env (read_config F P env) c (validate F (read_config F P env)) h in
      subst (IsUsable F) same ((validate_iff F (read_config F P env)).0 valid)

  -- The variables whose name begins with THROTTLER_ reach the top-level throttler section alone:
  -- without them the loader reads the same configuration but for that section, which keeps its
  -- defaults. The throttler inside the ingestion section does not depend on them.
  pub throttler_variables_unused :
      (env : Environment)
      → read_config F P (without_throttler env)
        ≡ record (read_config F P env) { throttler = (get_defaults F).throttler }
  unfolding read_config
  throttler_variables_unused env = refl

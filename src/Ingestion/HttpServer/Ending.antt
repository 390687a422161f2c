-- ===== src/Ingestion/HttpServer/Ending.antt =====
-- How the ingestion command ends.
use fluffy_dollop.Base.{◌≡◌, refl, ap, ◌⊎◌, inl, inr, ==_iff, none, [], ◌∷◌, ◌++◌, length, arith}
use fluffy_dollop.Base.Text.{Text}
use fluffy_dollop.Config.Types.{Config}
use fluffy_dollop.Redis.{Redis}
use fluffy_dollop.Ingestion.Throttler.Updater.{Throttler}
use fluffy_dollop.Worker.Start.{server_closed}
use fluffy_dollop.Ingestion.HttpServer.{
  ServerEvent, signalled, ended, without_newline, write_error_log,
}

-- The server went down without an error.
abbrev pub EndsWell : ServerEvent → Type 0
EndsWell (signalled shutdown close) = shutdown ≡ none
EndsWell (ended r) = r ≡ server_closed

-- net/http's log line loses one newline at its end and nothing else, and the writer claims all its
-- bytes.
pub write_error_log-newline :
    (p : Text)
    → ((write_error_log p).1 ≡ length p)
      × (((write_error_log p).0 ++ 10 ∷ [] ≡ p) ⊎ ((write_error_log p).0 ≡ p))
unfolding write_error_log without_newline
write_error_log-newline p = (refl, trimmed p)
  where
    trimmed : (q : Text) → (without_newline q ++ 10 ∷ [] ≡ q) ⊎ (without_newline q ≡ q)
    trimmed [] = inr refl
    trimmed (c ∷ []) = ground (arith, ==_iff c 10)
    trimmed (c ∷ d ∷ rest) = elim (trimmed (d ∷ rest)) [
      | inl e ↦ inl (ap (λ r. c ∷ r) e)
      | inr e ↦ inr (ap (λ r. c ∷ r) e)
    ]

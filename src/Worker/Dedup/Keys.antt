-- ===== src/Worker/Dedup/Keys.antt =====
-- Deduplication keys of one job: different attempts have different keys.
use fluffy_dollop.Base.{◌≡◌}
use fluffy_dollop.Base.Int.{ℤ, IsInt64}
use fluffy_dollop.Base.Text.{Text, lit, append_cancel}
use fluffy_dollop.Go.Strconv.Laws.{format_int_injective}
use fluffy_dollop.Worker.Dedup.{dedup_key}

-- Two attempts of one job have the same key only if their retry counts are the same int64.
pub dedup_key_injective :
    (job_id : Text) (m n : ℤ)
    → IsInt64 m
    → IsInt64 n
    → dedup_key job_id m ≡ dedup_key job_id n
    → m ≡ n
unfolding dedup_key
dedup_key_injective job_id m n hm hn h =
    format_int_injective m n hm hn
      (append_cancel (lit ":") _ _ (append_cancel job_id _ _ (append_cancel (lit "dedup:") _ _ h)))

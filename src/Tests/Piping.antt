-- ===== src/Tests/Piping.antt =====
-- A run of the three programs on one server: a request, a message that fails, and a requeue.
use fluffy_dollop.Base.{
  ap, sym, ◌≡◌, refl, ◌≢◌, inl, inr, true, false, none, some, List, map, [], ◌∷◌, All, arith,
}
use fluffy_dollop.Base.Int.{pos}
use fluffy_dollop.Base.Text.{Text, lit, eq_text}
use fluffy_dollop.Redis.{XMessage}
use fluffy_dollop.Redis.Memory.{Server, claimed, memory}
use fluffy_dollop.Redis.Memory.Laws.{memory_queue, memory_streams, memory_claims}
use fluffy_dollop.Config.Defaults.{default_queue}
use fluffy_dollop.Queue.Types.{JobEnvelope}
use fluffy_dollop.Queue.Consumer.{reclaim_stale}
use fluffy_dollop.Queue.Consumer.Reclaim.{Scan, last}
use fluffy_dollop.Ingestion.Throttler.{allow}
use fluffy_dollop.Pipeline.{Action, request, message, letter, act_all}
use fluffy_dollop.Pipeline.Readable.{IsClean, LeavesClean, job-IsReadable}
use fluffy_dollop.Pipeline.Consumed.{IsUsual}
use fluffy_dollop.Pipeline.Reclaimed.{act_all-reclaim_stale}
use fluffy_dollop.Tests.Codec.{write_job, codec, codec_laws}
use fluffy_dollop.Tests.Samples.{
  event, job, last_attempt, dlq, consumer, two_pending, failing, world,
}

abbrev actions : List Action
actions =
    request (lit "j1") (pos 8) (allow, pos 0) (some event) (pos 8000000000)
    ∷ message consumer job (lit "7-0") (pos 9)
    ∷ message consumer last_attempt (lit "8-0") (pos 10)
    ∷ letter (lit "2") (lit "logs") (pos 100)
    ∷ []

failing-LeavesClean : LeavesClean memory codec memory_queue memory_streams codec_laws dlq failing
failing-LeavesClean envelope w clean = clean

dead_stream_apart : dlq.stream_name ≢ consumer.stream_name
dead_stream_apart h = ground arith

-- Both pending messages have their entries.
abbrev with_entries : Server
with_entries = record two_pending {
  entries = λ stream.
      record { id = lit "7-0"; values = (lit "job", write_job job) ∷ [] }
      ∷ record { id = lit "8-0"; values = (lit "job", write_job last_attempt) ∷ [] }
      ∷ [];
}

with_entries-IsClean : IsClean memory codec memory_queue memory_streams codec_laws dlq with_entries
with_entries-IsClean stream m apart (inl e) =
    job-IsReadable memory codec memory_queue memory_streams codec_laws dlq job (write_job job) m
      refl refl (ap (λ (x : XMessage). x.values) (sym e))
with_entries-IsClean stream m apart (inr (inl e)) =
    job-IsReadable memory codec memory_queue memory_streams codec_laws dlq last_attempt
      (write_job last_attempt) m refl refl (ap (λ (x : XMessage). x.values) (sym e))
with_entries-IsClean stream m apart (inr (inr never)) = elim never [ ]

-- The second message is not handled, and taken over.
abbrev earlier : List Action
earlier =
    request (lit "j2") (pos 8) (allow, pos 0) (some event) (pos 8000000000)
    ∷ message consumer job (lit "7-0") (pos 9)
    ∷ []

earlier-IsUsual : All (IsUsual memory codec memory_queue memory_streams codec_laws dlq) earlier
earlier-IsUsual = (refl, ((inr refl, refl), tt))

abbrev afterwards : Server
afterwards = (act_all memory codec default_queue failing dlq earlier (world with_entries)).redis

abbrev taken_over : List XMessage
taken_over =
    claimed (afterwards.pending (lit "logs") (lit "workers")) (afterwards.entries (lit "logs"))

cursor_zero : eq_text (lit "0-0") (lit "0-0") ≡ true
unfolding eq_text
cursor_zero = refl

abbrev takeover :
    Scan memory codec consumer (pos 60) (pos 10) afterwards (lit "0-0") taken_over afterwards
takeover = last afterwards (lit "0-0") taken_over (lit "0-0") refl cursor_zero

act_all-reclaim_stale_example :
    (jobs : List (JobEnvelope × Text)) × (reclaim_stale memory codec
        (false ∷ [])
        consumer
        (pos 60)
        (pos 10)
        afterwards
      ≡ (some (jobs, none), afterwards))
    × (map (λ j. j.1) jobs ≡ map (λ m. m.id) taken_over)
act_all-reclaim_stale_example =
    act_all-reclaim_stale memory codec memory_queue memory_streams codec_laws dlq memory_claims
      default_queue failing earlier (world with_entries) consumer (pos 60) (pos 10) taken_over
      afterwards takeover (false ∷ []) failing-LeavesClean earlier-IsUsual with_entries-IsClean
      dead_stream_apart (refl, tt) (omega arith)

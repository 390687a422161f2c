-- ===== src/Tests/Queueing.antt =====
-- Runs of the producer and of the consumer.
use fluffy_dollop.Base.{◌≡◌, refl, ap, ◌∙◌, ◌≢◌, ◌⊎◌, inl, true, false, none, List, [], ◌∷◌, arith}
use fluffy_dollop.Base.Int.{pos, ◌+ℤ◌, wrap64}
use fluffy_dollop.Base.Text.{Text, lit, eq_text}
use fluffy_dollop.Go.Effect.{Result, ok, ok-injective, err}
use fluffy_dollop.Go.Strconv.{format_ℕ}
use fluffy_dollop.Redis.{Redis, XMessage}
use fluffy_dollop.Redis.Memory.{Server, blank, memory}
use fluffy_dollop.Redis.Memory.Laws.{memory_queue}
use fluffy_dollop.Queue.Dlq.{send, dlq_args, entry_not_found, requeue}
use fluffy_dollop.Queue.Consumer.{retry, failed_once, reclaim_stale}
use fluffy_dollop.Queue.Consumer.Delivery.{HasRetries, IsPending, IsQueued, retry_keeps_job}
use fluffy_dollop.Queue.Consumer.Exhausted.{IsExhausted, IsDead, dead_entry, retry_exhausted}
use fluffy_dollop.Queue.Consumer.Reclaim.{ScanProgress, reclaim_stale_ends}
use fluffy_dollop.Go.Errors.{wrap, failed_to_get_dlq_entry}
use fluffy_dollop.Queue.Dlq.Requeue.{requeue_error_keeps}
use fluffy_dollop.Tests.Samples.{job, last_attempt, json, dlq, consumer, two_pending, boom}

job_retries : HasRetries job
unfolding wrap64 ◌+ℤ◌
job_retries = omega arith

retry_keeps_job_example :
    IsPending memory json memory_queue consumer
      (lit "7-0")
      (retry memory json consumer job (lit "7-0") boom (pos 9) two_pending).1
    ⊎ IsQueued memory json memory_queue consumer
        (failed_once job boom)
        (retry memory json consumer job (lit "7-0") boom (pos 9) two_pending).1
retry_keeps_job_example =
    retry_keeps_job memory json memory_queue consumer job (lit "7-0") boom (pos 9) two_pending
      job_retries (inl refl)

last_attempt-IsExhausted : IsExhausted last_attempt
unfolding wrap64 ◌+ℤ◌
last_attempt-IsExhausted = omega arith

dead_sent :
    (send memory json dlq
      (dead_entry (failed_once last_attempt boom) (lit "7-0") boom (pos 9))
      two_pending).0
    ≡ ok (lit "0")
unfolding send format_ℕ
dead_sent = refl

streams_apart : dlq.stream_name ≢ consumer.stream_name
streams_apart h = ground arith

retry_exhausted_example :
    IsDead memory json memory_queue dlq
      (dead_entry (failed_once last_attempt boom) (lit "7-0") boom (pos 9))
      (retry memory json consumer last_attempt (lit "7-0") boom (pos 9) two_pending).1
    × (memory_queue.entries
          (retry memory json consumer last_attempt (lit "7-0") boom (pos 9) two_pending).1
          consumer.stream_name
        ≡ memory_queue.entries two_pending consumer.stream_name)
retry_exhausted_example =
    retry_exhausted memory json memory_queue consumer dlq last_attempt (lit "7-0") boom (pos 9)
      two_pending (lit "0") last_attempt-IsExhausted refl streams_apart dead_sent

-- One page of two messages, the second of which has no job.
abbrev page : List XMessage
page =
    record { id = lit "7-0"; values = (lit "job", lit "j1/0") ∷ [] }
    ∷ record { id = lit "8-0"; values = [] }
    ∷ []

abbrev one_page : Redis
one_page = record memory { xauto_claim = λ a s. (ok (page, lit "0-0"), s) }

true_ne_false : true ≢ false
true_ne_false h = ground arith

one_page_ends :
    (messages : List XMessage) (next : Text)
    → ◌≡◌ {A = Result (List XMessage × Text)} (ok (page, lit "0-0")) (ok (messages, next))
    → eq_text next (lit "0-0") ≢ false
unfolding eq_text
one_page_ends messages next found more =
    true_ne_false (ap (λ n. eq_text n (lit "0-0")) (ap (λ p. p.1) (ok-injective found)) ∙ more)

abbrev one_page_progress : ScanProgress one_page
one_page_progress = record {
  pages_left = λ s cursor. 1;
  progress = λ a s messages next found more. absurd (one_page_ends messages next found more);
}

reclaim_stale_ends_example :
    (reclaim_stale one_page json (false ∷ true ∷ []) consumer (pos 60) (pos 10) blank).0 ≢ none
reclaim_stale_ends_example =
    reclaim_stale_ends one_page json one_page_progress (false ∷ true ∷ []) consumer (pos 60)
      (pos 10) blank (omega arith)

-- A dead letter with the id 0.
abbrev one_dead : Server
one_dead = (memory.xadd (dlq_args dlq (lit "boom")) blank).1

requeue_missing :
    (requeue memory json dlq (lit "5") (lit "logs") (pos 10) one_dead).0
    ≡ err (wrap failed_to_get_dlq_entry entry_not_found)
unfolding requeue eq_text format_ℕ
requeue_missing = refl

requeue_error_keeps_example :
    memory_queue.entries
      (requeue memory json dlq (lit "5") (lit "logs") (pos 10) one_dead).1
      (lit "dead")
    ≡ memory_queue.entries one_dead (lit "dead")
requeue_error_keeps_example =
    requeue_error_keeps memory json memory_queue dlq (lit "5") (lit "logs") (pos 10) one_dead
      (wrap failed_to_get_dlq_entry entry_not_found) streams_apart requeue_missing

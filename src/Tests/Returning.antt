-- ===== src/Tests/Returning.antt =====
-- A job that is given up and requeued.
use fluffy_dollop.Base.{◌≡◌, refl, ◌≢◌, [], ◌∷◌, arith, In}
use fluffy_dollop.Base.Int.{pos, ◌+ℤ◌, wrap64}
use fluffy_dollop.Base.Text.{Text, lit, eq_text}
use fluffy_dollop.Go.Effect.{ok}
use fluffy_dollop.Go.Strconv.{format_ℕ}
use fluffy_dollop.Redis.{field}
use fluffy_dollop.Redis.Memory.{memory}
use fluffy_dollop.Redis.Memory.Laws.{memory_queue, memory_ranges}
use fluffy_dollop.Queue.Types.{Json}
use fluffy_dollop.Queue.Dlq.{send, requeue}
use fluffy_dollop.Queue.Consumer.{ack, failed_once, give_up, retry}
use fluffy_dollop.Queue.Consumer.Exhausted.{IsExhausted, dead_entry}
use fluffy_dollop.Queue.Consumer.Returns.{renewed, ReadsBack, exhausted_then_requeued}
use fluffy_dollop.Tests.Samples.{last_attempt, json, dlq, consumer, two_pending, boom}

-- The letter of the sample job reads back.
abbrev letters : Json
letters = record json {
  unmarshal_entry =
      λ text. ok (dead_entry (failed_once last_attempt boom) (lit "7-0") boom (pos 9));
}

letter-ReadsBack :
    ReadsBack letters (dead_entry (failed_once last_attempt boom) (lit "7-0") boom (pos 9))
letter-ReadsBack text written = refl

attempts_over : IsExhausted last_attempt
unfolding wrap64 ◌+ℤ◌
attempts_over = omega arith

letter_sent :
    (send memory letters dlq
      (dead_entry (failed_once last_attempt boom) (lit "7-0") boom (pos 9))
      two_pending).0
    ≡ ok (lit "0")
unfolding send format_ℕ
letter_sent = refl

letters_apart : dlq.stream_name ≢ consumer.stream_name
letters_apart h = ground arith

letter_requeued :
    (requeue memory letters dlq
      (lit "0")
      consumer.stream_name
      (pos 10)
      (retry memory letters consumer last_attempt (lit "7-0") boom (pos 9) two_pending).1).0
    ≡ ok tt
unfolding requeue retry give_up ack send wrap64 ◌+ℤ◌ eq_text format_ℕ field
letter_requeued = refl

exhausted_then_requeued_example :
    (text : Text) × (letters.marshal_envelope (renewed last_attempt) ≡ ok text)
    × (new_id : Text) × In
        (record { id = new_id; values = (lit "job", text) ∷ [] })
        (memory_queue.entries
          (requeue memory letters dlq
            (lit "0")
            consumer.stream_name
            (pos 10)
            (retry memory letters consumer last_attempt (lit "7-0") boom (pos 9) two_pending).1).1
          consumer.stream_name)
exhausted_then_requeued_example =
    exhausted_then_requeued memory letters memory_queue memory_ranges consumer dlq last_attempt
      (lit "7-0") boom (pos 9) (pos 10) two_pending (lit "0") attempts_over refl letters_apart
      letter-ReadsBack letter_sent letter_requeued

-- ===== src/Tests/Batching.antt =====
-- Two failing messages that the worker handles one after the other.
use fluffy_dollop.Base.{◌≢◌, refl, inl, inr, List, [], ◌∷◌, arith}
use fluffy_dollop.Base.Int.{pos, ◌+ℤ◌, wrap64}
use fluffy_dollop.Base.Text.{lit}
use fluffy_dollop.Redis.Memory.{memory}
use fluffy_dollop.Redis.Memory.Laws.{memory_queue}
use fluffy_dollop.Queue.Consumer.Delivery.{HasRetries}
use fluffy_dollop.Worker.Process.AtLeastOnce.{LeavesPending}
use fluffy_dollop.Worker.Process.Batch.{
  Delivery, LeavesEntries, Fates, handle_all, handle_all-Fates,
}
use fluffy_dollop.Tests.Samples.{job, json, consumer, two_pending, failing, world}

abbrev deliveries : List Delivery
deliveries =
    record { envelope = job; id = lit "7-0"; now = pos 9 }
    ∷ record { envelope = job; id = lit "8-0"; now = pos 10 }
    ∷ []

failing_pending : LeavesPending memory json memory_queue failing
failing_pending envelope w stream group id h = h

failing_entries : LeavesEntries memory json memory_queue failing
failing_entries envelope w stream m h = h

first_attempt : HasRetries job
unfolding wrap64 ◌+ℤ◌
first_attempt = omega arith

second_apart : lit "8-0" ≢ lit "7-0"
second_apart h = ground arith

handle_all-Fates_example :
    Fates memory json memory_queue failing consumer deliveries
      (world two_pending)
      (handle_all memory json memory_queue failing consumer deliveries (world two_pending))
handle_all-Fates_example =
    handle_all-Fates memory json memory_queue failing consumer failing_pending failing_entries
      deliveries (world two_pending) ((second_apart, tt), (tt, tt))
      (first_attempt, (first_attempt, tt)) (inl refl, (inr (inl refl), tt))

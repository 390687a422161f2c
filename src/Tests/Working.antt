-- ===== src/Tests/Working.antt =====
-- Runs of the worker: deduplication, the handling of a message, the backoff, the pool and the
-- reclaim lock.
use fluffy_dollop.Base.{◌+◌, ◌≤◌, ◌≡◌, refl, ◌⊎◌, true, false, some, [], ◌∷◌, arith, length}
use fluffy_dollop.Base.Int.{pos}
use fluffy_dollop.Base.Text.{lit, eq_text}
use fluffy_dollop.Go.Errors.{Error, wrap, dedup_check_failed}
use fluffy_dollop.Go.Effect.{ok, err}
use fluffy_dollop.Go.Strconv.{format_int}
use fluffy_dollop.Redis.Memory.{memory}
use fluffy_dollop.Redis.Memory.Laws.{memory_keys}
use fluffy_dollop.Queue.Consumer.{ack, failed_once}
use fluffy_dollop.Worker.Dedup.{dedup_key, key_of, World, on_redis, count_duplicate, dedup_process}
use fluffy_dollop.Worker.Dedup.Laws.{
  HasBegun, KeepsKey, after_check, dedup_process_begun, retry_not_duplicate,
}
use fluffy_dollop.Worker.Process.{process_message}
use fluffy_dollop.Worker.Process.Redelivery.{interrupted_job_lost, requeued_job_lost}
use fluffy_dollop.Worker.Pool.{
  polling, holding, Pool, initial, poll_receives, poll_acquires, job_begins, Reach, start, later,
}
use fluffy_dollop.Worker.Pool.Accounting.{
  SameMessages, in_hand, active_jobs_bounded, delivered_accounted,
}
use fluffy_dollop.Tests.Samples.{
  job, last_attempt, json, consumer, two_pending, boom, failing, world,
}

-- The first attempt of the job has begun.
abbrev begun : World memory
begun = after_check memory memory_keys (pos 60) job (world two_pending)

check_new : (memory.set_nx (key_of job) (lit "1") (pos 60) two_pending).0 ≡ ok true
check_new = refl

key_there : memory_keys.value begun.redis (key_of job) ≡ some (lit "1")
key_there = memory_keys.set_nx_sets (key_of job) (lit "1") (pos 60) two_pending check_new

job-HasBegun : HasBegun memory memory_keys job begun
job-HasBegun = (lit "1", key_there)

dedup_process_begun_example :
    (dedup_process memory failing (pos 60) job begun
      ≡ (ok tt, count_duplicate memory (after_check memory memory_keys (pos 60) job begun)))
    ⊎ ((e : Error) × (dedup_process memory failing (pos 60) job begun
          ≡ (err (wrap dedup_check_failed e), after_check memory memory_keys (pos 60) job begun)))
dedup_process_begun_example =
    dedup_process_begun memory memory_keys failing (pos 60) job begun job-HasBegun

failing-KeepsKey : KeepsKey memory memory_keys (key_of (failed_once job boom)) failing
failing-KeepsKey envelope w = refl

-- The first attempt, which fails.
abbrev first_attempt : World memory
first_attempt = (dedup_process memory failing (pos 60) job (world two_pending)).1

retry_not_duplicate_example :
    (dedup_process memory failing (pos 60) (failed_once job boom) first_attempt
      ≡ failing
          (failed_once job boom)
          (after_check memory memory_keys (pos 60) (failed_once job boom) first_attempt))
    ⊎ ((why : Error) × (dedup_process memory failing (pos 60) (failed_once job boom) first_attempt
          ≡ (
            err (wrap dedup_check_failed why),
            after_check memory memory_keys (pos 60) (failed_once job boom) first_attempt,
          )))
retry_not_duplicate_example =
    retry_not_duplicate memory memory_keys failing (pos 60) job boom (world two_pending)
      (omega arith, omega arith) refl failing-KeepsKey

check_again : (memory.set_nx (key_of job) (lit "1") (pos 60) begun.redis).0 ≡ ok false
unfolding dedup_key eq_text format_int
check_again = refl

interrupted_job_lost_example :
    process_message memory json
      (dedup_process memory failing (pos 60))
      consumer
      job
      (lit "7-0")
      (pos 9)
      begun
    ≡ (on_redis memory
        (ack memory json consumer (lit "7-0"))
        (count_duplicate memory (after_check memory memory_keys (pos 60) job begun))).1
interrupted_job_lost_example =
    interrupted_job_lost memory json memory_keys failing (pos 60) consumer job (lit "7-0") (pos 9)
      (world two_pending) false check_new check_again

requeued_job_lost_example :
    process_message memory json
      (dedup_process memory failing (pos 60))
      consumer
      job
      (lit "9-0")
      (pos 9)
      begun
    ≡ (on_redis memory
        (ack memory json consumer (lit "9-0"))
        (count_duplicate memory (after_check memory memory_keys (pos 60) job begun))).1
requeued_job_lost_example =
    requeued_job_lost memory json memory_keys failing (pos 60) consumer last_attempt job (lit "9-0")
      (pos 9) begun (lit "1") false refl key_there check_again

-- Two units of weight, and one message that is being processed.
abbrev received : Pool
received = record (initial 2) { poll = holding (job, lit "7-0"); delivered = (job, lit "7-0") ∷ [] }

abbrev acquired : Pool
acquired = record received { poll = polling; free = 1; spawned = (job, lit "7-0") ∷ [] }

abbrev processing : Pool
processing = record acquired { spawned = []; running = (job, lit "7-0") ∷ []; active = 0 + 1 }

processing-Reach : Reach 2 processing
processing-Reach =
    later
      (later (later start (poll_receives (initial 2) (job, lit "7-0") refl))
        (poll_acquires received (job, lit "7-0") 1 refl refl))
      (job_begins acquired [] [] (job, lit "7-0") refl)

active_jobs_bounded_example :
    (processing.active ≡ length processing.running) × (processing.active ≤ 2)
active_jobs_bounded_example = active_jobs_bounded processing-Reach

delivered_accounted_example : SameMessages processing.delivered (in_hand processing)
delivered_accounted_example = delivered_accounted processing-Reach refl

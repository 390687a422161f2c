-- ===== src/Tests/Pooling.antt =====
-- Runs of the worker's pool to its end.
use fluffy_dollop.Base.{◌≡◌, refl, ◌+◌, true, [], ◌∷◌, ◌++◌, In, arith}
use fluffy_dollop.Base.Text.{lit}
use fluffy_dollop.Worker.Pool.{
  Job, polling, holding, Pool, initial, cancel, poll_receives, poll_acquires, job_begins, Reach,
  start, later,
}
use fluffy_dollop.Worker.Pool.Accounting.{SameMessages}
use fluffy_dollop.Worker.Pool.Progress.{Steps, IsDrained, shutdown_drains, held_message_starts}
use fluffy_dollop.Tests.Samples.{job}

abbrev first : Job
first = (job, lit "7-0")

abbrev second : Job
second = (job, lit "8-0")

-- One unit of weight: the first message is being processed, and the second is held.
abbrev received : Pool
received = record (initial 1) { poll = holding first; delivered = first ∷ [] }

abbrev acquired : Pool
acquired = record received { poll = polling; free = 0; spawned = first ∷ [] }

abbrev processing : Pool
processing = record acquired { spawned = []; running = first ∷ []; active = 0 + 1 }

abbrev full : Pool
full = record processing { poll = holding second; delivered = first ∷ second ∷ [] }

full-Reach : Reach 1 full
full-Reach =
    later
      (later
        (later (later start (poll_receives (initial 1) first refl))
          (poll_acquires received first 0 refl refl))
        (job_begins acquired [] [] first refl))
      (poll_receives processing second refl)

held_message_starts_example : (q : Pool) × Steps full q × (q.poll ≡ polling) × In second q.spawned
held_message_starts_example = held_message_starts second full-Reach (omega arith) refl

abbrev stopping : Pool
stopping = record full { cancelled = true }

shutdown_drains_example :
    (q : Pool) × Steps stopping q
    × IsDrained q
    × (q.free ≡ 1)
    × SameMessages q.delivered (q.finished ++ q.abandoned)
shutdown_drains_example = shutdown_drains (later full-Reach (cancel full)) refl

-- ===== src/Worker/Pool.antt =====
-- The loops of internal/worker/worker.go that hand messages to goroutines: `pollLoop`,
-- `tryReclaim` with `reclaimStale`, and the goroutines that they start, as a step relation. A step
-- is what one goroutine does between two points where others can come in. What Redis answers, when
-- a ticker fires and when the context is cancelled is the environment's choice.
pub mod Accounting
pub mod Progress
use fluffy_dollop.Base.{ℕ, ◌+◌, ◌-◌, ◌≡◌, length, Bool, true, false, List, [], ◌∷◌, ◌++◌}
use fluffy_dollop.Base.Text.{Text}
use fluffy_dollop.Queue.Types.{JobEnvelope}

-- A message with its id.
abbrev pub Job : Type 0
Job = JobEnvelope × Text

pub data Polling : Type 0 where
  -- at the select, or in `Consume` or the sleep after an error
  polling : Polling
  -- at `sem.Acquire` with a message
  holding : Job → Polling
  poll_exited : Polling

pub data Reclaiming : Type 0 where
  -- at the ticker, or without the lock
  waiting : Reclaiming
  -- in the loop over the messages that `ReclaimStale` returned
  handing : List Job → Reclaiming
  reclaim_exited : Reclaiming

pub record Pool : Type 0 where
  pub poll : Polling
  pub reclaim : Reclaiming
  pub cancelled : Bool
  -- the semaphore's free weight, and the counter `activeJobs`
  pub free : ℕ
  pub active : ℕ
  -- goroutines before `activeJobs.Add(1)`, in `processMessage`, and between `Add(-1)` and `Release`
  pub spawned : List Job
  pub running : List Job
  pub leaving : ℕ
  -- what became of the messages that `Consume` and `ReclaimStale` returned to the loops
  pub delivered : List Job
  pub finished : List Job
  pub abandoned : List Job

abbrev pub initial : ℕ → Pool
initial concurrency = record {
  poll = polling;
  reclaim = waiting;
  cancelled = false;
  free = concurrency;
  active = 0;
  spawned = [];
  running = [];
  leaving = 0;
  delivered = [];
  finished = [];
  abandoned = [];
}

pub data Step : Pool → Pool → Type 0 where
  cancel : (p : Pool) → Step p (record p { cancelled = true })
  -- `pollLoop`: a message arrives (an error or no message leaves the state as it is)
  poll_receives :
      (p : Pool) (j : Job)
      → p.poll ≡ polling
      → Step p (record p { poll = holding j; delivered = p.delivered ++ j ∷ [] })
  poll_acquires :
      (p : Pool) (j : Job) (free : ℕ)
      → p.poll ≡ holding j
      → p.free ≡ free + 1
      → Step p (record p { poll = polling; free = free; spawned = p.spawned ++ j ∷ [] })
  poll_gives_up :
      (p : Pool) (j : Job)
      → p.poll ≡ holding j
      → p.cancelled ≡ true
      → Step p (record p { poll = poll_exited; abandoned = p.abandoned ++ j ∷ [] })
  poll_exits :
      (p : Pool) → p.poll ≡ polling → p.cancelled ≡ true → Step p (record p { poll = poll_exited })
  -- `reclaimStale` under the lock: the messages that it takes over
  reclaim_receives :
      (p : Pool) (js : List Job)
      → p.reclaim ≡ waiting
      → Step p (record p { reclaim = handing js; delivered = p.delivered ++ js })
  reclaim_acquires :
      (p : Pool) (j : Job) (js : List Job) (free : ℕ)
      → p.reclaim ≡ handing (j ∷ js)
      → p.free ≡ free + 1
      → Step p (record p { reclaim = handing js; free = free; spawned = p.spawned ++ j ∷ [] })
  reclaim_gives_up :
      (p : Pool) (j : Job) (js : List Job)
      → p.reclaim ≡ handing (j ∷ js)
      → p.cancelled ≡ true
      → Step p (record p { reclaim = waiting; abandoned = p.abandoned ++ j ∷ js })
  reclaim_returns : (p : Pool) → p.reclaim ≡ handing [] → Step p (record p { reclaim = waiting })
  reclaim_exits :
      (p : Pool)
      → p.reclaim ≡ waiting
      → p.cancelled ≡ true
      → Step p (record p { reclaim = reclaim_exited })
  -- a goroutine: `activeJobs.Add(1)`, then `processMessage`, then `activeJobs.Add(-1)`, then
  -- `sem.Release(1)`
  job_begins :
      (p : Pool) (before after : List Job) (j : Job)
      → p.spawned ≡ before ++ j ∷ after
      → Step p (record p {
        spawned = before ++ after;
        running = p.running ++ j ∷ [];
        active = p.active + 1;
      })
  job_ends :
      (p : Pool) (before after : List Job) (j : Job)
      → p.running ≡ before ++ j ∷ after
      → Step p (record p {
        running = before ++ after;
        finished = p.finished ++ j ∷ [];
        active = p.active - 1;
        leaving = p.leaving + 1;
      })
  job_releases :
      (p : Pool) (leaving : ℕ)
      → p.leaving ≡ leaving + 1
      → Step p (record p { leaving = leaving; free = p.free + 1 })

pub data Reach (concurrency : ℕ) : Pool → Type 0 where
  start : Reach concurrency (initial concurrency)
  later : {p q : Pool} → Reach concurrency p → Step p q → Reach concurrency q

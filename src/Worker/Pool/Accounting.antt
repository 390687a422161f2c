-- ===== src/Worker/Pool/Accounting.antt =====
-- The semaphore, the counter and the messages of the pool, in every reachable state.
use fluffy_dollop.Base.{
  ℕ, ◌+◌, ◌≡◌, ◌≤◌, length, length-append, Bool, false, if◌then◌else◌, refl, List, [], ◌∷◌, ◌++◌,
  arith,
}
use fluffy_dollop.Worker.Pool.{
  Job, Polling, polling, holding, poll_exited, Reclaiming, waiting, handing, reclaim_exited, Pool,
  Step, cancel, poll_receives, poll_acquires, poll_gives_up, poll_exits, reclaim_receives,
  reclaim_acquires, reclaim_gives_up, reclaim_returns, reclaim_exits, job_begins, job_ends,
  job_releases, Reach, start, later,
}

abbrev pub held : Polling → List Job
held polling = []
held (holding j) = j ∷ []
held poll_exited = []

abbrev pub handed : Reclaiming → List Job
handed waiting = []
handed (handing js) = js
handed reclaim_exited = []

-- How many of the messages pass a test.
abbrev pub count : (Job → Bool) → List Job → ℕ
count test [] = 0
count test (j ∷ js) = if test j then count test js + 1 else count test js

count-append :
    (test : Job → Bool) (xs ys : List Job) → count test (xs ++ ys) ≡ count test xs + count test ys
count-append test [] ys = omega arith
count-append test (x ∷ xs) ys = ground (arith, count-append test xs ys)

-- The same messages, each as often: every test passes as many of the one as of the other.
abbrev pub SameMessages : List Job → List Job → Type 0
SameMessages xs ys = (test : Job → Bool) → count test xs ≡ count test ys

pub record IsBalanced (concurrency : ℕ) (p : Pool) : Type 0 where
  -- every unit of the semaphore is free or with one goroutine
  pub weight : p.free + length p.spawned + length p.running + p.leaving ≡ concurrency
  pub counter : p.active ≡ length p.running
  -- nothing is abandoned before the cancellation
  pub kept : p.cancelled ≡ false → p.abandoned ≡ []

middle :
    (before after : List Job) (j : Job)
    → length (before ++ j ∷ after) ≡ length (before ++ after) + 1
middle before after j = omega (arith, length-append before (j ∷ after), length-append before after)

pub one_more : (xs : List Job) (j : Job) → length (xs ++ j ∷ []) ≡ length xs + 1
one_more xs j = omega (arith, length-append xs (j ∷ []))

Step-IsBalanced : {c : ℕ} {p q : Pool} → Step p q → IsBalanced c p → IsBalanced c q
Step-IsBalanced (cancel p) b = ground arith
Step-IsBalanced (poll_receives p j at) b = ground arith
Step-IsBalanced (poll_acquires p j free at some_free) b = ground (arith, one_more p.spawned j)
Step-IsBalanced (poll_gives_up p j at stop) b = ground (arith, one_more p.abandoned j)
Step-IsBalanced (poll_exits p at stop) b = ground arith
Step-IsBalanced (reclaim_receives p js at) b = ground arith
Step-IsBalanced (reclaim_acquires p j js free at some_free) b = ground (arith, one_more p.spawned j)
Step-IsBalanced (reclaim_gives_up p j js at stop) b =
    ground (arith, length-append p.abandoned (j ∷ js))
Step-IsBalanced (reclaim_returns p at) b = ground arith
Step-IsBalanced (reclaim_exits p at stop) b = ground arith
Step-IsBalanced (job_begins p before after j at) b =
    ground (arith, middle before after j, one_more p.running j)
Step-IsBalanced (job_ends p before after j at) b =
    ground (arith, middle before after j, one_more p.finished j)
Step-IsBalanced (job_releases p leaving some) b = ground arith

pub Reach-IsBalanced : {c : ℕ} {p : Pool} → Reach c p → IsBalanced c p
Reach-IsBalanced {c} start = ground arith
Reach-IsBalanced (later r st) = Step-IsBalanced st (Reach-IsBalanced r)

-- In every reachable state the number that ActiveJobs returns is the number of messages that are
-- being processed, and no more than the configured concurrency.
pub active_jobs_bounded :
    {c : ℕ} {p : Pool} → Reach c p → (p.active ≡ length p.running) × (p.active ≤ c)
active_jobs_bounded r = let b = Reach-IsBalanced r in ground (arith, b)

-- When all goroutines have gone, the semaphore has its whole weight again.
pub weight_restored :
    {c : ℕ} {p : Pool} → Reach c p → p.spawned ≡ [] → p.running ≡ [] → p.leaving ≡ 0 → p.free ≡ c
weight_restored r no_spawned no_running no_leaving = let b = Reach-IsBalanced r in ground (arith, b)

-- How many of the messages at each place pass the test.
abbrev IsPlaced : (Job → Bool) → Pool → Type 0
IsPlaced test p =
    count test p.delivered
    ≡ count test (held p.poll)
      + count test (handed p.reclaim)
      + count test p.spawned
      + count test p.running
      + count test p.finished
      + count test p.abandoned

one_more_counted :
    (test : Job → Bool) (xs : List Job) (j : Job)
    → count test (xs ++ j ∷ []) ≡ count test xs + count test (j ∷ [])
one_more_counted test xs j = count-append test xs (j ∷ [])

middle_counted :
    (test : Job → Bool) (before after : List Job) (j : Job)
    → count test (before ++ j ∷ after) ≡ count test (before ++ after) + count test (j ∷ [])
middle_counted test before after j =
    ground (arith, count-append test before (j ∷ after), count-append test before after)

Step-IsPlaced : {p q : Pool} (test : Job → Bool) → Step p q → IsPlaced test p → IsPlaced test q
Step-IsPlaced test (cancel p) b = b
Step-IsPlaced test (poll_receives p j at) b = ground (arith, one_more_counted test p.delivered j)
Step-IsPlaced test (poll_acquires p j free at some_free) b =
    ground (arith, one_more_counted test p.spawned j)
Step-IsPlaced test (poll_gives_up p j at stop) b =
    ground (arith, one_more_counted test p.abandoned j)
Step-IsPlaced test (poll_exits p at stop) b = ground arith
Step-IsPlaced test (reclaim_receives p js at) b = ground (arith, count-append test p.delivered js)
Step-IsPlaced test (reclaim_acquires p j js free at some_free) b =
    ground (arith, one_more_counted test p.spawned j)
Step-IsPlaced test (reclaim_gives_up p j js at stop) b =
    ground (arith, count-append test p.abandoned (j ∷ js))
Step-IsPlaced test (reclaim_returns p at) b = ground arith
Step-IsPlaced test (reclaim_exits p at stop) b = ground arith
Step-IsPlaced test (job_begins p before after j at) b =
    ground (arith, middle_counted test before after j, one_more_counted test p.running j)
Step-IsPlaced test (job_ends p before after j at) b =
    ground (arith, middle_counted test before after j, one_more_counted test p.finished j)
Step-IsPlaced test (job_releases p leaving some) b = b

pub Reach-IsPlaced : {c : ℕ} {p : Pool} (test : Job → Bool) → Reach c p → IsPlaced test p
Reach-IsPlaced test start = refl
Reach-IsPlaced test (later r st) = Step-IsPlaced test st (Reach-IsPlaced test r)

-- Where a message is before the cancellation.
abbrev pub in_hand : Pool → List Job
in_hand p = held p.poll ++ (handed p.reclaim ++ (p.spawned ++ (p.running ++ p.finished)))

in_hand-count :
    (test : Job → Bool) (p : Pool)
    → count test (in_hand p)
      ≡ count test (held p.poll)
        + count test (handed p.reclaim)
        + count test p.spawned
        + count test p.running
        + count test p.finished
in_hand-count test p = omega (
  arith,
  count-append test (held p.poll) (handed p.reclaim ++ (p.spawned ++ (p.running ++ p.finished))),
  count-append test (handed p.reclaim) (p.spawned ++ (p.running ++ p.finished)),
  count-append test p.spawned (p.running ++ p.finished),
  count-append test p.running p.finished,
)

pub settled_count :
    (test : Job → Bool) (p : Pool)
    → count test (p.finished ++ p.abandoned) ≡ count test p.finished + count test p.abandoned
settled_count test p = count-append test p.finished p.abandoned

-- Before the context is cancelled, the messages that Consume and ReclaimStale returned to their
-- loops are the messages that wait for the semaphore, are with a goroutine, or are finished: the
-- very same ones, each as often. None is lost, started twice, or started in the place of another.
pub delivered_accounted :
    {c : ℕ} {p : Pool} → Reach c p → p.cancelled ≡ false → SameMessages p.delivered (in_hand p)
delivered_accounted {c} {p} r going test =
    let none_abandoned = (Reach-IsBalanced r).kept going in
    let placed = Reach-IsPlaced test r in
    let spread = in_hand-count test p in
    let nothing : count test p.abandoned ≡ 0 = rw none_abandoned refl in
    omega (arith, placed, spread, nothing)

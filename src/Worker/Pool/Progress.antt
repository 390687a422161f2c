-- ===== src/Worker/Pool/Progress.antt =====
-- That the pool cannot get stuck: a held message gets its goroutine, and after the cancellation
-- everything comes to its end.
use fluffy_dollop.Base.{
  ℕ, zero, suc, ◌+◌, ◌*◌, ◌≡◌, refl, ◌∙◌, ◌⊎◌, inl, inr, ◌≤◌, ◌<◌, length, Bool, true, List, [],
  ◌∷◌, ◌++◌, In, In-append_right, arith,
}
use fluffy_dollop.Worker.Pool.{
  Job, Polling, polling, holding, poll_exited, Reclaiming, waiting, handing, reclaim_exited, Pool,
  Step, poll_acquires, poll_gives_up, poll_exits, reclaim_gives_up, reclaim_returns, reclaim_exits,
  job_begins, job_ends, job_releases, Reach, later,
}
use fluffy_dollop.Worker.Pool.Accounting.{
  held, handed, count, SameMessages, Reach-IsBalanced, Reach-IsPlaced, settled_count, one_more,
}

-- A run of any number of steps.
pub data Steps : Pool → Pool → Type 0 where
  done : {p : Pool} → Steps p p
  then_step : {p q r : Pool} → Step p q → Steps q r → Steps p r

pub Reach-Steps : {c : ℕ} {p q : Pool} → Reach c p → Steps p q → Reach c q
Reach-Steps r done = r
Reach-Steps r (then_step st rest) = Reach-Steps (later r st) rest

Steps-join : {p q r : Pool} → Steps p q → Steps q r → Steps p r
Steps-join done rest = rest
Steps-join (then_step st more) rest = then_step st (Steps-join more rest)

-- What is left to do after the cancellation.
abbrev poll_work : Polling → ℕ
poll_work polling = 1
poll_work (holding j) = 2
poll_work poll_exited = 0

abbrev reclaim_work : Reclaiming → ℕ
reclaim_work waiting = 1
reclaim_work (handing js) = 2
reclaim_work reclaim_exited = 0

abbrev work : Pool → ℕ
work p =
    poll_work p.poll
    + reclaim_work p.reclaim
    + 3 * length p.spawned
    + 2 * length p.running
    + p.leaving

pub record IsDrained (p : Pool) : Type 0 where
  pub poll_gone : p.poll ≡ poll_exited
  pub reclaim_gone : p.reclaim ≡ reclaim_exited
  pub none_spawned : p.spawned ≡ []
  pub none_running : p.running ≡ []
  pub none_leaving : p.leaving ≡ 0

List-cases : {A : Type 0} (xs : List A) → (xs ≡ []) ⊎ ((x : A) × (rest : List A) × (xs ≡ x ∷ rest))
List-cases [] = inl refl
List-cases (x ∷ rest) = inr (x, rest, refl)

Polling-cases : (a : Polling) → (a ≡ polling) ⊎ ((j : Job) × (a ≡ holding j)) ⊎ (a ≡ poll_exited)
Polling-cases polling = inl refl
Polling-cases (holding j) = inr (inl (j, refl))
Polling-cases poll_exited = inr (inr refl)

Reclaiming-cases :
    (a : Reclaiming) → (a ≡ waiting) ⊎ ((js : List Job) × (a ≡ handing js)) ⊎ (a ≡ reclaim_exited)
Reclaiming-cases waiting = inl refl
Reclaiming-cases (handing js) = inr (inl (js, refl))
Reclaiming-cases reclaim_exited = inr (inr refl)

ℕ-cases : (n : ℕ) → (n ≡ 0) ⊎ ((m : ℕ) × (n ≡ m + 1))
ℕ-cases zero = inl refl
ℕ-cases (suc m) = inr (m, omega arith)

-- A step that leaves the loops and the cancellation as they are, with less to do after it.
abbrev Advances : Pool → Pool → Type 0
Advances p q = Step p q × (work q < work p) × (q.cancelled ≡ p.cancelled) × (q.poll ≡ p.poll)

end_first :
    (p : Pool) (j : Job) (rest : List Job) → p.running ≡ j ∷ rest → (q : Pool) × Advances p q
end_first p j rest at =
    (_, (job_ends p [] rest j at, ground (arith, one_more p.finished j), refl, refl))

begin_first :
    (p : Pool) (j : Job) (rest : List Job) → p.spawned ≡ j ∷ rest → (q : Pool) × Advances p q
begin_first p j rest at =
    (_, (job_begins p [] rest j at, ground (arith, one_more p.running j), refl, refl))

release_one : (p : Pool) (n : ℕ) → p.leaving ≡ n + 1 → (q : Pool) × Advances p q
release_one p n at = (_, (job_releases p n at, ground arith, refl, refl))

goroutine_step :
    (p : Pool)
    → ((p.spawned ≡ []) × (p.running ≡ []) × (p.leaving ≡ 0)) ⊎ ((q : Pool) × Advances p q)
goroutine_step p = elim (List-cases p.spawned) [
  | inr (j, rest, at) ↦ inr (begin_first p j rest at)
  | inl no_spawned ↦ elim (List-cases p.running) [
    | inr (j, rest, at) ↦ inr (end_first p j rest at)
    | inl no_running ↦ elim (ℕ-cases p.leaving) [
      | inr (n, at) ↦ inr (release_one p n at)
      | inl no_leaving ↦ inl (no_spawned, no_running, no_leaving)
    ]
  ]
]

-- After the cancellation every state that is not drained has a step that leaves less to do.
progress :
    (p : Pool)
    → p.cancelled ≡ true
    → IsDrained p ⊎ ((q : Pool) × (Step p q) × (work q < work p) × (q.cancelled ≡ true))
progress p stop = elim (goroutine_step p) [
  | inr (q, (st, less, same, kept)) ↦ inr (q, st, less, same ∙ stop)
  | inl (no_spawned, no_running, no_leaving) ↦ elim (Polling-cases p.poll) [
    | inl at ↦ inr (_, poll_exits p at stop, ground arith, stop)
    | inr (inl (j, at)) ↦ inr (_, poll_gives_up p j at stop, ground arith, stop)
    | inr (inr poll_gone) ↦ elim (Reclaiming-cases p.reclaim) [
      | inl at ↦ inr (_, reclaim_exits p at stop, ground arith, stop)
      | inr (inl ([], at)) ↦ inr (_, reclaim_returns p at, ground arith, stop)
      | inr (inl (j ∷ js, at)) ↦ inr (_, reclaim_gives_up p j js at stop, ground arith, stop)
      | inr (inr reclaim_gone) ↦ inl (record {
        poll_gone = poll_gone;
        reclaim_gone = reclaim_gone;
        none_spawned = no_spawned;
        none_running = no_running;
        none_leaving = no_leaving;
      })
    ]
  ]
]

drains_within :
    (n : ℕ) (p : Pool) → work p ≤ n → p.cancelled ≡ true → (q : Pool) × Steps p q × IsDrained q
drains_within zero p few stop = elim (progress p stop) [
  | inl finished ↦ (p, done, finished)
  | inr (q, st, less, stopped) ↦ ground arith
]
drains_within (suc n) p few stop = elim (progress p stop) [
  | inl finished ↦ (p, done, finished)
  | inr (q, st, less, stopped) ↦
      let (r, rest, finished) = drains_within n q (omega (arith, few, less)) stopped in
      (r, then_step st rest, finished)
]

settled :
    (test : Job → Bool) (q : Pool)
    → IsDrained q
    → count test q.delivered
      ≡ count test (held q.poll)
        + count test (handed q.reclaim)
        + count test q.spawned
        + count test q.running
        + count test q.finished
        + count test q.abandoned
    → count test q.delivered ≡ count test (q.finished ++ q.abandoned)
settled test q gone placed = let split = settled_count test q in ground (arith, gone)

-- From every reachable state in which the context is cancelled, some run of steps ends with both
-- loops returned and no goroutine left; the semaphore then has its whole weight, and the messages
-- that Consume and ReclaimStale returned are those that are finished or were given up: the very same
-- ones, each as often.
pub shutdown_drains :
    {c : ℕ} {p : Pool}
    → Reach c p
    → p.cancelled ≡ true
    → (q : Pool) × Steps p q
      × IsDrained q
      × (q.free ≡ c)
      × SameMessages q.delivered (q.finished ++ q.abandoned)
shutdown_drains {p} r stop =
    let (q, run, gone) = drains_within (work p) p (omega arith) stop in
    let b = Reach-IsBalanced (Reach-Steps r run) in
    (
      q,
      run,
      gone,
      ground (arith, b, gone),
      λ test. settled test q gone (Reach-IsPlaced test (Reach-Steps r run)),
    )

hands_within :
    {c : ℕ} (n : ℕ) (p : Pool) (j : Job)
    → Reach c p
    → 0 < c
    → work p ≤ n
    → p.poll ≡ holding j
    → (q : Pool) × Steps p q × (q.poll ≡ polling) × In j q.spawned
hands_within zero p j r room few at = ground arith
hands_within (suc n) p j r room few at = elim (ℕ-cases p.free) [
  | inr (free, some_free) ↦ (
    _,
    then_step (poll_acquires p j free at some_free) done,
    refl,
    In-append_right j p.spawned (j ∷ []) (inl refl),
  )
  | inl none_free ↦ elim (goroutine_step p) [
    | inl (no_spawned, no_running, no_leaving) ↦ let b = Reach-IsBalanced r in ground (arith, b)
    | inr (q, (st, less, same, kept)) ↦
        let (t, rest, back, handed) =
          hands_within n q j (later r st) room (omega (arith, few, less)) (kept ∙ at) in
        (t, then_step st rest, back, handed)
  ]
]

-- With a concurrency above 0, from every reachable state in which the poll loop waits for the
-- semaphore with a message, some run of steps gives the message a goroutine and takes the loop back
-- to polling.
pub held_message_starts :
    {c : ℕ} {p : Pool} (j : Job)
    → Reach c p
    → 0 < c
    → p.poll ≡ holding j
    → (q : Pool) × Steps p q × (q.poll ≡ polling) × In j q.spawned
held_message_starts {p} j r room at = hands_within (work p) p j r room (omega arith) at

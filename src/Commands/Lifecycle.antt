-- ===== src/Commands/Lifecycle.antt =====
-- What holds when the worker starts its loops, and how its command ends.
use mathlib.Core.Path.{subst}
use fluffy_dollop.Base.{
  ◌⊎◌, refl, sym, ℕ, ◌≡◌, ◌↔◌, inl, inr, ◌<◌, Bool, none, some, List, In, arith,
}
use fluffy_dollop.Base.Int.{ℤ, pos, pos_part}
use fluffy_dollop.Base.Text.{Text}
use fluffy_dollop.Go.Effect.{Result-cases, ok}
use fluffy_dollop.Go.Group.{ErrGroup, ErrGroupLaws}
use fluffy_dollop.Config.Types.{Config, QueueConfig}
use fluffy_dollop.Config.Issue.{Section, Issues}
use fluffy_dollop.Config.Validator.Sections.{IsUsableQueue}
use fluffy_dollop.Redis.{Redis}
use fluffy_dollop.Redis.Hashes.{HashLaws}
use fluffy_dollop.Bootstrap.{setup_partitions, setup_dlq}
use fluffy_dollop.Bootstrap.Connect.{setup_redis}
use fluffy_dollop.Bootstrap.Groups.{GroupLaws, setup_partitions-HasGroup}
use fluffy_dollop.Registry.{worker_key, register, deregister}
use fluffy_dollop.Registry.Records.{
  own_fields, IsRegistered, register-IsRegistered, register_written,
}
use fluffy_dollop.Worker.Poll.{Worker, new_worker}
use fluffy_dollop.Worker.Start.{Returned}
use fluffy_dollop.Worker.Start.Outcome.{start_worker-none}
use fluffy_dollop.Commands.{exit_code, start_up, wired, run_worker}

-- The partition id of an accepted section is the number of one of the partitions.
partition_number :
    (c : QueueConfig)
    → IsUsableQueue c
    → (i : ℕ) × (c.partition_id ≡ pos i) × (i < pos_part c.partition_count)
partition_number c usable = (pos_part c.partition_id, ground arith, ground arith)

inl-injective : {A B : Type 0} {a a' : A} → ◌≡◌ {A = A ⊎ B} (inl a) (inl a') → a ≡ a'
inl-injective h = ground arith

module _ {Float : Type 0} (R : Redis) where
  open R use {State}

  -- A startup without error: each of the three calls returned none.
  start_up_steps :
      (c : Config Float) (worker_id : Text) (now : ℤ) (s : State)
      → (start_up R c worker_id now s).0 ≡ ok tt
      → ((setup_partitions R c.queue (setup_redis R s).1).0 ≡ ok tt)
        × ((register R worker_id now (setup_partitions R c.queue (setup_redis R s).1).1).0 ≡ ok tt)
        × ((start_up R c worker_id now s).1
            ≡ (register R worker_id now (setup_partitions R c.queue (setup_redis R s).1).1).1)
  unfolding start_up
  start_up_steps c worker_id now s h = elim (Result-cases (setup_redis R s).0) [
    | inr (e, bad) ↦ ground arith
    | inl (u, connected) ↦
        let s1 = (setup_redis R s).1 in
        elim (Result-cases (setup_partitions R c.queue s1).0) [
          | inr (e, bad) ↦ ground arith
          | inl (v, made) ↦
              elim (Result-cases (register R worker_id now (setup_partitions R c.queue s1).1).0) [
                | inr (e, bad) ↦ ground arith
                | inl (w, known) ↦ (made, known, ground arith)
              ]
        ]
  ]

  module _ (G : GroupLaws R) (H : HashLaws R) where
    -- When the worker starts its loops, which is after a startup without error on a queue section
    -- that the validator accepts, the consumer's stream has the consumer's group, and the registry
    -- has the worker.
    pub start_up-ready :
        (c : Config Float) (worker_id : Text) (now : ℤ) (s : State)
        → IsUsableQueue c.queue
        → (start_up R c worker_id now s).0 ≡ ok tt
        → In
            (wired c worker_id).consumer.consumer_group
            (G.groups (start_up R c worker_id now s).1 (wired c worker_id).consumer.stream_name)
          × IsRegistered R H worker_id now now (start_up R c worker_id now s).1
    unfolding wired new_worker setup_partitions
    start_up-ready c worker_id now s usable h =
        let (made, known, ends) = start_up_steps c worker_id now s h in
        let s1 = (setup_redis R s).1 in
        let s2 = (setup_partitions R c.queue s1).1 in
        let (n, good, written) = register_written R H worker_id now s2 known in
        let (i, is_pos, below) = partition_number c.queue usable in
        let group =
          setup_partitions-HasGroup R G c.queue i (some (setup_dlq c.queue)) worker_id s1 below
            made in
        let kept =
          G.hset_groups (worker_key worker_id) (own_fields R H worker_id now) s2
            (wired c worker_id).consumer.stream_name in
        rw ends (rw (written, kept, is_pos) group, register-IsRegistered R H worker_id now s2 known)

  module _ (H : HashLaws R) where
    -- However the loops end, a worker that has started them and whose Deregister is answered leaves
    -- no field of its record in the registry.
    pub run_worker-deregistered :
        (E : ErrGroup) (work : Worker → State → List Returned × State) (interrupted : Bool)
        (c : Config Float) (worker_id : Text) (now : ℤ) (s : State) (n : ℤ) (f : Text)
        → (start_up R c worker_id now s).0 ≡ ok tt
        → (R.del
            (worker_key worker_id)
            (work (wired c worker_id) (start_up R c worker_id now s).1).1).0
          ≡ ok n
        → H.hash
            (run_worker R E work interrupted (inl c) worker_id now s).1
            (worker_key worker_id)
            f
          ≡ none
    unfolding run_worker deregister
    run_worker-deregistered E work interrupted c worker_id now s n f h answered =
        let cleared = H.del_clears (worker_key worker_id) _ n f answered in ground arith

  accepted_exit_code :
      (E : ErrGroup) (L : ErrGroupLaws E) (work : Worker → State → List Returned × State)
      (interrupted : Bool) (c : Config Float) (worker_id : Text) (now : ℤ) (s : State)
      → (exit_code (run_worker R E work interrupted (inl c) worker_id now s).0 ≡ 0)
        ↔ ((start_up R c worker_id now s).0 ≡ ok tt)
  unfolding run_worker exit_code
  accepted_exit_code E L work interrupted c worker_id now s =
      let quiet =
        start_worker-none E L interrupted
          (work (wired c worker_id) (start_up R c worker_id now s).1).0 in
      elim (Result-cases (start_up R c worker_id now s).0) [
        | inl (u, good) ↦ ground arith
        | inr (e, bad) ↦ ground arith
      ]

  -- The worker's command ends with exit code 0 exactly if the configuration is accepted and the
  -- startup returns no error: nothing that its goroutines return changes it, the error of a health
  -- server that cannot listen included.
  pub run_worker-exit_code :
      (E : ErrGroup) (L : ErrGroupLaws E) (work : Worker → State → List Returned × State)
      (interrupted : Bool) (loaded : Config Float ⊎ List (Section × Issues)) (worker_id : Text)
      (now : ℤ) (s : State)
      → (exit_code (run_worker R E work interrupted loaded worker_id now s).0 ≡ 0)
        ↔ ((c : Config Float) × (loaded ≡ inl c) × ((start_up R c worker_id now s).0 ≡ ok tt))
  unfolding run_worker exit_code
  run_worker-exit_code E L work interrupted (inr issues) worker_id now s =
      ((λ h. ground arith), λ (c, same, good). ground arith)
  run_worker-exit_code E L work interrupted (inl c) worker_id now s =
      let (only, enough) = accepted_exit_code E L work interrupted c worker_id now s in
      (
        (λ h. (c, refl, only h)),
        λ (c', same, good).
            enough (
              subst (λ x. (start_up R x worker_id now s).0 ≡ ok tt) (inl-injective (sym same))
                good),
      )

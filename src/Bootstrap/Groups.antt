-- ===== src/Bootstrap/Groups.antt =====
-- What SetupPartitions leaves behind.
use mathlib.Core.Path.{subst}
use fluffy_dollop.Base.{
  ℕ, zero, suc, ◌+◌, ◌≤◌, ◌<◌, ◌≡◌, ◌≢◌, ap, sym, ◌∙◌, ◌⊎◌, inl, inr, true, Bool-cases, Option,
  List, arith, In,
}
use fluffy_dollop.Base.Int.{pos, pos_part}
use fluffy_dollop.Base.Text.{Text, lit}
use fluffy_dollop.Go.Errors.{Error}
use fluffy_dollop.Go.Effect.{Result, Result-cases, ok, err}
use fluffy_dollop.Config.Types.{QueueConfig}
use fluffy_dollop.Redis.{Redis, Fields}
use fluffy_dollop.Queue.Dlq.{Dlq}
use fluffy_dollop.Bootstrap.{
  partition_stream_name, partition_group_name, is_busy_group, setup_consumer, setup_partitions_from,
  setup_partitions,
}

-- The documented behaviour of XGROUP CREATE with MKSTREAM: the group is there after a success, and
-- after the error that it is there already, and no other group goes away.
pub record GroupLaws (R : Redis) : Type 0 where
  pub groups : R.State → Text → List Text
  pub create_adds :
      (stream group start v : Text) (s : R.State)
      → (R.xgroup_create_mkstream stream group start s).0 ≡ ok v
      → In group (groups (R.xgroup_create_mkstream stream group start s).1 stream)
  pub create_busy :
      (stream group start : Text) (e : Error) (s : R.State)
      → (R.xgroup_create_mkstream stream group start s).0 ≡ err e
      → is_busy_group e ≡ true
      → In group (groups (R.xgroup_create_mkstream stream group start s).1 stream)
  pub create_keeps :
      (stream group start : Text) (s : R.State) (other_stream other : Text)
      → In other (groups s other_stream)
      → In other (groups (R.xgroup_create_mkstream stream group start s).1 other_stream)
  -- Commands on hashes touch no group.
  pub hset_groups :
      (key : Text) (fields : Fields) (s : R.State) (stream : Text)
      → groups (R.hset key fields s).1 stream ≡ groups s stream

module _ (R : Redis) (G : GroupLaws R) where
  open R use {State}
  open G use {groups}

  -- The group of a partition.
  abbrev pub HasGroup : QueueConfig → ℕ → State → Type 0
  HasGroup c i s =
      In (partition_group_name c.base_consumer_group (pos i))
        (groups s (partition_stream_name c.base_stream_name (pos i)))

  abbrev create : QueueConfig → ℕ → State → Result Text × State
  create c i s =
      R.xgroup_create_mkstream (partition_stream_name c.base_stream_name (pos i))
        (partition_group_name c.base_consumer_group (pos i)) (lit "0") s

  -- One round: the group is there and the loop goes on, or the loop ends with an error.
  round :
      (c : QueueConfig) (left i : ℕ) (s : State)
      → (HasGroup c i (create c i s).1
          × (setup_partitions_from R c (suc left) i s
              ≡ setup_partitions_from R c left (suc i) (create c i s).1))
        ⊎ ((setup_partitions_from R c (suc left) i s).0 ≢ ok tt)
  unfolding setup_partitions_from
  round c left i s = elim (Result-cases (create c i s).0) [
    | inl (v, made) ↦ inl (G.create_adds _ _ (lit "0") v s made, ground arith)
    | inr (e, bad) ↦ elim (Bool-cases (is_busy_group e)) [
      | inl busy ↦ inl (G.create_busy _ _ (lit "0") e s bad busy, ground arith)
      | inr other ↦ inr (λ done. ground arith)
    ]
  ]

  setup_keeps :
      (c : QueueConfig) (left i j : ℕ) (s : State)
      → HasGroup c j s
      → (setup_partitions_from R c left i s).0 ≡ ok tt
      → HasGroup c j (setup_partitions_from R c left i s).1
  unfolding setup_partitions_from
  setup_keeps c zero i j s there done = there
  setup_keeps c (suc left) i j s there done = elim (round c left i s) [
    | inr stops ↦ elim (stops done) [ ]
    | inl (made, goes_on) ↦ rw goes_on (
        setup_keeps c left (suc i) j (create c i s).1 (G.create_keeps _ _ (lit "0") s _ _ there)
          (ap (λ p. p.0) (sym goes_on) ∙ done))
  ]

  now_or_later : (i j : ℕ) → i ≤ j → (i ≡ j) ⊎ (suc i ≤ j)
  now_or_later i j h = omega arith

  setup_reaches :
      (c : QueueConfig) (left i j : ℕ) (s : State)
      → i ≤ j
      → j < i + left
      → (setup_partitions_from R c left i s).0 ≡ ok tt
      → HasGroup c j (setup_partitions_from R c left i s).1
  setup_reaches c zero i j s from to done = ground arith
  setup_reaches c (suc left) i j s from to done = elim (round c left i s) [
    | inr stops ↦ elim (stops done) [ ]
    | inl (made, goes_on) ↦
        let done' = ap (λ p. p.0) (sym goes_on) ∙ done in
        rw goes_on (elim (now_or_later i j from) [
          | inl same ↦
              setup_keeps c left (suc i) j (create c i s).1
                (subst (λ k. HasGroup c k (create c i s).1) same made) done'
          | inr later ↦
              setup_reaches c left (suc i) j (create c i s).1 later (omega (arith, to)) done'
        ])
  ]

  -- After a SetupPartitions that returns no error, the consumer of every partition below the
  -- partition count finds its stream with its consumer group.
  pub setup_partitions-HasGroup :
      (c : QueueConfig) (i : ℕ) (dlq : Option Dlq) (worker_id : Text) (s : State)
      → i < pos_part c.partition_count
      → (setup_partitions R c s).0 ≡ ok tt
      → In (setup_consumer (record c { partition_id = pos i }) dlq worker_id).consumer_group (
          groups
            (setup_partitions R c s).1
            (setup_consumer (record c { partition_id = pos i }) dlq worker_id).stream_name)
  unfolding setup_partitions setup_consumer
  setup_partitions-HasGroup c i dlq worker_id s below done =
      setup_reaches c (pos_part c.partition_count) 0 i s (omega arith) (omega (arith, below)) done

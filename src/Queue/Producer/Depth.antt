-- ===== src/Queue/Producer/Depth.antt =====
-- What `StreamLength`, the throttler's depth, measures.
use fluffy_dollop.Base.{
  ℕ, zero, suc, ◌+◌, ◌^◌, ◌<◌, ◌≡◌, ◌≢◌, refl, ap, sym, ◌∙◌, inl, inr, arith, length,
}
use fluffy_dollop.Base.Int.{ℤ, pos, pos_part, ◌+ℤ◌, wrap64}
use fluffy_dollop.Base.Text.{Text}
use fluffy_dollop.Go.Errors.{Error}
use fluffy_dollop.Go.Effect.{Result-cases, ok, err}
use fluffy_dollop.Config.Types.{QueueConfig}
use fluffy_dollop.Redis.{Redis}
use fluffy_dollop.Redis.Laws.{QueueLaws}
use fluffy_dollop.Queue.Types.{Json}
use fluffy_dollop.Queue.Consumer.{Consumer, ack}
use fluffy_dollop.Queue.Consumer.Delivery.{ack_state}
use fluffy_dollop.Queue.Producer.{stream_name, stream_length_from, stream_length}

module _ (R : Redis) (J : Json) (L : QueueLaws R) where
  open R use {State}
  open L use {entries}

  -- The entries of the partitions from `i` on, `left` of them: pending, new and acknowledged ones.
  abbrev pub entry_count : QueueConfig → ℕ → ℕ → State → ℕ
  entry_count c zero i s = 0
  entry_count c (suc left) i s =
      length (entries s (stream_name c.base_stream_name (pos i))) + entry_count c left (suc i) s

  pub entry_count_same :
      (c : QueueConfig) (left i : ℕ) (s t : State)
      → ((stream : Text) → entries s stream ≡ entries t stream)
      → entry_count c left i s ≡ entry_count c left i t
  entry_count_same c zero i s t h = refl
  entry_count_same c (suc left) i s t h = rw (h (stream_name c.base_stream_name (pos i))) (
      ap (λ k. length (entries t (stream_name c.base_stream_name (pos i))) + k)
        (entry_count_same c left (suc i) s t h))

  add_small : (m n : ℕ) → m + n < 2 ^ 63 → wrap64 (pos m +ℤ pos n) ≡ pos (m + n)
  unfolding ◌+ℤ◌ wrap64
  add_small m n h = ground arith

  stream_length_from_step :
      (c : QueueConfig) (left i : ℕ) (total k : ℤ) (s : State)
      → (R.xlen (stream_name c.base_stream_name (pos i)) s).0 ≡ ok k
      → (stream_length_from R J c (suc left) i total s).0
        ≡ (stream_length_from R J c left
            (suc i)
            (wrap64 (total +ℤ k))
            (R.xlen (stream_name c.base_stream_name (pos i)) s).1).0
  unfolding stream_length_from
  stream_length_from_step c left i total k s counted = ground arith

  stream_length_from_ends :
      (c : QueueConfig) (i : ℕ) (total n : ℤ) (s : State)
      → (stream_length_from R J c 0 i total s).0 ≡ ok n
      → n ≡ total
  unfolding stream_length_from
  stream_length_from_ends c i total n s h = ground arith

  stream_length_from_fails :
      (c : QueueConfig) (left i : ℕ) (total n : ℤ) (e : Error) (s : State)
      → (R.xlen (stream_name c.base_stream_name (pos i)) s).0 ≡ err e
      → (stream_length_from R J c (suc left) i total s).0 ≢ ok n
  unfolding stream_length_from
  stream_length_from_fails c left i total n e s bad h = ground arith

  stream_length_from-entry_count :
      (c : QueueConfig) (left i total : ℕ) (s : State) (n : ℤ)
      → total + entry_count c left i s < 2 ^ 63
      → (stream_length_from R J c left i (pos total) s).0 ≡ ok n
      → n ≡ pos (total + entry_count c left i s)
  stream_length_from-entry_count c zero i total s n small h =
      rw (stream_length_from_ends c i (pos total) n s h) (ground arith)
  stream_length_from-entry_count c (suc left) i total s n small h =
      let stream = stream_name c.base_stream_name (pos i) in
      elim (Result-cases (R.xlen stream s).0) [
        | inr (e, bad) ↦ elim (stream_length_from_fails c left i (pos total) n e s bad h) [ ]
        | inl (k, counted) ↦
            let there = length (entries s stream) in
            let s' = (R.xlen stream s).1 in
            let k_is = L.xlen_counts stream s k counted in
            let same =
              entry_count_same c left (suc i) s' s (λ other. L.xlen_entries stream s other) in
            let step = stream_length_from_step c left i (pos total) k s counted in
            let added =
              ap (λ z. wrap64 (pos total +ℤ z)) k_is
              ∙ add_small total there (omega (arith, small)) in
            let below = ap (λ z. total + there + z) same in
            let rest =
              stream_length_from-entry_count c left (suc i) (total + there) s' n
                (omega (arith, small, below))
                (ap (λ z. (stream_length_from R J c left (suc i) z s').0) (sym added)
                  ∙ sym step
                  ∙ h) in
            rest ∙ ap pos (omega (arith, below))
      ]

  -- The entries of all the partitions.
  abbrev pub total_entries : QueueConfig → State → ℕ
  total_entries c s = entry_count c (pos_part c.partition_count) 0 s

  -- The depth that StreamLength reports, when no XLEN fails and the entries fit an int64, is the
  -- number of all entries of the partitions' streams: the ones that a worker has acknowledged are
  -- among them.
  pub stream_length-total_entries :
      (c : QueueConfig) (s : State) (n : ℤ)
      → total_entries c s < 2 ^ 63
      → (stream_length R J c s).0 ≡ ok n
      → n ≡ pos (total_entries c s)
  unfolding stream_length
  stream_length-total_entries c s n small h =
      let all =
        stream_length_from-entry_count c (pos_part c.partition_count) 0 0 s n (omega (arith, small))
          h in
      all ∙ ap pos (omega arith)

  pub ack_entries :
      (w : Consumer) (id : Text) (s : State) (stream : Text)
      → entries (ack R J w id s).1 stream ≡ entries s stream
  ack_entries w id s stream =
      rw (ack_state R J L w id s) (L.xack_entries w.stream_name w.consumer_group id s stream)

  -- Acknowledging a message leaves the reported depth as it is: if StreamLength reports one number
  -- before an ack and one number after it, with entries that fit an int64, they are the same.
  pub ack_keeps_depth :
      (c : QueueConfig) (w : Consumer) (id : Text) (s : State) (before after : ℤ)
      → total_entries c s < 2 ^ 63
      → (stream_length R J c s).0 ≡ ok before
      → (stream_length R J c (ack R J w id s).1).0 ≡ ok after
      → after ≡ before
  ack_keeps_depth c w id s before after small h h' =
      let same =
        entry_count_same c (pos_part c.partition_count) 0 (ack R J w id s).1 s
          (λ k. ack_entries w id s k) in
      let later =
        stream_length-total_entries c (ack R J w id s).1 after (omega (arith, small, same)) h' in
      later ∙ ap pos same ∙ sym (stream_length-total_entries c s before small h)

-- ===== src/Ingestion/Throttler/Updater/Backlog.antt =====
-- What the throttler decides when the workers have finished everything.
use fluffy_dollop.Base.{
  ℕ, ◌+◌, ◌*◌, ◌/◌, ◌^◌, ◌<◌, ◌≤◌, ◌≡◌, refl, inl, inr, ap, ◌∙◌, true, false, some, List, [], ◌∷◌,
  arith,
}
use fluffy_dollop.Base.Int.{ℤ, pos, pos_part, ltb_ℤ, saturate64, wrap64, ◌-ℤ◌, ◌*ℤ◌, ◌<ℤ◌}
use fluffy_dollop.Base.Text.{Text}
use fluffy_dollop.Go.Effect.{Result-cases, ok}
use fluffy_dollop.Go.Float.{Float64}
use fluffy_dollop.Models.{Time}
use fluffy_dollop.Redis.{Redis}
use fluffy_dollop.Redis.Laws.{QueueLaws}
use fluffy_dollop.Queue.Types.{Json}
use fluffy_dollop.Queue.Consumer.{Consumer, ack}
use fluffy_dollop.Queue.Producer.{stream_length}
use fluffy_dollop.Queue.Producer.Depth.{
  total_entries, entry_count_same, ack_entries, stream_length-total_entries,
}
use fluffy_dollop.Ingestion.Throttler.{
  ThrottlerMetrics, update_metrics, circuit_open, staleness, oldest_age, overload_score, decide,
  decision,
}
use fluffy_dollop.Ingestion.Throttler.Updater.{
  Throttler, get_pending_metrics, refresh, throttler_decision,
}

-- IEEE 754: the quotients of int64 by positive ones are no NaN, so that one is below another or not.
pub record RatioTotal (F : Float64) : Type 0 where
  pub ratio_total :
      (t : F.Float) (m q n r : ℤ)
      → pos 0 <ℤ q
      → pos 0 <ℤ r
      → F.lt (F.div (F.of_int n) (F.of_int r)) (F.div (F.of_int m) (F.of_int q)) ≡ false
      → F.lt t (F.div (F.of_int m) (F.of_int q)) ≡ true
      → F.lt t (F.div (F.of_int n) (F.of_int r)) ≡ true

-- Metrics of an instant are fresh up to twice the interval after its second.
fresh :
    (now interval clock : ℕ)
    → clock ≤ now / 1000000000 * 1000000000 + 2 * interval
    → 2 * interval < 2 ^ 63
    → ltb_ℤ
        (wrap64 (pos 2 *ℤ pos interval))
        (saturate64 (pos clock -ℤ pos (now / 1000000000) *ℤ pos 1000000000))
      ≡ false
unfolding wrap64 saturate64 ◌-ℤ◌ ◌*ℤ◌
fresh now interval clock early small = ground arith

module _ (R : Redis) (J : Json) (L : QueueLaws R) (F : Float64) (T : RatioTotal F) where
  open R use {State}
  open F use {Float, lt, div, of_int}

  -- Workers acknowledge these messages.
  abbrev pub ack_all : List (Consumer × Text) → State → State
  ack_all [] s = s
  ack_all ((w, id) ∷ acks) s = ack_all acks (ack R J w id s).1

  ack_all_entries :
      (acks : List (Consumer × Text)) (s : State) (stream : Text)
      → L.entries (ack_all acks s) stream ≡ L.entries s stream
  ack_all_entries [] s stream = refl
  ack_all_entries ((w, id) ∷ acks) s stream =
      ack_all_entries acks (ack R J w id s).1 stream ∙ ack_entries R J L w id s stream

  score_from_depth :
      (t : Throttler Float) (m : ThrottlerMetrics) (score : Float)
      → pos 0 <ℤ t.config.soft_depth_limit
      → pos 0 <ℤ t.config.max_message_age
      → lt score (div (of_int m.stream_depth) (of_int t.config.soft_depth_limit)) ≡ true
      → lt score (overload_score F t.config m) ≡ true
  unfolding overload_score
  score_from_depth t m score soft age above =
      let other =
        T.ratio_total score m.stream_depth t.config.soft_depth_limit (oldest_age m)
          t.config.max_message_age soft age in
      ground arith

  -- An update whose depth is answered, whatever becomes of the pending metrics.
  refreshed :
      (asked : Time) (now : ℕ) (t : Throttler Float) (s : State) (n : ℤ)
      → (stream_length R J t.producer s).0 ≡ ok n
      → ((refresh R J asked (pos now) t s).0.config ≡ t.config)
        × ((refresh R J asked (pos now) t s).0.metrics.stream_depth ≡ n)
        × ((refresh R J asked (pos now) t s).0.metrics.last_updated ≡ pos (now / 1000000000))
  unfolding refresh update_metrics
  refreshed asked now t s n answered =
      elim (Result-cases
        (get_pending_metrics R J t.consumer asked (stream_length R J t.producer s).1).0) [
          | inl ((count, age), good) ↦ ground arith
          | inr (e, bad) ↦ ground arith
        ]

  opens :
      (t : Throttler Float) (now interval clock : ℕ)
      → t.config.enabled ≡ true
      → t.metrics.last_updated ≡ pos (now / 1000000000)
      → t.config.metrics_update_interval ≡ pos interval
      → clock ≤ now / 1000000000 * 1000000000 + 2 * interval
      → 2 * interval < 2 ^ 63
      → lt t.config.circuit_open_score (overload_score F t.config t.metrics) ≡ true
      → throttler_decision F (some t) (pos clock) ≡ (circuit_open, pos 0)
  unfolding throttler_decision decision staleness decide
  opens t now interval clock on at every early small above =
      let recent = fresh now interval clock early small in ground arith

  -- Finished work keeps the circuit open: when the entries of the partitions' streams exceed the
  -- circuit's score times the soft depth limit, then after workers have acknowledged any messages,
  -- all of them included, an update whose StreamLength is answered makes the throttler refuse every
  -- request for two update intervals from the second of the update on. That is for an enabled
  -- throttler with positive limits, and numbers of entries and nanoseconds that fit an int64.
  pub acknowledged_backlog_refuses :
      (t : Throttler Float) (acks : List (Consumer × Text)) (s : State) (asked : Time)
      (now interval clock : ℕ) (n : ℤ)
      → t.config.enabled ≡ true
      → pos 0 <ℤ t.config.soft_depth_limit
      → pos 0 <ℤ t.config.max_message_age
      → t.config.metrics_update_interval ≡ pos interval
      → total_entries R J L t.producer s < 2 ^ 63
      → lt t.config.circuit_open_score
          (div (of_int (pos (total_entries R J L t.producer s))) (of_int t.config.soft_depth_limit))
        ≡ true
      → (stream_length R J t.producer (ack_all acks s)).0 ≡ ok n
      → clock ≤ now / 1000000000 * 1000000000 + 2 * interval
      → 2 * interval < 2 ^ 63
      → throttler_decision F (some (refresh R J asked (pos now) t (ack_all acks s)).0) (pos clock)
        ≡ (circuit_open, pos 0)
  acknowledged_backlog_refuses t acks s asked now interval clock n on soft age every few above
        answered early small =
      let s' = ack_all acks s in
      let t' = (refresh R J asked (pos now) t s').0 in
      let same =
        entry_count_same R J L t.producer (pos_part t.producer.partition_count) 0 s' s
          (ack_all_entries acks s) in
      let depth =
        stream_length-total_entries R J L t.producer s' n (rw same few) answered ∙ ap pos same in
      let (kept, deep, at) = refreshed asked now t s' n answered in
      let over =
        score_from_depth t' t'.metrics t.config.circuit_open_score (rw kept soft) (rw kept age)
          (rw (kept, deep, depth) above) in
      opens t' now interval clock (rw kept on) at (rw kept every) early small
        (rw (ap (λ c. c.circuit_open_score) kept) over)

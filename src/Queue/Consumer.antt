-- ===== src/Queue/Consumer.antt =====
-- internal/queue/consumer.go.
pub mod Delivery
pub mod Exhausted
pub mod Reclaim
pub mod Returns
use fluffy_dollop.Base.{
  ℕ, zero, suc, ◌-◌, Bool, true, false, Option, none, some, List, [], ◌∷◌, ◌++◌, if◌then◌else◌,
  ◌==◌, ◌&&◌, not,
}
use fluffy_dollop.Base.Int.{ℤ, pos, ◌+ℤ◌, ◌-ℤ◌, leb_ℤ, ltb_ℤ, wrap64, quot_ℤ}
use fluffy_dollop.Base.Text.{Text, lit, eq_text, is_empty}
use fluffy_dollop.Go.Errors.{
  Error, plain, wrap, error_text, is_redis_nil, failed_to_read_from_stream, failed_to_unmarshal,
  failed_to_ack, failed_to_build_retry_args, failed_to_reenqueue, failed_to_reclaim,
  failed_to_get_pending_info,
}
use fluffy_dollop.Go.Effect.{
  Result, ok, err, Io, pure, fail, ◌>>=◌, ◌>>◌, attempt, wrapping, lift_result,
}
use fluffy_dollop.Go.Strconv.{parse_int}
use fluffy_dollop.Config.Types.{Duration}
use fluffy_dollop.Redis.{field, Redis, XMessage, XStream, XReadGroupArgs, XAutoClaimArgs, XPending}
use fluffy_dollop.Queue.Types.{JobEnvelope, DlqEntry, Json}
use fluffy_dollop.Queue.Message.{build_xadd_args}
use fluffy_dollop.Queue.Dlq.{Dlq, send}

pub record Consumer : Type 0 where
  pub stream_name : Text
  pub consumer_group : Text
  pub consumer_name : Text
  pub dlq : Option Dlq

-- What `Consume` returns: nothing to do, a job with its message id, or an error.
pub data Fetched : Type 0 where
  nothing : Fetched
  job : JobEnvelope → Text → Fetched
  failed : Error → Fetched

-- `len(streams) == 0 || len(streams[0].Messages) == 0`.
abbrev pub first_of_streams : List XStream → Option XMessage
first_of_streams [] = none
first_of_streams (x ∷ xs) = elim x.messages [ [] ↦ none | m ∷ ms ↦ some m ]

-- The part of an id before the first `-`: `strings.Split(id, "-")[0]`.
unfoldable pub before_dash : Text → Text
before_dash [] = []
before_dash (c ∷ s) = if c == b'-' then [] else c ∷ before_dash s

abbrev pub fetched_of : Result (JobEnvelope × Text) → Fetched
fetched_of (ok (envelope, id)) = job envelope id
fetched_of (err e) = failed e

-- The envelope after a failed attempt.
abbrev pub failed_once : JobEnvelope → Error → JobEnvelope
failed_once envelope e = record envelope {
  retry_count = wrap64 (envelope.retry_count +ℤ pos 1);
  last_error = error_text e;
}

abbrev pub claim_args : Consumer → Duration → ℤ → Text → XAutoClaimArgs
claim_args c idle_time max_batch cursor = record {
  stream = c.stream_name;
  group = c.consumer_group;
  consumer = c.consumer_name;
  min_idle = idle_time;
  start = cursor;
  count = max_batch;
}

-- Seconds since the time in the id of the oldest pending message, in `nowMs`.
abbrev pub age_of : Option ℤ → ℤ → ℤ
age_of none now_ms = pos 0
age_of (some timestamp) now_ms = quot_ℤ (wrap64 (now_ms -ℤ timestamp)) 1000

abbrev pub pending_info_of : XPending → ℤ → ℤ × ℤ
pending_info_of info now_ms =
    if ltb_ℤ (pos 0) info.count && not (is_empty info.lower)
    then (info.count, age_of (parse_int (before_dash info.lower)) now_ms)
    else (info.count, pos 0)

abbrev pub no_group : Error → Bool
no_group e = eq_text (error_text e) (lit "NOGROUP")

module _ (R : Redis) (J : Json) where
  open R use {State}

  unfoldable pub parse_message : XMessage → Result (JobEnvelope × Text)
  unfolding field
  parse_message m = elim (field (lit "job") m.values) [
    | none ↦ err (plain (lit "message missing data field"))
    | some json ↦ elim (J.unmarshal_envelope json) [
      | ok envelope ↦ ok (envelope, m.id)
      | err e ↦ err (wrap failed_to_unmarshal e)
    ]
  ]

  abbrev pub read_result : Result (List XStream) → Fetched
  read_result (err e) =
      if is_redis_nil e then nothing else failed (wrap failed_to_read_from_stream e)
  read_result (ok streams) = elim (first_of_streams streams) [
    | none ↦ nothing
    | some m ↦ fetched_of (parse_message m)
  ]

  unfoldable pub consume : Consumer → Duration → State → Fetched × State
  unfolding parse_message
  consume c block s =
      let (r, s') =
        R.xread_group
          (record {
            group = c.consumer_group;
            consumer = c.consumer_name;
            streams = c.stream_name ∷ lit ">" ∷ [];
            count = pos 1;
            block = block;
          })
          s in
      (read_result r, s')

  unfoldable pub ack : Consumer → Text → Io State (Unit {0})
  ack c id = wrapping failed_to_ack (R.xack c.stream_name c.consumer_group id) >> pure tt

  -- A job whose retries are used up is sent to the dead letter queue, if there is one; an error of
  -- that is only logged.
  unfoldable pub give_up : Consumer → JobEnvelope → Text → Error → ℤ → Io State (Unit {0})
  give_up c envelope id e now = elim c.dlq [
    | none ↦ pure tt
    | some d ↦
        attempt (
          send R J d (record {
            original_stream_id = id;
            job_data = some envelope;
            failure_reason = error_text e;
            sent_to_dlq_at = now;
          }))
        >> pure tt
  ]

  unfoldable pub reenqueue : Consumer → JobEnvelope → Io State (Unit {0})
  unfolding build_xadd_args
  reenqueue c envelope = do
    built ←
        wrapping failed_to_build_retry_args
          (lift_result (build_xadd_args J c.stream_name (pos 0) envelope))
    wrapping failed_to_reenqueue (R.xadd built.0)
    pure tt

  -- `now` is the Unix time.
  unfoldable pub retry : Consumer → JobEnvelope → Text → Error → ℤ → Io State (Unit {0})
  unfolding give_up reenqueue ack
  retry c envelope id e now =
      let envelope' = failed_once envelope e in
      if leb_ℤ envelope'.max_retries envelope'.retry_count
      then give_up c envelope' id e now >> ack c id
      else reenqueue c envelope' >> ack c id

  -- The loop over the messages of one page: what does not parse is left pending.
  unfoldable pub parse_all : List XMessage → List (JobEnvelope × Text)
  parse_all [] = []
  parse_all (m ∷ ms) =
      let rest = parse_all ms in elim (parse_message m) [ ok parsed ↦ parsed ∷ rest | err e ↦ rest ]

  -- The jobs so far and the error, if there is one. `cancelled` says for each round whether the
  -- context is done after it; the list is the fuel, and `none` says that it ran out.
  unfoldable pub reclaim_from :
      List Bool
      → Consumer
      → Duration
      → ℤ
      → Text
      → List (JobEnvelope × Text)
      → State
      → Option (List (JobEnvelope × Text) × Option Error) × State
  unfolding parse_all
  reclaim_from [] c idle_time max_batch cursor jobs s = (none, s)
  reclaim_from (cancelled ∷ rounds) c idle_time max_batch cursor jobs s =
      let (r, s') = R.xauto_claim (claim_args c idle_time max_batch cursor) s in
      elim r [
        | err e ↦ (
          some (if is_redis_nil e then (jobs, none) else (jobs, some (wrap failed_to_reclaim e))),
          s',
        )
        | ok (messages, next) ↦
            let jobs' = jobs ++ parse_all messages in
            let more = reclaim_from rounds c idle_time max_batch next jobs' s' in
            if eq_text next (lit "0-0")
            then (some (jobs', none), s')
            else (if cancelled
                then (some (jobs', some (plain (lit "context canceled"))), s')
                else more)
      ]

  unfoldable pub reclaim_stale :
      List Bool
      → Consumer
      → Duration
      → ℤ
      → State
      → Option (List (JobEnvelope × Text) × Option Error) × State
  unfolding reclaim_from
  reclaim_stale rounds c idle_time max_batch s =
      reclaim_from rounds c idle_time max_batch (lit "0-0") [] s

  unfoldable pub get_pending_info : Consumer → ℤ → Io State (ℤ × ℤ)
  unfolding before_dash parse_int
  get_pending_info c now_ms s =
      let (r, s') = R.xpending c.stream_name c.consumer_group s in
      elim r [
        | ok info ↦ (ok (pending_info_of info now_ms), s')
        | err e ↦
            if is_redis_nil e
            then (ok (pos 0, pos 0), s')
            else (if no_group e
                then (ok (pos 0, pos 0), s')
                else fail (wrap failed_to_get_pending_info e) s')
      ]

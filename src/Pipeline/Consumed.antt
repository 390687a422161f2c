-- ===== src/Pipeline/Consumed.antt =====
-- What a worker reads after any run of the three programs: `Consume` of internal/queue/consumer.go.
use fluffy_dollop.Base.{◌≡◌, ◌⊎◌, true, none, some, List, [], ◌∷◌, All, In}
use fluffy_dollop.Base.Int.{pos}
use fluffy_dollop.Base.Text.{lit}
use fluffy_dollop.Go.Errors.{Error, wrap, is_redis_nil, failed_to_read_from_stream}
use fluffy_dollop.Go.Effect.{ok, err}
use fluffy_dollop.Config.Types.{QueueConfig, Duration}
use fluffy_dollop.Redis.{Redis, XMessage, XStream, XReadGroupArgs}
use fluffy_dollop.Redis.Laws.{QueueLaws, StreamLaws}
use fluffy_dollop.Queue.Types.{JobEnvelope, Json, JsonLaws}
use fluffy_dollop.Queue.Dlq.{Dlq}
use fluffy_dollop.Queue.Consumer.{
  Consumer, nothing, job, failed, first_of_streams, parse_message, consume,
}
use fluffy_dollop.Worker.Dedup.{World, Processor}
use fluffy_dollop.Pipeline.{Action, request, message, letter, act, act_all}
use fluffy_dollop.Pipeline.Readable.{
  IsShallow, IsClean, SharesDlq, LeavesClean, serve-IsClean, process-IsClean, requeue-IsClean,
}

abbrev pub read_args : Consumer → Duration → XReadGroupArgs
read_args c block = record {
  group = c.consumer_group;
  consumer = c.consumer_name;
  streams = c.stream_name ∷ lit ">" ∷ [];
  count = pos 1;
  block = block;
}

module _ (R : Redis) (J : Json) (L : QueueLaws R) (S : StreamLaws R L) (K : JsonLaws J)
    (d : Dlq) where
  open R use {State}
  open L use {entries}

  -- The event of the request or of the message is not nested too deep to be read, and a worker
  -- gives its jobs up to this dead letter queue or to none.
  abbrev pub IsUsual : Action → Type 0
  IsUsual (request job_id unix decision body now) = IsShallow R J L S K d body
  IsUsual (message c envelope id now) =
      SharesDlq R J L S K d c × IsShallow R J L S K d envelope.event
  IsUsual (letter id stream max_len) = Unit

  module _ (q : QueueConfig) (p : Processor R) (leaves : LeavesClean R J L S K d p) where
    act-IsClean :
        (a : Action) (w : World R)
        → IsUsual a
        → IsClean R J L S K d w.redis
        → IsClean R J L S K d (act R J q p d a w).redis
    act-IsClean (request job_id unix decision body now) w own clean =
        serve-IsClean R J L S K d q job_id unix decision body now w.redis own clean
    act-IsClean (message c envelope id now) w (shares, shallow) clean =
        process-IsClean R J L S K d p c envelope id now w leaves shares shallow clean
    act-IsClean (letter id stream max_len) w own clean =
        requeue-IsClean R J L S K d id stream max_len w.redis clean

    pub act_all-IsClean :
        (actions : List Action) (w : World R)
        → All IsUsual actions
        → IsClean R J L S K d w.redis
        → IsClean R J L S K d (act_all R J q p d actions w).redis
    act_all-IsClean [] w own clean = clean
    act_all-IsClean (a ∷ actions) w (here, rest) clean =
        act_all-IsClean actions (act R J q p d a w) rest (act-IsClean a w here clean)

  -- What `Consume` returns, by what XREADGROUP answers, if every message is readable.
  abbrev pub Reads : Consumer → Duration → State → Type 0
  Reads c block s =
      ((streams : List XStream) × (m : XMessage) × ((R.xread_group (read_args c block) s).0
          ≡ ok streams)
        × (first_of_streams streams ≡ some m)
        × In m (entries s c.stream_name)
        × (envelope : JobEnvelope) × (parse_message R J m ≡ ok (envelope, m.id))
        × ((consume R J c block s).0 ≡ job envelope m.id))
      ⊎ ((streams : List XStream) × ((R.xread_group (read_args c block) s).0 ≡ ok streams)
          × (first_of_streams streams ≡ none)
          × ((consume R J c block s).0 ≡ nothing))
      ⊎ ((e : Error) × ((R.xread_group (read_args c block) s).0 ≡ err e)
          × (is_redis_nil e ≡ true)
          × ((consume R J c block s).0 ≡ nothing))
      ⊎ ((e : Error) × ((R.xread_group (read_args c block) s).0 ≡ err e)
          × ((consume R J c block s).0 ≡ failed (wrap failed_to_read_from_stream e)))

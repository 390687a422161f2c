-- ===== src/Tests/Samples.antt =====
-- Concrete inputs for the tests: a codec, numbers in thousandths, settings, a log event and a job.
use fluffy_dollop.Base.{refl, ap, arith, ℕ, ◌-◌, ◌*◌, ◌/◌, some, [], ◌∷◌, ◌++◌, ltb, leb}
use fluffy_dollop.Base.Int.{ℤ, pos, pos_part}
use fluffy_dollop.Base.Text.{lit}
use fluffy_dollop.Go.Errors.{Error, plain}
use fluffy_dollop.Go.Effect.{ok, err}
use fluffy_dollop.Go.Float.{Float64}
use fluffy_dollop.Go.Strconv.{format_int}
use fluffy_dollop.Redis.Memory.{Server, blank, memory}
use fluffy_dollop.Redis.Memory.Laws.{update_has, In-update}
use fluffy_dollop.Bootstrap.Groups.{GroupLaws}
use fluffy_dollop.Models.{LogEvent}
use fluffy_dollop.Queue.Types.{JobEnvelope, Json}
use fluffy_dollop.Queue.Dlq.{Dlq}
use fluffy_dollop.Queue.Consumer.{Consumer}
use fluffy_dollop.Worker.Backoff.Growth.{DoublesExactly}
use fluffy_dollop.Worker.Dedup.{World, Processor}

abbrev pub event : LogEvent
event = record {
  timestamp = pos 1700000000000000000;
  level = lit "INFO";
  service = lit "auth";
  message = lit "login";
  metadata = [];
  trace_id = [];
}

abbrev pub job : JobEnvelope
job = record {
  job_id = lit "j1";
  event = some event;
  enqueued_at = pos 1700000000;
  retry_count = pos 0;
  max_retries = pos 3;
  event_type = lit "log_event";
  last_error = [];
}

abbrev pub last_attempt : JobEnvelope
last_attempt = record job { retry_count = pos 2 }

-- A text for every value, which is read back as a sample job or its dead letter.
abbrev pub json : Json
json = record {
  marshal_envelope = λ e. ok (e.job_id ++ (lit "/" ++ format_int e.retry_count));
  unmarshal_envelope = λ s. ok job;
  marshal_entry = λ e. ok e.failure_reason;
  unmarshal_entry = λ s. ok (record {
    original_stream_id = lit "7-0";
    job_data = some last_attempt;
    failure_reason = lit "boom";
    sent_to_dlq_at = pos 9;
  });
}

-- Numbers in thousandths.
abbrev pub of_thousands : ℤ → ℕ
of_thousands z = pos_part z * 1000

abbrev pub thousandths : Float64
thousandths = record {
  Float = ℕ;
  of_int = of_thousands;
  truncate = λ x. pos (x / 1000);
  div = λ a b. a * 1000 / b;
  mul = λ a b. a * b / 1000;
  sub = λ a b. a - b;
  lt = ltb;
  le = leb;
}

abbrev pub thousandths_doubles : DoublesExactly thousandths
thousandths_doubles = record { exact = λ n small. ap pos (omega arith) }

abbrev pub dlq : Dlq
dlq = record { stream_name = lit "dead"; max_len = pos 1000 }

abbrev pub consumer : Consumer
consumer = record {
  stream_name = lit "logs";
  consumer_group = lit "workers";
  consumer_name = lit "w1";
  dlq = some dlq;
}

-- The server in memory creates every group.
abbrev pub memory_groups : GroupLaws memory
memory_groups = record {
  groups = λ s. s.groups;
  create_adds = λ stream group start v s made. update_has s.groups stream group;
  create_busy = λ stream group start e s bad busy. update_has s.groups stream group;
  create_keeps = λ stream group start s other_stream other there.
      In-update s.groups stream group other_stream other there;
  hset_groups = λ key fields s stream. refl;
}

-- Two messages are pending.
abbrev pub two_pending : Server
two_pending = record blank { pending = λ stream group. lit "7-0" ∷ lit "8-0" ∷ [] }

abbrev pub boom : Error
boom = plain (lit "boom")

abbrev pub failing : Processor memory
failing envelope w = (err boom, w)

abbrev pub working : Processor memory
working envelope w = (ok tt, w)

abbrev pub world : Server → World memory
world s = record { redis = s; duplicate_count = pos 0 }

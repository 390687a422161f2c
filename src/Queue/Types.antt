-- ===== src/Queue/Types.antt =====
-- internal/queue/types.go, and encoding/json as the program uses it on these types.
use fluffy_dollop.Base.{◌≡◌, Bool, true, Option, none, some, List}
use fluffy_dollop.Base.Int.{ℤ}
use fluffy_dollop.Base.Text.{Text}
use fluffy_dollop.Go.Effect.{Result, ok}
use fluffy_dollop.Models.{LogEvent}

-- `data` is a pointer, which is nil after a JSON text without it.
pub record JobEnvelope : Type 0 where
  pub job_id : Text
  pub event : Option LogEvent
  pub enqueued_at : ℤ
  pub retry_count : ℤ
  pub max_retries : ℤ
  pub event_type : Text
  pub last_error : Text

pub record DlqEntry : Type 0 where
  pub original_stream_id : Text
  pub job_data : Option JobEnvelope
  pub failure_reason : Text
  pub sent_to_dlq_at : ℤ

-- json.Marshal and json.Unmarshal at the two types that go through Redis.
pub record Json : Type 0 where
  pub marshal_envelope : JobEnvelope → Result Text
  pub unmarshal_envelope : Text → Result JobEnvelope
  pub marshal_entry : DlqEntry → Result Text
  pub unmarshal_entry : Text → Result DlqEntry

-- Whether the metadata of an event, if there is one, pass a test.
abbrev pub metadata_pass : (List (Text × Text) → Bool) → Option LogEvent → Bool
metadata_pass test none = true
metadata_pass test (some event) = test event.metadata

-- What encoding/json reads back. It writes values of any depth, and refuses to read JSON that is
-- nested more than 10,000 levels deep: `is_shallow` says whether metadata are read at the depth that
-- they have in an envelope. A time may lose its fraction, and a text that is not UTF-8 changes, so
-- nothing is said of what is read.
pub record JsonLaws (J : Json) : Type 0 where
  pub is_shallow : List (Text × Text) → Bool
  pub reads_back :
      (envelope : JobEnvelope) (json : Text)
      → metadata_pass is_shallow envelope.event ≡ true
      → J.marshal_envelope envelope ≡ ok json
      → (envelope' : JobEnvelope) × (J.unmarshal_envelope json ≡ ok envelope')
  -- In a letter the metadata are one level deeper than in the envelope.
  pub entry_shallow :
      (json : Text) (entry : DlqEntry) (envelope : JobEnvelope)
      → J.unmarshal_entry json ≡ ok entry
      → entry.job_data ≡ some envelope
      → metadata_pass is_shallow envelope.event ≡ true

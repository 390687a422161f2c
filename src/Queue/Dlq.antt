-- ===== src/Queue/Dlq.antt =====
-- internal/queue/dlq.go.
pub mod Requeue
use fluffy_dollop.Base.{
  ◌+◌, true, Option, none, some, List, [], ◌∷◌, if◌then◌else◌, ◌==◌, ◌&&◌, length, take,
}
use fluffy_dollop.Base.Int.{ℤ, pos, pos_part, neg_part, ltb_ℤ}
use fluffy_dollop.Base.Text.{Text, lit}
use fluffy_dollop.Go.Errors.{
  Error, plain, panic, failed_to_marshal_dlq_entry, failed_to_add_to_dlq, failed_to_get_dlq_entry,
  failed_to_list_dlq_entries, failed_to_unmarshal_dlq_entry, failed_to_get_dlq_count,
  failed_to_delete_dlq_entry, failed_to_build_requeue_args, failed_to_requeue,
}
use fluffy_dollop.Go.Effect.{
  Result, ok, err, Io, pure, fail, ◌>>=◌, ◌>>◌, attempt, wrapping, lift_result,
}
use fluffy_dollop.Redis.{field, Redis, XAddArgs, XMessage}
use fluffy_dollop.Queue.Types.{JobEnvelope, DlqEntry, Json}
use fluffy_dollop.Queue.Message.{build_xadd_args}

pub record Dlq : Type 0 where
  pub stream_name : Text
  pub max_len : ℤ

abbrev pub dlq_args : Dlq → Text → XAddArgs
dlq_args d json = record {
  stream = d.stream_name;
  max_len = d.max_len;
  approx = true;
  id = [];
  values = (lit "entry", json) ∷ [];
}

abbrev pub entry_not_found : Error
entry_not_found = plain (lit "DLQ entry not found")

-- `!ok` of the type assertion on the field `entry`.
abbrev pub entry_of : Json → Option Text → Result DlqEntry
entry_of J none = err (plain (lit "invalid DLQ entry format"))
entry_of J (some json) = J.unmarshal_entry json

-- The first message of XRANGE.
abbrev pub first_message : List XMessage → Result XMessage
first_message [] = err entry_not_found
first_message (m ∷ ms) = ok m

abbrev pub limit_to : ℤ → List XMessage → List XMessage
limit_to count ms =
    if ltb_ℤ (pos 0) count && ltb_ℤ count (pos (length ms)) then take (pos_part count) ms else ms

abbrev pub deleted_some : ℤ → Result (Unit {0})
deleted_some n = if pos_part n + neg_part n == 0 then err entry_not_found else ok tt

-- `entry.JobData.RetryCount = 0` on a nil pointer panics.
abbrev pub reset_job : Option JobEnvelope → Result JobEnvelope
reset_job none = err panic
reset_job (some job) = ok (record job { retry_count = pos 0; last_error = [] })

module _ (R : Redis) (J : Json) where
  open R use {State}

  unfoldable pub send : Dlq → DlqEntry → Io State Text
  send d entry = do
    json ← wrapping failed_to_marshal_dlq_entry (lift_result (J.marshal_entry entry))
    wrapping failed_to_add_to_dlq (R.xadd (dlq_args d json))

  unfoldable pub get : Dlq → Text → Io State DlqEntry
  unfolding field
  get d id = do
    messages ← wrapping failed_to_get_dlq_entry (R.xrange d.stream_name id id)
    m ← lift_result (first_message messages)
    elim (field (lit "entry") m.values) [
      | none ↦ fail (plain (lit "invalid DLQ entry format"))
      | some json ↦ wrapping failed_to_unmarshal_dlq_entry (lift_result (J.unmarshal_entry json))
    ]

  -- The loop of `List`: what is no entry is passed over.
  unfoldable pub entries_of : List XMessage → List DlqEntry
  unfolding field
  entries_of [] = []
  entries_of (m ∷ ms) =
      let rest = entries_of ms in
      elim (entry_of J (field (lit "entry") m.values)) [ ok entry ↦ entry ∷ rest | err e ↦ rest ]

  unfoldable pub list_entries : Dlq → Text → Text → ℤ → Io State (List DlqEntry)
  unfolding entries_of
  list_entries d start stop count = do
    messages ← wrapping failed_to_list_dlq_entries (R.xrange d.stream_name start stop)
    pure (entries_of (limit_to count messages))

  unfoldable pub count_entries : Dlq → Io State ℤ
  count_entries d = wrapping failed_to_get_dlq_count (R.xlen d.stream_name)

  unfoldable pub delete_entry : Dlq → Text → Io State (Unit {0})
  delete_entry d id = do
    deleted ← wrapping failed_to_delete_dlq_entry (R.xdel d.stream_name id)
    lift_result (deleted_some deleted)

  unfoldable pub requeue : Dlq → Text → Text → ℤ → Io State (Unit {0})
  unfolding get delete_entry build_xadd_args
  requeue d id main_stream max_len = do
    entry ← wrapping failed_to_get_dlq_entry (get d id)
    job ← lift_result (reset_job entry.job_data)
    built ←
        wrapping failed_to_build_requeue_args
          (lift_result (build_xadd_args J main_stream max_len job))
    wrapping failed_to_requeue (R.xadd built.0)
    attempt (delete_entry d id)
    pure tt

-- ===== src/Tests/Codec.antt =====
-- A codec for envelopes and letters that does not read what is nested three levels deep: the number
-- of the metadata stands for their depth. It writes numbers before texts.
use mathlib.Core.Path.{subst}
use fluffy_dollop.Base.{
  ℕ, zero, suc, ◌≡◌, refl, ap, sym, ◌∙◌, Bool, true, Bool-cases, inl, inr, Option, none, some, List,
  [], ◌∷◌, ◌++◌, ltb, if◌then◌else◌, length, take, arith,
}
use fluffy_dollop.Base.Int.{pos, pos_part, neg_part, ◌-ℤ◌}
use fluffy_dollop.Base.Text.{Text, lit}
use fluffy_dollop.Go.Errors.{Error, plain}
use fluffy_dollop.Go.Effect.{Result, ok, err, ok-injective}
use fluffy_dollop.Models.{LogEvent}
use fluffy_dollop.Queue.Types.{JobEnvelope, DlqEntry, Json, JsonLaws, metadata_pass}
use fluffy_dollop.Tests.Samples.{event, job}

some-injective : {A : Type 0} {a b : A} → some a ≡ some b → a ≡ b
some-injective h = ground arith

abbrev pub shallow : List (Text × Text) → Bool
shallow metadata = ltb (length metadata) 3

abbrev pub drop : ℕ → Text → Text
drop zero s = s
drop (suc n) [] = []
drop (suc n) (c ∷ s) = drop n s

-- Metadata of a depth.
abbrev pub nested : ℕ → List (Text × Text)
nested zero = []
nested (suc n) = (lit "nested", lit "{}") ∷ nested n

nested-length : (n : ℕ) → length (nested n) ≡ n
nested-length zero = refl
nested-length (suc n) = ap suc (nested-length n)

abbrev pub write_event : Option LogEvent → Text
write_event none = 0 ∷ 0 ∷ []
write_event (some e) = 1 ∷ length e.metadata ∷ e.message

abbrev pub write_job : JobEnvelope → Text
write_job e =
    pos_part e.retry_count
    ∷ neg_part e.retry_count
    ∷ pos_part e.max_retries
    ∷ neg_part e.max_retries
    ∷ length e.job_id
    ∷ (e.job_id ++ write_event e.event)

abbrev pub too_deep : Error
too_deep = plain (lit "exceeded max depth")

abbrev pub malformed : Error
malformed = plain (lit "unexpected end of JSON input")

abbrev pub read_event : Text → Result (Option LogEvent)
read_event (zero ∷ depth ∷ s) = ok none
read_event (suc n ∷ depth ∷ s) =
    if ltb depth 3
    then ok (some (record event { message = s; metadata = nested depth }))
    else err too_deep
read_event [] = err malformed
read_event (n ∷ []) = err malformed

abbrev pub with_event : JobEnvelope → Result (Option LogEvent) → Result JobEnvelope
with_event e (ok event') = ok (record e { event = event' })
with_event e (err why) = err why

abbrev pub fields_of : ℕ → ℕ → ℕ → ℕ → Text → JobEnvelope
fields_of p n mp mn id = record job {
  job_id = id;
  retry_count = pos p -ℤ pos n;
  max_retries = pos mp -ℤ pos mn;
}

abbrev pub read_job : Text → Result JobEnvelope
read_job (p ∷ n ∷ mp ∷ mn ∷ k ∷ s) =
    with_event (fields_of p n mp mn (take k s)) (read_event (drop k s))
read_job _ = err malformed

abbrev pub letter_of : Result JobEnvelope → Result DlqEntry
letter_of (err why) = err why
letter_of (ok e) = ok (record {
  original_stream_id = lit "7-0";
  job_data = some e;
  failure_reason = lit "boom";
  sent_to_dlq_at = pos 9;
})

abbrev pub write_letter : Option JobEnvelope → Result Text
write_letter none = err malformed
write_letter (some e) = ok (write_job e)

abbrev pub codec : Json
codec = record {
  marshal_envelope = λ e. ok (write_job e);
  unmarshal_envelope = read_job;
  marshal_entry = λ entry. write_letter entry.job_data;
  unmarshal_entry = λ text. letter_of (read_job text);
}

drop_past : (a b : Text) → drop (length a) (a ++ b) ≡ b
drop_past [] b = refl
drop_past (c ∷ a) b = drop_past a b

event_reads :
    (o : Option LogEvent)
    → metadata_pass shallow o ≡ true
    → (o' : Option LogEvent) × (read_event (write_event o) ≡ ok o')
event_reads none pass = (none, refl)
event_reads (some e) pass = (
  some (record event { message = e.message; metadata = nested (length e.metadata) }),
  rw pass refl,
)

job_reads :
    (e : JobEnvelope)
    → metadata_pass shallow e.event ≡ true
    → (e' : JobEnvelope) × (read_job (write_job e) ≡ ok e')
job_reads e pass =
    let (o, reads) = event_reads e.event pass in
    let fields =
      fields_of (pos_part e.retry_count) (neg_part e.retry_count) (pos_part e.max_retries)
        (neg_part e.max_retries) (take (length e.job_id) (e.job_id ++ write_event e.event)) in
    (
      record fields { event = o },
      ap (with_event fields) (ap read_event (drop_past e.job_id (write_event e.event)) ∙ reads),
    )

pub job_reads_back :
    (e : JobEnvelope) (json : Text)
    → metadata_pass shallow e.event ≡ true
    → ◌≡◌ {A = Result Text} (ok (write_job e)) (ok json)
    → (e' : JobEnvelope) × (read_job json ≡ ok e')
job_reads_back e json pass written =
    let (e', reads) = job_reads e pass in (e', ap read_job (sym (ok-injective written)) ∙ reads)

event-shallow :
    (s : Text) (o : Option LogEvent) → read_event s ≡ ok o → metadata_pass shallow o ≡ true
event-shallow [] o h = ground arith
event-shallow (n ∷ []) o h = ground arith
event-shallow (zero ∷ depth ∷ s) o h =
    subst (λ x. metadata_pass shallow x ≡ true) (ok-injective h) refl
event-shallow (suc n ∷ depth ∷ s) o h = elim (Bool-cases (ltb depth 3)) [
  | inl few ↦
      let same : ok (some (record event { message = s; metadata = nested depth })) ≡ ok o =
        rw few at h in
      subst (λ x. metadata_pass shallow x ≡ true) (ok-injective same)
        (ap (λ k. ltb k 3) (nested-length depth) ∙ few)
  | inr deep ↦ ground arith
]

with_event-shallow :
    (e e' : JobEnvelope) (r : Result (Option LogEvent))
    → ((o : Option LogEvent) → r ≡ ok o → metadata_pass shallow o ≡ true)
    → with_event e r ≡ ok e'
    → metadata_pass shallow e'.event ≡ true
with_event-shallow e e' (err why) sound h = ground arith
with_event-shallow e e' (ok o) sound h =
    subst (λ (x : JobEnvelope). metadata_pass shallow x.event ≡ true) (ok-injective h)
      (sound o refl)

job-shallow :
    (text : Text) (e : JobEnvelope) → read_job text ≡ ok e → metadata_pass shallow e.event ≡ true
job-shallow [] e h = ground arith
job-shallow (a ∷ []) e h = ground arith
job-shallow (a ∷ b ∷ []) e h = ground arith
job-shallow (a ∷ b ∷ c ∷ []) e h = ground arith
job-shallow (a ∷ b ∷ c ∷ f ∷ []) e h = ground arith
job-shallow (a ∷ b ∷ c ∷ f ∷ k ∷ s) e h =
    with_event-shallow (fields_of a b c f (take k s)) e (read_event (drop k s))
      (event-shallow (drop k s)) h

letter-shallow :
    (r : Result JobEnvelope) (entry : DlqEntry) (e : JobEnvelope)
    → ((e' : JobEnvelope) → r ≡ ok e' → metadata_pass shallow e'.event ≡ true)
    → letter_of r ≡ ok entry
    → entry.job_data ≡ some e
    → metadata_pass shallow e.event ≡ true
letter-shallow (err why) entry e sound h there = ground arith
letter-shallow (ok e') entry e sound h there =
    let same : some e' ≡ some e = ap (λ (x : DlqEntry). x.job_data) (ok-injective h) ∙ there in
    subst (λ (x : JobEnvelope). metadata_pass shallow x.event ≡ true) (some-injective same)
      (sound e' refl)

pub letter_reads-shallow :
    (text : Text) (entry : DlqEntry) (e : JobEnvelope)
    → letter_of (read_job text) ≡ ok entry
    → entry.job_data ≡ some e
    → metadata_pass shallow e.event ≡ true
letter_reads-shallow text entry e h there =
    letter-shallow (read_job text) entry e (job-shallow text) h there

abbrev pub codec_laws : JsonLaws codec
codec_laws = record {
  is_shallow = shallow;
  reads_back = job_reads_back;
  entry_shallow = letter_reads-shallow;
}

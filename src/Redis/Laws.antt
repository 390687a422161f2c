-- ===== src/Redis/Laws.antt =====
-- The documented behaviour of Redis that theorems rest on. A command that fails may or may not
-- have been carried out, so no law says what an error leaves unchanged beyond what the command
-- never touches.
use fluffy_dollop.Base.{◌≡◌, ◌≢◌, ◌⊎◌, true, false, none, some, Option, List, In, length, [], ◌∷◌}
use fluffy_dollop.Base.Int.{ℤ, pos}
use fluffy_dollop.Base.Text.{Text, lit}
use fluffy_dollop.Go.Effect.{ok}
use fluffy_dollop.Redis.{Redis, XMessage, XAddArgs, XStream, XAutoClaimArgs}

-- Streams and the pending entries lists of their consumer groups.
pub record QueueLaws (R : Redis) : Type 0 where
  pub entries : R.State → Text → List XMessage
  pub pending : R.State → Text → Text → List Text
  -- A new entry stands in the stream, under the id that XADD returns.
  pub xadd_adds :
      (a : XAddArgs) (s : R.State) (id : Text)
      → (R.xadd a s).0 ≡ ok id
      → In (record { id = id; values = a.values }) (entries (R.xadd a s).1 a.stream)
  -- Without MAXLEN nothing is trimmed.
  pub xadd_keeps_entries :
      (a : XAddArgs) (s : R.State) (stream : Text) (m : XMessage)
      → a.max_len ≡ pos 0
      → In m (entries s stream)
      → In m (entries (R.xadd a s).1 stream)
  -- XADD to one stream leaves the others alone.
  pub xadd_other :
      (a : XAddArgs) (s : R.State) (stream : Text)
      → a.stream ≢ stream
      → entries (R.xadd a s).1 stream ≡ entries s stream
  pub xadd_pending :
      (a : XAddArgs) (s : R.State) (stream group : Text)
      → pending (R.xadd a s).1 stream group ≡ pending s stream group
  -- XACK takes an id off the pending list, and deletes no entry.
  pub xack_entries :
      (stream group id : Text) (s : R.State) (other : Text)
      → entries (R.xack stream group id s).1 other ≡ entries s other
  pub xack_pending :
      (stream group id : Text) (s : R.State) (stream' group' id' : Text)
      → id' ≢ id
      → In id' (pending s stream' group')
      → In id' (pending (R.xack stream group id s).1 stream' group')
  -- XLEN counts the entries of a stream, the acknowledged ones too, and changes nothing.
  pub xlen_counts :
      (stream : Text) (s : R.State) (n : ℤ)
      → (R.xlen stream s).0 ≡ ok n
      → n ≡ pos (length (entries s stream))
  pub xlen_entries :
      (stream : Text) (s : R.State) (other : Text)
      → entries (R.xlen stream s).1 other ≡ entries s other
  -- XRANGE only reads, and XDEL deletes from its own stream alone.
  pub xrange_entries :
      (stream from to : Text) (s : R.State) (other : Text)
      → entries (R.xrange stream from to s).1 other ≡ entries s other
  pub xdel_other :
      (stream id : Text) (s : R.State) (other : Text)
      → stream ≢ other
      → entries (R.xdel stream id s).1 other ≡ entries s other
  -- Commands on keys touch no pending list.
  pub set_nx_pending :
      (key v : Text) (ttl : ℤ) (s : R.State) (stream group : Text)
      → pending (R.set_nx key v ttl s).1 stream group ≡ pending s stream group

-- String keys. A key can also go away when its time to live is over: that is a step of the
-- environment, between two commands.
pub record KeyLaws (R : Redis) : Type 0 where
  pub value : R.State → Text → Option Text
  pub set_nx_sets :
      (key v : Text) (ttl : ℤ) (s : R.State)
      → (R.set_nx key v ttl s).0 ≡ ok true
      → value (R.set_nx key v ttl s).1 key ≡ some v
  pub set_nx_absent :
      (key v : Text) (ttl : ℤ) (s : R.State)
      → value s key ≡ none
      → (R.set_nx key v ttl s).0 ≢ ok false
  -- NX: a key that is there is not set again.
  pub set_nx_present :
      (key v w : Text) (ttl : ℤ) (s : R.State)
      → value s key ≡ some w
      → (R.set_nx key v ttl s).0 ≢ ok true
  pub set_nx_keeps :
      (key v w : Text) (ttl : ℤ) (s : R.State)
      → value s key ≡ some w
      → value (R.set_nx key v ttl s).1 key ≡ some w
  pub set_nx_other :
      (key v other : Text) (ttl : ℤ) (s : R.State)
      → key ≢ other
      → value (R.set_nx key v ttl s).1 other ≡ value s other
  pub get_value : (key v : Text) (s : R.State) → (R.get key s).0 ≡ ok v → value s key ≡ some v
  pub get_keeps :
      (key : Text) (s : R.State) (other : Text) → value (R.get key s).1 other ≡ value s other
  pub del_other :
      (key : Text) (s : R.State) (other : Text)
      → key ≢ other
      → value (R.del key s).1 other ≡ value s other

-- What XRANGE from an id to the same id reads.
pub record RangeLaws (R : Redis) : Type 0 where
  pub at : R.State → Text → Text → List XMessage
  pub xrange_reads :
      (stream id : Text) (s : R.State) (ms : List XMessage)
      → (R.xrange stream id id s).0 ≡ ok ms
      → ms ≡ at s stream id
  -- An id that XADD returns is new, and names the new entry.
  pub xadd_at :
      (a : XAddArgs) (s : R.State) (id : Text)
      → (R.xadd a s).0 ≡ ok id
      → at (R.xadd a s).1 a.stream id ≡ record { id = id; values = a.values } ∷ []
  pub xack_at :
      (stream group id : Text) (s : R.State) (other id' : Text)
      → at (R.xack stream group id s).1 other id' ≡ at s other id'

-- Where the entries of streams come from.
pub record StreamLaws (R : Redis) (L : QueueLaws R) : Type 0 where
  -- XADD adds its own entry alone, even if it reports an error.
  pub xadd_new :
      (a : XAddArgs) (s : R.State) (m : XMessage)
      → In m (L.entries (R.xadd a s).1 a.stream)
      → In m (L.entries s a.stream) ⊎ (m.values ≡ a.values)
  -- XDEL adds none.
  pub xdel_old :
      (stream id : Text) (s : R.State) (other : Text) (m : XMessage)
      → In m (L.entries (R.xdel stream id s).1 other)
      → In m (L.entries s other)
  -- XREADGROUP delivers entries of its stream.
  pub read_there :
      (group consumer stream : Text) (count block : ℤ) (s : R.State) (x : XStream)
      (xs : List XStream) (m : XMessage)
      → (R.xread_group
          (record {
            group = group;
            consumer = consumer;
            streams = stream ∷ lit ">" ∷ [];
            count = count;
            block = block;
          })
          s).0
        ≡ ok (x ∷ xs)
      → In m x.messages
      → In m (L.entries s stream)

-- What XAUTOCLAIM hands over. Since Redis 7 an id whose entry is deleted is left out.
pub record ClaimLaws (R : Redis) (L : QueueLaws R) : Type 0 where
  pub claim_there :
      (a : XAutoClaimArgs) (s : R.State) (messages : List XMessage) (next : Text) (m : XMessage)
      → (R.xauto_claim a s).0 ≡ ok (messages, next)
      → In m messages
      → In m (L.entries s a.stream)
  pub claim_entries :
      (a : XAutoClaimArgs) (s : R.State) (stream : Text)
      → L.entries (R.xauto_claim a s).1 stream ≡ L.entries s stream

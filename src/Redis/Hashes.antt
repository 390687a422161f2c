-- ===== src/Redis/Hashes.antt =====
-- The documented behaviour of Redis hashes.
use fluffy_dollop.Base.{◌≡◌, ◌≢◌, Option, none, some, List, ◌++◌, In}
use fluffy_dollop.Base.Int.{ℤ}
use fluffy_dollop.Base.Text.{Text, lit}
use fluffy_dollop.Go.Effect.{ok}
use fluffy_dollop.Redis.{Redis, Fields, field}

abbrev pub or_else : {A : Type 0} → Option A → Option A → Option A
or_else none o = o
or_else (some a) o = some a

pub record HashLaws (R : Redis) : Type 0 where
  -- The value of a field of a key.
  pub hash : R.State → Text → Text → Option Text
  -- HSET sets the fields that it names and keeps the others.
  pub hset_writes :
      (key : Text) (fields : Fields) (s : R.State) (n : ℤ) (f : Text)
      → (R.hset key fields s).0 ≡ ok n
      → hash (R.hset key fields s).1 key f ≡ or_else (field f fields) (hash s key f)
  -- HGETALL returns the fields, and changes none.
  pub hget_all_reads :
      (key : Text) (s : R.State) (fields : Fields) (f : Text)
      → (R.hget_all key s).0 ≡ ok fields
      → field f fields ≡ hash s key f
  -- HSET and DEL leave other keys alone, and DEL takes away every field.
  pub hset_other :
      (key : Text) (fields : Fields) (s : R.State) (other f : Text)
      → key ≢ other
      → hash (R.hset key fields s).1 other f ≡ hash s other f
  pub del_clears :
      (key : Text) (s : R.State) (n : ℤ) (f : Text)
      → (R.del key s).0 ≡ ok n
      → hash (R.del key s).1 key f ≡ none
  pub del_hash_other :
      (key : Text) (s : R.State) (other f : Text)
      → key ≢ other
      → hash (R.del key s).1 other f ≡ hash s other f

-- KEYS with a prefix and a star returns keys that begin with the prefix; it and HGETALL only read.
pub record ListingLaws (R : Redis) (H : HashLaws R) : Type 0 where
  pub keys_begin :
      (prefix : Text) (s : R.State) (keys : List Text) (key : Text)
      → (R.keys (prefix ++ lit "*") s).0 ≡ ok keys
      → In key keys
      → (rest : Text) × (key ≡ prefix ++ rest)
  pub keys_reads :
      (pattern : Text) (s : R.State) (key f : Text)
      → H.hash (R.keys pattern s).1 key f ≡ H.hash s key f
  pub hget_all_keeps :
      (k : Text) (s : R.State) (key f : Text) → H.hash (R.hget_all k s).1 key f ≡ H.hash s key f

-- ===== src/Redis/Memory.antt =====
-- A server in memory that satisfies the laws; the witnesses run on it. It numbers its entries,
-- never trims, reports no error, and keys do not expire.
pub mod Laws
use fluffy_dollop.Base.{
  ℕ, zero, suc, ◌≡◌, refl, ap, sym, ◌≢◌, inl, inr, Bool, true, false, Option, none, some, List, [],
  ◌∷◌, ◌++◌, arith, if◌then◌else◌, Bool-cases, ◌==◌, ◌&&◌, ◌||◌, length, In, In-append_left,
  In-append_right,
}
use fluffy_dollop.Base.Int.{pos}
use fluffy_dollop.Base.Text.{Text, lit, eq_text, eq_text_iff, is_empty}
use fluffy_dollop.Go.Errors.{redis_nil}
use fluffy_dollop.Go.Effect.{Result, ok, err, ok-injective}
use fluffy_dollop.Go.Strconv.{format_ℕ}
use fluffy_dollop.Redis.Hashes.{HashLaws, or_else}
use fluffy_dollop.Redis.{Redis, Fields, field, XMessage, XStream, XAddArgs}
use fluffy_dollop.Redis.Laws.{QueueLaws, KeyLaws}

pub record Server : Type 0 where
  pub next : ℕ
  pub entries : Text → List XMessage
  pub pending : Text → Text → List Text
  -- how many entries of a stream a group has read
  pub read : Text → Text → ℕ
  pub groups : Text → List Text
  pub value : Text → Option Text
  pub hash : Text → Fields
  -- the keys that have been set as hashes
  pub names : List Text

abbrev pub blank : Server
blank = record {
  next = 0;
  entries = λ _. [];
  pending = λ _ _. [];
  read = λ _ _. 0;
  groups = λ _. [];
  value = λ _. none;
  hash = λ _. [];
  names = [];
}

abbrev pub update : {A : Type 0} → (Text → A) → Text → A → Text → A
update f k v j = if eq_text k j then v else f j

abbrev pub remove : Text → List Text → List Text
remove id [] = []
remove id (x ∷ xs) = if eq_text id x then remove id xs else x ∷ remove id xs

abbrev pub or_first : List XMessage → XMessage → Text → List XMessage
or_first (found ∷ rest) m id = found ∷ rest
or_first [] m id = if eq_text id m.id then m ∷ [] else []

-- The newest entry with the id.
abbrev pub find_id : Text → List XMessage → List XMessage
find_id id [] = []
find_id id (m ∷ ms) = or_first (find_id id ms) m id

abbrev pub drop_id : Text → List XMessage → List XMessage
drop_id id [] = []
drop_id id (m ∷ ms) = if eq_text id m.id then ms else m ∷ drop_id id ms

abbrev pub add_entry : XAddArgs → Server → Server
add_entry a s = record s {
  next = suc s.next;
  entries =
      update s.entries a.stream
        (s.entries a.stream ++ record { id = format_ℕ s.next; values = a.values } ∷ []);
}

abbrev pub add_all : List XAddArgs → Server → Server
add_all [] s = s
add_all (a ∷ as') s = add_all as' (add_entry a s)

abbrev pub ids_from : ℕ → List XAddArgs → List Text
ids_from n [] = []
ids_from n (a ∷ as') = format_ℕ n ∷ ids_from (suc n) as'

abbrev pub unless_set : Option Text → Text → Text → Server → Bool × Server
unless_set (some _) k v s = (false, s)
unless_set none k v s = (true, record s { value = update s.value k (some v) })

abbrev pub read_key : Option Text → Server → Result Text × Server
read_key none s = (err redis_nil, s)
read_key (some v) s = (ok v, s)

abbrev pub after_first : ℕ → List XMessage → Option XMessage
after_first n [] = none
after_first zero (m ∷ ms) = some m
after_first (suc n) (m ∷ ms) = after_first n ms

abbrev pub deliver : Text → Text → Option XMessage → Server → Result (List XStream) × Server
deliver stream group none s = (err redis_nil, s)
deliver stream group (some m) s = (
  ok (record { stream = stream; messages = m ∷ [] } ∷ []),
  record s {
    read = update s.read stream (update (s.read stream) group (suc (s.read stream group)));
    pending =
        update s.pending stream (update (s.pending stream) group (m.id ∷ s.pending stream group));
  },
)

-- One entry that the group has not read yet, of the first stream.
abbrev pub read_group : List Text → Text → Server → Result (List XStream) × Server
read_group [] group s = (err redis_nil, s)
read_group (stream ∷ rest) group s =
    deliver stream group (after_first (s.read stream group) (s.entries stream)) s

abbrev pub has_id : Text → List Text → Bool
has_id id [] = false
has_id id (x ∷ xs) = eq_text id x || has_id id xs

-- The pending entries, on one page.
abbrev pub claimed : List Text → List XMessage → List XMessage
claimed ids [] = []
claimed ids (m ∷ ms) = let rest = claimed ids ms in if has_id m.id ids then m ∷ rest else rest

-- A pattern with its star at the end.
abbrev pub matches : Text → Text → Bool
matches [] key = is_empty key
matches (c ∷ []) key = (c == 42) || eq_text (c ∷ []) key
matches (c ∷ d ∷ pattern) [] = false
matches (c ∷ d ∷ pattern) (k ∷ key) = (c == k) && matches (d ∷ pattern) key

abbrev pub matching : Text → List Text → List Text
matching pattern [] = []
matching pattern (k ∷ keys) =
    let rest = matching pattern keys in if matches pattern k then k ∷ rest else rest

abbrev pub memory : Redis
memory = record {
  State = Server;
  xadd = λ a s. (ok (format_ℕ s.next), add_entry a s);
  xack = λ stream group id s. (
    ok (pos 1),
    record s {
      pending = λ st gr.
          if eq_text stream st
          then (if eq_text group gr then remove id (s.pending st gr) else s.pending st gr)
          else s.pending st gr;
    },
  );
  xread_group = λ a s. read_group a.streams a.group s;
  xauto_claim =
      λ a s. (ok (claimed (s.pending a.stream a.group) (s.entries a.stream), lit "0-0"), s);
  xpending = λ stream group s.
      (ok (record { count = pos (length (s.pending stream group)); lower = [] }), s);
  xlen = λ stream s. (ok (pos (length (s.entries stream))), s);
  xrange = λ stream lo hi s. (ok (find_id lo (s.entries stream)), s);
  xdel = λ stream id s. (
    ok (pos (length (find_id id (s.entries stream)))),
    record s { entries = update s.entries stream (drop_id id (s.entries stream)) },
  );
  xgroup_create_mkstream = λ stream group start s.
      (ok (lit "OK"), record s { groups = update s.groups stream (group ∷ s.groups stream) });
  xadd_pipeline = λ as' s. (ok (ids_from s.next as'), add_all as' s);
  set_nx = λ k v ttl s. let (r, s') = unless_set (s.value k) k v s in (ok r, s');
  get = λ k s. read_key (s.value k) s;
  expire = λ k ttl s. (ok true, s);
  del = λ k s. (ok (pos 1), record s { value = update s.value k none; hash = update s.hash k [] });
  hset = λ k fields s.
      (ok (pos 0), record s { hash = update s.hash k (fields ++ s.hash k); names = k ∷ s.names });
  hget_all = λ k s. (ok (s.hash k), s);
  keys = λ pattern s. (ok (matching pattern s.names), s);
  ping = λ s. (ok (lit "PONG"), s);
}

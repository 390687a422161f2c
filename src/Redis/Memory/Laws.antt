-- ===== src/Redis/Memory/Laws.antt =====
-- The server in memory satisfies the laws of Redis that theorems name.
use mathlib.Core.Path.{subst}
use fluffy_dollop.Base.{
  ℕ, zero, suc, ◌≡◌, refl, ap, sym, ◌∙◌, ◌≢◌, ◌⊎◌, inl, inr, Bool, true, false, Option, none, some,
  List, [], ◌∷◌, ◌++◌, arith, if◌then◌else◌, Bool-cases, In, In-append_cases, In-append_left,
  In-append_right,
}
use fluffy_dollop.Base.Text.{Text, lit, eq_text, eq_text_iff}
use fluffy_dollop.Go.Effect.{Result, ok, ok-injective}
use fluffy_dollop.Go.Strconv.{format_ℕ}
use fluffy_dollop.Redis.Hashes.{HashLaws, ListingLaws, or_else}
use fluffy_dollop.Redis.{Fields, field, XMessage, XStream}
use fluffy_dollop.Redis.Laws.{QueueLaws, KeyLaws, RangeLaws, StreamLaws, ClaimLaws}
use fluffy_dollop.Redis.Memory.{
  Server, update, remove, drop_id, unless_set, read_key, find_id, after_first, deliver, has_id,
  claimed, matches, matching, memory,
}

In-remove : (id x : Text) (xs : List Text) → x ≢ id → In x xs → In x (remove id xs)
In-remove id x [] ne h = elim h [ ]
In-remove id x (y ∷ ys) ne (inl e) = ground (arith, eq_text_iff id y)
In-remove id x (y ∷ ys) ne (inr h) = ground (arith, In-remove id x ys ne h, eq_text_iff id y)

pub update_self : {A : Type 0} (f : Text → A) (k : Text) (v : A) → update f k v k ≡ v
update_self f k v = rw ((eq_text_iff k k).1 refl)

pub update_other :
    {A : Type 0} (f : Text → A) (k : Text) (v : A) (j : Text) → k ≢ j → update f k v j ≡ f j
update_other f k v j ne = ground (arith, eq_text_iff k j)

pub In-add :
    (f : Text → List XMessage) (k j : Text) (e m : XMessage)
    → In m (f j)
    → In m (update f k (f k ++ e ∷ []) j)
In-add f k j e m h = elim (Bool-cases (eq_text k j)) [
  | inl same ↦ rw same (In-append_left m (f k) (e ∷ []) (rw ((eq_text_iff k j).0 same) h))
  | inr other ↦ rw other h
]

pub In-unless :
    (b c : Bool) (id x : Text) (xs : List Text)
    → x ≢ id
    → In x xs
    → In x (if b then (if c then remove id xs else xs) else xs)
In-unless true true id x xs ne h = In-remove id x xs ne h
In-unless true false id x xs ne h = h
In-unless false c id x xs ne h = h

pub unless_set_pending :
    (o : Option Text) (k v : Text) (s : Server) (stream group : Text)
    → (unless_set o k v s).1.pending stream group ≡ s.pending stream group
unless_set_pending none k v s stream group = refl
unless_set_pending (some u) k v s stream group = refl

-- The streams of the server in memory satisfy the laws.
abbrev pub memory_queue : QueueLaws memory
memory_queue = record {
  entries = λ s. s.entries;
  pending = λ s. s.pending;
  xadd_adds = λ a s id e. rw (update_self s.entries a.stream _) (
      In-append_right _ (s.entries a.stream) _
        (inl (ap (λ i. record { id = i; values = a.values }) (ok-injective e))));
  xadd_keeps_entries = λ a s stream m trim h. In-add s.entries a.stream stream _ m h;
  xadd_other = λ a s stream ne. update_other s.entries a.stream _ stream ne;
  xadd_pending = λ a s stream group. refl;
  xack_entries = λ stream group id s other. refl;
  xack_pending = λ stream group id s stream' group' id' ne h.
      In-unless (eq_text stream stream') (eq_text group group') id id' _ ne h;
  xlen_counts = λ stream s n e. sym (ok-injective e);
  xlen_entries = λ stream s other. refl;
  xrange_entries = λ stream from to s other. refl;
  xdel_other = λ stream id s other ne.
      update_other s.entries stream (drop_id id (s.entries stream)) other ne;
  set_nx_pending =
      λ key v ttl s stream group. unless_set_pending (s.value key) key v s stream group;
}

pub unless_set_sets :
    (o : Option Text) (k v : Text) (s : Server)
    → (unless_set o k v s).0 ≡ true
    → (unless_set o k v s).1.value k ≡ some v
unless_set_sets none k v s h = update_self s.value k (some v)
unless_set_sets (some w) k v s h = cc

pub unless_set_absent :
    (o : Option Text) (k v : Text) (s : Server) → o ≡ none → (unless_set o k v s).0 ≢ false
unless_set_absent none k v s e h = ground arith
unless_set_absent (some w) k v s e h = ground arith

pub unless_set_present :
    (o : Option Text) (k v w : Text) (s : Server) → o ≡ some w → (unless_set o k v s).0 ≢ true
unless_set_present none k v w s e h = cc
unless_set_present (some u) k v w s e h = cc

pub unless_set_keeps :
    (o : Option Text) (k v w : Text) (s : Server)
    → o ≡ some w
    → s.value k ≡ some w
    → (unless_set o k v s).1.value k ≡ some w
unless_set_keeps none k v w s e h = cc
unless_set_keeps (some u) k v w s e h = h

pub unless_set_other :
    (o : Option Text) (k v j : Text) (s : Server)
    → k ≢ j
    → (unless_set o k v s).1.value j ≡ s.value j
unless_set_other none k v j s ne = update_other s.value k (some v) j ne
unless_set_other (some u) k v j s ne = refl

pub read_key_value :
    (o : Option Text) (v : Text) (s : Server) → (read_key o s).0 ≡ ok v → o ≡ some v
read_key_value none v s h = cc
read_key_value (some w) v s h = ground arith

pub read_key_keeps : (o : Option Text) (s : Server) → (read_key o s).1 ≡ s
read_key_keeps none s = refl
read_key_keeps (some v) s = refl

-- So do its keys.
abbrev pub memory_keys : KeyLaws memory
memory_keys = record {
  value = λ s. s.value;
  set_nx_sets = λ key v ttl s h. unless_set_sets (s.value key) key v s (ok-injective h);
  set_nx_absent = λ key v ttl s e h. unless_set_absent (s.value key) key v s e (ok-injective h);
  set_nx_present =
      λ key v w ttl s e h. unless_set_present (s.value key) key v w s e (ok-injective h);
  set_nx_keeps = λ key v w ttl s e. unless_set_keeps (s.value key) key v w s e e;
  set_nx_other = λ key v other ttl s ne. unless_set_other (s.value key) key v other s ne;
  get_value = λ key v s h. read_key_value (s.value key) v s h;
  get_keeps = λ key s other. rw (read_key_keeps (s.value key) s);
  del_other = λ key s other ne. update_other s.value key none other ne;
}

field-append : (f : Text) (a b : Fields) → field f (a ++ b) ≡ or_else (field f a) (field f b)
unfolding field
field-append f [] b = refl
field-append f ((k, v) ∷ a) b = ground (arith, field-append f a b)

pub hset_writes :
    (key : Text) (fields : Fields) (s : Server) (f : Text)
    → field f (update s.hash key (fields ++ s.hash key) key)
      ≡ or_else (field f fields) (field f (s.hash key))
hset_writes key fields s f =
    rw (update_self s.hash key (fields ++ s.hash key)) (field-append f fields (s.hash key))

pub cleared : (key : Text) (s : Server) (f : Text) → field f (update s.hash key [] key) ≡ none
unfolding field
cleared key s f = rw (update_self s.hash key [])

-- So do its hashes.
abbrev pub memory_hashes : HashLaws memory
memory_hashes = record {
  hash = λ s key f. field f (s.hash key);
  hset_writes = λ key fields s n f e. hset_writes key fields s f;
  hget_all_reads = λ key s fields f e. ap (field f) (sym (ok-injective e));
  hset_other = λ key fields s other f ne.
      ap (field f) (update_other s.hash key (fields ++ s.hash key) other ne);
  del_clears = λ key s n f e. cleared key s f;
  del_hash_other = λ key s other f ne. ap (field f) (update_other s.hash key [] other ne);
}

matches_begins :
    (prefix key : Text)
    → matches (prefix ++ 42 ∷ []) key ≡ true
    → (rest : Text) × (key ≡ prefix ++ rest)
matches_begins [] key h = (key, refl)
matches_begins (c ∷ []) [] h = ground arith
matches_begins (c ∷ []) (k ∷ key) h = (key, ground arith)
matches_begins (c ∷ d ∷ prefix) [] h = ground arith
matches_begins (c ∷ d ∷ prefix) (k ∷ key) h =
    let (rest, e) = matches_begins (d ∷ prefix) key (ground arith) in (rest, ground arith)

abbrev Begins : Text → Text → Type 0
Begins prefix key = (rest : Text) × (key ≡ prefix ++ rest)

pub matching_begin :
    (prefix : Text) (names : List Text) (key : Text)
    → In key (matching (prefix ++ 42 ∷ []) names)
    → Begins prefix key
matching_begin prefix [] key h = elim h [ ]
matching_begin prefix (k ∷ names) key h = elim (Bool-cases (matches (prefix ++ 42 ∷ []) k)) [
  | inr apart ↦ matching_begin prefix names key (rw apart at h)
  | inl begins ↦
      let h' : (k ≡ key) ⊎ In key (matching (prefix ++ 42 ∷ []) names) = rw begins at h in
      elim h' [
        | inl same ↦ subst (Begins prefix) same (matches_begins prefix k begins)
        | inr later ↦ matching_begin prefix names key later
      ]
]

-- So does its listing of keys.
abbrev pub memory_listing : ListingLaws memory memory_hashes
memory_listing = record {
  keys_begin =
      λ prefix s keys key e there. matching_begin prefix s.names key (rw (ok-injective e) there);
  keys_reads = λ pattern s key f. refl;
  hget_all_keeps = λ k s key f. refl;
}

pub In-update :
    (f : Text → List Text) (stream g other h : Text)
    → In h (f other)
    → In h (update f stream (g ∷ f stream) other)
In-update f stream g other h there = elim (Bool-cases (eq_text stream other)) [
  | inl same ↦ rw same (inr (rw ((eq_text_iff stream other).0 same) there))
  | inr apart ↦ rw apart there
]

pub update_has :
    (f : Text → List Text) (stream g : Text) → In g (update f stream (g ∷ f stream) stream)
update_has f stream g = rw (update_self f stream (g ∷ f stream)) (inl refl)

pub find_newest :
    (id : Text) (values : Fields) (ms : List XMessage)
    → find_id id (ms ++ record { id = id; values = values } ∷ [])
      ≡ record { id = id; values = values } ∷ []
find_newest id values [] = ground (arith, eq_text_iff id id)
find_newest id values (m ∷ ms) = rw (find_newest id values ms)

-- So do its ranges of one id.
abbrev pub memory_ranges : RangeLaws memory
memory_ranges = record {
  at = λ s stream id. find_id id (s.entries stream);
  xrange_reads = λ stream id s ms e. sym (ok-injective e);
  xadd_at = λ a s id e.
      ap (find_id id) (update_self s.entries a.stream _)
      ∙ rw (ok-injective e) (find_newest id a.values (s.entries a.stream));
  xack_at = λ stream group id s other id'. refl;
}

pub In-add_cases :
    (xs : List XMessage) (e m : XMessage) → In m (xs ++ e ∷ []) → In m xs ⊎ (m.values ≡ e.values)
In-add_cases xs e m h = elim (In-append_cases m xs (e ∷ []) h) [
  | inl there ↦ inl there
  | inr (inl same) ↦ inr (ap (λ x. x.values) (sym same))
  | inr (inr never) ↦ elim never [ ]
]

pub In-drop_id : (id : Text) (m : XMessage) (ms : List XMessage) → In m (drop_id id ms) → In m ms
In-drop_id id m [] h = h
In-drop_id id m (x ∷ ms) h = elim (Bool-cases (eq_text id x.id)) [
  | inl same ↦ let h' : In m ms = rw same at h in inr h'
  | inr other ↦
      let h' : (x ≡ m) ⊎ In m (drop_id id ms) = rw other at h in
      elim h' [ inl e ↦ inl e | inr there ↦ inr (In-drop_id id m ms there) ]
]

pub In-deleted :
    (f : Text → List XMessage) (stream id other : Text) (m : XMessage)
    → In m (update f stream (drop_id id (f stream)) other)
    → In m (f other)
In-deleted f stream id other m h = elim (Bool-cases (eq_text stream other)) [
  | inr apart ↦ rw apart at h
  | inl same ↦
      let h' : In m (drop_id id (f stream)) = rw same at h in
      subst (λ t. In m (f t)) ((eq_text_iff stream other).0 same) (In-drop_id id m (f stream) h')
]

pub after_first-In :
    (n : ℕ) (ms : List XMessage) (m : XMessage) → after_first n ms ≡ some m → In m ms
after_first-In n [] m h = ground arith
after_first-In zero (x ∷ ms) m h = inl (ground arith)
after_first-In (suc n) (x ∷ ms) m h = inr (after_first-In n ms m h)

pub deliver-In :
    (stream group : Text) (found : Option XMessage) (s : Server) (x : XStream) (xs : List XStream)
    (m : XMessage)
    → (deliver stream group found s).0 ≡ ok (x ∷ xs)
    → In m x.messages
    → found ≡ some m
deliver-In stream group none s x xs m read h = ground arith
deliver-In stream group (some found) s x xs m read h =
    let e : x ≡ record { stream = stream; messages = found ∷ [] } = ground arith in
    let h' : In m (found ∷ []) = subst (λ (y : XStream). In m y.messages) e h in
    elim h' [ inl e ↦ ap some e | inr never ↦ elim never [ ] ]

-- So do its entries.
abbrev pub memory_streams : StreamLaws memory memory_queue
memory_streams = record {
  xadd_new = λ a s m h.
      In-add_cases (s.entries a.stream) (record { id = format_ℕ s.next; values = a.values }) m
        (subst (In m) (update_self s.entries a.stream _) h);
  xdel_old = λ stream id s other m h. In-deleted s.entries stream id other m h;
  read_there = λ group consumer stream count block s x xs m read h.
      after_first-In (s.read stream group) (s.entries stream) m (
        deliver-In stream group (after_first (s.read stream group) (s.entries stream)) s x xs m read
          h);
}

pub In-claimed :
    (ids : List Text) (m : XMessage) (ms : List XMessage) → In m (claimed ids ms) → In m ms
In-claimed ids m [] h = h
In-claimed ids m (x ∷ ms) h = elim (Bool-cases (has_id x.id ids)) [
  | inr other ↦ let h' : In m (claimed ids ms) = rw other at h in inr (In-claimed ids m ms h')
  | inl mine ↦
      let h' : (x ≡ m) ⊎ In m (claimed ids ms) = rw mine at h in
      elim h' [ inl e ↦ inl e | inr there ↦ inr (In-claimed ids m ms there) ]
]

pub claim-In :
    (ids : List Text) (ms messages : List XMessage) (next start : Text) (m : XMessage)
    → ◌≡◌ {A = Result (List XMessage × Text)} (ok (claimed ids ms, start)) (ok (messages, next))
    → In m messages
    → In m ms
claim-In ids ms messages next start m e h =
    In-claimed ids m ms (subst (In m) (ap (λ p. p.0) (sym (ok-injective e))) h)

-- So do its claims.
abbrev pub memory_claims : ClaimLaws memory memory_queue
memory_claims = record {
  claim_there = λ a s messages next m e h.
      claim-In (s.pending a.stream a.group) (s.entries a.stream) messages next (lit "0-0") m e h;
  claim_entries = λ a s stream. refl;
}

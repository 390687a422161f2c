-- ===== src/Queue/Consumer/Reclaim.antt =====
-- The cursor loop of `ReclaimStale`.
use fluffy_dollop.Base.{
  ℕ, suc, ◌≤◌, ◌<◌, ◌≡◌, refl, inl, inr, ◌≢◌, Bool, true, false, none, some, List, [], ◌∷◌, ◌++◌,
  arith, length, All, In,
}
use mathlib.Core.List.{append_assoc}
use fluffy_dollop.Base.Int.{ℤ}
use fluffy_dollop.Base.Text.{Text, lit, eq_text}
use fluffy_dollop.Go.Effect.{Result, Result-cases, ok}
use fluffy_dollop.Config.Types.{Duration}
use fluffy_dollop.Redis.{Redis, XMessage, XAutoClaimArgs}
use fluffy_dollop.Queue.Types.{JobEnvelope, Json}
use fluffy_dollop.Queue.Consumer.{
  Consumer, claim_args, parse_message, parse_all, reclaim_from, reclaim_stale,
}

-- Where a scan stands: a bound on the pages to come, for a state and a cursor. Redis documents
-- that a full scan ends with the cursor 0-0.
pub record ScanProgress (R : Redis) : Type 0 where
  pub pages_left : R.State → Text → ℕ
  pub progress :
      (a : XAutoClaimArgs) (s : R.State) (messages : List XMessage) (next : Text)
      → (R.xauto_claim a s).0 ≡ ok (messages, next)
      → eq_text next (lit "0-0") ≡ false
      → pages_left (R.xauto_claim a s).1 next < pages_left s a.start

-- The context is not done after any round.
abbrev pub IsLive : List Bool → Type 0
IsLive = All (λ cancelled. cancelled ≡ false)

module _ (R : Redis) (J : Json) where
  open R use {State}

  parse_all-append :
      (xs ys : List XMessage) → parse_all R J (xs ++ ys) ≡ parse_all R J xs ++ parse_all R J ys
  unfolding parse_all
  parse_all-append [] ys = refl
  parse_all-append (m ∷ xs) ys = ground (arith, parse_all-append xs ys)

  -- Every message of a page that parses is among the jobs, with its id.
  pub In-parse_all :
      (m : XMessage) (job : JobEnvelope × Text) (ms : List XMessage)
      → In m ms
      → parse_message R J m ≡ ok job
      → In job (parse_all R J ms)
  unfolding parse_all
  In-parse_all m job [] h e = elim h [ ]
  In-parse_all m job (x ∷ ms) (inl same) e = rw same (rw (e, parse_all) (inl refl))
  In-parse_all m job (x ∷ ms) (inr h) e =
      let ih = In-parse_all m job ms h e in
      elim (Result-cases (parse_message R J x)) [
        | inl (parsed, good) ↦ rw (good, parse_all) (inr ih)
        | inr (bad, why) ↦ rw (why, parse_all) ih
      ]

  module _ (c : Consumer) (idle_time : Duration) (max_batch : ℤ) where
    -- One XAUTOCLAIM at a cursor.
    abbrev pub claim : Text → State → Result (List XMessage × Text) × State
    claim cursor s = R.xauto_claim (claim_args c idle_time max_batch cursor) s

    -- A scan of the pending list from a cursor to its end: the messages that Redis hands over on
    -- the way, page by page.
    pub data Scan : State → Text → List XMessage → State → Type 0 where
      last :
          (s : State) (cursor : Text) (messages : List XMessage) (next : Text)
          → (claim cursor s).0 ≡ ok (messages, next)
          → eq_text next (lit "0-0") ≡ true
          → Scan s cursor messages (claim cursor s).1
      page :
          (s : State) (cursor : Text) (messages : List XMessage) (next : Text)
          (more : List XMessage) (end : State)
          → (claim cursor s).0 ≡ ok (messages, next)
          → eq_text next (lit "0-0") ≡ false
          → Scan (claim cursor s).1 next more end
          → Scan s cursor (messages ++ more) end

    abbrev pub pages :
        {s : State} {cursor : Text} {ms : List XMessage} {end : State} → Scan s cursor ms end → ℕ
    pages (last s cursor messages next e stop) = 1
    pages (page s cursor messages next more end e go rest) = suc (pages rest)

    reclaim_from-Scan :
        {s : State} {cursor : Text} {ms : List XMessage} {end : State} (scan : Scan s cursor ms end)
        (rounds : List Bool) (jobs : List (JobEnvelope × Text))
        → IsLive rounds
        → pages scan ≤ length rounds
        → reclaim_from R J rounds c idle_time max_batch cursor jobs s
          ≡ (some (jobs ++ parse_all R J ms, none), end)
    unfolding reclaim_from
    reclaim_from-Scan (last s cursor messages next e stop) [] jobs live h = elim h [ ]
    reclaim_from-Scan (last s cursor messages next e stop) (b ∷ rounds) jobs live h = ground arith
    reclaim_from-Scan (page s cursor messages next more end e go rest) [] jobs live h = elim h [ ]
    reclaim_from-Scan (page s cursor messages next more end e go rest) (b ∷ rounds) jobs live h =
        ground (
          arith,
          reclaim_from-Scan rest rounds (jobs ++ parse_all R J messages) live.1 (omega arith),
          parse_all-append messages more,
          append_assoc jobs (parse_all R J messages) (parse_all R J more),
        )

    -- `ReclaimStale` returns the jobs of every message of the scan that parses, in order, whatever
    -- the number of pages, if the context is not done meanwhile and there is a round for every
    -- page.
    pub reclaim_stale-Scan :
        {ms : List XMessage} {s end : State} (scan : Scan s (lit "0-0") ms end) (rounds : List Bool)
        → IsLive rounds
        → pages scan ≤ length rounds
        → reclaim_stale R J rounds c idle_time max_batch s ≡ (some (parse_all R J ms, none), end)
    unfolding reclaim_stale
    reclaim_stale-Scan scan rounds live h = reclaim_from-Scan scan rounds [] live h

  module _ (P : ScanProgress R) where
    open P use {pages_left, progress}

    reclaim_from_ends :
        (rounds : List Bool) (c : Consumer) (idle_time : Duration) (max_batch : ℤ) (cursor : Text)
        (jobs : List (JobEnvelope × Text)) (s : State)
        → pages_left s cursor < length rounds
        → (reclaim_from R J rounds c idle_time max_batch cursor jobs s).0 ≢ none
    unfolding reclaim_from
    reclaim_from_ends [] c idle_time max_batch cursor jobs s h = elim h [ ]
    reclaim_from_ends (cancelled ∷ rounds) c idle_time max_batch cursor jobs s h =
        let args = claim_args c idle_time max_batch cursor in
        elim (Result-cases (R.xauto_claim args s).0) [
          | inr (e, bad) ↦ ground arith
          | inl ((messages, next), found) ↦ ground (
            arith,
            progress args s messages next found,
            reclaim_from_ends rounds c idle_time max_batch next (jobs ++ parse_all R J messages)
                (R.xauto_claim args s).1,
          )
        ]

    -- With more rounds than Redis has pages left, the cursor loop ends: by the end of the scan, an
    -- error or a context that is done.
    pub reclaim_stale_ends :
        (rounds : List Bool) (c : Consumer) (idle_time : Duration) (max_batch : ℤ) (s : State)
        → pages_left s (lit "0-0") < length rounds
        → (reclaim_stale R J rounds c idle_time max_batch s).0 ≢ none
    unfolding reclaim_stale
    reclaim_stale_ends rounds c idle_time max_batch s h =
        reclaim_from_ends rounds c idle_time max_batch (lit "0-0") [] s h

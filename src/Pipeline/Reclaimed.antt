-- ===== src/Pipeline/Reclaimed.antt =====
-- What a worker takes over after any run of the three programs: `ReclaimStale` of
-- internal/queue/consumer.go.
use fluffy_dollop.Base.{
  ◌≤◌, ◌≡◌, refl, ap, ◌≢◌, inl, inr, Bool, some, none, List, [], ◌∷◌, map, All, In, In-append_cases,
  length,
}
use fluffy_dollop.Base.Int.{ℤ}
use fluffy_dollop.Base.Text.{Text, lit}
use fluffy_dollop.Config.Types.{QueueConfig, Duration}
use fluffy_dollop.Redis.{Redis, XMessage}
use fluffy_dollop.Redis.Laws.{QueueLaws, StreamLaws, ClaimLaws}
use fluffy_dollop.Queue.Types.{JobEnvelope, Json, JsonLaws}
use fluffy_dollop.Queue.Dlq.{Dlq}
use fluffy_dollop.Queue.Consumer.{Consumer, claim_args, parse_all, reclaim_stale}
use fluffy_dollop.Queue.Consumer.Reclaim.{IsLive, Scan, last, page, pages, reclaim_stale-Scan}
use fluffy_dollop.Worker.Dedup.{World, Processor}
use fluffy_dollop.Pipeline.{Action, act_all}
use fluffy_dollop.Pipeline.Readable.{IsReadable, IsClean, LeavesClean, same-IsClean}
use fluffy_dollop.Pipeline.Consumed.{IsUsual, act_all-IsClean}

module _ (R : Redis) (J : Json) (L : QueueLaws R) (S : StreamLaws R L) (K : JsonLaws J) (d : Dlq)
    (C : ClaimLaws R L) where
  open R use {State}
  open L use {entries}

  all_parsed :
      (ms : List XMessage)
      → ((m : XMessage) → In m ms → IsReadable R J L S K d m)
      → map (λ j. j.1) (parse_all R J ms) ≡ map (λ m. m.id) ms
  unfolding parse_all
  all_parsed [] readable = refl
  all_parsed (m ∷ ms) readable =
      let (envelope, parses) = readable m (inl refl) in
      let rest = all_parsed ms (λ k there. readable k (inr there)) in
      rw (parses, parse_all) (ap (λ ids. m.id ∷ ids) rest)

  Scan-IsReadable :
      (c : Consumer) (idle_time : Duration) (max_batch : ℤ) {s end : State} {cursor : Text}
      {ms : List XMessage}
      → Scan R J c idle_time max_batch s cursor ms end
      → d.stream_name ≢ c.stream_name
      → IsClean R J L S K d s
      → (m : XMessage) → In m ms
      → IsReadable R J L S K d m
  Scan-IsReadable c idle_time max_batch (last s cursor messages next e stop) apart clean m h =
      clean c.stream_name m apart
        (C.claim_there (claim_args c idle_time max_batch cursor) s messages next m e h)
  Scan-IsReadable c idle_time max_batch (page s cursor messages next more end e go rest) apart clean
        m h =
      let args = claim_args c idle_time max_batch cursor in
      elim (In-append_cases m messages more h) [
        | inl here ↦ clean c.stream_name m apart (C.claim_there args s messages next m e here)
        | inr later ↦
            Scan-IsReadable c idle_time max_batch rest apart
              (same-IsClean R J L S K d s (R.xauto_claim args s).1
                (λ stream other. C.claim_entries args s stream) clean)
              m later
      ]

  -- After any requests to the ingestion service, messages handled by workers and requeues of dead
  -- letters, whichever commands fail, `ReclaimStale` returns a job for every message that Redis
  -- hands over on the pages of its scan, in order, and passes none over. That is for events and jobs
  -- whose metadata are not nested too deep for encoding/json to read them in an envelope (it reads
  -- 10,000 levels, and JSON that it writes with fewer it reads back), streams whose messages parse at
  -- the start, workers that share the dead letter queue or have none, a consumer of another stream, a
  -- processor that keeps the streams readable, and a context that is not done before the last page.
  pub act_all-reclaim_stale :
      (q : QueueConfig) (p : Processor R) (actions : List Action) (w : World R) (c : Consumer)
      (idle_time : Duration) (max_batch : ℤ) (ms : List XMessage) (end : State)
      (scan : Scan R J c idle_time max_batch (act_all R J q p d actions w).redis (lit "0-0") ms end)
      (rounds : List Bool)
      → LeavesClean R J L S K d p
      → All (IsUsual R J L S K d) actions
      → IsClean R J L S K d w.redis
      → d.stream_name ≢ c.stream_name
      → IsLive rounds
      → pages R J c idle_time max_batch scan ≤ length rounds
      → (jobs : List (JobEnvelope × Text)) × (reclaim_stale R J rounds c idle_time max_batch
            (act_all R J q p d actions w).redis
          ≡ (some (jobs, none), end))
        × (map (λ j. j.1) jobs ≡ map (λ m. m.id) ms)
  act_all-reclaim_stale q p actions w c idle_time max_batch ms end scan rounds leaves own clean
        apart live enough =
      let after = act_all-IsClean R J L S K d q p leaves actions w own clean in
      (
        parse_all R J ms,
        reclaim_stale-Scan R J c idle_time max_batch scan rounds live enough,
        all_parsed ms (Scan-IsReadable c idle_time max_batch scan apart after),
      )

-- ===== src/Polling/CatchUp.antt =====
-- How many turns the loop needs to come up with the chain.
use web3_point_exchange.Common.{
  ℕ, ◌+◌, ◌*◌, ◌≤◌, ◌≡◌, refl, inl, inr, Option, none, some, List, [], ◌∷◌, ltb, length, arith,
  Bool-cases,
}
use web3_point_exchange.Polling.Network.{Outside, Log, Request, ApiResponse}
use web3_point_exchange.Polling.Deliver.{
  QueryFilter, Link, Attempt, and_then, log_answer, process_events,
}
use web3_point_exchange.Polling.Loop.{min, Tick, Poller, settle_batch, poll_to, poll_once, poll}
use web3_point_exchange.Polling.Jobs.{Job, jobs, do_jobs, send_logs-eq}
use web3_point_exchange.Polling.Delivery.{AllOf, Found}

module _ ⦃o : Outside⦄ where
  -- The server answers every request.
  abbrev pub IsUp : Type 0
  IsUp = (r : Request) (v : o.Server) → (a : ApiResponse) × (o.post r v).0 ≡ some a

  -- The provider reports `top`, and every range of blocks is found, with logs that parse.
  abbrev pub IsClear : ℕ → Tick → Type 0
  IsClear top t =
      (t.block_number ≡ some top)
      × ((a b : ℕ)
          → (d w v : List Log) × (rs : List Request) × Found t.query_filter a b d w v
            × AllOf (jobs d w v) rs)

  abbrev pub AllClear : ℕ → List Tick → Type 0
  AllClear top [] = Unit
  AllClear top (t ∷ ts) = IsClear top t × AllClear top ts

module _ ⦃o : Outside⦄ (up : IsUp) where
  do_jobs_returns :
      (js : List Job) (rs : List Request) (s : Link) → AllOf js rs → (do_jobs js s).0 ≡ some tt
  do_jobs_returns [] rs s all = refl
  do_jobs_returns (j ∷ js) [] s all = absurd all
  do_jobs_returns (j ∷ js) (r ∷ rs) s (e, all) =
      rw e (go (o.post r s.server) (up r s.server).1 (λ t. do_jobs_returns js rs t all))
    where
      go :
          (x : Option ApiResponse × o.Server)
          → x.0 ≡ some (up r s.server).0
          → ((t : Link) → (do_jobs js t).0 ≡ some tt)
          → (and_then (log_answer r s.answered x) (do_jobs js)).0 ≡ some tt
      go (none, v) f ih = cc
      go (some a, v) f ih = ih _

  process_events_returns :
      (q : QueryFilter) (a b : ℕ) (d w v : List Log) (rs : List Request) (s : Link)
      → Found q a b d w v
      → AllOf (jobs d w v) rs
      → (process_events q a b s).0 ≡ some tt
  unfolding process_events
  process_events_returns q a b d w v rs s (e, f, g) all =
      rw (e, process_events)
        (rw f (rw g (rw (send_logs-eq d w v s) (do_jobs_returns (jobs d w v) rs s all))))

  settled-block :
      (b : ℕ) (s : Poller) (x : Attempt)
      → x.0 ≡ some tt
      → (settle_batch b s x).last_processed_block ≡ b
  settled-block b s (none, l) e = cc
  settled-block b s (some u, l) e = refl

  poll_once-eq :
      (top : ℕ) (t : Tick) (s : Poller)
      → IsClear top t
      → s.last_processed_block ≤ top
      → (poll_once t s).last_processed_block ≡ min top (s.last_processed_block + 100)
  unfolding poll_once poll_to
  poll_once-eq top t s (e, found) below = elim (Bool-cases (ltb s.last_processed_block top)) [
    | inl l ↦
        let b = min top (s.last_processed_block + 100) in
        let (d, w, v, rs, f, all) = found (s.last_processed_block + 1) b in
        rw (e, poll_once)
          (rw l (
            settled-block b s _ (
              process_events_returns t.query_filter (s.last_processed_block + 1) b d w v rs s.link f
                all)))
    | inr l ↦ rw (e, poll_once) (rw l (ground arith))
  ]

  -- When the server answers every request, the provider reports the same block `top` in every
  -- turn, the logs of every range are found and parse, and the last processed block is not above
  -- `top` and at most 100 n blocks below it: after n turns it is `top`.
  pub poll_catches_up :
      (top : ℕ) (ts : List Tick) (s : Poller)
      → AllClear top ts
      → s.last_processed_block ≤ top
      → top ≤ s.last_processed_block + 100 * length ts
      → (poll ts s).last_processed_block ≡ top
  unfolding poll
  poll_catches_up top [] s clear below near = omega arith
  poll_catches_up top (t ∷ ts) s (c, cs) below near =
      let e = poll_once-eq top t s c below in
      poll_catches_up top ts (poll_once t s) cs (rw e (ground arith)) (rw e (ground arith))

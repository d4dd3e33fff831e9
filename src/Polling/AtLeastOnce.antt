-- ===== src/Polling/AtLeastOnce.antt =====
-- Every event of the blocks that the loop has passed was in a request that the server answered, over
-- any number of turns, errors and restarts.
use web3_point_exchange.Common.{
  ℕ, ◌+◌, ◌≤◌, ◌<◌, ◌≡◌, refl, sym, ap, subst, inl, inr, Bool, true, false, Option, none, some,
  arith, some_inj, ◌==◌, ==_iff, if◌then◌else◌,
}
use web3_point_exchange.Polling.Network.{Outside, BlockFile}
use web3_point_exchange.Polling.Deliver.{Link, Attempt, process_events}
use web3_point_exchange.Polling.Loop.{
  Tick, Poller, get_last_processed_block, save_last_processed_block, start_event_polling,
  settle_batch, poll_to, poll_once,
}
use web3_point_exchange.Polling.Delivery.{ProcessSpec, process_events-ProcessSpec}
use web3_point_exchange.Polling.Ranges.{poll_once-Turn}
use web3_point_exchange.Polling.Requests.{Delivered}
use web3_point_exchange.Polling.Coverage.{
  History, IsHonest, none-some, Covered, IsSafe, batch-Covered, Covered-later, Covered-join,
}

module _ ⦃o : Outside⦄ where
  saved-block :
      (n : ℕ) (f : BlockFile)
      → get_last_processed_block f ≤ n
      → get_last_processed_block (save_last_processed_block n f) ≤ n
  unfolding get_last_processed_block save_last_processed_block
  saved-block n f h = elim (o.write_file_law (o.to_text n) f) [
    | inl e ↦ rw e h
    | inr (inl e) ↦ rw (e, o.parse_empty, get_last_processed_block) (omega arith)
    | inr (inr e) ↦ rw (e, o.parse_int_law n, get_last_processed_block) (omega arith)
  ]

  poll_to-IsSafe :
      (chain : History) (t : Tick) (n a b : ℕ) (s : Poller)
      → IsHonest chain t
      → t.block_number ≡ some n
      → b ≤ n
      → s.last_processed_block < b
      → IsSafe chain a s
      → IsSafe chain a (poll_to b t.query_filter s)
  unfolding poll_to
  poll_to-IsSafe chain t n a b s honest e le lt (covered, saved) =
      go (process_events t.query_filter (s.last_processed_block + 1) b s.link)
        (process_events-ProcessSpec t.query_filter (s.last_processed_block + 1) b s.link)
    where
      go :
          (x : Attempt)
          → ProcessSpec t.query_filter (s.last_processed_block + 1) b s.link x
          → IsSafe chain a (settle_batch b s x)
      go (none, l) (inl f) = rw f (covered, saved)
      go (none, l) (inr (d, w, v, rs, found, start, f)) = (
        subst (Covered chain a s.last_processed_block) (sym f)
            (Covered-later chain a s.last_processed_block s.link.answered rs covered),
        saved,
      )
      go (some u, l) (d, w, v, rs, found, all, f, g) = (
        Covered-join chain a s.last_processed_block b l.answered
            (subst (Covered chain a s.last_processed_block) (sym f)
              (Covered-later chain a s.last_processed_block s.link.answered rs covered))
            (batch-Covered chain t n s.last_processed_block b s.link l honest e le
              (d, w, v, rs, found, all, f, g)),
        saved-block b s.file (omega (arith, saved)),
      )

  poll_once-IsSafe :
      (chain : History) (t : Tick) (a : ℕ) (s : Poller)
      → IsHonest chain t
      → IsSafe chain a s
      → IsSafe chain a (poll_once t s)
  poll_once-IsSafe chain t a s honest safe = elim (poll_once-Turn t s) [
    | inl e ↦ rw e safe
    | inr (n, e, (b, low, high, near, f)) ↦
        rw f (poll_to-IsSafe chain t n a b s honest e high low safe)
  ]

  abbrev StartSpec : BlockFile → Link → Poller → Type 0
  StartSpec f l s =
      (s.link ≡ l)
      × (get_last_processed_block s.file ≤ s.last_processed_block)
      × (0 < get_last_processed_block f → s.last_processed_block ≡ get_last_processed_block f)

  -- A start goes on from the block in the file, unless that reads 0.
  start_event_polling-eq :
      (current : Option ℕ) (f : BlockFile) (l : Link) (s : Poller)
      → start_event_polling current f l ≡ some s
      → StartSpec f l s
  unfolding start_event_polling
  start_event_polling-eq current f l s e = go (get_last_processed_block f == 0) refl current e
    where
      go :
          (b : Bool)
          → (get_last_processed_block f == 0) ≡ b
          → (c : Option ℕ)
          → (if b
              then (elim c [
                | none ↦ none
                | some n ↦ some (record { last_processed_block = n; file = f; link = l })
              ])
              else some (record {
                last_processed_block = get_last_processed_block f;
                file = f;
                link = l;
              }))
            ≡ some s
          → StartSpec f l s
      go true t none e' = absurd (none-some e')
      go true t (some n) e' =
          let zero_file = (==_iff (get_last_processed_block f) 0).0 t in
          subst (StartSpec f l) (some_inj.0 e')
            (refl, omega (arith, zero_file), λ h. absurd (omega (arith, zero_file)))
      go false t c e' = subst (StartSpec f l) (some_inj.0 e') (refl, omega arith, λ h. refl)

  start-IsSafe :
      (chain : History) (current : Option ℕ) (f : BlockFile) (l : Link) (s : Poller)
      → start_event_polling current f l ≡ some s
      → IsSafe chain s.last_processed_block s
  start-IsSafe chain current f l s e =
      let (i, saved, j) = start_event_polling-eq current f l s e in
      (λ k m has low high. absurd (omega arith), saved)

  restart-IsSafe :
      (chain : History) (a : ℕ) (current : Option ℕ) (s s' : Poller)
      → 0 < get_last_processed_block s.file
      → start_event_polling current s.file s.link ≡ some s'
      → IsSafe chain a s
      → IsSafe chain a s'
  restart-IsSafe chain a current s s' pos e (covered, saved) =
      let (i, j, k) = start_event_polling-eq current s.file s.link s' e in
      (
        λ n l has low high.
            subst (Delivered n l) (ap (λ x. x.answered) (sym i))
              (covered n l has low (omega (arith, k pos))),
        j,
      )

  -- What the script can come to: it starts, its loop takes turns, and it is killed and started
  -- again, at any moment when the file still holds a block.
  pub data Reached (chain : History) (from_block : ℕ) : Poller → Type 0 where
    started :
        (current : Option ℕ) (f : BlockFile) (l : Link) (s : Poller)
        → start_event_polling current f l ≡ some s
        → from_block ≡ s.last_processed_block
        → Reached chain from_block s
    polled :
        (t : Tick) (s : Poller)
        → IsHonest chain t
        → Reached chain from_block s
        → Reached chain from_block (poll_once t s)
    restarted :
        (current : Option ℕ) (s s' : Poller)
        → 0 < get_last_processed_block s.file
        → start_event_polling current s.file s.link ≡ some s'
        → Reached chain from_block s
        → Reached chain from_block s'

  -- When the script starts at `from_block`, its loop takes any turns against a provider whose
  -- queries reject or find the logs of the chain, and it is killed and started again while its
  -- file has a block: every log of the three events in the blocks after `from_block` up to the
  -- last processed block was in a request, to the endpoint of its event and for its transaction,
  -- that the server has answered; and the file does not read more than the last processed block.
  pub Reached-IsSafe : (chain : History) (a : ℕ) (s : Poller) → Reached chain a s → IsSafe chain a s
  Reached-IsSafe chain a _ (started current f l s e i) =
      subst (λ b. IsSafe chain b s) (sym i) (start-IsSafe chain current f l s e)
  Reached-IsSafe chain a _ (polled t r honest h) =
      poll_once-IsSafe chain t a r honest (Reached-IsSafe chain a r h)
  Reached-IsSafe chain a _ (restarted current r s pos e h) =
      restart-IsSafe chain a current r s pos e (Reached-IsSafe chain a r h)

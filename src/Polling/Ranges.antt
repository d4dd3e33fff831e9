-- ===== src/Polling/Ranges.antt =====
-- The blocks that a turn of the loop asks for, how far it moves, and the attempts of the health check.
use web3_point_exchange.Common.{
  ℕ, zero, suc, ◌+◌, ◌*◌, ◌≤◌, ◌<◌, ◌≡◌, refl, subst, ◌⊎◌, inl, inr, true, false, Option, none,
  some, List, [], ◌∷◌, ltb, length, arith, Bool-cases,
}
use web3_point_exchange.Polling.Network.{Outside}
use web3_point_exchange.Polling.Deliver.{QueryFilter, Attempt, process_events}
use web3_point_exchange.Polling.Loop.{
  min, block_batch_size, HealthReply, is_ready, Health, healthy, exited, check_health_from,
  check_point_server_health, Tick, Poller, settle_batch, poll_to, poll_once, poll,
}

module _ ⦃o : Outside⦄ where
  -- The turn did nothing, or called `processEvents` for the range after the last block up to
  -- `to_block`, and moved on to `to_block` only when that returned.
  abbrev pub Turn : Tick → ℕ → Poller → Poller → Type 0
  Turn t current s s' =
      (to_block : ℕ) × (s.last_processed_block < to_block)
      × (to_block ≤ current)
      × (to_block ≤ s.last_processed_block + block_batch_size)
      × (s' ≡ poll_to to_block t.query_filter s)

  pub poll_once-Turn :
      (t : Tick) (s : Poller)
      → (poll_once t s ≡ s)
        ⊎ ((current : ℕ) × (t.block_number ≡ some current) × Turn t current s (poll_once t s))
  unfolding poll_once
  poll_once-Turn t s = go t.block_number refl
    where
      go :
          (n : Option ℕ)
          → t.block_number ≡ n
          → (poll_once t s ≡ s)
            ⊎ ((current : ℕ) × (t.block_number ≡ some current) × Turn t current s (poll_once t s))
      go none e = rw (e, poll_once) (inl refl)
      go (some n) e = elim (Bool-cases (ltb s.last_processed_block n)) [
        | inl l ↦
            let to_block = min n (s.last_processed_block + block_batch_size) in
            inr (
              n,
              e,
              (to_block, ground arith, ground arith, ground arith, rw (e, poll_once) (rw l refl)),
            )
        | inr l ↦ rw (e, poll_once) (rw l (inl refl))
      ]

  pub settle_batch-block :
      (to_block : ℕ) (s : Poller) (x : Attempt)
      → ((settle_batch to_block s x).last_processed_block ≡ s.last_processed_block)
        ⊎ ((settle_batch to_block s x).last_processed_block ≡ to_block)
  settle_batch-block to_block s (none, l) = inl refl
  settle_batch-block to_block s (some u, l) = inr refl

  poll_to-block :
      (to_block : ℕ) (q : QueryFilter) (s : Poller)
      → ((poll_to to_block q s).last_processed_block ≡ s.last_processed_block)
        ⊎ ((poll_to to_block q s).last_processed_block ≡ to_block)
  unfolding poll_to
  poll_to-block to_block q s =
      settle_batch-block to_block s (process_events q (s.last_processed_block + 1) to_block s.link)

  -- Every block that a turn reports is at most `top`.
  abbrev pub AtMost : ℕ → List Tick → Type 0
  AtMost top [] = Unit
  AtMost top (t ∷ ts) = ((n : ℕ) → t.block_number ≡ some n → n ≤ top) × AtMost top ts

  poll_once-bounds :
      (top : ℕ) (t : Tick) (s : Poller)
      → ((n : ℕ) → t.block_number ≡ some n → n ≤ top)
      → s.last_processed_block ≤ top
      → (s.last_processed_block ≤ (poll_once t s).last_processed_block)
        × ((poll_once t s).last_processed_block ≤ top)
        × ((poll_once t s).last_processed_block ≤ s.last_processed_block + 100)
  poll_once-bounds top t s h below = elim (poll_once-Turn t s) [
    | inl e ↦ rw e (omega arith, below, omega arith)
    | inr (n, e, (b, low, high, near, f)) ↦ rw f (elim (poll_to-block b t.query_filter s) [
      | inl g ↦ rw g (omega arith, below, omega arith)
      | inr g ↦ rw g (omega arith, omega (arith, h n e), omega arith)
    ])
  ]

  -- When no turn reports a block above `top`, which the last processed block does not pass: it never
  -- moves back, does not pass `top`, and moves on by at most 100 blocks for each turn.
  pub poll-bounds :
      (top : ℕ) (ts : List Tick) (s : Poller)
      → AtMost top ts
      → s.last_processed_block ≤ top
      → (s.last_processed_block ≤ (poll ts s).last_processed_block)
        × ((poll ts s).last_processed_block ≤ top)
        × ((poll ts s).last_processed_block ≤ s.last_processed_block + 100 * length ts)
  unfolding poll
  poll-bounds top [] s h below = (omega arith, below, omega arith)
  poll-bounds top (t ∷ ts) s (h, hs) below =
      let (a, b, c) = poll_once-bounds top t s h below in
      let (x, y, z) = poll-bounds top ts (poll_once t s) hs b in (omega arith, y, omega arith)

abbrev pub HealthSpec : (ℕ → HealthReply) → ℕ → ℕ → Health → Type 0
HealthSpec reply from left (healthy n) =
    (from ≤ n)
    × (n < from + left)
    × (is_ready (reply n) ≡ true)
    × ((k : ℕ) → from ≤ k → k < n → is_ready (reply k) ≡ false)
HealthSpec reply from left exited =
    (k : ℕ) → from ≤ k → k < from + left → is_ready (reply k) ≡ false

le_split : (a b : ℕ) → a ≤ b → (a ≡ b) ⊎ (suc a ≤ b)
le_split a b h = elim (Bool-cases (ltb a b)) [
  | inl t ↦ inr (ground arith)
  | inr f ↦ inl (ground arith)
]

HealthSpec-later :
    (reply : ℕ → HealthReply) (from left : ℕ) (h : Health)
    → is_ready (reply from) ≡ false
    → HealthSpec reply (suc from) left h
    → HealthSpec reply from (suc left) h
HealthSpec-later reply from left (healthy n) e (a, b, c, d) = (
  omega arith,
  omega arith,
  c,
  λ k x y. elim (le_split from k x) [
    | inl i ↦ subst (λ j. is_ready (reply j) ≡ false) i e
    | inr i ↦ d k i y
  ],
)
HealthSpec-later reply from left exited e d = λ k x y. elim (le_split from k x) [
  | inl i ↦ subst (λ j. is_ready (reply j) ≡ false) i e
  | inr i ↦ d k i (omega arith)
]

check_health_from-HealthSpec :
    (reply : ℕ → HealthReply) (left from : ℕ)
    → HealthSpec reply from left (check_health_from reply left from)
unfolding check_health_from
check_health_from-HealthSpec reply zero from = λ k a b. absurd (omega arith)
check_health_from-HealthSpec reply (suc left) from = elim (Bool-cases (is_ready (reply from))) [
  | inl t ↦ rw (t, check_health_from) (omega arith, omega arith, t, λ k a b. absurd (omega arith))
  | inr f ↦
      rw (f, check_health_from)
        (HealthSpec-later reply from left (check_health_from reply left (suc from)) f
          (check_health_from-HealthSpec reply left (suc from)))
]

-- The health check returns after the first attempt that is answered with status 200, which is one of
-- the attempts 1 to 36, and ends the process when none of these is.
pub check_health-HealthSpec :
    (reply : ℕ → HealthReply) → HealthSpec reply 1 36 (check_point_server_health reply)
unfolding check_point_server_health
check_health-HealthSpec reply = check_health_from-HealthSpec reply 36 1

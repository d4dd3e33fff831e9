-- ===== src/Polling/Coverage.antt =====
-- The logs of the chain, and when those of a range of blocks are delivered.
use web3_point_exchange.Common.{
  ℕ, ◌+◌, ◌≤◌, ◌<◌, ◌≡◌, sym, subst, ◌∙◌, ◌⊎◌, inl, inr, Bool, true, none, some, List, ◌++◌, Has,
  leb, ◌&&◌, select, arith, Has-select, Has-right, some_inj, Bool-cases,
}
use web3_point_exchange.Polling.Network.{
  Outside, EventName, point_deposited, point_withdrawn, valid_user_set, Log, Request,
}
use web3_point_exchange.Polling.Deliver.{Link}
use web3_point_exchange.Polling.Loop.{Tick, Poller, get_last_processed_block}
use web3_point_exchange.Polling.Jobs.{jobs}
use web3_point_exchange.Polling.Delivery.{ProcessSpec}
use web3_point_exchange.Polling.Requests.{
  found_of, jobs-JobHas, AllOf-Has, Delivered, Delivered-request, Delivered-later,
}

-- The logs that the contract ever emits, in the order of the chain.
abbrev pub History : Type 0
History = EventName → List Log

abbrev pub in_range : ℕ → ℕ → Log → Bool
in_range a b l = leb a l.block_number && leb l.block_number b

-- A query up to a block that the provider has reported rejects, or finds the logs of its range.
abbrev pub IsHonest : History → Tick → Type 0
IsHonest chain t =
    (n : ℕ)
    → t.block_number ≡ some n
    → (e : EventName) (a b : ℕ) → b ≤ n
    → (t.query_filter e a b ≡ none)
      ⊎ (t.query_filter e a b ≡ some (select (in_range a b) (chain e)))

pub none-some : {A : Type 0} {a : A} → none ≡ some a → ⊥
none-some h = cc

module _ ⦃o : Outside⦄ where
  -- Each log of the chain in the blocks after `from_block` up to `to_block` is delivered.
  abbrev pub Covered : History → ℕ → ℕ → List Request → Type 0
  Covered chain from_block to_block done =
      (e : EventName) (l : Log)
      → Has l (chain e)
      → from_block < l.block_number
      → l.block_number ≤ to_block
      → Delivered e l done

  abbrev pub IsSafe : History → ℕ → Poller → Type 0
  IsSafe chain from_block s =
      Covered chain from_block s.last_processed_block s.link.answered
      × (get_last_processed_block s.file ≤ s.last_processed_block)

  -- What `processEvents` has sent when it returns covers the range.
  pub batch-Covered :
      (chain : History) (t : Tick) (n a b : ℕ) (s s' : Link)
      → IsHonest chain t
      → t.block_number ≡ some n
      → b ≤ n
      → ProcessSpec t.query_filter (a + 1) b s (some tt, s')
      → Covered chain a b s'.answered
  batch-Covered chain t n a b s s' honest e le (d, w, v, rs, (fd, fw, fv), all, grown, _) name l m
        low high =
      let (j, has, job) = jobs-JobHas name l d w v (found name m) in
      let (r, within, request) = AllOf-Has j (jobs d w v) rs has all in
      Delivered-request name l j r s'.answered job request
        (subst (Has r) (sym grown) (Has-right r s.answered rs within))
    where
      listed : (k : EventName) → t.query_filter k (a + 1) b ≡ some (found_of d w v k)
      listed point_deposited = fd
      listed point_withdrawn = fw
      listed valid_user_set = fv

      ranged : (in_range (a + 1) b l) ≡ true
      ranged = ground arith

      found : (k : EventName) → Has l (chain k) → Has l (found_of d w v k)
      found k h = elim (honest n e k (a + 1) b le) [
        | inl f ↦ absurd (none-some (sym f ∙ listed k))
        | inr f ↦
            subst (Has l) (some_inj.0 (sym f ∙ listed k))
              (Has-select (in_range (a + 1) b) l (chain k) h ranged)
      ]

  pub Covered-later :
      (chain : History) (a b : ℕ) (done more : List Request)
      → Covered chain a b done
      → Covered chain a b (done ++ more)
  Covered-later chain a b done more c e l m low high =
      Delivered-later e l done more (c e l m low high)

  pub Covered-join :
      (chain : History) (a b c : ℕ) (done : List Request)
      → Covered chain a b done
      → Covered chain b c done
      → Covered chain a c done
  Covered-join chain a b c done f g e l m low high = elim (Bool-cases (leb l.block_number b)) [
    | inl t ↦ f e l m low (ground arith)
    | inr t ↦ g e l m (ground arith) high
  ]

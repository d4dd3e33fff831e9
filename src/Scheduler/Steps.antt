-- ===== src/Scheduler/Steps.antt =====
-- Rules for the steps of the scheduler's methods: what holds after a step when it holds on every way on.
use web3_point_exchange.Common.{
  ℕ, ◌≡◌, refl, ◌⊎◌, inl, inr, Option, none, some, List, [], ◌∷◌, ◌++◌,
}
use web3_point_exchange.Chain.{Environment, Ethers, get_multicall_calldata, estimate_gas}
use web3_point_exchange.Entities.{SwapStatus}
use web3_point_exchange.Platform.{Platform, PointSwapTransaction}
use web3_point_exchange.Scheduler.Machine.{
  Clients, State, Run, pure, or_throw, within, continue, get_current_manager_index,
}
use web3_point_exchange.Scheduler.Messages.{
  resolve_manager_index, push, push_if_estimated, keep_or_fail,
}
use web3_point_exchange.Token.{update_swap_history_status}
use web3_point_exchange.World.{World, Error, Result, ok, err, chain_rejected}

module _ {A B : Type 0} (P : Result B × State → Type 0) where
  pub or_throw-rule :
      (e : Error) (o : Option A) (k : A → Run B) (s : State)
      → P (err e, s)
      → ((a : A) → o ≡ some a → P (k a s))
      → P (continue (or_throw e o s) k)
  or_throw-rule e none k s t h = t
  or_throw-rule e (some a) k s t h = h a refl

  -- A call of another service changes the world only.
  pub within-rule :
      (k : A → Run B) (s : State) (out : Result A × World)
      → ((e : Error) (w : World) → P (err e, record s { world = w }))
      → ((a : A) (w : World) → P (k a (record s { world = w })))
      → P (continue (within s out) k)
  within-rule k s (ok a, w) t h = h a w
  within-rule k s (err e, w) t h = t e w

module _ ⦃c : Clients⦄ {B : Type 0} (P : Result B × State → Type 0) where
  current_index-rule :
      (k : ℕ → Run B) (s : State)
      → ((e : Error) → P (err e, s))
      → ((i : ℕ) (key : Option ℕ) → P (k i (record s { manager_index_key = key })))
      → P (continue (get_current_manager_index s) k)
  unfolding get_current_manager_index
  current_index-rule k s t h = got (c.index_get s.manager_index_key) refl
    where
      stored :
          (o : Option ℕ)
          → c.index_set 0 ≡ o
          → c.index_get s.manager_index_key ≡ some none
          → P (continue (get_current_manager_index s) k)
      stored none f e = rw (e, get_current_manager_index) (rw f (t _))
      stored (some i) f e = rw (e, get_current_manager_index) (rw f (h 0 (some i)))

      got :
          (o : Option (Option ℕ))
          → c.index_get s.manager_index_key ≡ o
          → P (continue (get_current_manager_index s) k)
      got none e = rw (e, get_current_manager_index) (t _)
      got (some (some i)) e = rw (e, get_current_manager_index) (h i s.manager_index_key)
      got (some none) e = stored (c.index_set 0) refl e

  -- The index of the batch, or the one that redis has.
  pub resolve-rule :
      (o : Option ℕ) (k : ℕ → Run B) (s : State)
      → ((e : Error) → P (err e, s))
      → ((i : ℕ) (key : Option ℕ)
          → (o ≡ none) ⊎ (o ≡ some i)
          → P (k i (record s { manager_index_key = key })))
      → P (continue (resolve_manager_index o s) k)
  unfolding resolve_manager_index
  resolve-rule none k s t h = current_index-rule k s t (λ i key. h i key (inl refl))
  resolve-rule (some i) k s t h = h i s.manager_index_key (inr refl)

module _ ⦃c : Clients⦄ ⦃p : Platform⦄ ⦃env : Environment⦄ ⦃eth : Ethers⦄ {A : Type 0}
    (P : Result A × State → Type 0) where
  pub push_if_estimated-rule :
      (m : PointSwapTransaction) (others : List ℕ) (d : ℕ) (rejected accepted : A) (s : State)
      → ((e : Error) (w : World) → P (err e, record s { world = w }))
      → ((w : World) → P (ok rejected, record s { world = w }))
      → P (ok accepted, push d s)
      → P (push_if_estimated m others d rejected accepted s)
  unfolding push_if_estimated keep_or_fail
  push_if_estimated-rule m others d rejected accepted s t f h =
      or_throw-rule P chain_rejected (get_multicall_calldata (others ++ (d ∷ []))) _ s (t _ s.world)
        (λ multicall _. estimated (estimate_gas multicall))
    where
      estimated : (o : Option ℕ) → P (keep_or_fail m d rejected accepted o s)
      estimated none =
          within-rule P (λ _. pure rejected) s
            (update_swap_history_status m.user_swap_history_id SwapStatus.failed s.world) t
            (λ _ w. f w)
      estimated (some g) = h

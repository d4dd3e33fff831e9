-- ===== src/Scheduler/Ends.antt =====
-- The loop over a queue of complete withdrawals ends.
use web3_point_exchange.Common.{
  ℕ, suc, ◌≡◌, refl, ap, ◌∙◌, inl, inr, Bool, true, Option, none, some, List, [], ◌∷◌, ◌++◌, length,
  ◌==◌, if◌then◌else◌, Bool-cases, map, set_where,
}
use web3_point_exchange.Chain.{
  Environment, Ethers, get_withdraw_point_calldata, get_permit_calldata, get_multicall_calldata,
  estimate_gas,
}
use web3_point_exchange.Entities.{SwapType, SwapStatus}
use web3_point_exchange.Platform.{Platform, PointSwapTransaction, PermitData}
use web3_point_exchange.Repositories.UserSwapHistories
use web3_point_exchange.Scheduler.Loop.{IsUp, round-eq, check_queue-eq}
use web3_point_exchange.Scheduler.Machine.{
  Clients, State, Run, pure, or_throw, continue, recover, ◌>>=◌,
}
use web3_point_exchange.Scheduler.Messages.{
  signed, push, push_permit, push_if_estimated, keep_or_fail, process_withdraw_point_transaction,
  process_transaction_message, process_by_type, record_result, fail_message, process_message,
}
use web3_point_exchange.Scheduler.Rounds.{
  next, break, settle, after, check_queue, gas_reached, round, process_queue,
}
use web3_point_exchange.Token.{update_swap_history_status}
use web3_point_exchange.World.{Error, Result, ok, signature_required, chain_rejected}

-- The database takes every update.
pub record TakesUpdates ⦃p : Platform⦄ : Type 1 where
  pub updates :
      {A : Type 0} (q : A → Bool) (f : A → A) (rows : List A)
      → p.update q f rows ≡ some (map (set_where q f) rows)

module _ ⦃env : Environment⦄ ⦃eth : Ethers⦄ where
  -- The contract is configured, and a list of calldatas, which are texts of bytes, is encoded.
  pub record EncodesLists : Type 0 where
    pub multicalls : (ds : List ℕ) → (d : ℕ) × (get_multicall_calldata ds ≡ some d)

  -- The calldata of the permit, if there is one, can be encoded.
  abbrev pub PermitEncodes : Option PermitData → Type 0
  PermitEncodes none = Unit {0}
  PermitEncodes (some q) =
      (d : ℕ) × (get_permit_calldata q.owner q.value q.deadline q.signature ≡ some d)

  -- A withdrawal that has its signature and its deadline, and whose calldatas can be encoded.
  abbrev pub IsComplete : PointSwapTransaction → Type 0
  IsComplete m =
      (m.type ≡ SwapType.token_to_point)
      × ((sv : ℕ × ℕ) × (signed m.signature m.valid_until ≡ some sv)
          × ((d : ℕ) × (get_withdraw_point_calldata m.wallet_address m.amount sv.1 sv.0 ≡ some d)))
      × PermitEncodes m.permit_data

  abbrev pub AllComplete : List PointSwapTransaction → Type 0
  AllComplete [] = Unit {0}
  AllComplete (m ∷ ms) = IsComplete m × AllComplete ms

-- It answers true and leaves the queue alone.
abbrev IsAccepted : State → Result Bool × State → Type 0
IsAccepted s out = (s' : State) × (out ≡ (ok true, s')) × (s'.queue ≡ s.queue)

some-rule :
    {A B : Type 0} (P : Result B × State → Type 0) (e : Error) (o : Option A) (a : A)
    (k : A → Run B) (s : State)
    → o ≡ some a
    → P (k a s)
    → P (continue (or_throw e o s) k)
some-rule P e o a k s f h = rw f h

module _ ⦃c : Clients⦄ ⦃p : Platform⦄ ⦃env : Environment⦄ ⦃eth : Ethers⦄ (db : TakesUpdates)
    (enc : EncodesLists) (up : IsUp) where
  keep_or_fail-IsAccepted :
      (m : PointSwapTransaction) (d : ℕ) (s : State) (o : Option ℕ)
      → IsAccepted s (keep_or_fail m d true true o s)
  unfolding keep_or_fail update_swap_history_status UserSwapHistories.update_status
  keep_or_fail-IsAccepted m d s (some g) = (push d s, refl, refl)
  keep_or_fail-IsAccepted m d s none =
      rw
        (
          db.updates (UserSwapHistories.by_id m.user_swap_history_id)
              (UserSwapHistories.set_status SwapStatus.failed s.world.now)
              s.world.db.user_swap_histories,
          UserSwapHistories.update_status,
        )
        (_, refl, refl)

  withdraw_rest-IsAccepted :
      (m : PointSwapTransaction) (signature valid_until d : ℕ) (s : State)
      → get_withdraw_point_calldata m.wallet_address m.amount valid_until signature ≡ some d
      → IsAccepted s (
          continue
            (or_throw chain_rejected
              (get_withdraw_point_calldata m.wallet_address m.amount valid_until signature)
              s)
            (λ d. λ s2. push_if_estimated m (s2.calldatas ++ s2.permit_calldatas) d true true s2))
  unfolding push_if_estimated
  withdraw_rest-IsAccepted m signature valid_until d s e =
      let (multicall, f) = enc.multicalls ((s.calldatas ++ s.permit_calldatas) ++ (d ∷ [])) in
      some-rule (IsAccepted s) chain_rejected
        (get_withdraw_point_calldata m.wallet_address m.amount valid_until signature) d _ s e
        (some-rule (IsAccepted s) chain_rejected
          (get_multicall_calldata ((s.calldatas ++ s.permit_calldatas) ++ (d ∷ []))) multicall _ s f
          (keep_or_fail-IsAccepted m d s (estimate_gas multicall)))

  withdraw-IsAccepted :
      (m : PointSwapTransaction) (s : State)
      → IsComplete m
      → IsAccepted s (process_withdraw_point_transaction m s)
  unfolding process_withdraw_point_transaction push_permit
  withdraw-IsAccepted m s (t, (sv, e, (d, g)), pe) =
      some-rule (IsAccepted s) signature_required (signed m.signature m.valid_until) sv _ s e
        (permitted m.permit_data pe)
    where
      permitted :
          (o : Option PermitData)
          → PermitEncodes o
          → IsAccepted s (
              continue (push_permit o s) (λ _.
                or_throw chain_rejected
                  (get_withdraw_point_calldata m.wallet_address m.amount sv.1 sv.0)
                >>= λ d.
                    λ s2. push_if_estimated m (s2.calldatas ++ s2.permit_calldatas) d true true s2))
      permitted none q = withdraw_rest-IsAccepted m sv.0 sv.1 d s g
      permitted (some q) (d2, f) =
          rw (f, push_permit)
            (withdraw_rest-IsAccepted m sv.0 sv.1 d
              (record s { permit_calldatas = s.permit_calldatas ++ (d2 ∷ []) }) g)

  process_message-IsAccepted :
      (m : PointSwapTransaction) (s : State) → IsComplete m → IsAccepted s (process_message m s)
  unfolding process_message process_transaction_message process_by_type record_result
  process_message-IsAccepted m s (t, h, pe) =
      let (s', e, q) = withdraw-IsAccepted m s (t, h, pe) in
      let answered : Result Bool × State → Result Bool × State = λ o.
        recover
          (continue
            (continue o
              (λ b. pure (record { success = b; new_nonce = none; manager_index = none })))
            (record_result m))
          (fail_message m) in
      (
        (answered (ok true, s')).1,
        ap (λ k. recover (continue (process_by_type k m s) (record_result m)) (fail_message m)) t
            ∙ ap answered e,
        q,
      )

  ends :
      (q : List PointSwapTransaction) (s : State)
      → s.queue ≡ q
      → AllComplete q
      → (s' : State) × (process_queue (suc (length q)) s ≡ some s')
  unfolding process_queue round
  ends [] s e h =
      let nothing : (check_queue s == 0) ≡ true = rw (check_queue-eq up s ∙ ap length e) refl in
      rw (nothing, process_queue) (s, refl)
  ends (m ∷ ms) s e (h, hs) =
      let (s', f, g) = process_message-IsAccepted m (record s { queue = ms }) h in
      let r : round s ≡ (if gas_reached s'.permit_calldatas s'.calldatas then break else next, s') =
        round-eq up m ms s e ∙ ap (λ o. after (settle m o)) f in
      elim (Bool-cases (gas_reached s'.permit_calldatas s'.calldatas)) [
        | inl t ↦ rw (r, process_queue) (rw t (s', refl))
        | inr t ↦ rw (r, process_queue) (rw t (ends ms s' g hs))
      ]

  -- When the broker answers, the database takes every update, the contract is configured and
  -- lists of calldatas can be encoded, the loop over a queue of withdrawals that have a
  -- signature and a deadline, and whose own calldata and permit can be encoded, ends, also when
  -- gas estimates fail: as many rounds as there are messages, and one more, are enough.
  pub process_queue_ends :
      (s : State)
      → AllComplete s.queue
      → (s' : State) × (process_queue (suc (length s.queue)) s ≡ some s')
  process_queue_ends s h = ends s.queue s refl h

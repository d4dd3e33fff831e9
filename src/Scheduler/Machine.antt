-- ===== src/Scheduler/Machine.antt =====
-- The state of one run of the scheduler and the monad of its methods, with the clients that it calls:
-- the queue and the keys of redis that hold the indices of the wallets.
use web3_point_exchange.Common.{ℕ, suc, ◌≡◌, ◌⊎◌, Option, none, some, List, [], ◌∷◌, length}
use web3_point_exchange.Entities.{SwapType}
use web3_point_exchange.Platform.{PointSwapTransaction}
use web3_point_exchange.World.{World, Action, Result, ok, err, Error, cache_rejected}

abbrev pub head_of :
    List PointSwapTransaction → Option (PointSwapTransaction × List PointSwapTransaction)
head_of [] = none
head_of (m ∷ ms) = some (m, ms)

-- amqplib and ioredis. An index has no time to live, so it does not expire. A message that is not
-- acknowledged returns to the queue; where it stands among others is left open.
pub record Clients : Type 0 where
  pub index_get : Option ℕ → Option (Option ℕ)
  pub index_get_law : (c : Option ℕ) → (index_get c ≡ none) ⊎ (index_get c ≡ some c)
  pub index_set : ℕ → Option ℕ
  pub index_set_law : (i : ℕ) → (index_set i ≡ none) ⊎ (index_set i ≡ some i)
  pub message_count : List PointSwapTransaction → Option ℕ
  pub message_count_law :
      (q : List PointSwapTransaction)
      → (message_count q ≡ none) ⊎ (message_count q ≡ some (length q))
  pub get_message :
      List PointSwapTransaction → Option (Option (PointSwapTransaction × List PointSwapTransaction))
  pub get_message_law :
      (q : List PointSwapTransaction) → (get_message q ≡ none) ⊎ (get_message q ≡ some (head_of q))
  pub requeue : PointSwapTransaction → List PointSwapTransaction → List PointSwapTransaction
  pub requeue_alone : (m : PointSwapTransaction) → requeue m [] ≡ m ∷ []
  pub requeue_length :
      (m : PointSwapTransaction) (q : List PointSwapTransaction)
      → length (requeue m q) ≡ suc (length q)

-- The queue, redis, and the local variables of `processPointSwapTransactions`. `permits_sent` and
-- `broadcasts` are what was sent to the chain.
pub record State : Type 0 where
  pub world : World
  pub queue : List PointSwapTransaction
  pub manager_index_key : Option ℕ
  pub relayer_index_key : Option ℕ
  pub before_used_signature_nonce : Option ℕ
  pub current_manager_index : Option ℕ
  pub calldatas : List ℕ
  pub permit_calldatas : List ℕ
  pub tx_datas : List (ℕ × SwapType)
  pub permits_sent : List ℕ
  pub broadcasts : List ℕ

abbrev pub Run : Type 0 → Type 0
Run A = State → Result A × State

module _ {A : Type 0} where
  abbrev pub pure : A → Run A
  pure a s = (ok a, s)

  abbrev pub gets : (State → A) → Run A
  gets f s = (ok (f s), s)

  abbrev pub or_throw : Error → Option A → Run A
  or_throw e none s = (err e, s)
  or_throw e (some a) s = (ok a, s)

  abbrev pub within : State → Result A × World → Result A × State
  within s (r, w) = (r, record s { world = w })

  -- A call of another service.
  abbrev pub call : Action A → Run A
  call m s = within s (m s.world)

abbrev pub modify : (State → State) → Run (Unit {0})
modify f s = (ok tt, f s)

abbrev pub continue : {A B : Type 0} → Result A × State → (A → Run B) → Result B × State
continue (ok a, s) f = f a s
continue (err e, s) f = (err e, s)

infixl 5 ◌>>=◌ ◌>>◌
abbrev pub ◌>>=◌ : {A B : Type 0} → Run A → (A → Run B) → Run B
◌>>=◌ m f s = continue (m s) f

abbrev pub ◌>>◌ : {A B : Type 0} → Run A → Run B → Run B
m >> k = m >>= λ _. k

-- `try { … } catch { … }`: what was written stays.
abbrev pub recover : {A : Type 0} → Result A × State → Run A → Result A × State
recover (ok a, s) h = (ok a, s)
recover (err e, s) h = h s

module _ ⦃c : Clients⦄ where
  unfoldable pub get_current_manager_index : Run ℕ
  get_current_manager_index s = elim (c.index_get s.manager_index_key) [
    | none ↦ (err cache_rejected, s)
    | some (some i) ↦ (ok i, s)
    | some none ↦ elim (c.index_set 0) [
      | none ↦ (err cache_rejected, s)
      | some i ↦ (ok 0, record s { manager_index_key = some i })
    ]
  ]

  unfoldable pub set_current_manager_index : ℕ → Run (Unit {0})
  set_current_manager_index i s = elim (c.index_set i) [
    | none ↦ (err cache_rejected, s)
    | some k ↦ (ok tt, record s { manager_index_key = some k })
  ]

  unfoldable pub get_current_relayer_index : Run ℕ
  get_current_relayer_index s = elim (c.index_get s.relayer_index_key) [
    | none ↦ (err cache_rejected, s)
    | some (some i) ↦ (ok i, s)
    | some none ↦ elim (c.index_set 0) [
      | none ↦ (err cache_rejected, s)
      | some i ↦ (ok 0, record s { relayer_index_key = some i })
    ]
  ]

  unfoldable pub set_current_relayer_index : ℕ → Run (Unit {0})
  set_current_relayer_index i s = elim (c.index_set i) [
    | none ↦ (err cache_rejected, s)
    | some k ↦ (ok tt, record s { relayer_index_key = some k })
  ]

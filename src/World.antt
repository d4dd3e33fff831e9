-- ===== src/World.antt =====
-- The state that the services share, and how their methods run: a state and exception monad in which
-- what was written stays written after a throw. `transaction` is `DataSource.transaction`; `with_lock`
-- is `RedlockService.executeWithLock` (backend/src/modules/redlock/redlock.service.ts).
pub mod Rules
pub mod Progress
use web3_point_exchange.Common.{ℕ, Bool, Option, none, some, List, if◌then◌else◌}
use web3_point_exchange.Entities.{
  User, UserPoint, ConsumptionHistory, GrantHistory, UserSwapHistory, PointToTokenTransaction,
  TokenToPointTransaction,
}
use web3_point_exchange.Platform.{Platform, Cache, Message, LockKey}

pub record Db : Type 0 where
  pub users : List User
  pub user_points : List UserPoint
  pub consumption_histories : List ConsumptionHistory
  pub grant_histories : List GrantHistory
  pub user_swap_histories : List UserSwapHistory
  pub point_to_token_transactions : List PointToTokenTransaction
  pub token_to_point_transactions : List TokenToPointTransaction

-- `db` is what is committed. A repository reads it through the connection pool, also while a
-- transaction is open: `working` is what the open transaction sees, through its `EntityManager`.
pub record World : Type 0 where
  pub db : Db
  pub working : Db
  pub cache : Cache
  pub sent : List Message
  pub locks : List LockKey
  pub now : ℕ

-- What is thrown: the exceptions of the services, and the rejections of what they call.
pub data Error : Type 0 where
  user_not_found user_point_not_found consumption_history_not_found : Error
  grant_history_not_found user_swap_history_not_found swap_history_not_found : Error
  point_to_token_transaction_not_found token_to_point_transaction_not_found : Error
  user_not_valid wallet_mismatch : Error
  not_configured manager_not_found signature_required : Error
  insufficient_balance_for_deposit insufficient_token_balance : Error
  insufficient_balance_for_consumption not_implemented division_by_zero : Error
  db_rejected cache_rejected broker_rejected chain_rejected : Error
  lock_not_acquired lock_not_released : Error

pub data Result (A : Type 0) : Type 0 where
  ok : A → Result A
  err : Error → Result A

abbrev pub Action : Type 0 → Type 0
Action A = World → Result A × World

module _ {A : Type 0} where
  abbrev pub pure : A → Action A
  pure a w = (ok a, w)

  abbrev pub throw : Error → Action A
  throw e w = (err e, w)

  abbrev pub gets : (World → A) → Action A
  gets f w = (ok (f w), w)

  -- A value that may be missing, or a promise that may reject.
  abbrev pub or_throw : Error → Option A → Action A
  or_throw e none w = (err e, w)
  or_throw e (some a) w = (ok a, w)

-- The rest of a method, which a throw skips.
abbrev pub continue : {A B : Type 0} → Result A × World → (A → Action B) → Result B × World
continue (ok a, w) f = f a w
continue (err e, w) f = (err e, w)

infixl 5 ◌>>=◌ ◌>>◌
abbrev pub ◌>>=◌ : {A B : Type 0} → Action A → (A → Action B) → Action B
◌>>=◌ m f w = continue (m w) f

abbrev pub ◌>>◌ : {A B : Type 0} → Action A → Action B → Action B
m >> k = m >>= λ _. k

abbrev pub throw_if : Bool → Error → Action (Unit {0})
throw_if c e w = (if c then err e else ok tt, w)

abbrev pub modify : (World → World) → Action (Unit {0})
modify f w = (ok tt, f w)

-- BEGIN, then COMMIT, or ROLLBACK when the callback throws. COMMIT is taken not to fail.
abbrev pub end_transaction : {A : Type 0} → Result A × World → Result A × World
end_transaction (ok a, w) = (ok a, record w { db = w.working })
end_transaction (err e, w) = (err e, w)

unfoldable pub transaction : {A : Type 0} → Action A → Action A
transaction m w = end_transaction (m (record w { working = w.db }))

-- The connection that a repository method writes through: its optional `entityManager` argument.
pub data Conn : Type 0 where
  manager pool : Conn

abbrev pub store : Conn → Db → World → World
store manager d w = record w { working = d }
store pool d w = record w { db = d }

abbrev pub written : Conn → World → Db
written manager w = w.working
written pool w = w.db

module _ ⦃p : Platform⦄ where
  -- `finally`: the lock is released whether the callback returns or throws, and a release that fails
  -- throws in place of either.
  abbrev pub end_lock : {A : Type 0} → Option (List LockKey) → Result A → World → Result A × World
  end_lock none r w = (err lock_not_released, w)
  end_lock (some held) r w = (r, record w { locks = held })

  abbrev pub unlock : {A : Type 0} → LockKey → Result A × World → Result A × World
  unlock k (r, w) = end_lock (p.release k w.locks) r w

  unfoldable pub with_lock : {A : Type 0} → LockKey → Action A → Action A
  with_lock k m w = elim (p.acquire k w.locks) [
    | none ↦ (err lock_not_acquired, w)
    | some held ↦ unlock k (m (record w { locks = held }))
  ]

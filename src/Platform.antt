-- ===== src/Platform.antt =====
-- What the backend takes from outside: the ORM and its database (typeorm), the cache (ioredis), the
-- lock (redlock), the message broker and the chain (ethers). `none` as an outcome means that the
-- promise rejects. The laws say what these document, and leave open when a call rejects, which of
-- several matching rows comes back, what a fresh key is and when a cached value has expired.
pub mod Found
use web3_point_exchange.Common.{
  ℕ, ◌≤◌, ◌<◌, ℤ, ◌≡◌, ◌⊎◌, Bool, true, false, Option, none, some, List, [], ◌∷◌, ◌++◌, map, ◌==◌,
  if◌then◌else◌, length, Has, Answers, select, set_where, contains,
}
use web3_point_exchange.Entities.{SwapType}

pub data Order : Type 0 where
  asc desc : Order

-- `PermitDataDto` and `PointSwapTransactioRmqDto`; `UpdateUserPointBalanceRmqDto`.
pub record PermitData : Type 0 where
  pub owner : ℕ
  pub value : ℤ
  pub deadline : ℕ
  pub signature : ℕ

pub record PointSwapTransaction : Type 0 where
  pub user_swap_history_id : ℕ
  pub wallet_address : ℕ
  pub amount : ℤ
  pub type : SwapType
  pub signature : Option ℕ
  pub valid_until : Option ℕ
  pub permit_data : Option PermitData

pub data UpdateUserPointBalanceType : Type 0 where
  increase decrease : UpdateUserPointBalanceType

pub record UpdateUserPointBalance : Type 0 where
  pub user_id : ℕ
  pub amount : ℤ
  pub type : UpdateUserPointBalanceType

pub data Message : Type 0 where
  point_swap : PointSwapTransaction → Message
  point_update : UpdateUserPointBalance → Message

-- `HANDLE_POINT_LOCK(userId)` and `HANDLE_POINT_SWAP_TRANSACTION_LOCK`.
pub data LockKey : Type 0 where
  handle_point : ℕ → LockKey
  handle_point_swap_transaction : LockKey

-- The values that redis holds under `POINT_BALANCE_KEY(userId)`.
abbrev pub Cache : Type 0
Cache = ℕ → Option ℤ

abbrev pub put : ℕ → ℤ → Cache → Cache
put u v c k = if u == k then some v else c k

pub record Platform : Type 1 where
  pub find_one : {A : Type 0} → (A → Bool) → List A → Option A
  pub find_one_law :
      {A : Type 0} (p : A → Bool) (rows : List A)
      → ((find_one p rows ≡ none) × Answers p false rows)
        ⊎ ((a : A) × (find_one p rows ≡ some a) × (p a ≡ true) × Has a rows)
  pub find : {A : Type 0} → (A → Bool) → List A → List A
  pub find_law :
      {A : Type 0} (p : A → Bool) (rows : List A) (a : A)
      → (Has a (find p rows) → Has a rows × (p a ≡ true))
        × (Has a rows → p a ≡ true → Has a (find p rows))
  pub page : {A : Type 0} → (A → Bool) → (A → ℕ) → Order → ℕ → ℕ → List A → List A × ℕ
  pub page_sound :
      {A : Type 0} (p : A → Bool) (key : A → ℕ) (o : Order) (skip limit : ℕ) (rows : List A) (a : A)
      → Has a (page p key o skip limit rows).0
      → Has a rows × (p a ≡ true)
  pub page_limit :
      {A : Type 0} (p : A → Bool) (key : A → ℕ) (o : Order) (skip limit : ℕ) (rows : List A)
      → 0 < limit
      → length (page p key o skip limit rows).0 ≤ limit
  pub page_total :
      {A : Type 0} (p : A → Bool) (key : A → ℕ) (o : Order) (skip limit : ℕ) (rows : List A)
      → (page p key o skip limit rows).1 ≡ length (select p rows)
  pub page_complete :
      {A : Type 0} (p : A → Bool) (key : A → ℕ) (o : Order) (limit : ℕ) (rows : List A) (a : A)
      → length (select p rows) ≤ limit
      → Has a rows
      → p a ≡ true
      → Has a (page p key o 0 limit rows).0
  pub insert : {A : Type 0} → A → List A → Option (List A)
  pub insert_law :
      {A : Type 0} (a : A) (rows : List A)
      → (insert a rows ≡ none) ⊎ (insert a rows ≡ some (a ∷ rows))
  pub update : {A : Type 0} → (A → Bool) → (A → A) → List A → Option (List A)
  pub update_law :
      {A : Type 0} (p : A → Bool) (f : A → A) (rows : List A)
      → (update p f rows ≡ none) ⊎ (update p f rows ≡ some (map (set_where p f) rows))
  pub fresh : List ℕ → ℕ
  pub fresh_law : (ids : List ℕ) → contains (fresh ids) ids ≡ false
  pub redis_get : ℕ → Cache → Option (Option ℤ)
  pub redis_get_law :
      (u : ℕ) (c : Cache)
      → (redis_get u c ≡ none) ⊎ (redis_get u c ≡ some none) ⊎ (redis_get u c ≡ some (c u))
  pub redis_setex : ℕ → ℤ → Cache → Option Cache
  pub redis_setex_law :
      (u : ℕ) (v : ℤ) (c : Cache)
      → (redis_setex u v c ≡ none) ⊎ (redis_setex u v c ≡ some (put u v c))
  pub acquire : LockKey → List LockKey → Option (List LockKey)
  pub acquire_law :
      (k : LockKey) (held : List LockKey)
      → (acquire k held ≡ none) ⊎ (acquire k held ≡ some (k ∷ held))
  pub release : LockKey → List LockKey → Option (List LockKey)
  pub release_law :
      (k : LockKey) (held : List LockKey)
      → (release k (k ∷ held) ≡ none) ⊎ (release k (k ∷ held) ≡ some held)
  -- `ClientProxy.emit` takes a message over, or throws at once. It does not wait for the broker: that a
  -- message that was taken over is delivered is not said here.
  pub emit : Message → List Message → Option (List Message)
  pub emit_law :
      (m : Message) (sent : List Message)
      → (emit m sent ≡ none) ⊎ (emit m sent ≡ some (sent ++ (m ∷ [])))
  pub chain_set_valid_user : ℕ → Bool → Option ℕ
  pub chain_balance_of : ℕ → Option ℤ
  pub parse_ether : ℤ → ℤ

-- ===== src/Frontend/User.antt =====
-- `useUser`: the user of the connected wallet, in the state of the hook and in the storage.
use web3_point_exchange.Common.{
  ℕ, ℤ, ◌==◌, Bool, true, false, Option, none, some, List, [], ◌∷◌, if◌then◌else◌,
}
use web3_point_exchange.Frontend.Storage.{
  LocalStorage, StorageKey, Codec, save_to_storage, load_from_storage, remove_from_storage,
}

pub record UserData : Type 0 where
  pub user_id : ℕ
  pub user_point_id : ℕ
  pub balance : ℤ
  pub wallet_address : ℕ
  pub created_at : ℕ
  pub updated_at : ℕ

pub record UserStatusState : Type 0 where
  pub is_loading : Bool
  pub error : Option ℕ
  pub success : Bool

-- A row of the answers to `createUserPoint` and `getUserPoints`.
pub record UserPointRow : Type 0 where
  pub user_id : ℕ
  pub user_point_id : ℕ
  pub balance : ℤ
  pub created_at : ℕ
  pub updated_at : ℕ

-- `address || ''`
abbrev pub or_blank : Option ℕ → ℕ
or_blank none = 0
or_blank (some a) = a

unfoldable pub data_of : UserPointRow → Option ℕ → UserData
data_of r address = record {
  user_id = r.user_id;
  user_point_id = r.user_point_id;
  balance = r.balance;
  wallet_address = or_blank address;
  created_at = r.created_at;
  updated_at = r.updated_at;
}

module _ ⦃l : LocalStorage⦄ where
  -- The hook after a render: the wallet (`useAccount`), its states, the data that `useQuery` has
  -- for the present user, and the storage.
  pub record UserHook : Type 0 where
    pub address : Option ℕ
    pub is_connected : Bool
    pub user_data : Option UserData
    pub status : UserStatusState
    pub query_data : Option (List UserPointRow)
    pub store : l.Store

module _ ⦃l : LocalStorage⦄ ⦃c : Codec UserData⦄ where
  unfoldable pub save_user_data : UserData → l.Store → l.Store
  save_user_data = save_to_storage StorageKey.user_data

  unfoldable pub load_user_data : l.Store → Option UserData
  load_user_data = load_from_storage StorageKey.user_data

  -- `saveUserData` after `setUserData`.
  abbrev pub keep_user : UserData → UserHook → UserHook
  keep_user d h = record h { user_data = some d; store = save_user_data d h.store }

  abbrev pub if_of_wallet : ℕ → Option UserData → Option UserData
  if_of_wallet a none = none
  if_of_wallet a (some d) = if d.wallet_address == a then some d else none

  unfoldable pub get_user_data_by_wallet : ℕ → l.Store → Option UserData
  unfolding load_user_data
  get_user_data_by_wallet a s = if_of_wallet a (load_user_data s)

  -- What was found in the storage for the connected wallet.
  abbrev pub found_user : Option UserData → UserHook → UserHook
  found_user none h = record h {
    user_data = none;
    store = remove_from_storage StorageKey.user_data h.store;
  }
  found_user (some d) h = record h { user_data = some d }

  abbrev pub user_for : Option ℕ → Bool → UserHook → UserHook
  user_for none connected h = record h { user_data = none }
  user_for (some a) true h = found_user (get_user_data_by_wallet a h.store) h
  user_for (some a) false h = record h { user_data = none }

  -- The effect on `[isConnected, address]`.
  unfoldable pub load_wallet_user : UserHook → UserHook
  unfolding get_user_data_by_wallet
  load_wallet_user h = user_for h.address h.is_connected h

  abbrev pub take_row : Option (List UserPointRow) → UserHook → UserHook
  take_row none h = h
  take_row (some []) h = h
  take_row (some (r ∷ rs)) h = keep_user (data_of r h.address) h

  -- The effect on `[userQuery.data, address]`.
  unfoldable pub take_query_data : UserHook → UserHook
  unfolding save_user_data data_of
  take_query_data h = take_row h.query_data h

  -- The wallet connects, changes or disconnects: both effects run, in their order.
  unfoldable pub set_wallet : Option ℕ → Bool → UserHook → UserHook
  unfolding load_wallet_user take_query_data
  set_wallet a connected h =
      take_query_data (load_wallet_user (record h { address = a; is_connected = connected }))

  -- The query answers, or starts for another user.
  unfoldable pub set_query_data : Option (List UserPointRow) → UserHook → UserHook
  unfolding take_query_data
  set_query_data q h = take_query_data (record h { query_data = q })

  abbrev pub set_status : Bool → Option ℕ → Bool → UserHook → UserHook
  set_status loading message success h = record h {
    status = record { is_loading = loading; error = message; success = success };
  }

  -- What comes of `createUserMutation`: a row, or an error with its message.
  pub data Created : Type 0 where
    created : UserPointRow → Created
    refused : ℕ → Created

  abbrev pub settle_created : Created → UserHook → UserHook
  settle_created (created r) h = set_status false none true (keep_user (data_of r h.address) h)
  settle_created (refused m) h = set_status false (some m) false h

  abbrev pub create_for : Option ℕ → ℕ → Created → UserHook → UserHook
  create_for none no_wallet answer h = set_status false (some no_wallet) false h
  create_for (some a) no_wallet answer h = settle_created answer (set_status true none false h)

  -- `createUser`, from the press of the button to the end of the mutation; `no_wallet` is the text
  -- that it shows without a wallet.
  unfoldable pub create_user : ℕ → Created → UserHook → UserHook
  unfolding save_user_data data_of
  create_user no_wallet answer h = create_for h.address no_wallet answer h

  unfoldable pub clear_user_data : UserHook → UserHook
  clear_user_data h =
      set_status false none false
        (record h { user_data = none; store = remove_from_storage StorageKey.user_data h.store })

  abbrev pub balance_for : Option UserData → ℤ → UserHook → UserHook
  balance_for none n h = h
  balance_for (some d) n h = keep_user (record d { balance = n }) h

  unfoldable pub update_balance : ℤ → UserHook → UserHook
  unfolding save_user_data
  update_balance n h = balance_for h.user_data n h

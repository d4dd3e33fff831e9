-- ===== src/Frontend/Accounts.antt =====
-- The user that the frontend shows: in step with the storage, and not in step with the wallet.
use web3_point_exchange.Common.{
  ℕ, ℤ, ◌≡◌, ◌≢◌, refl, ap, ◌∙◌, ◌⊎◌, inl, inr, Bool, true, false, Option, none, some, List, [],
  ◌∷◌, ◌==◌, Bool-cases,
}
use web3_point_exchange.Frontend.Storage.{
  LocalStorage, StorageKey, Codec, save_to_storage, load_from_storage,
}
use web3_point_exchange.Frontend.User.{
  UserData, UserPointRow, UserHook, data_of, save_user_data, load_user_data, if_of_wallet,
  get_user_data_by_wallet, load_wallet_user, take_row, found_user, user_for, create_for,
  balance_for, take_query_data, set_wallet, set_query_data, set_status, Created, created, refused,
  settle_created, create_user, clear_user_data, update_balance,
}

module _ ⦃l : LocalStorage⦄ ⦃c : Codec UserData⦄ where
  -- The same wallet and query data in both.
  abbrev SameView : UserHook → UserHook → Type 0
  SameView h h' = (h'.address ≡ h.address) × (h'.query_data ≡ h.query_data)

  found_user-SameView : (d : Option UserData) (h : UserHook) → SameView h (found_user d h)
  found_user-SameView none h = (refl, refl)
  found_user-SameView (some d) h = (refl, refl)

  user_for-SameView :
      (a : Option ℕ) (connected : Bool) (h : UserHook) → SameView h (user_for a connected h)
  user_for-SameView none connected h = (refl, refl)
  user_for-SameView (some a) true h = found_user-SameView (get_user_data_by_wallet a h.store) h
  user_for-SameView (some a) false h = (refl, refl)

  -- When the query of the hook has a row, a change of the wallet, also to no wallet, leaves the
  -- hook with the user of that row and the new address.
  pub wallet_change_keeps_user :
      (a : Option ℕ) (connected : Bool) (h : UserHook) (r : UserPointRow) (rs : List UserPointRow)
      → h.query_data ≡ some (r ∷ rs)
      → (set_wallet a connected h).user_data ≡ some (data_of r a)
  unfolding set_wallet take_query_data load_wallet_user
  wallet_change_keeps_user a connected h r rs e =
      let h1 : UserHook = record h { address = a; is_connected = connected } in
      let (f, g) = user_for-SameView a connected h1 in go (user_for a connected h1) f (g ∙ e)
    where
      go :
          (k : UserHook)
          → k.address ≡ a
          → k.query_data ≡ some (r ∷ rs)
          → (take_row k.query_data k).user_data ≡ some (data_of r a)
      go k f g = rw g (ap (λ x. some (data_of r x)) f)

  -- The user that is shown is the one in the storage.
  abbrev pub InStep : UserHook → Type 0
  InStep h = (h.user_data ≡ none) ⊎ (load_user_data h.store ≡ h.user_data)

  -- The storage is never full.
  abbrev pub IsRoomy : Type 0
  IsRoomy = (k : StorageKey) (t : l.Text) (s : l.Store) → l.set_item k t s ≢ none

  -- What happens to the hook.
  pub data UserOp : Type 0 where
    wallet_changes : Option ℕ → Bool → UserOp
    query_changes : Option (List UserPointRow) → UserOp
    user_creates : ℕ → Created → UserOp
    user_clears : UserOp
    balance_changes : ℤ → UserOp

  abbrev pub do_user_op : UserOp → UserHook → UserHook
  do_user_op (wallet_changes a b) h = set_wallet a b h
  do_user_op (query_changes q) h = set_query_data q h
  do_user_op (user_creates m x) h = create_user m x h
  do_user_op user_clears h = clear_user_data h
  do_user_op (balance_changes n) h = update_balance n h

  abbrev pub do_user_ops : List UserOp → UserHook → UserHook
  do_user_ops [] h = h
  do_user_ops (o ∷ os) h = do_user_ops os (do_user_op o h)

module _ ⦃l : LocalStorage⦄ ⦃c : Codec UserData⦄ (roomy : IsRoomy) where
  saved : (d : UserData) (s : l.Store) → load_user_data (save_user_data d s) ≡ some d
  unfolding load_user_data save_user_data save_to_storage load_from_storage
  saved d s = elim (l.set_item_law StorageKey.user_data (c.stringify d) s) [
    | inl e ↦ absurd (roomy StorageKey.user_data (c.stringify d) s e)
    | inr (s', e, g) ↦
        rw (e, save_user_data, save_to_storage)
          (rw (g, load_user_data) (rw (c.stringify_law d) (c.parse_law d)))
  ]

  take_row-InStep :
      (q : Option (List UserPointRow)) (h : UserHook) → InStep h → InStep (take_row q h)
  take_row-InStep none h i = i
  take_row-InStep (some []) h i = i
  take_row-InStep (some (r ∷ rs)) h i = inr (saved (data_of r h.address) h.store)

  if_of_wallet-InStep :
      (a : ℕ) (o : Option UserData) (h : UserHook)
      → load_user_data h.store ≡ o
      → InStep (found_user (if_of_wallet a o) h)
  if_of_wallet-InStep a none h e = inl refl
  if_of_wallet-InStep a (some d) h e = elim (Bool-cases (d.wallet_address == a)) [
    | inl t ↦ rw t (inr e)
    | inr f ↦ rw f (inl refl)
  ]

  user_for-InStep :
      (a : Option ℕ) (connected : Bool) (h : UserHook) → InStep (user_for a connected h)
  unfolding get_user_data_by_wallet
  user_for-InStep none connected h = inl refl
  user_for-InStep (some a) true h = if_of_wallet-InStep a (load_user_data h.store) h refl
  user_for-InStep (some a) false h = inl refl

  settle_created-InStep : (x : Created) (h : UserHook) → InStep h → InStep (settle_created x h)
  settle_created-InStep (created r) h i = inr (saved (data_of r h.address) h.store)
  settle_created-InStep (refused m) h i = i

  create_for-InStep :
      (a : Option ℕ) (m : ℕ) (x : Created) (h : UserHook) → InStep h → InStep (create_for a m x h)
  create_for-InStep none m x h i = i
  create_for-InStep (some a) m x h i = settle_created-InStep x (set_status true none false h) i

  balance_for-InStep :
      (d : Option UserData) (n : ℤ) (h : UserHook) → InStep h → InStep (balance_for d n h)
  balance_for-InStep none n h i = i
  balance_for-InStep (some d) n h i = inr (saved (record d { balance = n }) h.store)

  do_user_op-InStep : (o : UserOp) (h : UserHook) → InStep h → InStep (do_user_op o h)
  unfolding set_wallet set_query_data create_user clear_user_data update_balance load_wallet_user
      take_query_data
  do_user_op-InStep (wallet_changes a b) h i =
      let h1 : UserHook = record h { address = a; is_connected = b } in
      take_row-InStep (user_for a b h1).query_data (user_for a b h1) (user_for-InStep a b h1)
  do_user_op-InStep (query_changes q) h i = take_row-InStep q (record h { query_data = q }) i
  do_user_op-InStep (user_creates m x) h i = create_for-InStep h.address m x h i
  do_user_op-InStep user_clears h i = inl refl
  do_user_op-InStep (balance_changes n) h i = balance_for-InStep h.user_data n h i

  -- When the storage is never full and the hook starts without a user: after any changes of the wallet
  -- and of the query, creations, clearings and changes of the balance, the hook shows no user, or the
  -- one that the storage has.
  pub shown_user-InStep :
      (ops : List UserOp) (h : UserHook) → h.user_data ≡ none → InStep (do_user_ops ops h)
  shown_user-InStep ops h e = go ops h (inl e)
    where
      go : (ops : List UserOp) (h : UserHook) → InStep h → InStep (do_user_ops ops h)
      go [] h i = i
      go (o ∷ os) h i = go os (do_user_op o h) (do_user_op-InStep o h i)

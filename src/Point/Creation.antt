-- ===== src/Point/Creation.antt =====
-- What `createUserPoint` does on every branch.
use web3_point_exchange.Common.{
  ℕ, pos, ◌≡◌, refl, sym, subst, ◌⊎◌, inl, inr, Bool, true, false, Option, none, some, List, ◌∷◌,
  map, set_where, Option-cases,
}
use web3_point_exchange.Entities.{User, UserPoint, UserStatus}
use web3_point_exchange.Platform.{Platform}
use web3_point_exchange.Repositories.Users
use web3_point_exchange.Repositories.UserPoints
use web3_point_exchange.Repositories.Query.{or_default}
use web3_point_exchange.Point.Accounts.{
  register_wallet, create_callback, set_valid_on_chain, create_user_point,
}
use web3_point_exchange.Point.Dto.{CreateUserPointReq, UserPointRes, map_user_point}
use web3_point_exchange.World.{
  Db, World, Result, manager, ok, err, ◌>>=◌, pure, continue, transaction, end_transaction,
  chain_rejected, db_rejected,
}

abbrev pending_user : ℕ → ℕ → ℕ → User
pending_user u a now = record {
  user_id = u;
  wallet_address = a;
  status = UserStatus.pending;
  created_at = now;
  updated_at = now;
}

module _ ⦃p : Platform⦄ where
  -- The rows after the wallet `a` is registered for the user `u`: a new row, or the row of that user
  -- with the new wallet.
  abbrev pub IsRegistered : ℕ → ℕ → ℕ → List User → List User → Type 0
  IsRegistered u a now users t =
      ((p.find_one (Users.by_id u) users ≡ none) × (t ≡ pending_user u a now ∷ users))
      ⊎ ((old : User) × (p.find_one (Users.by_id u) users ≡ some old)
          × (t
              ≡ map
                  (set_where (Users.by_id u) (λ r. record r {
                    wallet_address = a;
                    status = UserStatus.pending;
                    updated_at = now;
                  }))
                  users))

  create_user-cases :
      (u a : ℕ) (w : World)
      → (Users.create u a manager w ≡ (err db_rejected, w))
        ⊎ ((t : List User) × (Users.create u a manager w ≡ (
          ok (pending_user u a w.now),
          record w { working = record (w.working) { users = t } },
        ))
            × IsRegistered u a w.now w.working.users t)
  unfolding Users.create
  create_user-cases u a w = elim (Option-cases (p.find_one (Users.by_id u) w.working.users)) [
    | inl f ↦ elim (p.insert_law (pending_user u a w.now) w.working.users) [
      | inl e ↦ inl (rw (f, Users.create) (rw e refl))
      | inr e ↦ inr (_, rw (f, Users.create) (rw e refl), inl (f, refl))
    ]
    | inr (old, f) ↦
        elim (p.update_law (Users.by_id u)
          (λ r. record r { wallet_address = a; status = UserStatus.pending; updated_at = w.now })
          w.working.users) [
            | inl e ↦ inl (rw (f, Users.create) (rw e refl))
            | inr e ↦ inr (_, rw (f, Users.create) (rw e refl), inr (old, f, refl))
          ]
  ]

  module _ (dto : CreateUserPointReq) where
    -- The users after the call, and whether the wallet was new: there is one, and no user has it.
    abbrev pub UsersSpec : World → Bool → List User → Type 0
    UsersSpec w false t =
        (t ≡ w.db.users)
        × ((dto.wallet_address ≡ none)
            ⊎ ((a : ℕ) × (r : User) × (dto.wallet_address ≡ some a)
                × (p.find_one (Users.by_wallet a) w.db.users ≡ some r)))
    UsersSpec w true t =
        (a : ℕ) × (dto.wallet_address ≡ some a)
        × (p.find_one (Users.by_wallet a) w.db.users ≡ none)
        × IsRegistered dto.user_id a w.now w.db.users t

    abbrev point_row : World → UserPoint
    point_row w = record {
      user_point_id = p.fresh (UserPoints.ids w.db.user_points);
      user_id = dto.user_id;
      balance = or_default (pos 0) dto.amount;
      created_at = w.now;
      updated_at = w.now;
    }

    abbrev RegisterSpec : World → Result Bool × World → Type 0
    RegisterSpec w (err e, w') = w'.db ≡ w.db
    RegisterSpec w (ok b, w') =
        (t : List User) × (w' ≡ record w { working = record (w.db) { users = t } })
        × UsersSpec w b t

    register_wallet-RegisterSpec :
        (w : World)
        → RegisterSpec w
            (register_wallet dto.user_id dto.wallet_address (record w { working = w.db }))
    unfolding register_wallet Users.find_by_wallet_address
    register_wallet-RegisterSpec w = split dto.wallet_address refl
      where
        new_wallet :
            (a : ℕ)
            → dto.wallet_address ≡ some a
            → p.find_one (Users.by_wallet a) w.db.users ≡ none
            → RegisterSpec w (
                continue
                  (Users.create dto.user_id a manager (record w { working = w.db }))
                  (λ _. pure true))
        new_wallet a g f = elim (create_user-cases dto.user_id a (record w { working = w.db })) [
          | inl e ↦ rw e refl
          | inr (t, e, h) ↦ rw e (t, refl, (a, g, f, h))
        ]

        split :
            (o : Option ℕ)
            → dto.wallet_address ≡ o
            → RegisterSpec w (register_wallet dto.user_id o (record w { working = w.db }))
        split none g = (w.db.users, refl, (refl, inl g))
        split (some a) g = elim (Option-cases (p.find_one (Users.by_wallet a) w.db.users)) [
          | inl f ↦ rw (f, register_wallet) (new_wallet a g f)
          | inr (r, f) ↦ rw (f, register_wallet) (w.db.users, refl, (refl, inr (a, r, g, f)))
        ]

    -- The committed database, for the users `t`.
    abbrev pub created : World → List User → Db
    created w t = record (w.db) { users = t; user_points = point_row w ∷ w.db.user_points }

    abbrev CallbackSpec : World → Result (Bool × UserPointRes) × World → Type 0
    CallbackSpec w (err e, w') = w'.db ≡ w.db
    CallbackSpec w (ok made, w') =
        (t : List User) × (w'.working ≡ created w t)
        × UsersSpec w made.0 t
        × (made.1 ≡ map_user_point (point_row w))

    create_callback-CallbackSpec :
        (w : World) → CallbackSpec w (create_callback dto (record w { working = w.db }))
    unfolding create_callback UserPoints.create
    create_callback-CallbackSpec w =
        registered (register_wallet dto.user_id dto.wallet_address (record w { working = w.db }))
          (register_wallet-RegisterSpec w)
      where
        registered :
            (out : Result Bool × World)
            → RegisterSpec w out
            → CallbackSpec w (
                continue out (λ should_set.
                  UserPoints.create dto.user_id (or_default (pos 0) dto.amount) manager >>= λ row.
                  pure (should_set, map_user_point row)))
        registered (err e, w') d = d
        registered (ok b, w') (t, same, h) = elim (p.insert_law (point_row w) w.db.user_points) [
          | inl e ↦ rw same (rw (e, UserPoints.create) refl)
          | inr e ↦ rw same (rw (e, UserPoints.create) (t, refl, h, refl))
        ]

    -- The chain is told of a new wallet, and has accepted it.
    abbrev pub IsAnnounced : Bool → Type 0
    IsAnnounced false = Unit {0}
    IsAnnounced true =
        (a : ℕ) × (h : ℕ) × (dto.wallet_address ≡ some a) × (p.chain_set_valid_user a true ≡ some h)

    abbrev pub CreateSpec : World → Result UserPointRes × World → Type 0
    CreateSpec w (err e, w') =
        (w'.db ≡ w.db)
        ⊎ ((e ≡ chain_rejected) × ((t : List User) × (w'.db ≡ created w t) × UsersSpec w true t))
    CreateSpec w (ok res, w') =
        (b : Bool) × (t : List User) × (w'.db ≡ created w t)
        × UsersSpec w b t
        × IsAnnounced b
        × (res ≡ map_user_point (point_row w))

    announced-CreateSpec :
        (w w' : World) (b : Bool) (res : UserPointRes) (t : List User)
        → w'.db ≡ created w t
        → UsersSpec w b t
        → res ≡ map_user_point (point_row w)
        → CreateSpec w (continue (set_valid_on_chain b dto.wallet_address w') (λ _. pure res))
    unfolding set_valid_on_chain
    announced-CreateSpec w w' false res t d h e = (false, t, d, h, tt, e)
    announced-CreateSpec w w' true res t d (a, g, f, h) e =
        subst (λ o. CreateSpec w (continue (set_valid_on_chain true o w') (λ _. pure res))) (sym g)
          (elim (Option-cases (p.chain_set_valid_user a true)) [
            | inl x ↦ rw (x, CreateSpec) (inr (refl, (t, d, (a, g, f, h))))
            | inr (k, x) ↦ rw (x, CreateSpec) (true, t, d, (a, g, f, h), (a, k, g, x), e)
          ])

    -- On success the database has one new point row with the amount asked for (0 by default) as
    -- its balance; the users are as before when no wallet is given or the wallet is known, and
    -- else the wallet is registered for the user as pending (a new row, or the row of that user
    -- with the new wallet) and the chain has accepted it as valid. On an error the database is
    -- as before, or the chain rejected a new wallet and everything is there all the same.
    pub create_user_point-CreateSpec : (w : World) → CreateSpec w (create_user_point dto w)
    unfolding create_user_point transaction
    create_user_point-CreateSpec w =
        called (create_callback dto (record w { working = w.db })) (create_callback-CallbackSpec w)
      where
        called :
            (out : Result (Bool × UserPointRes) × World)
            → CallbackSpec w out
            → CreateSpec w (
                continue
                  (end_transaction out)
                  (λ made. set_valid_on_chain made.0 dto.wallet_address >>= λ _. pure made.1))
        called (err e, w') d = inl d
        called (ok (b, res), w') (t, d, h, e) =
            announced-CreateSpec w (record w' { db = w'.working }) b res t d h e

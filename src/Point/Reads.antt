-- ===== src/Point/Reads.antt =====
-- What the reads of `PointService` answer: the balance through the cache, and the check of the user.
use web3_point_exchange.Common.{
  ℕ, ℤ, ◌≡◌, refl, ◌⊎◌, inl, inr, true, not, ◌==◌, Option, none, some, Option-cases, Bool-cases,
  ==_iff,
}
use web3_point_exchange.Entities.{User, UserPoint, UserStatus, is_valid}
use web3_point_exchange.Platform.{Platform, Cache}
use web3_point_exchange.Repositories.Users
use web3_point_exchange.Repositories.UserPoints
use web3_point_exchange.Point.Balance.{
  get_cache, load_point_balance, try_set_cache, get_point_balance,
}
use web3_point_exchange.Point.Exchange.{check_user, owns}
use web3_point_exchange.Point.Steps.{try_set_cache-cases}
use web3_point_exchange.World.{World, Result, ok, err, ◌>>=◌, ◌>>◌, pure, throw_if, wallet_mismatch}

module _ ⦃p : Platform⦄ (u : ℕ) where
  -- `v` is the cached balance of the user, or the one in the database.
  abbrev pub IsRead : World → ℤ → Type 0
  IsRead w v =
      (w.cache u ≡ some v)
      ⊎ ((up : UserPoint) × (p.find_one (UserPoints.by_user u) w.db.user_points ≡ some up)
          × (v ≡ up.balance))

  -- Only the cache can change.
  abbrev pub ReadSpec : World → Result ℤ × World → Type 0
  ReadSpec w (err e, w') = w' ≡ w
  ReadSpec w (ok v, w') = (c : Cache) × (w' ≡ record w { cache = c }) × IsRead w v

  keep-ReadSpec :
      (w : World) (up : UserPoint)
      → p.find_one (UserPoints.by_user u) w.db.user_points ≡ some up
      → ReadSpec w ((try_set_cache u up.balance >> pure up.balance) w)
  keep-ReadSpec w up f =
      let (c, e, h) = try_set_cache-cases u up.balance w in rw e (c, refl, inr (up, f, refl))

  load_point_balance-ReadSpec : (w : World) → ReadSpec w (load_point_balance u w)
  unfolding load_point_balance UserPoints.find_by_user_id
  load_point_balance-ReadSpec w =
      elim (Option-cases (p.find_one (UserPoints.by_user u) w.db.user_points)) [
        | inl f ↦ rw (f, load_point_balance) refl
        | inr (up, f) ↦ rw (f, load_point_balance) (keep-ReadSpec w up f)
      ]

  -- The balance that is answered is the cached one or that of a row of the user, and only the
  -- cache can have changed; an error changes nothing.
  pub get_point_balance-ReadSpec : (w : World) → ReadSpec w (get_point_balance u w)
  unfolding get_point_balance get_cache
  get_point_balance-ReadSpec w = elim (p.redis_get_law u w.cache) [
    | inl e ↦ rw (e, get_cache, ReadSpec, get_point_balance) refl
    | inr (inl e) ↦ rw (e, get_cache, ReadSpec, get_point_balance) (load_point_balance-ReadSpec w)
    | inr (inr e) ↦ cached (w.cache u) refl e
  ]
    where
      cached :
          (o : Option ℤ)
          → w.cache u ≡ o
          → p.redis_get u w.cache ≡ some (w.cache u)
          → ReadSpec w (get_point_balance u w)
      cached none f e =
          rw (e, get_cache, ReadSpec, get_point_balance) (rw f (load_point_balance-ReadSpec w))
      cached (some v) f e =
          rw (e, get_cache, ReadSpec, get_point_balance) (rw f (w.cache, refl, inl f))

module _ ⦃p : Platform⦄ (u a : ℕ) where
  -- The user is there and valid, and the wallet address is that of a row of the same user.
  abbrev pub IsAuthorized : World → Type 0
  IsAuthorized w =
      (user : User) × (wallet : User) × (p.find_one (Users.by_id u) w.db.users ≡ some user)
      × (user.status ≡ UserStatus.valid)
      × (p.find_one (Users.by_wallet a) w.db.users ≡ some wallet)
      × (wallet.user_id ≡ u)

  abbrev pub CheckSpec : World → Result (Unit {0}) × World → Type 0
  CheckSpec w (err e, w') = w' ≡ w
  CheckSpec w (ok _, w') = (w' ≡ w) × IsAuthorized w

  is_valid-eq : (s : UserStatus) → is_valid s ≡ true → s ≡ UserStatus.valid
  is_valid-eq UserStatus.valid h = refl
  is_valid-eq UserStatus.pending h = cc
  is_valid-eq UserStatus.invalid h = cc

  wallet-CheckSpec :
      (w : World) (user : User)
      → p.find_one (Users.by_id u) w.db.users ≡ some user
      → user.status ≡ UserStatus.valid
      → CheckSpec w (
          (do
            by_wallet ← Users.find_by_wallet_address a
            throw_if (not (owns u by_wallet)) wallet_mismatch)
            w)
  unfolding Users.find_by_wallet_address owns
  wallet-CheckSpec w user f v = elim (Option-cases (p.find_one (Users.by_wallet a) w.db.users)) [
    | inl g ↦ rw (g, ◌>>=◌) refl
    | inr (r, g) ↦ elim (Bool-cases (r.user_id == u)) [
      | inl same ↦ rw (g, ◌>>=◌) (rw same (refl, (user, r, f, v, g, (==_iff r.user_id u).0 same)))
      | inr other ↦ rw (g, ◌>>=◌) (rw other refl)
    ]
  ]

  -- The check never changes anything, and when it passes, the user is there and valid and the
  -- wallet address is that of a row of the same user.
  pub check_user-CheckSpec : (w : World) → CheckSpec w (check_user u a w)
  unfolding check_user Users.find_by_id
  check_user-CheckSpec w = elim (Option-cases (p.find_one (Users.by_id u) w.db.users)) [
    | inl f ↦ rw (f, check_user) refl
    | inr (user, f) ↦ elim (Bool-cases (is_valid user.status)) [
      | inl v ↦ rw (f, check_user) (rw v (wallet-CheckSpec w user f (is_valid-eq user.status v)))
      | inr v ↦ rw (f, check_user) (rw v refl)
    ]
  ]

  -- The check lets an authorized user through.
  pub check_user-eq : (w : World) → IsAuthorized w → check_user u a w ≡ (ok tt, w)
  unfolding check_user Users.find_by_id Users.find_by_wallet_address
  check_user-eq w (user, wallet, f, v, g, o) =
      let valid : is_valid user.status ≡ true = rw v refl in
      let same : (wallet.user_id == u) ≡ true = (==_iff wallet.user_id u).1 o in
      rw (f, check_user) (rw valid (rw g (rw same refl)))

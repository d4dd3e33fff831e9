-- ===== src/Point/AccountLaws.antt =====
-- What `validateUser` does on every branch.
use web3_point_exchange.Common.{ℕ, ◌≡◌, ◌⊎◌, Bool, true, false, none, some, map, set_where}
use web3_point_exchange.Entities.{User}
use web3_point_exchange.Platform.{Platform}
use web3_point_exchange.Repositories.Users
use web3_point_exchange.Point.Accounts.{has_status, status_of}
use web3_point_exchange.Point.Dto.{ValidateUserReq}
use web3_point_exchange.World.{Db, World, Result, ok, err, user_not_found, db_rejected}

module _ ⦃p : Platform⦄ (dto : ValidateUserReq) where
  -- The user's row after the call: the one found again by its id, with the new status.
  abbrev with_status : ℕ → User → World → Db
  with_status u r w = record (w.db) {
    users =
        map
          (set_where (Users.by_id u)
            (λ _. record r { status = status_of dto.is_valid; updated_at = w.now }))
          w.db.users;
  }

  abbrev StatusSpec : World → User → Result Bool × World → Type 0
  StatusSpec w user (err e, w') = (e ≡ db_rejected) × (w' ≡ w)
  StatusSpec w user (ok b, w') =
      (b ≡ true)
      × (((has_status dto.is_valid user.status ≡ true) × (w' ≡ w))
          ⊎ ((r : User) × (has_status dto.is_valid user.status ≡ false)
              × (p.find_one (Users.by_id user.user_id) w.db.users ≡ some r)
              × (r.user_id ≡ user.user_id)
              × (w' ≡ record w { db = with_status user.user_id r w })))

  abbrev pub ValidateSpec : World → Result Bool × World → Type 0
  ValidateSpec w out =
      ((p.find_one (Users.by_wallet dto.wallet_address) w.db.users ≡ none)
        × (out ≡ (err user_not_found, w)))
      ⊎ ((user : User) × (p.find_one (Users.by_wallet dto.wallet_address) w.db.users ≡ some user)
          × StatusSpec w user out)

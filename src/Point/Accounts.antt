-- ===== src/Point/Accounts.antt =====
-- `createUserPoint`, `validateUser` and `findUserByWalletAddress`.
use web3_point_exchange.Common.{ℕ, pos, Bool, true, false, Option, none, some, if◌then◌else◌}
use web3_point_exchange.Entities.{User, UserStatus, is_valid, is_invalid}
use web3_point_exchange.Platform.{Platform}
use web3_point_exchange.Repositories.Users
use web3_point_exchange.Repositories.UserPoints
use web3_point_exchange.Repositories.Query.{or_default}
use web3_point_exchange.Point.Dto.{
  CreateUserPointReq, ValidateUserReq, UserPointRes, map_user_point,
}
use web3_point_exchange.World.{
  Action, manager, ok, ◌>>=◌, ◌>>◌, pure, or_throw, transaction, user_not_found, chain_rejected,
}

-- The two branches of `validateUser`: `UserStatus.VALID` and `UserStatus.INVALID`.
abbrev pub has_status : Bool → UserStatus → Bool
has_status true s = is_valid s
has_status false s = is_invalid s

abbrev pub status_of : Bool → UserStatus
status_of true = UserStatus.valid
status_of false = UserStatus.invalid

module _ ⦃p : Platform⦄ where
  -- The user's row, when the wallet address is new; says whether it was (`shouldSetValidUser`).
  unfoldable pub register_wallet : ℕ → Option ℕ → Action Bool
  register_wallet u none = pure false
  register_wallet u (some a) = do
    existing ← Users.find_by_wallet_address a
    elim existing [ none ↦ (do Users.create u a manager; pure true) | some _ ↦ pure false ]

  unfoldable pub create_callback : CreateUserPointReq → Action (Bool × UserPointRes)
  create_callback dto = do
    should_set ← register_wallet dto.user_id dto.wallet_address
    row ← UserPoints.create dto.user_id (or_default (pos 0) dto.amount) manager
    pure (should_set, map_user_point row)

  -- `BlockchainService.setValidUser`, once the transaction is committed.
  unfoldable pub set_valid_on_chain : Bool → Option ℕ → Action (Unit {0})
  set_valid_on_chain true (some a) =
      or_throw chain_rejected (p.chain_set_valid_user a true) >>= λ _. pure tt
  set_valid_on_chain true none = pure tt
  set_valid_on_chain false a = pure tt

  unfoldable pub create_user_point : CreateUserPointReq → Action UserPointRes
  create_user_point dto = do
    made ← transaction (create_callback dto)
    set_valid_on_chain made.0 dto.wallet_address
    pure made.1

  unfoldable pub set_user_status : Bool → User → Action Bool
  set_user_status v user w =
      if has_status v user.status
      then (ok true, w)
      else (Users.update user.user_id (λ r. record r { status = status_of v; updated_at = w.now })
            >>= λ _. pure true)
          w

  unfoldable pub validate_user : ValidateUserReq → Action Bool
  unfolding set_user_status
  validate_user dto = do
    found ← Users.find_by_wallet_address dto.wallet_address
    user ← or_throw user_not_found found
    set_user_status dto.is_valid user

  unfoldable pub find_user_by_wallet_address : ℕ → Action (Option User)
  find_user_by_wallet_address a = Users.find_by_wallet_address a

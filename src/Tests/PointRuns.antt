-- ===== src/Tests/PointRuns.antt =====
-- Runs of the methods of `PointService`, each an application of a theorem about it.
use web3_point_exchange.Common.{pos, ◌≡◌, refl, some, none, arith}
use web3_point_exchange.Point.{
  CreateUserPointReq, create_user_point, deposit_points, withdraw_points, consume_point,
  grant_point,
}
use web3_point_exchange.Point.Creation.{CreateSpec, create_user_point-CreateSpec}
use web3_point_exchange.Point.Deposit.{DepositSpec, deposit_points-DepositSpec}
use web3_point_exchange.Point.Withdraw.{WithdrawGood, withdraw_points-MethodSpec}
use web3_point_exchange.Point.Consume.{ConsumeGood, consume_point-MethodSpec}
use web3_point_exchange.Point.Grant.{GrantGood, grant_point-MethodSpec}
use web3_point_exchange.Point.Reads.{IsAuthorized}
use web3_point_exchange.Point.Progress.{deposit_points_succeeds}
use web3_point_exchange.Tests.Sample.{sample, sample-IsReliable}
use web3_point_exchange.Tests.Data.{
  start, alice, alice_point, bob_point, deposit, withdrawal, consumption, grant,
}
use web3_point_exchange.Repositories.Users
use web3_point_exchange.Repositories.UserPoints
use web3_point_exchange.Platform.{UpdateUserPointBalance, UpdateUserPointBalanceType}
use web3_point_exchange.World.Progress.{IsOk}
use web3_point_exchange.World.Rules.{MethodSpec}

deposit_points-DepositSpec_example :
    DepositSpec 100 deposit start (deposit_points 100 deposit start)
deposit_points-DepositSpec_example = deposit_points-DepositSpec 100 deposit start

withdraw_points-MethodSpec_example :
    MethodSpec (WithdrawGood 100 withdrawal start) start (withdraw_points 100 withdrawal start)
withdraw_points-MethodSpec_example = withdraw_points-MethodSpec 100 withdrawal start

consume_point-MethodSpec_example :
    MethodSpec (ConsumeGood 10 consumption start) start (consume_point 10 consumption start)
consume_point-MethodSpec_example = consume_point-MethodSpec 10 consumption start

grant_point-MethodSpec_example :
    MethodSpec (GrantGood 11 grant start) start (grant_point 11 grant start)
grant_point-MethodSpec_example = grant_point-MethodSpec 11 grant start

pub alice-IsAuthorized : IsAuthorized 1 100 start
unfolding Users.by_id Users.by_wallet
alice-IsAuthorized = (alice, alice, refl, refl, refl, refl)

pub alice_point-by_user :
    sample.find_one (UserPoints.by_user 1) start.db.user_points ≡ some alice_point
unfolding UserPoints.by_user
alice_point-by_user = refl

pub alice_point-by_id :
    sample.find_one (UserPoints.by_id 10) start.db.user_points ≡ some alice_point
unfolding UserPoints.by_id
alice_point-by_id = refl

pub bob_point-by_id : sample.find_one (UserPoints.by_id 11) start.db.user_points ≡ some bob_point
unfolding UserPoints.by_id
bob_point-by_id = refl

deposit_points_succeeds_example : IsOk (deposit_points 100 deposit start)
deposit_points_succeeds_example =
    deposit_points_succeeds sample-IsReliable 100 deposit alice_point (pos 500) start (omega arith)
      alice-IsAuthorized alice_point-by_user refl (omega arith)

abbrev raise : UpdateUserPointBalance
raise = record { user_id = 1; amount = pos 40; type = UpdateUserPointBalanceType.increase }

abbrev newcomer : CreateUserPointReq
newcomer = record { user_id = 3; wallet_address = some 300; amount = none }

create_user_point-CreateSpec_example : CreateSpec newcomer start (create_user_point newcomer start)
create_user_point-CreateSpec_example = create_user_point-CreateSpec newcomer start

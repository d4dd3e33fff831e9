-- ===== src/Ledger/Calls.antt =====
-- The calls of PointService that change balances, one after the other, and the entries that they make.
use web3_point_exchange.Common.{ℕ, ℤ, Option, none, some, List, [], ◌∷◌}
use web3_point_exchange.Entities.{UserPoint}
use web3_point_exchange.Platform.{Platform, UpdateUserPointBalance, UpdateUserPointBalanceType}
use web3_point_exchange.Repositories.UserPoints
use web3_point_exchange.Point.{
  DepositPointsReq, WithdrawPointsReq, ConsumePointReq, GrantPointReq, deposit_points,
  withdraw_points, consume_point, grant_point, handle_update_balance,
}
use web3_point_exchange.World.{World, Result, ok, err}
use web3_point_exchange.Ledger.Book.{Entry, nothing, credit, debit}

pub data Call : Type 0 where
  deposit : DepositPointsReq → Call
  withdraw : WithdrawPointsReq → Call
  consume : ℕ → ConsumePointReq → Call
  grant : ℕ → GrantPointReq → Call
  update : UpdateUserPointBalance → Call

-- How a call ends, whatever it answers.
abbrev pub ended : {A : Type 0} → Result A × World → Result (Unit {0}) × World
ended (ok a, w) = (ok tt, w)
ended (err e, w) = (err e, w)

-- The entry of the user whose row has the id of a point.
abbrev pub owner_entry : (ℕ → ℤ → Entry) → ℤ → Option UserPoint → Entry
owner_entry make a none = nothing
owner_entry make a (some r) = make r.user_id a

abbrev pub update_entry : UpdateUserPointBalanceType → ℕ → ℤ → Entry
update_entry UpdateUserPointBalanceType.increase u a = credit u a
update_entry UpdateUserPointBalanceType.decrease u a = nothing

module _ ⦃p : Platform⦄ where
  unfoldable pub do_call : ℕ → Call → World → Result (Unit {0}) × World
  do_call rate (deposit d) w = ended (deposit_points rate d w)
  do_call rate (withdraw d) w = ended (withdraw_points rate d w)
  do_call rate (consume i d) w = ended (consume_point i d w)
  do_call rate (grant i d) w = ended (grant_point i d w)
  do_call rate (update m) w = ended (handle_update_balance m w)

  unfoldable pub do_calls : ℕ → List Call → World → World
  do_calls rate [] w = w
  do_calls rate (c ∷ cs) w = do_calls rate cs (do_call rate c w).1

  abbrev pub entry_of : Call → World → Result (Unit {0}) → Entry
  entry_of c w (err e) = nothing
  entry_of (deposit d) w (ok _) = debit d.user_id d.amount
  entry_of (withdraw d) w (ok _) = nothing
  entry_of (consume i d) w (ok _) =
      owner_entry debit d.amount (p.find_one (UserPoints.by_id i) w.db.user_points)
  entry_of (grant i d) w (ok _) =
      owner_entry credit d.amount (p.find_one (UserPoints.by_id i) w.db.user_points)
  entry_of (update m) w (ok _) = update_entry m.type m.user_id m.amount

  unfoldable pub entries : ℕ → List Call → World → List Entry
  entries rate [] w = []
  entries rate (c ∷ cs) w = let (r, w') = do_call rate c w in entry_of c w r ∷ entries rate cs w'

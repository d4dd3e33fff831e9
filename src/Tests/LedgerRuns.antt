-- ===== src/Tests/LedgerRuns.antt =====
-- Calls on the sample world, and the account book.
use web3_point_exchange.Common.{pos, ◌≡◌, List, [], ◌∷◌, arith}
use web3_point_exchange.Platform.{UpdateUserPointBalance, UpdateUserPointBalanceType}
use web3_point_exchange.Tests.Sample.{sample, sample-IsReliable}
use web3_point_exchange.Tests.Data.{start, deposit, withdrawal, consumption, grant}
use web3_point_exchange.Ledger.Book.{replay, AreCovered, HasNoDebt}
use web3_point_exchange.Ledger.Calls.{Call, do_calls, entries}
use web3_point_exchange.Ledger.Rows.{book_of, IsUnique}
use web3_point_exchange.Ledger.Runs.{
  IsCoherent, RunsWell, do_calls_refine, do_calls-HasNoDebt, do_calls-RunsWell,
}

abbrev raise : UpdateUserPointBalance
raise = record { user_id = 1; amount = pos 40; type = UpdateUserPointBalanceType.increase }

abbrev calls : List Call
calls =
    Call.deposit deposit
    ∷ Call.grant 11 grant
    ∷ Call.consume 10 consumption
    ∷ Call.withdraw withdrawal
    ∷ Call.update raise
    ∷ []

start-IsUnique : IsUnique start.db.user_points
start-IsUnique r s m n e = ground arith

start-IsCoherent : IsCoherent start
start-IsCoherent r v m c = ground arith

do_calls-RunsWell_example : RunsWell 100 calls start
do_calls-RunsWell_example =
    do_calls-RunsWell sample-IsReliable 100 calls start start-IsUnique start-IsCoherent

do_calls_refine_example :
    (book_of (do_calls 100 calls start).db.user_points
      ≡ replay (entries 100 calls start) (book_of start.db.user_points))
    × AreCovered (entries 100 calls start) (book_of start.db.user_points)
    × IsUnique (do_calls 100 calls start).db.user_points
do_calls_refine_example =
    do_calls_refine 100 calls start start-IsUnique
      (do_calls-RunsWell sample-IsReliable 100 calls start start-IsUnique start-IsCoherent)

start-HasNoDebt : HasNoDebt (book_of start.db.user_points)
start-HasNoDebt u v e = ground arith

do_calls-HasNoDebt_example : HasNoDebt (book_of (do_calls 100 calls start).db.user_points)
do_calls-HasNoDebt_example =
    do_calls-HasNoDebt 100 calls start start-IsUnique
      (do_calls-RunsWell sample-IsReliable 100 calls start start-IsUnique start-IsCoherent)
      (tt, (omega arith, (tt, (tt, (omega arith, tt))))) start-HasNoDebt

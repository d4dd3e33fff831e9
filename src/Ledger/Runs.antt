-- ===== src/Ledger/Runs.antt =====
-- What holds after any calls of PointService, by the account book.
use web3_point_exchange.Common.{
  ℕ, ℤ, pos, ◌≡◌, ◌≢◌, refl, sym, ap, subst, ◌∙◌, Option, none, some, List, [], ◌∷◌, ◌≤ℤ◌,
}
use web3_point_exchange.Entities.{UserPoint}
use web3_point_exchange.Platform.{Platform, LockKey, UpdateUserPointBalanceType}
use web3_point_exchange.Repositories.UserPoints
use web3_point_exchange.Point.{
  deposit_points, withdraw_points, consume_point, grant_point, handle_update_balance,
}
use web3_point_exchange.Point.Deposit.{deposit_points-DepositSpec}
use web3_point_exchange.Point.Withdraw.{withdraw_points-MethodSpec}
use web3_point_exchange.Point.Consume.{consume_point-MethodSpec}
use web3_point_exchange.Point.Grant.{grant_point-MethodSpec}
use web3_point_exchange.Point.Increase.{handle_update_balance-HandleSpec}
use web3_point_exchange.Point.Solvency.{IsConsistent}
use web3_point_exchange.World.Progress.{IsReliable}
use web3_point_exchange.Ledger.Agreement.{Agrees, IsReady, Clean, ok-Clean, err-Clean}
use web3_point_exchange.Ledger.Steady.{
  deposit_points-Clean, withdraw_points-Clean, consume_point-Clean, grant_point-Clean,
  handle_update_balance-Clean,
}
use web3_point_exchange.World.{World, Result, ok, err, lock_not_released}
use web3_point_exchange.Ledger.Book.{
  credit, debit, replay, AreCovered, IsGift, AreGifts, HasNoDebt, replay-HasNoDebt,
}
use web3_point_exchange.Ledger.Calls.{
  Call, ended, deposit, withdraw, consume, grant, update, do_call, do_calls, entry_of, entries,
  owner_entry, update_entry,
}
use web3_point_exchange.Ledger.Rows.{book_of, IsUnique}
use web3_point_exchange.Ledger.Refines.{
  Entered, deposit-Enters, withdraw-Enters, consume-Enters, grant-Enters, update-Enters,
}

-- The cache holds no other balance than the rows.
abbrev pub IsCoherent : World → Type 0
IsCoherent w = Agrees w.db.user_points w.cache

-- A grant or an increase is not of a negative amount.
abbrev pub IsKind : Call → Type 0
IsKind (deposit d) = Unit {0}
IsKind (withdraw d) = Unit {0}
IsKind (consume i d) = Unit {0}
IsKind (grant i d) = pos 0 ≤ℤ d.amount
IsKind (update m) = pos 0 ≤ℤ m.amount

abbrev pub AreKind : List Call → Type 0
AreKind [] = Unit {0}
AreKind (c ∷ cs) = IsKind c × AreKind cs

module _ ⦃p : Platform⦄ (rate : ℕ) where
  -- Each call finds the cache in agreement, and can release its lock.
  abbrev pub RunsWell : List Call → World → Type 0
  RunsWell [] w = Unit {0}
  RunsWell (c ∷ cs) w =
      IsCoherent w
      × ((do_call rate c w).0 ≢ err lock_not_released)
      × RunsWell cs (do_call rate c w).1

  call_enters :
      (c : Call) (w : World)
      → IsConsistent w
      → (do_call rate c w).0 ≢ err lock_not_released
      → Entered
          (entry_of c w (do_call rate c w).0)
          w.db.user_points
          (do_call rate c w).1.db.user_points
  unfolding do_call
  call_enters (deposit d) w h n =
      deposit-Enters w h rate d (deposit_points rate d w) (deposit_points-DepositSpec rate d w) n
  call_enters (withdraw d) w h n =
      withdraw-Enters w h rate d (withdraw_points rate d w) (withdraw_points-MethodSpec rate d w) n
  call_enters (consume i d) w h n =
      consume-Enters w h i d (consume_point i d w) (consume_point-MethodSpec i d w) n
  call_enters (grant i d) w h n =
      grant-Enters w h i d (grant_point i d w) (grant_point-MethodSpec i d w) n
  call_enters (update m) w h n =
      update-Enters w h m.type m.user_id m.amount (handle_update_balance m w)
        (handle_update_balance-HandleSpec m w) n

  -- Deposits, withdrawals, consumptions, grants and increases of balances, any number of them in
  -- any order, some of which may throw: when a user has one row at most, each call finds no
  -- cached balance that differs from the row, and no lock fails to be released, the balances are
  -- in the end those of an account book in which each call that succeeded has made its entry: a
  -- deposit and a consumption a debit, which the account covered at that moment, a grant and an
  -- increase a credit, a withdrawal none. A user still has one row at most.
  pub do_calls_refine :
      (cs : List Call) (w : World)
      → IsUnique w.db.user_points
      → RunsWell cs w
      → (book_of (do_calls rate cs w).db.user_points
          ≡ replay (entries rate cs w) (book_of w.db.user_points))
        × AreCovered (entries rate cs w) (book_of w.db.user_points)
        × IsUnique (do_calls rate cs w).db.user_points
  unfolding do_calls entries
  do_calls_refine [] w u h = (refl, tt, u)
  do_calls_refine (c ∷ cs) w u (coherent, n, h) =
      let (covered, made, u') = call_enters c w (record { unique = u; coherent = coherent }) n in
      let (e, cs_covered, u'') = do_calls_refine cs (do_call rate c w).1 u' h in
      (
        e ∙ ap (replay (entries rate cs (do_call rate c w).1)) made,
        (covered, subst (AreCovered (entries rate cs (do_call rate c w).1)) made cs_covered),
        u'',
      )

  owner-IsGift : (a : ℤ) (o : Option UserPoint) → pos 0 ≤ℤ a → IsGift (owner_entry credit a o)
  owner-IsGift a none g = tt
  owner-IsGift a (some r) g = g

  debit-IsGift : (a : ℤ) (o : Option UserPoint) → IsGift (owner_entry debit a o)
  debit-IsGift a none = tt
  debit-IsGift a (some r) = tt

  update-IsGift :
      (t : UpdateUserPointBalanceType) (u : ℕ) (a : ℤ) → pos 0 ≤ℤ a → IsGift (update_entry t u a)
  update-IsGift UpdateUserPointBalanceType.increase u a g = g
  update-IsGift UpdateUserPointBalanceType.decrease u a g = tt

  entry-IsGift : (c : Call) (w : World) (r : Result (Unit {0})) → IsKind c → IsGift (entry_of c w r)
  entry-IsGift c w (err e) g = tt
  entry-IsGift (deposit d) w (ok _) g = tt
  entry-IsGift (withdraw d) w (ok _) g = tt
  entry-IsGift (consume i d) w (ok _) g =
      debit-IsGift d.amount (p.find_one (UserPoints.by_id i) w.db.user_points)
  entry-IsGift (grant i d) w (ok _) g =
      owner-IsGift d.amount (p.find_one (UserPoints.by_id i) w.db.user_points) g
  entry-IsGift (update m) w (ok _) g = update-IsGift m.type m.user_id m.amount g

  entries-AreGifts : (cs : List Call) (w : World) → AreKind cs → AreGifts (entries rate cs w)
  unfolding entries
  entries-AreGifts [] w g = tt
  entries-AreGifts (c ∷ cs) w (g, gs) =
      (entry-IsGift c w (do_call rate c w).0 g, entries-AreGifts cs (do_call rate c w).1 gs)

  -- Under the same conditions, when no balance is below zero and no grant or increase is of a
  -- negative amount: after the calls no balance is below zero.
  pub do_calls-HasNoDebt :
      (cs : List Call) (w : World)
      → IsUnique w.db.user_points
      → RunsWell cs w
      → AreKind cs
      → HasNoDebt (book_of w.db.user_points)
      → HasNoDebt (book_of (do_calls rate cs w).db.user_points)
  do_calls-HasNoDebt cs w u h g s =
      let (e, covered, _) = do_calls_refine cs w u h in
      subst HasNoDebt (sym e) (
        replay-HasNoDebt (entries rate cs w) (book_of w.db.user_points) covered
          (entries-AreGifts cs w g) s)

ended-Clean :
    {A : Type 0} (held : List LockKey) (out : Result A × World)
    → Clean held out
    → Clean held (ended out)
ended-Clean held (ok a, w) (h, n) = ok-Clean held tt w h
ended-Clean held (err e, w) (h, n) = err-Clean held e w (λ q. n (ap err q)) h

module _ ⦃p : Platform⦄ (rel : IsReliable) (rate : ℕ) where
  do_call-Clean : (c : Call) (w : World) → IsReady w.locks w → Clean w.locks (do_call rate c w)
  unfolding do_call
  do_call-Clean (deposit d) w h =
      ended-Clean w.locks (deposit_points rate d w) (deposit_points-Clean rel w.locks rate d w h)
  do_call-Clean (withdraw d) w h =
      ended-Clean w.locks (withdraw_points rate d w) (withdraw_points-Clean rel w.locks rate d w h)
  do_call-Clean (consume i d) w h =
      ended-Clean w.locks (consume_point i d w) (consume_point-Clean rel w.locks i d w h)
  do_call-Clean (grant i d) w h =
      ended-Clean w.locks (grant_point i d w) (grant_point-Clean rel w.locks i d w h)
  do_call-Clean (update m) w h =
      ended-Clean w.locks (handle_update_balance m w)
        (handle_update_balance-Clean rel w.locks m w h)

  -- On a platform that rejects no call, from a world in which a user has one row at most and no
  -- cached balance differs from the row: before each of the calls, whichever of them throw, no
  -- cached balance differs from the row, and no call fails to release its lock.
  pub do_calls-RunsWell :
      (cs : List Call) (w : World) → IsUnique w.db.user_points → IsCoherent w → RunsWell rate cs w
  do_calls-RunsWell [] w u g = tt
  do_calls-RunsWell (c ∷ cs) w u g =
      let (((u', g'), l), n) = do_call-Clean c w ((u, g), refl) in
      (g, n, do_calls-RunsWell cs (do_call rate c w).1 u' g')

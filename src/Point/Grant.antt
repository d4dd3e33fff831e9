-- ===== src/Point/Grant.antt =====
-- What `grantPoint` does on every branch, when no other request runs between its read and its write.
use web3_point_exchange.Common.{ℕ, ◌≡◌, refl, inl, inr, some, List, ◌+ℤ◌, Option-cases}
use web3_point_exchange.Entities.{UserPoint, GrantHistory}
use web3_point_exchange.Platform.{Platform, LockKey, Message, handle_point}
use web3_point_exchange.Repositories.UserPoints
use web3_point_exchange.Point.Dto.{GrantPointReq, GrantHistoryRes, map_grant_history}
use web3_point_exchange.Point.Exchange.{grant_callback, grant_point}
use web3_point_exchange.Point.Steps.{
  with_balance, with_grant, grant_row, write_balance-cases, create_grant-cases,
}
use web3_point_exchange.World.{Db, World, manager}
use web3_point_exchange.World.Rules.{MethodSpec, CallbackSpec, locked_transaction-MethodSpec}

module _ ⦃p : Platform⦄ (i : ℕ) (dto : GrantPointReq) where
  abbrev granted_row : World → GrantHistory
  granted_row w = grant_row i dto.amount dto.type dto.resource_id (record w { working = w.db })

  abbrev pub GrantGood : World → GrantHistoryRes → Db → List Message → Type 0
  GrantGood w res d sent =
      (up : UserPoint) × (p.find_one (UserPoints.by_id i) w.db.user_points ≡ some up)
      × (d
          ≡ with_balance up.user_id (up.balance +ℤ dto.amount) w.now
              (with_grant (granted_row w) w.db))
      × (sent ≡ w.sent)
      × (res ≡ map_grant_history (granted_row w))

  pub grant_callback-CallbackSpec :
      (up : UserPoint) (w : World) (held : List LockKey)
      → p.find_one (UserPoints.by_id i) w.db.user_points ≡ some up
      → let w0 : World = record w { locks = held; working = w.db } in
        CallbackSpec (GrantGood w) w0 (grant_callback up i dto w0)
  unfolding grant_callback
  grant_callback-CallbackSpec up w held f =
      let w0 : World = record w { locks = held; working = w.db } in
      let w1 : World = record w0 { working = with_grant (granted_row w) w.db } in
      elim (create_grant-cases i dto.amount dto.type dto.resource_id w0) [
        | inl e ↦ rw (e, grant_callback) (refl, refl, refl)
        | inr e ↦ elim (write_balance-cases up.user_id (up.balance +ℤ dto.amount) manager w1) [
          | inl g ↦ rw (e, grant_callback) (rw g (refl, refl, refl))
          | inr (c, g, h) ↦ rw (e, grant_callback) (rw g ((up, f, refl, refl, refl), refl))
        ]
      ]

  -- On success the database has one new row, a completed history of the amount, and as the
  -- balance of the user that of the point's row plus the amount; the sent messages and the held
  -- locks are as before. On an error the database, the sent messages and the held locks are as
  -- before, unless the error is that the lock could not be released.
  pub grant_point-MethodSpec : (w : World) → MethodSpec (GrantGood w) w (grant_point i dto w)
  unfolding grant_point UserPoints.find_by_id
  grant_point-MethodSpec w =
      elim (Option-cases (p.find_one (UserPoints.by_id i) w.db.user_points)) [
        | inl f ↦ rw (f, grant_point) (inr (refl, refl, refl))
        | inr (up, f) ↦
            rw (f, grant_point)
              (locked_transaction-MethodSpec (GrantGood w) w (handle_point up.user_id)
                (grant_callback up i dto) (λ held. grant_callback-CallbackSpec up w held f))
      ]

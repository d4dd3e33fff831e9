-- ===== src/World/Rules.antt =====
-- Proof rules for `transaction` and `with_lock`: what holds of a method from what holds of its callback.
use web3_point_exchange.Common.{◌≡◌, refl, sym, subst, ◌⊎◌, inl, inr, List, ◌∷◌, none, some}
use web3_point_exchange.Platform.{Platform, LockKey, Message}
use web3_point_exchange.World.{
  Db, World, Action, Result, end_transaction, ok, err, transaction, with_lock, lock_not_acquired,
  lock_not_released,
}

-- What the commit and the rollback make of a callback's outcome.
pub transaction-rule :
    {A : Type 0} (P Q : Result A × World → Type 0) (m : Action A) (w : World)
    → ((a : A) (w' : World) → Q (ok a, w') → P (ok a, record w' { db = w'.working }))
    → ((e : _) (w' : World) → Q (err e, w') → P (err e, w'))
    → Q (m (record w { working = w.db }))
    → P (transaction m w)
unfolding transaction
transaction-rule P Q m w commit rollback h = close (m (record w { working = w.db })) h
  where
    close : (out : Result _ × World) → Q out → P (transaction (λ _. out) w)
    close (ok a, w') q = commit a w' q
    close (err e, w') q = rollback e w' q

module _ ⦃p : Platform⦄ where
  pub with_lock-rule :
      {A : Type 0} (P : Result A × World → Type 0) (k : LockKey) (m : Action A) (w : World)
      → P (err lock_not_acquired, w)
      → (m (record w { locks = k ∷ w.locks })).1.locks ≡ k ∷ w.locks
      → P (err lock_not_released, (m (record w { locks = k ∷ w.locks })).1)
      → (let (r, w') = m (record w { locks = k ∷ w.locks }) in P (r, record w' { locks = w.locks }))
      → P (with_lock k m w)
  unfolding with_lock
  with_lock-rule P k m w busy kept stuck done =
      let out = m (record w { locks = k ∷ w.locks }) in
      let released =
        subst (λ l. (p.release k l ≡ none) ⊎ (p.release k l ≡ some w.locks)) (sym kept)
          (p.release_law k w.locks) in
      elim (p.acquire_law k w.locks) [
        | inl e ↦ rw (e, with_lock) busy
        | inr e ↦ rw (e, with_lock) (elim released [ inl f ↦ rw f stuck | inr f ↦ rw f done ])
      ]

-- A specification of a method that writes the database in one transaction under a lock: `Good` tells
-- the committed database and the sent messages of a success. An error leaves the database, the
-- messages and the locks alone, unless only the release of the lock failed.
abbrev pub MethodSpec :
    {A : Type 0} → (A → Db → List Message → Type 0) → World → Result A × World → Type 0
MethodSpec Good w (ok a, w') = Good a w'.db w'.sent × (w'.locks ≡ w.locks)
MethodSpec Good w (err e, w') =
    (e ≡ lock_not_released) ⊎ ((w'.db ≡ w.db) × (w'.sent ≡ w.sent) × (w'.locks ≡ w.locks))

-- The same of the callback of the transaction, on the database that it works on.
abbrev pub CallbackSpec :
    {A : Type 0} → (A → Db → List Message → Type 0) → World → Result A × World → Type 0
CallbackSpec Good w (ok a, w') = Good a w'.working w'.sent × (w'.locks ≡ w.locks)
CallbackSpec Good w (err e, w') = (w'.db ≡ w.db) × (w'.sent ≡ w.sent) × (w'.locks ≡ w.locks)

pub CallbackSpec-locks :
    {A : Type 0} (Good : A → Db → List Message → Type 0) (w : World) (out : Result A × World)
    → CallbackSpec Good w out
    → out.1.locks ≡ w.locks
CallbackSpec-locks Good w (ok a, w') (_, l) = l
CallbackSpec-locks Good w (err e, w') (_, _, l) = l

module _ {A : Type 0} (Good : A → Db → List Message → Type 0) (w : World) where
  -- The outcome of the transaction, before and after the lock is released.
  abbrev Unlocked : Result A × World → Type 0
  Unlocked (ok a, w') = Good a w'.db w'.sent
  Unlocked (err e, w') = (w'.db ≡ w.db) × (w'.sent ≡ w.sent)

  unlock-MethodSpec :
      (out : Result A × World)
      → Unlocked out
      → MethodSpec Good w (out.0, record (out.1) { locks = w.locks })
  unlock-MethodSpec (ok a, w') g = (g, refl)
  unlock-MethodSpec (err e, w') (d, s) = inr (d, s, refl)

  ended-Unlocked :
      (held : List LockKey) (out : Result A × World)
      → CallbackSpec Good (record w { locks = held; working = w.db }) out
      → Unlocked (end_transaction out) × ((end_transaction out).1.locks ≡ held)
  ended-Unlocked held (ok a, w') (g, l) = (g, l)
  ended-Unlocked held (err e, w') (d, s, l) = ((d, s), l)

  pub locked_transaction-MethodSpec :
      ⦃p : Platform⦄ (k : LockKey) (m : Action A)
      → ((held : List LockKey)
          → CallbackSpec Good
              (record w { locks = held; working = w.db })
              (m (record w { locks = held; working = w.db })))
      → MethodSpec Good w (with_lock k (transaction m) w)
  unfolding transaction
  locked_transaction-MethodSpec k m h =
      let held = k ∷ w.locks in
      let out = m (record w { locks = held; working = w.db }) in
      let (u, l) = ended-Unlocked held out (h held) in
      with_lock-rule (MethodSpec Good w) k (transaction m) w (inr (refl, refl, refl)) l (inl refl)
        (unlock-MethodSpec (end_transaction out) u)

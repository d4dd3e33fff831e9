-- ===== src/World/Progress.antt =====
-- When the services get an answer: a platform on which no call is rejected, and the rule for a
-- transaction under a lock.
use web3_point_exchange.Common.{
  ℕ, ℤ, ◌≡◌, refl, ◌∙◌, sym, subst, Bool, some, List, [], ◌∷◌, ◌++◌, map, set_where,
}
use web3_point_exchange.Platform.{Platform, Cache, put, LockKey, Message}
use web3_point_exchange.World.{
  World, Action, Result, ok, err, transaction, end_transaction, with_lock, unlock,
}

pub record IsReliable ⦃p : Platform⦄ : Type 1 where
  pub inserts : {A : Type 0} (a : A) (rows : List A) → p.insert a rows ≡ some (a ∷ rows)
  pub updates :
      {A : Type 0} (q : A → Bool) (f : A → A) (rows : List A)
      → p.update q f rows ≡ some (map (set_where q f) rows)
  pub gets : (u : ℕ) (c : Cache) → p.redis_get u c ≡ some (c u)
  pub sets : (u : ℕ) (v : ℤ) (c : Cache) → p.redis_setex u v c ≡ some (put u v c)
  pub acquires : (k : LockKey) (held : List LockKey) → p.acquire k held ≡ some (k ∷ held)
  pub releases : (k : LockKey) (held : List LockKey) → p.release k (k ∷ held) ≡ some held
  pub emits : (m : Message) (sent : List Message) → p.emit m sent ≡ some (sent ++ (m ∷ []))

-- The method returned, and did not throw.
abbrev pub IsOk : {A : Type 0} → Result A × World → Type 0
IsOk (ok a, w) = Unit
IsOk (err e, w) = ⊥

pub ended-IsOk : {A : Type 0} (out : Result A × World) → IsOk out → IsOk (end_transaction out)
ended-IsOk (ok a, w) h = tt
ended-IsOk (err e, w) h = h

ended-locks : {A : Type 0} (out : Result A × World) → (end_transaction out).1.locks ≡ out.1.locks
ended-locks (ok a, w) = refl
ended-locks (err e, w) = refl

module _ ⦃p : Platform⦄ (rel : IsReliable) where
  pub with_lock-IsOk :
      {A : Type 0} (k : LockKey) (m : Action A) (w : World)
      → (m (record w { locks = k ∷ w.locks })).1.locks ≡ k ∷ w.locks
      → IsOk (m (record w { locks = k ∷ w.locks }))
      → IsOk (with_lock k m w)
  unfolding with_lock
  with_lock-IsOk {A} k m w kept h =
      let out = m (record w { locks = k ∷ w.locks }) in
      let released =
        subst (λ l. p.release k l ≡ some w.locks) (sym kept) (rel.releases k w.locks) in
      rw (rel.acquires k w.locks, with_lock) (finish out released h)
    where
      finish :
          (out : Result A × World)
          → p.release k out.1.locks ≡ some w.locks
          → IsOk out
          → IsOk (unlock k out)
      finish (ok a, w') e h = rw e tt
      finish (err e', w') e h = absurd h

  pub locked_transaction-IsOk :
      {A : Type 0} (k : LockKey) (m : Action A) (w : World)
      → (let w0 = record w { locks = k ∷ w.locks; working = w.db } in (m w0).1.locks ≡ k ∷ w.locks)
      → IsOk (m (record w { locks = k ∷ w.locks; working = w.db }))
      → IsOk (with_lock k (transaction m) w)
  unfolding transaction
  locked_transaction-IsOk k m w kept h =
      let out = m (record w { locks = k ∷ w.locks; working = w.db }) in
      with_lock-IsOk k (transaction m) w (ended-locks out ∙ kept) (ended-IsOk out h)

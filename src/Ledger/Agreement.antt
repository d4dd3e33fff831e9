-- ===== src/Ledger/Agreement.antt =====
-- On a platform that rejects no call the cache agrees with the rows after each call.
use web3_point_exchange.Common.{
  ℕ, ℤ, ◌≡◌, ◌≢◌, refl, sym, ap, subst, ◌∙◌, inl, inr, Bool, true, false, Option, none, some,
  some_inj, List, ◌∷◌, map, ◌==◌, ==_iff, Bool-cases, Option-cases, Has, Has-unmap, set_where,
  arith,
}
use web3_point_exchange.Entities.{UserPoint}
use web3_point_exchange.Platform.{Platform, Cache, put, LockKey}
use web3_point_exchange.Platform.Found.{found}
use web3_point_exchange.Repositories.UserPoints
use web3_point_exchange.Point.{get_point_balance, load_point_balance, get_cache, try_set_cache}
use web3_point_exchange.World.{
  World, Action, Result, ok, err, Error, continue, throw_if, or_throw, transaction, end_transaction,
  with_lock, unlock, lock_not_released,
}
use web3_point_exchange.World.Progress.{IsReliable}
use web3_point_exchange.Ledger.Rows.{IsUnique}

-- A cache that holds no other balance than the rows.
abbrev pub Agrees : List UserPoint → Cache → Type 0
Agrees rows c = (r : UserPoint) (v : ℤ) → Has r rows → c r.user_id ≡ some v → v ≡ r.balance

written_row :
    (u : ℕ) (v : ℤ) (now : ℕ) (c : Cache) (s : UserPoint) (x : ℤ)
    → (c s.user_id ≡ some x → x ≡ s.balance)
    → let t = set_where (UserPoints.by_user u) (UserPoints.set_balance v now) s in
      put u v c t.user_id ≡ some x → x ≡ t.balance
unfolding UserPoints.by_user UserPoints.set_balance
written_row u v now c s x h e = ground arith

-- The cache takes the balance that the rows take.
pub written-Agrees :
    (u : ℕ) (v : ℤ) (now : ℕ) (rows : List UserPoint) (c : Cache)
    → Agrees rows c
    → Agrees
        (map (set_where (UserPoints.by_user u) (UserPoints.set_balance v now)) rows)
        (put u v c)
written-Agrees u v now rows c h r x m e =
    let f : UserPoint → UserPoint =
      set_where (UserPoints.by_user u) (UserPoints.set_balance v now) in
    let (s, n, q) = Has-unmap f r rows m in
    let e' : put u v c (f s).user_id ≡ some x = subst (λ t. put u v c t.user_id ≡ some x) q e in
    subst (λ t. x ≡ t.balance) (sym q) (written_row u v now c s x (h s x n) e')

-- The cache takes the balance of a row.
read-Agrees :
    (up : UserPoint) (rows : List UserPoint) (c : Cache)
    → IsUnique rows
    → Has up rows
    → Agrees rows c
    → Agrees rows (put up.user_id up.balance c)
read-Agrees up rows c unique m h r x n e = elim (Bool-cases (up.user_id == r.user_id)) [
  | inl t ↦
      let same = unique up r m n ((==_iff up.user_id r.user_id).0 t) in
      sym (some_inj.0 (rw t at e)) ∙ ap (λ z. z.balance) same
  | inr t ↦ h r x n (rw t at e)
]

abbrev pub Fits : List UserPoint → Cache → Type 0
Fits rows c = IsUnique rows × Agrees rows c

-- The cache agrees with the committed rows, or with those that the open transaction sees.
abbrev pub IsReady : List LockKey → World → Type 0
IsReady held w = Fits w.db.user_points w.cache × (w.locks ≡ held)

abbrev pub IsWorking : List LockKey → World → Type 0
IsWorking held w = Fits w.working.user_points w.cache × (w.locks ≡ held)

-- What a method leaves, which did not fail to release its lock.
abbrev pub Clean : {A : Type 0} → List LockKey → Result A × World → Type 0
Clean held (r, w) = IsReady held w × (r ≢ err lock_not_released)

-- The same of the callback of a transaction.
abbrev pub CleanWork : {A : Type 0} → List LockKey → Result A × World → Type 0
CleanWork held (ok a, w) = IsWorking held w
CleanWork held (err e, w) = IsReady held w × (e ≢ lock_not_released)

pub ok-Clean :
    {A : Type 0} (held : List LockKey) (a : A) (w : World) → IsReady held w → Clean held (ok a, w)
ok-Clean held a w h = (h, λ e. cc)

err_inj : {A : Type 0} {e e' : Error} → ◌≡◌ {A = Result A} (err e) (err e') → e ≡ e'
err_inj h = cc

pub err-Clean :
    {A : Type 0} (held : List LockKey) (e : Error) (w : World)
    → e ≢ lock_not_released
    → IsReady held w
    → Clean {A = A} held (err e, w)
err-Clean held e w n h = (h, λ q. n (err_inj q))

-- What follows a method is run on what the method leaves.
pub continue-Clean :
    {A B : Type 0} (held : List LockKey) (out : Result A × World) (f : A → Action B)
    → Clean held out
    → ((a : A) (w : World) → IsReady held w → Clean held (f a w))
    → Clean held (continue out f)
continue-Clean held (ok a, w) f (h, n) k = k a w h
continue-Clean held (err e, w) f (h, n) k = (h, λ q. n (ap err (err_inj q)))

pub or_throw-Clean :
    {A : Type 0} (held : List LockKey) (e : Error) (o : Option A) (w : World)
    → e ≢ lock_not_released
    → IsReady held w
    → Clean held (or_throw e o w)
or_throw-Clean held e none w n h = err-Clean held e w n h
or_throw-Clean held e (some a) w n h = ok-Clean held a w h

pub throw_if-Clean :
    (held : List LockKey) (b : Bool) (e : Error) (w : World)
    → e ≢ lock_not_released
    → IsReady held w
    → Clean held (throw_if b e w)
throw_if-Clean held true e w n h = err-Clean held e w n h
throw_if-Clean held false e w n h = ok-Clean held tt w h

pub transaction-Clean :
    {A : Type 0} (held : List LockKey) (m : Action A) (w : World)
    → CleanWork held (m (record w { working = w.db }))
    → Clean held (transaction m w)
unfolding transaction
transaction-Clean {A} held m w h = close (m (record w { working = w.db })) h
  where
    close : (out : Result A × World) → CleanWork held out → Clean held (end_transaction out)
    close (ok a, w') h = (h, λ e. cc)
    close (err e, w') (h, n) = (h, λ q. n (err_inj q))

module _ ⦃p : Platform⦄ (rel : IsReliable) where
  pub with_lock-Clean :
      {A : Type 0} (held : List LockKey) (k : LockKey) (m : Action A) (w : World)
      → IsReady held w
      → ((w' : World) → IsReady (k ∷ held) w' → Clean (k ∷ held) (m w'))
      → Clean held (with_lock k m w)
  unfolding with_lock
  with_lock-Clean {A} held k m w (fits, l) h =
      rw (rel.acquires k w.locks, with_lock)
        (close (m (record w { locks = k ∷ w.locks }))
          (h (record w { locks = k ∷ w.locks }) (fits, ap (λ x. k ∷ x) l)))
    where
      close : (out : Result A × World) → Clean (k ∷ held) out → Clean held (unlock k out)
      close (r, w') ((fits, l), n) = rw (l, unlock) (rw (rel.releases k held) ((fits, refl), n))

  loaded-Clean :
      (held : List LockKey) (u : ℕ) (w : World)
      → IsReady held w
      → Clean held (load_point_balance u w)
  unfolding load_point_balance UserPoints.find_by_user_id UserPoints.by_user try_set_cache
  loaded-Clean held u w ((unique, g), l) =
      elim (Option-cases (p.find_one (UserPoints.by_user u) w.db.user_points)) [
        | inl f ↦ rw (f, load_point_balance) (((unique, g), l), λ e. cc)
        | inr (up, f) ↦
            let (t, m) = found (UserPoints.by_user u) w.db.user_points f in
            let k = (==_iff up.user_id u).0 t in
            let agrees =
              subst (λ j. Agrees w.db.user_points (put j up.balance w.cache)) k
                (read-Agrees up w.db.user_points w.cache unique m g) in
            rw (f, load_point_balance)
              (rw (rel.sets u up.balance w.cache) (((unique, agrees), l), λ e. cc))
      ]

  pub read-Clean :
      (held : List LockKey) (u : ℕ) (w : World)
      → IsReady held w
      → Clean held (get_point_balance u w)
  unfolding get_point_balance get_cache
  read-Clean held u w h = cases (w.cache u) (rel.gets u w.cache)
    where
      cases : (o : Option ℤ) → p.redis_get u w.cache ≡ some o → Clean held (get_point_balance u w)
      cases none e = rw (e, get_cache, get_point_balance) (loaded-Clean held u w h)
      cases (some v) e = rw (e, get_cache, get_point_balance) (h, λ q. cc)

-- ===== src/Redis.antt =====
-- RedisService (backend/src/modules/redis/redis.service.ts) over the redis client, on keys that are
-- lists of characters. The services of `World` use it through the operations of `Platform`.
use web3_point_exchange.Common.{
  ℕ, ◌<◌, ◌≤◌, ◌≡◌, ◌≢◌, ap, ◌∙◌, ◌⊎◌, inl, inr, Option, none, some, List, [], ◌∷◌, ◌++◌,
}
use web3_point_exchange.Repositories.Query.{or_default}

abbrev pub Key : Type 0
Key = List ℕ

-- 'point:app:'
abbrev pub redis_key_prefix : Key
redis_key_prefix = 112 ∷ 111 ∷ 105 ∷ 110 ∷ 116 ∷ 58 ∷ 97 ∷ 112 ∷ 112 ∷ 58 ∷ []

-- An hour, in seconds.
abbrev pub redis_default_ttl : ℕ
redis_default_ttl = 3600

abbrev pub prefixed : Key → Key
prefixed key = redis_key_prefix ++ key

-- The client. `none` when a promise rejects, after which the store is as before; `wait` lets seconds
-- pass, and `holds` is the value of a key at the moment. Nothing is evicted before it expires.
pub record RedisClient : Type 1 where
  pub Store : Type 0
  pub Value : Type 0
  pub wait : ℕ → Store → Store
  pub holds : Key → Store → Option Value
  pub setex_command : Key → ℕ → Value → Store → Option Store
  pub set_command : Key → Value → Store → Option Store
  pub get_command : Key → Store → Option (Option Value)
  pub del_command : Key → Store → Option (ℕ × Store)
  pub exists_command : Key → Store → Option ℕ
  pub expire_command : Key → ℕ → Store → Option (ℕ × Store)
  pub get_law :
      (k : Key) (s : Store) → (get_command k s ≡ none) ⊎ (get_command k s ≡ some (holds k s))
  pub setex_law :
      (k : Key) (ttl : ℕ) (v : Value) (s : Store)
      → (setex_command k ttl v s ≡ none)
        ⊎ ((s' : Store) × (setex_command k ttl v s ≡ some s')
            × ((d : ℕ) → d < ttl → holds k (wait d s') ≡ some v)
            × ((d : ℕ) → ttl ≤ d → holds k (wait d s') ≡ none)
            × ((j : Key) (d : ℕ) → j ≢ k → holds j (wait d s') ≡ holds j (wait d s)))

module _ ⦃c : RedisClient⦄ where
  unfoldable pub get_client : RedisClient
  get_client = c

  -- `ttl` is `none` when the argument is left out.
  unfoldable pub set : Key → c.Value → Option ℕ → c.Store → Option c.Store
  set key value ttl s = c.setex_command (prefixed key) (or_default redis_default_ttl ttl) value s

  unfoldable pub set_without_ttl : Key → c.Value → c.Store → Option c.Store
  set_without_ttl key value s = c.set_command (prefixed key) value s

  unfoldable pub get : Key → c.Store → Option (Option c.Value)
  get key s = c.get_command (prefixed key) s

  unfoldable pub del : Key → c.Store → Option (ℕ × c.Store)
  del key s = c.del_command (prefixed key) s

  unfoldable pub exists : Key → c.Store → Option ℕ
  exists key s = c.exists_command (prefixed key) s

  unfoldable pub expire : Key → ℕ → c.Store → Option (ℕ × c.Store)
  expire key seconds s = c.expire_command (prefixed key) seconds s

tail_of : Key → Key
tail_of [] = []
tail_of (x ∷ xs) = xs

cancel_prefix : (p j k : Key) → p ++ j ≡ p ++ k → j ≡ k
unfolding tail_of
cancel_prefix [] j k e = e
cancel_prefix (x ∷ xs) j k e = cancel_prefix xs j k (ap tail_of e)

module _ ⦃c : RedisClient⦄ where
  -- A call rejects or answers this.
  abbrev pub Gives : Option (Option c.Value) → Option c.Value → Type 0
  Gives answer v = (answer ≡ none) ⊎ (answer ≡ some v)

  abbrev pub SetSpec : Key → c.Value → ℕ → c.Store → Option c.Store → Type 0
  SetSpec key value ttl s none = Unit
  SetSpec key value ttl s (some s') =
      (d : ℕ)
      → (d < ttl → Gives (get key (c.wait d s')) (some value))
        × (ttl ≤ d → Gives (get key (c.wait d s')) none)
        × ((other : Key)
            → other ≢ key
            → Gives (get other (c.wait d s')) (c.holds (prefixed other) (c.wait d s)))

  -- What an accepted `set` of a key makes of a `get` that answers, d seconds later: the value while d
  -- is below the time to live, which is an hour when it is not given, then nothing; and for any other
  -- key what there is without the `set`.
  pub get-set :
      (key : Key) (value : c.Value) (ttl : Option ℕ) (s : c.Store)
      → SetSpec key value (or_default redis_default_ttl ttl) s (set key value ttl s)
  unfolding set get
  get-set key value ttl s =
      elim (c.setex_law (prefixed key) (or_default redis_default_ttl ttl) value s) [
        | inl e ↦ rw (e, set) tt
        | inr (s', e, live, dead, others) ↦
            rw (e, set)
              (λ d. (
                (λ h. gives (prefixed key) (c.wait d s') (some value) (live d h)),
                (λ h. gives (prefixed key) (c.wait d s') none (dead d h)),
                λ other n. gives (prefixed other) (c.wait d s') _ (
                    others (prefixed other) d
                      (λ f. n (cancel_prefix redis_key_prefix other key f))),
              ))
      ]
    where
      gives :
          (k : Key) (s : c.Store) (v : Option c.Value)
          → c.holds k s ≡ v
          → Gives (c.get_command k s) v
      gives k s v h = elim (c.get_law k s) [ inl e ↦ inl e | inr e ↦ inr (e ∙ ap some h) ]

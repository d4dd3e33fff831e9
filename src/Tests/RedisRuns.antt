-- ===== src/Tests/RedisRuns.antt =====
-- A redis client in memory, and a run of the redis service on it.
use web3_point_exchange.Common.{
  ℕ, ◌+◌, ◌<◌, ◌≤◌, ℤ, pos, ◌≡◌, ◌≢◌, refl, inl, inr, Bool, true, false, Option, none, some, [],
  ◌∷◌, ◌&&◌, ◌==◌, if◌then◌else◌, ltb, arith, Bool-cases,
}
use web3_point_exchange.Redis.{Key, RedisClient, SetSpec, set, get-set}

abbrev same_key : Key → Key → Bool
same_key [] [] = true
same_key [] (y ∷ ys) = false
same_key (x ∷ xs) [] = false
same_key (x ∷ xs) (y ∷ ys) = (x == y) && same_key xs ys

same_key_refl : (k : Key) → same_key k k ≡ true
same_key_refl [] = refl
same_key_refl (x ∷ xs) = ground (arith, same_key_refl xs)

same_key-true : (j k : Key) → same_key j k ≡ true → j ≡ k
same_key-true [] [] h = refl
same_key-true [] (y ∷ ys) h = cc
same_key-true (x ∷ xs) [] h = cc
same_key-true (x ∷ xs) (y ∷ ys) h = ground (arith, same_key-true xs ys)

same_key-false : (j k : Key) → j ≢ k → same_key j k ≡ false
same_key-false j k n = elim (Bool-cases (same_key j k)) [
  | inl t ↦ absurd (n (same_key-true j k t))
  | inr f ↦ f
]

-- The clock, and for each key its value with the time at which it expires.
abbrev Memory : Type 0
Memory = ℕ × (Key → Option (ℤ × ℕ))

abbrev live_value : ℕ → Option (ℤ × ℕ) → Option ℤ
live_value now none = none
live_value now (some (v, end)) = if ltb now end then some v else none

abbrev remember : Key → ℕ → ℤ → Memory → Memory
remember k ttl v (now, f) = (now, λ j. if same_key j k then some (v, now + ttl) else f j)

abbrev held : Key → Memory → Option ℤ
held k (now, f) = live_value now (f k)

abbrev later : ℕ → Memory → Memory
later d (now, f) = (now + d, f)

remember_live :
    (k : Key) (ttl : ℕ) (v : ℤ) (s : Memory) (d : ℕ)
    → d < ttl
    → held k (later d (remember k ttl v s)) ≡ some v
remember_live k ttl v (now, f) d h = rw (same_key_refl k) (ground arith)

remember_dead :
    (k : Key) (ttl : ℕ) (v : ℤ) (s : Memory) (d : ℕ)
    → ttl ≤ d
    → held k (later d (remember k ttl v s)) ≡ none
remember_dead k ttl v (now, f) d h = rw (same_key_refl k) (ground arith)

remember_others :
    (k : Key) (ttl : ℕ) (v : ℤ) (s : Memory) (j : Key) (d : ℕ)
    → j ≢ k
    → held j (later d (remember k ttl v s)) ≡ held j (later d s)
remember_others k ttl v (now, f) j d n = rw (same_key-false j k n) refl

-- A client that takes timed values only.
instance abbrev in_memory : RedisClient
in_memory = record {
  Store = Memory;
  Value = ℤ;
  wait = later;
  holds = held;
  setex_command = λ k ttl v s. some (remember k ttl v s);
  set_command = λ k v s. none;
  get_command = λ k s. some (held k s);
  del_command = λ k s. none;
  exists_command = λ k s. none;
  expire_command = λ k n s. none;
  get_law = λ k s. inr refl;
  setex_law = λ k ttl v s. inr (
    remember k ttl v s,
    refl,
    remember_live k ttl v s,
    remember_dead k ttl v s,
    remember_others k ttl v s,
  );
}

abbrev empty_memory : Memory
empty_memory = (0, λ k. none)

-- 'user'
abbrev user_key : Key
user_key = 117 ∷ 115 ∷ 101 ∷ 114 ∷ []

get-set_example :
    SetSpec user_key (pos 500) 3600 empty_memory (set user_key (pos 500) none empty_memory)
get-set_example = get-set user_key (pos 500) none empty_memory

-- ===== src/Tests/Sample.antt =====
-- A concrete platform for the tests, which rejects nothing.
use web3_point_exchange.Common.{
  ℕ, zero, suc, ◌+◌, ◌-◌, ◌*◌, ◌≤◌, ◌<◌, ℤ, pos, negsuc, ◌≡◌, refl, ◌⊎◌, inl, inr, Bool, true,
  false, none, some, List, [], ◌∷◌, ◌++◌, map, if◌then◌else◌, length, Has, Answers, first, select,
  set_where, contains, arith, Bool-cases,
}
use web3_point_exchange.Platform.{Platform, put}
use web3_point_exchange.World.Progress.{IsReliable}

abbrev pub take : {A : Type 0} → ℕ → List A → List A
take n [] = []
take zero (x ∷ xs) = []
take (suc n) (x ∷ xs) = x ∷ take n xs

abbrev pub drop : {A : Type 0} → ℕ → List A → List A
drop n [] = []
drop zero (x ∷ xs) = x ∷ xs
drop (suc n) (x ∷ xs) = drop n xs

pub first_law :
    {A : Type 0} (q : A → Bool) (rows : List A)
    → ((first q rows ≡ none) × Answers q false rows)
      ⊎ ((a : A) × (first q rows ≡ some a) × (q a ≡ true) × Has a rows)
first_law q [] = inl (refl, tt)
first_law q (x ∷ xs) = elim (Bool-cases (q x)) [
  | inl t ↦ rw t (inr (x, refl, t, inl refl))
  | inr f ↦ rw f (elim (first_law q xs) [
    | inl z ↦ inl (z.0, (refl, z.1))
    | inr (a, e, t, m) ↦ inr (a, e, t, inr m)
  ])
]

pub select_sound :
    {A : Type 0} (q : A → Bool) (rows : List A) (a : A)
    → Has a (select q rows)
    → Has a rows × (q a ≡ true)
select_sound q [] a m = absurd m
select_sound q (x ∷ xs) a m = cases (q x) refl (select_sound q xs a) m
  where
    cases :
        (b : Bool)
        → q x ≡ b
        → (Has a (select q xs) → Has a xs × (q a ≡ true))
        → Has a (if b then x ∷ select q xs else select q xs)
        → Has a (x ∷ xs) × (q a ≡ true)
    cases true t ih (inl e) = (inl e, rw e t)
    cases true t ih (inr n) = let (k, u) = ih n in (inr k, u)
    cases false t ih n = let (k, u) = ih n in (inr k, u)

pub select_complete :
    {A : Type 0} (q : A → Bool) (rows : List A) (a : A)
    → Has a rows
    → q a ≡ true
    → Has a (select q rows)
select_complete q [] a m t = m
select_complete q (x ∷ xs) a (inl e) t = rw (← e) (rw t (inl refl))
select_complete q (x ∷ xs) a (inr m) t = elim (Bool-cases (q x)) [
  | inl u ↦ rw u (inr (select_complete q xs a m t))
  | inr u ↦ rw u (select_complete q xs a m t)
]

pub Has-take : {A : Type 0} (n : ℕ) (xs : List A) (a : A) → Has a (take n xs) → Has a xs
Has-take n [] a m = m
Has-take zero (x ∷ xs) a m = absurd m
Has-take (suc n) (x ∷ xs) a (inl e) = inl e
Has-take (suc n) (x ∷ xs) a (inr m) = inr (Has-take n xs a m)

pub Has-drop : {A : Type 0} (n : ℕ) (xs : List A) (a : A) → Has a (drop n xs) → Has a xs
Has-drop n [] a m = m
Has-drop zero (x ∷ xs) a m = m
Has-drop (suc n) (x ∷ xs) a m = inr (Has-drop n xs a m)

pub length-take : {A : Type 0} (n : ℕ) (xs : List A) → length (take n xs) ≤ n
length-take n [] = omega arith
length-take zero (x ∷ xs) = omega arith
length-take (suc n) (x ∷ xs) = omega (arith, length-take n xs)

take_all : {A : Type 0} (n : ℕ) (xs : List A) → length xs ≤ n → take n xs ≡ xs
take_all n [] h = refl
take_all zero (x ∷ xs) h = absurd (omega arith)
take_all (suc n) (x ∷ xs) h = rw (take_all n xs (omega arith)) refl

drop_zero : {A : Type 0} (xs : List A) → drop 0 xs ≡ xs
drop_zero [] = refl
drop_zero (x ∷ xs) = refl

abbrev pub total : List ℕ → ℕ
total [] = 0
total (n ∷ ns) = n + total ns

pub above_total : (n : ℕ) (ns : List ℕ) → total ns < n → contains n ns ≡ false
above_total n [] h = refl
above_total n (m ∷ ms) h = ground (arith, above_total n ms)

-- `parseEther`, in wei.
abbrev pub wei : ℤ → ℤ
wei (pos n) = pos (n * 1000000000000000000)
wei (negsuc n) = negsuc ((suc n * 1000000000000000000) - 1)

pub page_complete-take :
    {A : Type 0} (q : A → Bool) (limit : ℕ) (rows : List A) (a : A)
    → length (select q rows) ≤ limit
    → Has a rows
    → q a ≡ true
    → Has a (take limit (drop 0 (select q rows)))
page_complete-take q limit rows a h m t =
    rw (drop_zero (select q rows))
      (rw (take_all limit (select q rows) h) (select_complete q rows a m t))

instance abbrev pub sample : Platform
sample = record {
  find_one = first;
  find_one_law = first_law;
  find = select;
  find_law = λ q rows a. (select_sound q rows a, select_complete q rows a);
  page =
      λ q key o skip limit rows. (take limit (drop skip (select q rows)), length (select q rows));
  page_sound = λ q key o skip limit rows a m.
      select_sound q rows a
        (Has-drop skip (select q rows) a (Has-take limit (drop skip (select q rows)) a m));
  page_limit = λ q key o skip limit rows h. length-take limit (drop skip (select q rows));
  page_total = λ q key o skip limit rows. refl;
  page_complete = λ q key o. page_complete-take q;
  insert = λ a rows. some (a ∷ rows);
  insert_law = λ a rows. inr refl;
  update = λ q f rows. some (map (set_where q f) rows);
  update_law = λ q f rows. inr refl;
  fresh = λ ns. suc (total ns);
  fresh_law = λ ns. above_total (suc (total ns)) ns (omega arith);
  redis_get = λ u c. some (c u);
  redis_get_law = λ u c. inr (inr refl);
  redis_setex = λ u v c. some (put u v c);
  redis_setex_law = λ u v c. inr refl;
  acquire = λ k held. some (k ∷ held);
  acquire_law = λ k held. inr refl;
  release = λ k held. elim held [ [] ↦ none | _ ∷ ks ↦ some ks ];
  release_law = λ k held. inr refl;
  emit = λ m sent. some (sent ++ (m ∷ []));
  emit_law = λ m sent. inr refl;
  chain_set_valid_user = λ a b. some 77;
  chain_balance_of = λ a. some (pos 5000000000000000000);
  parse_ether = wei;
}

pub sample-IsReliable : IsReliable ⦃p = sample⦄
sample-IsReliable = record {
  inserts = λ a rows. refl;
  updates = λ q f rows. refl;
  gets = λ u c. refl;
  sets = λ u v c. refl;
  acquires = λ k held. refl;
  releases = λ k held. refl;
  emits = λ m sent. refl;
}

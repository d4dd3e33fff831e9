-- ===== src/Polling/Groups.antt =====
-- `groupEventsByTransaction` against a description without a loop: the distinct hashes in the order
-- of their first logs, each with its logs.
use web3_point_exchange.Common.{
  ℕ, ◌≡◌, refl, sym, ap, ◌∙◌, inl, inr, Bool, true, false, not, List, [], ◌∷◌, ◌++◌, map, ◌==◌,
  ==_iff, subst, if◌then◌else◌, select, contains, arith, Bool-cases, append_assoc, append-nil,
}
use web3_point_exchange.Polling.Network.{Log}
use web3_point_exchange.Polling.Events.{Groups, push_log, push_logs, group_events_by_transaction}

abbrev pub differs : ℕ → ℕ → Bool
differs h k = not (h == k)

abbrev pub has_hash : ℕ → Log → Bool
has_hash h l = h == l.transaction_hash

abbrev pub hashes : List Log → List ℕ
hashes [] = []
hashes (l ∷ ls) = l.transaction_hash ∷ select (differs l.transaction_hash) (hashes ls)

abbrev pub group_of : List Log → ℕ → ℕ × List Log
group_of ls h = (h, select (has_hash h) ls)

abbrev pub grouped : List Log → Groups
grouped ls = map (group_of ls) (hashes ls)

-- The order of first occurrence, built from the other end.
abbrev add : ℕ → List ℕ → List ℕ
add h hs = if contains h hs then hs else hs ++ (h ∷ [])

abbrev IsDistinct : List ℕ → Type 0
IsDistinct [] = Unit
IsDistinct (h ∷ hs) = (contains h hs ≡ false) × IsDistinct hs

select-snoc :
    {A : Type 0} (q : A → Bool) (xs : List A) (a : A)
    → select q (xs ++ (a ∷ [])) ≡ (if q a then select q xs ++ (a ∷ []) else select q xs)
select-snoc q [] a = refl
select-snoc q (x ∷ xs) a = elim (Bool-cases (q x)) [
  | inl t ↦ rw t (rw (select-snoc q xs a) (push (q a)))
  | inr f ↦ rw f (select-snoc q xs a)
]
  where
    push :
        (b : Bool)
        → (x ∷ (if b then select q xs ++ (a ∷ []) else select q xs))
          ≡ (if b then (x ∷ select q xs) ++ (a ∷ []) else x ∷ select q xs)
    push true = refl
    push false = refl

==_refl : (h : ℕ) → (h == h) ≡ true
==_refl h = ground arith

==_sym : (h k : ℕ) → (h == k) ≡ (k == h)
==_sym h k = ground arith

contains-select_other :
    (h k : ℕ) (hs : List ℕ) → (h == k) ≡ false → contains h (select (differs k) hs) ≡ contains h hs
contains-select_other h k [] n = refl
contains-select_other h k (x ∷ xs) n = ground (arith, contains-select_other h k xs)

contains-select_same : (k : ℕ) (hs : List ℕ) → contains k (select (differs k) hs) ≡ false
contains-select_same k [] = refl
contains-select_same k (x ∷ xs) = ground (arith, contains-select_same k xs)

pub contains_parts :
    (h x : ℕ) (xs : List ℕ)
    → contains h (x ∷ xs) ≡ false
    → ((h == x) ≡ false) × (contains h xs ≡ false)
contains_parts h x xs n = ground arith

contains-select :
    (h : ℕ) (q : ℕ → Bool) (hs : List ℕ) → contains h hs ≡ false → contains h (select q hs) ≡ false
contains-select h q [] n = refl
contains-select h q (x ∷ xs) n =
    let (a, b) = contains_parts h x xs n in
    elim (Bool-cases (q x)) [
      | inl t ↦ rw t (rw a (contains-select h q xs b))
      | inr f ↦ rw f (contains-select h q xs b)
    ]

select-IsDistinct : (q : ℕ → Bool) (hs : List ℕ) → IsDistinct hs → IsDistinct (select q hs)
select-IsDistinct q [] d = tt
select-IsDistinct q (h ∷ hs) (n, d) = elim (Bool-cases (q h)) [
  | inl t ↦ rw t (contains-select h q hs n, select-IsDistinct q hs d)
  | inr f ↦ rw f (select-IsDistinct q hs d)
]

hashes-IsDistinct : (ls : List Log) → IsDistinct (hashes ls)
hashes-IsDistinct [] = tt
hashes-IsDistinct (l ∷ ls) = (
  contains-select_same l.transaction_hash (hashes ls),
  select-IsDistinct (differs l.transaction_hash) (hashes ls) (hashes-IsDistinct ls),
)

add_other : (h k : ℕ) (hs : List ℕ) → (h == k) ≡ false → add h (k ∷ hs) ≡ k ∷ add h hs
add_other h k hs n = rw n (push (contains h hs))
  where
    push :
        (b : Bool)
        → (if b then k ∷ hs else (k ∷ hs) ++ (h ∷ [])) ≡ k ∷ (if b then hs else hs ++ (h ∷ []))
    push true = refl
    push false = refl

select-add_same : (h : ℕ) (hs : List ℕ) → select (differs h) (add h hs) ≡ select (differs h) hs
select-add_same h hs = elim (Bool-cases (contains h hs)) [
  | inl t ↦ rw t refl
  | inr f ↦ rw f (rw (select-snoc (differs h) hs h) (rw (==_refl h) refl))
]

select-add_other :
    (h k : ℕ) (hs : List ℕ)
    → (h == k) ≡ false
    → select (differs k) (add h hs) ≡ add h (select (differs k) hs)
select-add_other h k hs n = rw (contains-select_other h k hs n) (elim (Bool-cases (contains h hs)) [
  | inl t ↦ rw t refl
  | inr f ↦ rw f (rw (select-snoc (differs k) hs h) (rw (==_sym k h, n) refl))
])

hashes-snoc :
    (ls : List Log) (l : Log) → hashes (ls ++ (l ∷ [])) ≡ add l.transaction_hash (hashes ls)
hashes-snoc [] l = refl
hashes-snoc (x ∷ xs) l =
    let h = l.transaction_hash in
    let k = x.transaction_hash in
    rw (hashes-snoc xs l) (elim (Bool-cases (h == k)) [
      | inl t ↦ rw t (
          ap (λ r. k ∷ r)
            (subst (λ j. select (differs j) (add h (hashes xs)) ≡ select (differs j) (hashes xs))
              ((==_iff h k).0 t) (select-add_same h (hashes xs))))
      | inr f ↦
          ap (λ r. k ∷ r) (select-add_other h k (hashes xs) f)
          ∙ sym (add_other h k (select (differs k) (hashes xs)) f)
    ])

select_none : (h : ℕ) (ls : List Log) → contains h (hashes ls) ≡ false → select (has_hash h) ls ≡ []
select_none h [] n = refl
select_none h (l ∷ ls) n =
    let k = l.transaction_hash in
    let (a, b) = contains_parts h k (select (differs k) (hashes ls)) n in
    rw a (select_none h ls (sym (contains-select_other h k (hashes ls) a) ∙ b))

group_of-other :
    (ls : List Log) (l : Log) (k : ℕ)
    → (k == l.transaction_hash) ≡ false
    → group_of (ls ++ (l ∷ [])) k ≡ group_of ls k
group_of-other ls l k n = ap (λ r. (k, r)) (select-snoc (has_hash k) ls l ∙ rw n refl)

group_of-others :
    (ls : List Log) (l : Log) (hs : List ℕ)
    → contains l.transaction_hash hs ≡ false
    → map (group_of ls) hs ≡ map (group_of (ls ++ (l ∷ []))) hs
group_of-others ls l [] n = refl
group_of-others ls l (k ∷ ks) n =
    let (a, b) = contains_parts l.transaction_hash k ks n in
    rw (group_of-other ls l k (==_sym k l.transaction_hash ∙ a))
      (rw (group_of-others ls l ks b) refl)

push_log-map :
    (ls : List Log) (l : Log) (hs : List ℕ)
    → IsDistinct hs
    → (contains l.transaction_hash hs ≡ false → select (has_hash l.transaction_hash) ls ≡ [])
    → push_log l (map (group_of ls) hs)
      ≡ map (group_of (ls ++ (l ∷ []))) (add l.transaction_hash hs)
unfolding push_log
push_log-map ls l [] d none =
    let h = l.transaction_hash in
    ap (λ r. (h, r) ∷ [])
      (sym (select-snoc (has_hash h) ls l ∙ rw (==_refl h) (rw (none refl) refl)))
push_log-map ls l (k ∷ ks) (n, d) none = elim (Bool-cases (k == l.transaction_hash)) [
  | inl t ↦
      let others = subst (λ j. contains j ks ≡ false) ((==_iff k l.transaction_hash).0 t) n in
      rw (==_sym l.transaction_hash k, t, push_log)
        (ap (λ r. (k, r) ∷ map (group_of ls) ks) (sym (select-snoc (has_hash k) ls l ∙ rw t refl))
          ∙ ap (λ r. group_of (ls ++ (l ∷ [])) k ∷ r) (group_of-others ls l ks others))
  | inr f ↦
      let g = ==_sym l.transaction_hash k ∙ f in
      rw (f, push_log)
        (ap (λ r. group_of ls k ∷ r) (push_log-map ls l ks d (λ c. none (rw (g) c)))
          ∙ ap (λ r. r ∷ map (group_of (ls ++ (l ∷ []))) (add l.transaction_hash ks))
              (sym (group_of-other ls l k f))
          ∙ ap (map (group_of (ls ++ (l ∷ [])))) (sym (add_other l.transaction_hash k ks g)))
]

push_logs-grouped : (pre ls : List Log) → push_logs (grouped pre) ls ≡ grouped (pre ++ ls)
unfolding push_logs
push_logs-grouped pre [] = ap grouped (sym (append-nil pre))
push_logs-grouped pre (l ∷ ls) =
    ap (λ g. push_logs g ls)
      (push_log-map pre l (hashes pre) (hashes-IsDistinct pre) (select_none l.transaction_hash pre)
        ∙ ap (map (group_of (pre ++ (l ∷ [])))) (sym (hashes-snoc pre l)))
    ∙ push_logs-grouped (pre ++ (l ∷ [])) ls
    ∙ ap grouped (append_assoc pre (l ∷ []) ls)

-- The groups that the loop makes of some logs are those of the description: the distinct hashes in
-- the order of their first logs, each with all its logs in their order.
pub group_events-eq : (logs : List Log) → group_events_by_transaction logs ≡ grouped logs
unfolding group_events_by_transaction
group_events-eq logs = push_logs-grouped [] logs

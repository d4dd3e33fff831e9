-- ===== src/Platform/Found.antt =====
-- What the row that a query answers with is known to meet.
use web3_point_exchange.Common.{
  ◌≡◌, subst, inl, inr, Bool, true, false, none, some, List, [], ◌∷◌, Has, Answers,
}
use web3_point_exchange.Platform.{Platform}

pub Answers-Has :
    {A : Type 0} (q : A → Bool) (a : A) (rows : List A)
    → Answers q false rows
    → Has a rows
    → q a ≡ false
Answers-Has q a [] h m = absurd m
Answers-Has q a (x ∷ xs) h (inl e) = rw e h.0
Answers-Has q a (x ∷ xs) h (inr m) = Answers-Has q a xs h.1 m

module _ ⦃p : Platform⦄ {A : Type 0} (q : A → Bool) (rows : List A) where
  -- It passes the filter and stands in the table.
  pub found : {a : A} → p.find_one q rows ≡ some a → (q a ≡ true) × Has a rows
  found {a} e = elim (p.find_one_law q rows) [
    | inl (n, _) ↦ cc
    | inr (b, f, t, m) ↦
        let same : b ≡ a = cc in (subst (λ x. q x ≡ true) same t, subst (λ x. Has x rows) same m)
  ]

  -- Nothing is found where nothing matches.
  pub find_one-eq-none : Answers q false rows → p.find_one q rows ≡ none
  find_one-eq-none h = elim (p.find_one_law q rows) [
    | inl (e, _) ↦ e
    | inr (a, e, t, m) ↦ cc (Answers-Has q a rows h m)
  ]

-- ===== src/Frontend/PointLaws.antt =====
-- What usePoint (frontend/app/components/hooks/usePoint.ts) shows while its requests are on their way.
use web3_point_exchange.Common.{
  ℕ, zero, suc, Bool, true, false, ◌||◌, ◌&&◌, ltb, not, Option, none, some, some_inj, List, [],
  ◌∷◌, ◌++◌, ◌≡◌, refl, ap, subst, ◌∙◌, Bool-cases, inl, inr, ◌⊎◌, arith,
}
use web3_point_exchange.Frontend.{
  no_user, PointOption, PointError, PointActionState, PointAction, granting, consuming, PointServer,
  PendingAnswer, PointHook, loading_state, succeeded_state, idle_state, failed_state, set_action,
  shown_status, settle_action, post_points, amount_field, handle_points, handle_grant_points,
  handle_consume_points, press_grant, press_consume, take_at, settle_taken, arrive, reset_status,
}

abbrev same_action : PointAction → PointAction → Bool
same_action granting granting = true
same_action granting consuming = false
same_action consuming granting = false
same_action consuming consuming = true

-- An answer of the action is on its way.
abbrev pub awaits : PointAction → List PendingAnswer → Bool
awaits a [] = false
awaits a (p ∷ ps) = same_action a p.action || awaits a ps

-- A status is one of four, and one that is loading has an answer on its way.
abbrev pub StatusSound : Bool → PointActionState → Type 0
StatusSound waiting s =
    (s ≡ idle_state)
    ⊎ (s ≡ succeeded_state)
    ⊎ ((e : PointError) × (s ≡ failed_state e))
    ⊎ ((s ≡ loading_state) × (waiting ≡ true))

abbrev pub HookSound : PointHook → Type 0
HookSound h = (a : PointAction) → StatusSound (awaits a h.pending) (shown_status a h)

same_action_refl : (a : PointAction) → same_action a a ≡ true
same_action_refl granting = refl
same_action_refl consuming = refl

awaits-append :
    (a : PointAction) (ps : List PendingAnswer) (p : PendingAnswer)
    → awaits a (ps ++ (p ∷ [])) ≡ awaits a ps || same_action a p.action
awaits-append a [] p = ground arith
awaits-append a (q ∷ ps) p = let e = awaits-append a ps p in ground arith

awaits-take :
    (a : PointAction) (n : ℕ) (ps rest : List PendingAnswer) (p : PendingAnswer)
    → take_at n ps ≡ some (p, rest)
    → awaits a ps ≡ same_action a p.action || awaits a rest
awaits-take a n [] rest p e = cc
awaits-take a zero (q ∷ ps) rest p e =
    ap (λ x. same_action a x.0.action || awaits a x.1) (some_inj.0 e)
awaits-take a (suc n) (q ∷ ps) rest p e = go (take_at n ps) (λ b bs t. awaits-take a n ps bs b t) e
  where
    go :
        (o : Option (PendingAnswer × List PendingAnswer))
        → ((b : PendingAnswer) (bs : List PendingAnswer)
            → o ≡ some (b, bs)
            → awaits a ps ≡ same_action a b.action || awaits a bs)
        → ◌≡◌ {A = Option (PendingAnswer × List PendingAnswer)}
            (elim o [ none ↦ none | some (b, bs) ↦ some (b, q ∷ bs) ])
            (some (p, rest))
        → awaits a (q ∷ ps) ≡ same_action a p.action || awaits a rest
    go none t e = cc
    go (some (b, bs)) t e =
        let k = t b bs refl in
        let swapped : (x y z w : Bool) → w ≡ y || z → x || w ≡ y || (x || z) =
          λ x y z w. ground arith in
        swapped (same_action a q.action) (same_action a b.action) (awaits a bs) (awaits a ps) k
        ∙ ap (λ x. same_action a x.0.action || awaits a x.1) (some_inj.0 e)

more_waiting :
    (x y : Bool) (s : PointActionState) → (x ≡ true → y ≡ true) → StatusSound x s → StatusSound y s
more_waiting x y s f (inl e) = inl e
more_waiting x y s f (inr (inl e)) = inr (inl e)
more_waiting x y s f (inr (inr (inl e))) = inr (inr (inl e))
more_waiting x y s f (inr (inr (inr (e, w)))) = inr (inr (inr (e, f w)))

-- A status that is set to one that does not load.
set_action-HookSound :
    (a : PointAction) (t : PointActionState) (h : PointHook)
    → StatusSound false t
    → HookSound h
    → HookSound (set_action a t h)
set_action-HookSound granting t h k s granting =
    more_waiting false (awaits granting h.pending) t (λ e. cc) k
set_action-HookSound granting t h k s consuming = s consuming
set_action-HookSound consuming t h k s granting = s granting
set_action-HookSound consuming t h k s consuming =
    more_waiting false (awaits consuming h.pending) t (λ e. cc) k

abbrev started : PointAction → PendingAnswer → PointHook → PointHook
started a p h =
    let k : PointHook = set_action a loading_state h in record k { pending = k.pending ++ (p ∷ []) }

awaits-new :
    (a : PointAction) (ps : List PendingAnswer) (o : Option PointError)
    → awaits a (ps ++ (record { action = a; outcome = o } ∷ [])) ≡ true
awaits-new a ps o =
    awaits-append a ps (record { action = a; outcome = o })
    ∙ ap (λ x. awaits a ps || x) (same_action_refl a)
    ∙ (ground arith)

awaits-more :
    (a : PointAction) (ps : List PendingAnswer) (p : PendingAnswer)
    → awaits a ps ≡ true
    → awaits a (ps ++ (p ∷ [])) ≡ true
awaits-more a ps p e = awaits-append a ps p ∙ ap (λ x. x || same_action a p.action) e

started-HookSound :
    (a : PointAction) (o : Option PointError) (h : PointHook)
    → HookSound h
    → HookSound (started a (record { action = a; outcome = o }) h)
started-HookSound granting o h s granting = inr (inr (inr (refl, awaits-new granting h.pending o)))
started-HookSound granting o h s consuming =
    more_waiting _ _ h.consume_status (awaits-more consuming h.pending _) (s consuming)
started-HookSound consuming o h s granting =
    more_waiting _ _ h.grant_status (awaits-more granting h.pending _) (s granting)
started-HookSound consuming o h s consuming =
    inr (inr (inr (refl, awaits-new consuming h.pending o)))

settled-HookSound :
    (a : PointAction) (o : Option PointError) (h : PointHook) (rest : List PendingAnswer)
    → ((b : PointAction) → awaits b h.pending ≡ same_action b a || awaits b rest)
    → HookSound h
    → HookSound (settle_action a o (record h { pending = rest }))
unfolding settle_action
settled-HookSound granting none h rest w s granting = inr (inl refl)
settled-HookSound granting none h rest w s consuming =
    subst (λ x. StatusSound x h.consume_status) (w consuming) (s consuming)
settled-HookSound granting (some e) h rest w s granting = inr (inr (inl (e, refl)))
settled-HookSound granting (some e) h rest w s consuming =
    subst (λ x. StatusSound x h.consume_status) (w consuming) (s consuming)
settled-HookSound consuming none h rest w s consuming = inr (inl refl)
settled-HookSound consuming none h rest w s granting =
    subst (λ x. StatusSound x h.grant_status) (w granting) (s granting)
settled-HookSound consuming (some e) h rest w s consuming = inr (inr (inl (e, refl)))
settled-HookSound consuming (some e) h rest w s granting =
    subst (λ x. StatusSound x h.grant_status) (w granting) (s granting)

arrive-HookSound : (n : ℕ) (h : PointHook) → HookSound h → HookSound (arrive n h)
unfolding arrive
arrive-HookSound n h s = go (take_at n h.pending) refl
  where
    go :
        (o : Option (PendingAnswer × List PendingAnswer))
        → take_at n h.pending ≡ o
        → HookSound (settle_taken o h)
    go none e = s
    go (some (p, rest)) e =
        settled-HookSound p.action p.outcome h rest (λ b. awaits-take b n h.pending rest p e) s

-- What may happen to the hook: the button for grants or the one for consumptions is pressed, an
-- answer arrives, a status is cleared.
pub data PointOp : Type 0 where
  grants : Option PointOption → PointOp
  consumes : Option PointOption → ℕ → PointOp
  arrives : ℕ → PointOp
  clears : PointAction → PointOp

module _ ⦃s : PointServer⦄ where
  abbrev pub do_point_op : PointOp → PointHook → s.Outside → PointHook × s.Outside
  do_point_op (grants option) h o = press_grant option h o
  do_point_op (consumes option balance) h o = press_consume option balance h o
  do_point_op (arrives n) h o = (arrive n h, o)
  do_point_op (clears a) h o = (reset_status a h, o)

  abbrev pub do_point_ops : List PointOp → PointHook → s.Outside → PointHook × s.Outside
  do_point_ops [] h o = (h, o)
  do_point_ops (op ∷ ops) h o = let (h', o') = do_point_op op h o in do_point_ops ops h' o'

  handle_points-HookSound :
      (a : PointAction) (id : Option ℕ) (option : PointOption) (h : PointHook) (o : s.Outside)
      → HookSound h
      → HookSound (handle_points a id option h o).0
  handle_points-HookSound a none option h o k =
      set_action-HookSound a (failed_state no_user) h (inr (inr (inl (no_user, refl)))) k
  handle_points-HookSound a (some zero) option h o k =
      set_action-HookSound a (failed_state no_user) h (inr (inr (inl (no_user, refl)))) k
  handle_points-HookSound a (some (suc n)) option h o k =
      started-HookSound a
        (post_points
          (record {
            action = a;
            user_point_id = suc n;
            amount = amount_field a option.amount;
            type = option.type;
          })
          o).0
        h k

  op-HookSound :
      (op : PointOp) (h : PointHook) (o : s.Outside)
      → HookSound h
      → HookSound (do_point_op op h o).0
  unfolding press_grant press_consume handle_grant_points handle_consume_points reset_status
  op-HookSound (grants none) h o k = k
  op-HookSound (grants (some option)) h o k = elim (Bool-cases (not h.grant_status.is_loading)) [
    | inl e ↦ rw e (handle_points-HookSound granting h.user_point_id option h o k)
    | inr e ↦ rw e k
  ]
  op-HookSound (consumes none balance) h o k = k
  op-HookSound (consumes (some option) balance) h o k =
      elim (Bool-cases (not h.consume_status.is_loading && not (ltb balance option.amount))) [
        | inl e ↦ rw e (handle_points-HookSound consuming h.user_point_id option h o k)
        | inr e ↦ rw e k
      ]
  op-HookSound (arrives n) h o k = arrive-HookSound n h k
  op-HookSound (clears a) h o k = set_action-HookSound a idle_state h (inl refl) k

  -- When the status of a grant and that of a consumption are each idle, a success, a failure, or
  -- loading with an answer on its way, they are so after any presses of the buttons, answers in
  -- any order and resets, whatever the server answers: a status is never both a success and a
  -- failure, and with no answer on its way none is loading.
  pub do_point_ops-HookSound :
      (ops : List PointOp) (h : PointHook) (o : s.Outside)
      → HookSound h
      → HookSound (do_point_ops ops h o).0
  do_point_ops-HookSound [] h o k = k
  do_point_ops-HookSound (op ∷ ops) h o k =
      do_point_ops-HookSound ops (do_point_op op h o).0 (do_point_op op h o).1
        (op-HookSound op h o k)

-- ===== src/Api/Shadow.antt =====
-- The route of a point stands before that of the balance, and takes its path.
use web3_point_exchange.Common.{
  map, ◌≡◌, refl, sym, ap, ◌∙◌, ◌≢◌, ◌⊎◌, inl, inr, Bool, true, false, some, some_inj, List, [],
  ◌∷◌, ◌++◌, first, Has, ◌&&◌, arith, if◌then◌else◌,
}
use web3_point_exchange.Api.Routes.{
  Word, Segment, ParamName, lit, param, Method, get, post, of_point, PointHandler, Route, routes,
  path_matches, route_matches, is_word, api, point, v1, user_points, user_point_id, point_path,
  under, balance,
}

abbrev pub balance_route : Route
balance_route = record {
  method = get;
  path = under (lit user_points ∷ lit balance ∷ []);
  handler = of_point PointHandler.get_point_balance;
}

abbrev pub point_route : Route
point_route = record {
  method = get;
  path = under (point_path []);
  handler = of_point PointHandler.get_user_point;
}

pub first_sound :
    (q : Route → Bool) (rs : List Route) (r : Route) → first q rs ≡ some r → Has r rs × (q r ≡ true)
first_sound q [] r e = cc
first_sound q (x ∷ xs) r e = go (q x) refl e (first_sound q xs r)
  where
    go :
        (b : Bool)
        → q x ≡ b
        → (if b then some x else first q xs) ≡ some r
        → (first q xs ≡ some r → Has r xs × (q r ≡ true))
        → Has r (x ∷ xs) × (q r ≡ true)
    go true t f ih = (inl (sym (some_inj.0 f)), ap q (sym (some_inj.0 f)) ∙ t)
    go false t f ih = let (m, u) = ih f in (inr m, u)

pub and_mono : (a b c : Bool) → (a && b) ≡ true → (b ≡ true → c ≡ true) → (a && c) ≡ true
and_mono true b c h f = f h
and_mono false b c h f = h

pub and_right : (a b : Bool) → (a && b) ≡ true → b ≡ true
and_right true b h = h
and_right false b h = cc

-- A parameter matches where a literal does.
pub loosened :
    (pre : List Word) (w : Word) (n : ParamName) (path : List Segment)
    → path_matches (map lit pre ++ (lit w ∷ [])) path ≡ true
    → path_matches (map lit pre ++ (param n ∷ [])) path ≡ true
loosened [] w n [] h = h
loosened [] w n (s ∷ ss) h = and_right (is_word w s) (path_matches [] ss) h
loosened (v ∷ pre) w n [] h = h
loosened (v ∷ pre) w n (s ∷ ss) h = and_mono (is_word v s) _ _ h (loosened pre w n ss)

pub point_route_matches :
    (m : Method) (path : List Segment)
    → route_matches m path balance_route ≡ true
    → route_matches m path point_route ≡ true
point_route_matches get path h =
    loosened (api ∷ point ∷ v1 ∷ user_points ∷ []) balance user_point_id path h
point_route_matches post path h = cc

pub only_balance :
    (r : Route)
    → Has r routes
    → r.handler ≡ of_point PointHandler.get_point_balance
    → r ≡ balance_route
only_balance r m e = ground arith

abbrev pub Shadowed : Route → Type 0
Shadowed r = r.handler ≢ of_point PointHandler.get_point_balance

-- The first match is the head of the list, or the head does not match.
pub first-split :
    (q : Route → Bool) (x : Route) (xs : List Route) (r : Route)
    → first q (x ∷ xs) ≡ some r
    → (x ≡ r) ⊎ ((q x ≡ false) × (first q xs ≡ some r))
first-split q x xs r e = go (q x) refl e
  where
    go :
        (b : Bool)
        → q x ≡ b
        → (if b then some x else first q xs) ≡ some r
        → (x ≡ r) ⊎ ((q x ≡ false) × (first q xs ≡ some r))
    go true t f = inl (some_inj.0 f)
    go false t f = inr (t, f)

pub first-third :
    (q : Route → Bool) (x y z : Route) (rest : List Route) (r : Route)
    → q z ≡ true
    → first q (x ∷ y ∷ z ∷ rest) ≡ some r
    → (x ≡ r) ⊎ (y ≡ r) ⊎ (z ≡ r)
first-third q x y z rest r t e = elim (first-split q x (y ∷ z ∷ rest) r e) [
  | inl a ↦ inl a
  | inr (_, f) ↦ elim (first-split q y (z ∷ rest) r f) [
    | inl a ↦ inr (inl a)
    | inr (_, g) ↦ elim (first-split q z rest r g) [ inl a ↦ inr (inr a) | inr (u, _) ↦ cc ]
  ]
]

-- What `routes` is, up to the route of a point.
abbrev pub HasPrefix : List Route → Type 0
HasPrefix rs =
    (x y : Route) × (rest : List Route) × (rs ≡ x ∷ y ∷ point_route ∷ rest)
    × Shadowed x
    × Shadowed y

pub routes-HasPrefix : HasPrefix routes
routes-HasPrefix = (_, _, _, refl, (λ e. cc), (λ e. cc))

pub first-Shadowed :
    (q : Route → Bool) (r : Route) → q point_route ≡ true → first q routes ≡ some r → Shadowed r
first-Shadowed q r t e h =
    let (x, y, rest, f, a, b) = routes-HasPrefix in
    elim (first-third q x y point_route rest r t (ap (first q) (sym f) ∙ e)) [
      | inl i ↦ a (ap (λ r. r.handler) i ∙ h)
      | inr (inl i) ↦ b (ap (λ r. r.handler) i ∙ h)
      | inr (inr i) ↦ cc
    ]

-- ===== src/Polling/Requests.antt =====
-- Every log of some lists is in the request of a job, and an answered request delivers it.
use web3_point_exchange.Common.{
  ℕ, ◌≡◌, refl, sym, ap, subst, ◌∙◌, inl, inr, Option, none, some, List, [], ◌∷◌, ◌++◌, map, Has,
  arith, Has-select, Has-map, Has-left, Has-right, some_inj, Bool-cases, ◌==◌, ==_iff,
}
use web3_point_exchange.Polling.Network.{
  Outside, EventName, point_deposited, point_withdrawn, valid_user_set, Log, Endpoint,
  point_to_token_process, token_to_point_process, Request, point_events, valid_user, PointEventLog,
  ValidUserEventLog,
}
use web3_point_exchange.Polling.Events.{
  parse_event_log, parse_event_logs, parse_valid_user_event_log,
}
use web3_point_exchange.Polling.Groups.{grouped, group_of, hashes, has_hash, differs}
use web3_point_exchange.Polling.Jobs.{
  Job, group, single, jobs, request_of, events_request, valid_user_request,
}
use web3_point_exchange.Polling.Delivery.{AllOf}

-- The job that has the log, for an event of its name.
abbrev pub JobHas : EventName → Log → Job → Type 0
JobHas point_deposited l (group e (h, ls)) =
    (e ≡ point_to_token_process) × (h ≡ l.transaction_hash) × Has l ls
JobHas point_withdrawn l (group e (h, ls)) =
    (e ≡ token_to_point_process) × (h ≡ l.transaction_hash) × Has l ls
JobHas valid_user_set l (group e g) = ⊥
JobHas point_deposited l (single k) = ⊥
JobHas point_withdrawn l (single k) = ⊥
JobHas valid_user_set l (single k) = l ≡ k

hashes-Has : (l : Log) (ls : List Log) → Has l ls → Has l.transaction_hash (hashes ls)
hashes-Has l [] m = absurd m
hashes-Has l (x ∷ xs) (inl e) = inl (ap (λ r. r.transaction_hash) e)
hashes-Has l (x ∷ xs) (inr m) = elim (Bool-cases (x.transaction_hash == l.transaction_hash)) [
  | inl t ↦ inl (sym ((==_iff x.transaction_hash l.transaction_hash).0 t))
  | inr f ↦ inr (
      Has-select (differs x.transaction_hash) l.transaction_hash (hashes xs) (hashes-Has l xs m)
        (rw f refl))
]

group_of-Has : (l : Log) (ls : List Log) → Has l ls → Has l (group_of ls l.transaction_hash).1
group_of-Has l ls m = Has-select (has_hash l.transaction_hash) l ls m (ground arith)

grouped-Has :
    (l : Log) (ls : List Log) → Has l ls → Has (group_of ls l.transaction_hash) (grouped ls)
grouped-Has l ls m = Has-map (group_of ls) l.transaction_hash (hashes ls) (hashes-Has l ls m)

abbrev pub found_of : List Log → List Log → List Log → EventName → List Log
found_of d w v point_deposited = d
found_of d w v point_withdrawn = w
found_of d w v valid_user_set = v

pub jobs-JobHas :
    (e : EventName) (l : Log) (d w v : List Log)
    → Has l (found_of d w v e)
    → (j : Job) × Has j (jobs d w v) × JobHas e l j
jobs-JobHas point_deposited l d w v m =
    let g = group point_to_token_process in
    let k = group_of d l.transaction_hash in
    (
      g k,
      Has-left (g k) _ _ (Has-map g k (grouped d) (grouped-Has l d m)),
      (refl, refl, group_of-Has l d m),
    )
jobs-JobHas point_withdrawn l d w v m =
    let g = group token_to_point_process in
    let k = group_of w l.transaction_hash in
    (
      g k,
      Has-right (g k) (map (group point_to_token_process) (grouped d)) _
          (Has-left (g k) _ _ (Has-map g k (grouped w) (grouped-Has l w m))),
      (refl, refl, group_of-Has l w m),
    )
jobs-JobHas valid_user_set l d w v m = (
  single l,
  Has-right (single l) (map (group point_to_token_process) (grouped d)) _ (
      Has-right (single l) (map (group token_to_point_process) (grouped w)) _
        (Has-map single l v m)),
  refl,
)

module _ ⦃o : Outside⦄ where
  -- An answered request to the endpoint is for the transaction of the log and has what it parses to.
  abbrev pub PointDelivered : Endpoint → Log → List Request → Type 0
  PointDelivered e l done =
      (event : PointEventLog) × (events : List PointEventLog) × (parse_event_log l ≡ some event)
      × Has event events
      × Has (point_events e (record { transaction_hash = l.transaction_hash; event_logs = events }))
          done

  abbrev pub Delivered : EventName → Log → List Request → Type 0
  Delivered point_deposited l done = PointDelivered point_to_token_process l done
  Delivered point_withdrawn l done = PointDelivered token_to_point_process l done
  Delivered valid_user_set l done =
      (v : ValidUserEventLog) × (parse_valid_user_event_log l ≡ some v)
      × Has (valid_user (record { wallet_address = v.wallet_address; is_valid = v.is_valid })) done

  parse_event_logs-Has :
      (l : Log) (ls : List Log) (es : List PointEventLog)
      → Has l ls
      → parse_event_logs ls ≡ some es
      → (e : PointEventLog) × (parse_event_log l ≡ some e) × Has e es
  unfolding parse_event_logs
  parse_event_logs-Has l [] es m f = absurd m
  parse_event_logs-Has l (x ∷ xs) es m f =
      go (parse_event_log x) (parse_event_logs xs) refl refl m f (parse_event_logs-Has l xs)
    where
      go :
          (a : Option PointEventLog) (b : Option (List PointEventLog))
          → parse_event_log x ≡ a
          → parse_event_logs xs ≡ b
          → Has l (x ∷ xs)
          → (elim a [ none ↦ none | some e ↦ elim b [ none ↦ none | some fs ↦ some (e ∷ fs) ] ])
            ≡ some es
          → ((fs : List PointEventLog)
              → Has l xs
              → parse_event_logs xs ≡ some fs
              → (e : PointEventLog) × (parse_event_log l ≡ some e) × Has e fs)
          → (e : PointEventLog) × (parse_event_log l ≡ some e) × Has e es
      go none b p q n g ih = cc
      go (some e) none p q n g ih = cc
      go (some e) (some fs) p q (inl i) g ih =
          (e, ap parse_event_log i ∙ p, subst (Has e) (some_inj.0 g) (inl refl))
      go (some e) (some fs) p q (inr i) g ih =
          let (c, h, k) = ih fs i q in (c, h, subst (Has c) (some_inj.0 g) (inr k))

  pub AllOf-Has :
      (j : Job) (js : List Job) (rs : List Request)
      → Has j js
      → AllOf js rs
      → (r : Request) × Has r rs × (request_of j ≡ some r)
  AllOf-Has j [] rs m all = absurd m
  AllOf-Has j (k ∷ ks) [] m all = absurd all
  AllOf-Has j (k ∷ ks) (r ∷ rs) (inl e) (h, all) = (r, inl refl, ap request_of e ∙ h)
  AllOf-Has j (k ∷ ks) (r ∷ rs) (inr m) (h, all) =
      let (q, n, g) = AllOf-Has j ks rs m all in (q, inr n, g)

  PointDelivered-request :
      (e : Endpoint) (l : Log) (h : ℕ) (ls : List Log) (r : Request) (done : List Request)
      → h ≡ l.transaction_hash
      → Has l ls
      → request_of (group e (h, ls)) ≡ some r
      → Has r done
      → PointDelivered e l done
  PointDelivered-request e l h ls r done i m f n = go (parse_event_logs ls) refl f
    where
      go :
          (p : Option (List PointEventLog))
          → parse_event_logs ls ≡ p
          → events_request e h p ≡ some r
          → PointDelivered e l done
      go none q g = cc
      go (some es) q g =
          let (c, a, b) = parse_event_logs-Has l ls es m q in
          (
            c,
            es,
            a,
            b,
            subst
                (λ k. Has (point_events e (record { transaction_hash = k; event_logs = es })) done)
                i (subst (λ s. Has s done) (sym (some_inj.0 g)) n),
          )

  pub Delivered-request :
      (e : EventName) (l : Log) (j : Job) (r : Request) (done : List Request)
      → JobHas e l j
      → request_of j ≡ some r
      → Has r done
      → Delivered e l done
  Delivered-request point_deposited l (group e (h, ls)) r done (a, b, m) f n =
      subst (λ x. PointDelivered x l done) a (PointDelivered-request e l h ls r done b m f n)
  Delivered-request point_withdrawn l (group e (h, ls)) r done (a, b, m) f n =
      subst (λ x. PointDelivered x l done) a (PointDelivered-request e l h ls r done b m f n)
  Delivered-request valid_user_set l (group e g) r done m f n = absurd m
  Delivered-request point_deposited l (single k) r done m f n = absurd m
  Delivered-request point_withdrawn l (single k) r done m f n = absurd m
  Delivered-request valid_user_set l (single k) r done m f n =
      go (parse_valid_user_event_log k) refl f
    where
      go :
          (p : Option ValidUserEventLog)
          → parse_valid_user_event_log k ≡ p
          → valid_user_request p ≡ some r
          → Delivered valid_user_set l done
      go none q g = cc
      go (some v) q g =
          (v, ap parse_valid_user_event_log m ∙ q, subst (λ s. Has s done) (sym (some_inj.0 g)) n)

  pub Delivered-later :
      (e : EventName) (l : Log) (done more : List Request)
      → Delivered e l done
      → Delivered e l (done ++ more)
  Delivered-later point_deposited l done more (c, es, a, b, m) =
      (c, es, a, b, Has-left _ done more m)
  Delivered-later point_withdrawn l done more (c, es, a, b, m) =
      (c, es, a, b, Has-left _ done more m)
  Delivered-later valid_user_set l done more (v, a, m) = (v, a, Has-left _ done more m)

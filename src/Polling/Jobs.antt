-- ===== src/Polling/Jobs.antt =====
-- `processEvents` as one list of jobs, a request each, done in order until one of them throws.
use web3_point_exchange.Common.{
  ℕ, ◌≡◌, refl, sym, ap, ◌∙◌, Option, none, some, List, [], ◌∷◌, ◌++◌, map,
}
use web3_point_exchange.Polling.Network.{
  Outside, Log, Endpoint, point_to_token_process, token_to_point_process, Request, point_events,
  valid_user, PointEventLog, ValidUserEventLog,
}
use web3_point_exchange.Polling.Events.{Groups, parse_event_logs, parse_valid_user_event_log}
use web3_point_exchange.Polling.Deliver.{
  Link, Attempt, and_then, log_answer, send_event_to_server, send_valid_user_event_to_server,
  send_groups, send_point_logs, send_valid_user_logs, send_logs,
}
use web3_point_exchange.Polling.Groups.{grouped, group_events-eq}

pub data Job : Type 0 where
  group : Endpoint → ℕ × List Log → Job
  single : Log → Job

-- What a range of blocks with these logs asks for, in order.
abbrev pub jobs : List Log → List Log → List Log → List Job
jobs deposited withdrawn valid =
    map (group point_to_token_process) (grouped deposited)
    ++ (map (group token_to_point_process) (grouped withdrawn) ++ map single valid)

module _ ⦃o : Outside⦄ where
  abbrev pub events_request : Endpoint → ℕ → Option (List PointEventLog) → Option Request
  events_request e hash none = none
  events_request e hash (some es) =
      some (point_events e (record { transaction_hash = hash; event_logs = es }))

  abbrev pub valid_user_request : Option ValidUserEventLog → Option Request
  valid_user_request none = none
  valid_user_request (some v) =
      some (valid_user (record { wallet_address = v.wallet_address; is_valid = v.is_valid }))

  abbrev pub request_of : Job → Option Request
  request_of (group e (hash, logs)) = events_request e hash (parse_event_logs logs)
  request_of (single l) = valid_user_request (parse_valid_user_event_log l)

  abbrev pub send_request : Request → Link → Attempt
  send_request r s = log_answer r s.answered (o.post r s.server)

  abbrev pub do_job : Option Request → (Link → Attempt) → Link → Attempt
  do_job none rest s = (none, s)
  do_job (some r) rest s = and_then (send_request r s) rest

  abbrev pub do_jobs : List Job → Link → Attempt
  do_jobs [] s = (some tt, s)
  do_jobs (j ∷ js) s = do_job (request_of j) (do_jobs js) s

  and_then_assoc :
      (x : Attempt) (f g : Link → Attempt)
      → and_then (and_then x f) g ≡ and_then x (λ s. and_then (f s) g)
  and_then_assoc (none, s) f g = refl
  and_then_assoc (some u, s) f g = refl

  and_then-cong :
      (x : Attempt) (f g : Link → Attempt) → ((s : Link) → f s ≡ g s) → and_then x f ≡ and_then x g
  and_then-cong (none, s) f g h = refl
  and_then-cong (some u, s) f g h = h s

  do_jobs-append :
      (js ks : List Job) (s : Link) → do_jobs (js ++ ks) s ≡ and_then (do_jobs js s) (do_jobs ks)
  do_jobs-append [] ks s = refl
  do_jobs-append (j ∷ js) ks s = go (request_of j) (do_jobs-append js ks)
    where
      go :
          (r : Option Request)
          → ((t : Link) → do_jobs (js ++ ks) t ≡ and_then (do_jobs js t) (do_jobs ks))
          → do_job r (do_jobs (js ++ ks)) s ≡ and_then (do_job r (do_jobs js) s) (do_jobs ks)
      go none ih = refl
      go (some r) ih =
          and_then-cong (send_request r s) _ _ ih
          ∙ sym (and_then_assoc (send_request r s) (do_jobs js) (do_jobs ks))

  send_groups-eq :
      (e : Endpoint) (gs : Groups) (s : Link) → send_groups e gs s ≡ do_jobs (map (group e) gs) s
  unfolding send_groups send_event_to_server
  send_groups-eq e [] s = refl
  send_groups-eq e ((hash, logs) ∷ gs) s = go (parse_event_logs logs) refl (send_groups-eq e gs)
    where
      go :
          (p : Option (List PointEventLog))
          → parse_event_logs logs ≡ p
          → ((t : Link) → send_groups e gs t ≡ do_jobs (map (group e) gs) t)
          → send_groups e ((hash, logs) ∷ gs) s
            ≡ do_job (events_request e hash p) (do_jobs (map (group e) gs)) s
      go none f ih = rw (f, send_groups) refl
      go (some es) f ih = rw (f, send_groups) (and_then-cong _ _ _ ih)

  send_point_logs-eq :
      (e : Endpoint) (ls : List Log) (s : Link)
      → send_point_logs e ls s ≡ do_jobs (map (group e) (grouped ls)) s
  unfolding send_point_logs
  send_point_logs-eq e [] s = refl
  send_point_logs-eq e (l ∷ ls) s =
      ap (λ g. send_groups e g s) (group_events-eq (l ∷ ls)) ∙ send_groups-eq e (grouped (l ∷ ls)) s

  send_valid_user_logs-eq :
      (ls : List Log) (s : Link) → send_valid_user_logs ls s ≡ do_jobs (map single ls) s
  unfolding send_valid_user_logs send_valid_user_event_to_server
  send_valid_user_logs-eq [] s = refl
  send_valid_user_logs-eq (l ∷ ls) s =
      go (parse_valid_user_event_log l) refl (send_valid_user_logs-eq ls)
    where
      go :
          (p : Option ValidUserEventLog)
          → parse_valid_user_event_log l ≡ p
          → ((t : Link) → send_valid_user_logs ls t ≡ do_jobs (map single ls) t)
          → send_valid_user_logs (l ∷ ls) s
            ≡ do_job (valid_user_request p) (do_jobs (map single ls)) s
      go none f ih = rw (f, send_valid_user_logs) refl
      go (some v) f ih = rw (f, send_valid_user_logs) (and_then-cong _ _ _ ih)

  pub send_logs-eq : (d w v : List Log) (s : Link) → send_logs d w v s ≡ do_jobs (jobs d w v) s
  unfolding send_logs
  send_logs-eq d w v s =
      let js : List Job = map (group point_to_token_process) (grouped d) in
      let ks : List Job = map (group token_to_point_process) (grouped w) in
      ap
        (λ x.
          and_then x
            (λ s1. and_then (send_point_logs token_to_point_process w s1) (send_valid_user_logs v)))
        (send_point_logs-eq point_to_token_process d s)
      ∙ and_then-cong (do_jobs js s) _ _ (λ t.
        ap (λ x. and_then x (send_valid_user_logs v))
          (send_point_logs-eq token_to_point_process w t)
        ∙ and_then-cong (do_jobs ks t) _ _ (send_valid_user_logs-eq v)
        ∙ sym (do_jobs-append ks (map single v) t))
      ∙ sym (do_jobs-append js (ks ++ map single v) s)

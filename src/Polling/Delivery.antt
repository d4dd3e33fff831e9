-- ===== src/Polling/Delivery.antt =====
-- What a call of `processEvents` has sent, when it returns and when it throws.
use web3_point_exchange.Common.{
  ℕ, ◌≡◌, refl, sym, ap, ◌∙◌, ◌⊎◌, inl, inr, Option, none, some, List, [], ◌∷◌, ◌++◌, append_assoc,
  append-nil,
}
use web3_point_exchange.Polling.Network.{
  Outside, Log, Request, ApiResponse, point_deposited, point_withdrawn, valid_user_set,
}
use web3_point_exchange.Polling.Deliver.{
  QueryFilter, Link, Attempt, and_then, log_answer, send_logs, process_events,
}
use web3_point_exchange.Polling.Jobs.{Job, jobs, request_of, do_job, do_jobs, send_logs-eq}

module _ ⦃o : Outside⦄ where
  -- The requests are those of all the jobs, in order, or of the first of them.
  abbrev pub AllOf : List Job → List Request → Type 0
  AllOf [] [] = Unit
  AllOf [] (r ∷ rs) = ⊥
  AllOf (j ∷ js) [] = ⊥
  AllOf (j ∷ js) (r ∷ rs) = (request_of j ≡ some r) × AllOf js rs

  abbrev pub StartOf : List Job → List Request → Type 0
  StartOf js [] = Unit
  StartOf [] (r ∷ rs) = ⊥
  StartOf (j ∷ js) (r ∷ rs) = (request_of j ≡ some r) × StartOf js rs

  -- The server after these requests.
  abbrev pub post_all : List Request → o.Server → o.Server
  post_all [] v = v
  post_all (r ∷ rs) v = post_all rs (o.post r v).1

  abbrev pub JobsSpec : List Job → Link → Attempt → Type 0
  JobsSpec js s (some _, s') =
      (rs : List Request) × AllOf js rs
      × (s'.answered ≡ s.answered ++ rs)
      × (s'.server ≡ post_all rs s.server)
  JobsSpec js s (none, s') = (rs : List Request) × StartOf js rs × (s'.answered ≡ s.answered ++ rs)

  JobsSpec-later :
      (j : Job) (js : List Job) (r : Request) (s : Link) (x : Option ApiResponse × o.Server)
      → request_of j ≡ some r
      → o.post r s.server ≡ x
      → ((t : Link) → JobsSpec js t (do_jobs js t))
      → JobsSpec (j ∷ js) s (and_then (log_answer r s.answered x) (do_jobs js))
  JobsSpec-later j js r s (none, v) e f ih = ([], tt, sym (append-nil s.answered))
  JobsSpec-later j js r s (some a, v) e f ih =
      let t : Link = record { server = v; answered = s.answered ++ (r ∷ []) } in
      go (do_jobs js t) (ih t)
    where
      go :
          (out : Attempt)
          → JobsSpec js (record { server = v; answered = s.answered ++ (r ∷ []) }) out
          → JobsSpec (j ∷ js) s out
      go (some u, s') (rs, all, d, w) = (
        r ∷ rs,
        (e, all),
        d ∙ append_assoc s.answered (r ∷ []) rs,
        w ∙ ap (λ y. post_all rs y.1) (sym f),
      )
      go (none, s') (rs, all, d) = (r ∷ rs, (e, all), d ∙ append_assoc s.answered (r ∷ []) rs)

  pub do_jobs-JobsSpec : (js : List Job) (s : Link) → JobsSpec js s (do_jobs js s)
  do_jobs-JobsSpec [] s = ([], tt, sym (append-nil s.answered), refl)
  do_jobs-JobsSpec (j ∷ js) s = go (request_of j) refl (do_jobs-JobsSpec js)
    where
      go :
          (r : Option Request)
          → request_of j ≡ r
          → ((t : Link) → JobsSpec js t (do_jobs js t))
          → JobsSpec (j ∷ js) s (do_job r (do_jobs js) s)
      go none e ih = ([], tt, sym (append-nil s.answered))
      go (some r) e ih = JobsSpec-later j js r s (o.post r s.server) e refl ih

  -- The three queries have answered with these logs.
  abbrev pub Found : QueryFilter → ℕ → ℕ → List Log → List Log → List Log → Type 0
  Found query a b d w v =
      (query point_deposited a b ≡ some d)
      × (query point_withdrawn a b ≡ some w)
      × (query valid_user_set a b ≡ some v)

  abbrev pub ProcessSpec : QueryFilter → ℕ → ℕ → Link → Attempt → Type 0
  ProcessSpec query a b s (some _, s') =
      (d w v : List Log) × (rs : List Request) × Found query a b d w v
      × AllOf (jobs d w v) rs
      × (s'.answered ≡ s.answered ++ rs)
      × (s'.server ≡ post_all rs s.server)
  ProcessSpec query a b s (none, s') =
      (s' ≡ s)
      ⊎ ((d w v : List Log) × (rs : List Request) × Found query a b d w v
          × StartOf (jobs d w v) rs
          × (s'.answered ≡ s.answered ++ rs))

  send_logs-ProcessSpec :
      (query : QueryFilter) (a b : ℕ) (d w v : List Log) (s : Link)
      → Found query a b d w v
      → ProcessSpec query a b s (send_logs d w v s)
  send_logs-ProcessSpec query a b d w v s found =
      rw (send_logs-eq d w v s) (go (do_jobs (jobs d w v) s) (do_jobs-JobsSpec (jobs d w v) s))
    where
      go : (out : Attempt) → JobsSpec (jobs d w v) s out → ProcessSpec query a b s out
      go (some u, s') (rs, all, e, f) = (d, w, v, rs, found, all, e, f)
      go (none, s') (rs, start, e) = inr (d, w, v, rs, found, start, e)

  -- A call that returns has found the three lists of logs of the range and has posted one
  -- request for each transaction with deposits, in the order of their first logs, then one for
  -- each with withdrawals, then one for each log of a user; each was answered, and the server is
  -- that after these posts. A call that throws has changed nothing, or has found the lists and
  -- has had answers to some of these requests from the first on.
  pub process_events-ProcessSpec :
      (query : QueryFilter) (a b : ℕ) (s : Link)
      → ProcessSpec query a b s (process_events query a b s)
  unfolding process_events
  process_events-ProcessSpec query a b s =
      go (query point_deposited a b) (query point_withdrawn a b) (query valid_user_set a b) refl
        refl refl
    where
      go :
          (d w v : Option (List Log))
          → query point_deposited a b ≡ d
          → query point_withdrawn a b ≡ w
          → query valid_user_set a b ≡ v
          → ProcessSpec query a b s (process_events query a b s)
      go none w v e f g = rw (e, process_events) (inl refl)
      go (some d) none v e f g = rw (e, process_events) (rw f (inl refl))
      go (some d) (some w) none e f g = rw (e, process_events) (rw f (rw g (inl refl)))
      go (some d) (some w) (some v) e f g =
          rw (e, process_events) (rw f (rw g (send_logs-ProcessSpec query a b d w v s (e, f, g))))

-- ===== src/Tests/PollingRuns.antt =====
-- Runs of the polling script, against a server that records what is posted and against the backend.
use web3_point_exchange.Common.{
  ℕ, zero, suc, ◌≤◌, ◌≡◌, refl, inl, inr, true, Option, none, some, List, [], ◌∷◌, ◌++◌, pos, arith,
  select,
}
use web3_point_exchange.Polling.{
  Outside, point_deposited, point_withdrawn, valid_user_set, Log, Request, Tick, Poller, content,
  poll, poll_once, process_events, group_events_by_transaction, PointEventLog, parse_event_log,
  start_event_polling, get_last_processed_block, point_events, token_to_point_process,
}
use web3_point_exchange.Polling.Groups.{grouped, group_events-eq}
use web3_point_exchange.Polling.Delivery.{ProcessSpec, process_events-ProcessSpec}
use web3_point_exchange.Polling.Ranges.{poll-bounds}
use web3_point_exchange.Polling.Coverage.{History, IsHonest, in_range, IsSafe}
use web3_point_exchange.Polling.AtLeastOnce.{Reached, started, polled, Reached-IsSafe}
use web3_point_exchange.Polling.CatchUp.{IsUp, poll_catches_up}
use web3_point_exchange.Polling.Backend.{
  post_backend, with_backend, method_for, post_backend-eq, event_log,
}
use web3_point_exchange.Polling.Skipped.{direct_withdrawal_skipped}
use web3_point_exchange.Repositories.Users
use web3_point_exchange.Repositories.TokenToPointTransactions
use web3_point_exchange.Tests.Sample.{sample}
use web3_point_exchange.Tests.Data.{alice, start}
use web3_point_exchange.Tests.ApiRuns.{express, here, blank}
use web3_point_exchange.Token.Direct.{HasKnownUser}

abbrev parse_text : ℕ → Option ℕ
parse_text zero = none
parse_text (suc n) = some n

-- Every log is of the account in its payload; the server keeps what it is sent.
instance abbrev recorder : Outside
recorder = record {
  Server = List Request;
  post = λ r v. (some (record { success = true; message = none }), v ++ (r ∷ []));
  parse_log = λ l. some (record {
    account = l.payload;
    amount = some 300;
    token_amount = some 3;
    is_valid = some true;
  });
  to_text = λ n. suc n;
  parse_int = parse_text;
  parse_int_law = λ n. refl;
  empty_text = 0;
  parse_empty = refl;
  write_file = λ t f. content t;
  write_file_law = λ t f. inr (inr refl);
}

abbrev log_of : ℕ → ℕ → ℕ → Log
log_of hash block account = record {
  transaction_hash = hash;
  block_number = block;
  payload = account;
}

abbrev events : History
events point_deposited = log_of 900 30 100 ∷ log_of 910 40 200 ∷ log_of 900 30 200 ∷ []
events point_withdrawn = log_of 901 150 100 ∷ []
events valid_user_set = []

abbrev tick : ℕ → Tick
tick n = record {
  block_number = some n;
  query_filter = λ e a b. some (select (in_range a b) (events e));
}

tick-IsHonest : (n : ℕ) → IsHonest events (tick n)
tick-IsHonest n k h e a b le = inr refl

abbrev at_20 : Poller
at_20 = record {
  last_processed_block = 20;
  file = content 21;
  link = record { server = []; answered = [] };
}

at_20-Reached : Reached events 20 at_20
unfolding start_event_polling get_last_processed_block
at_20-Reached =
    started (some 500) (content 21) (record { server = []; answered = [] }) at_20 refl refl

Reached-IsSafe_example : IsSafe events 20 (poll_once (tick 200) (poll_once (tick 130) at_20))
Reached-IsSafe_example =
    Reached-IsSafe events 20 (poll_once (tick 200) (poll_once (tick 130) at_20)) (
      polled (tick 200) (poll_once (tick 130) at_20) (tick-IsHonest 200)
        (polled (tick 130) at_20 (tick-IsHonest 130) at_20-Reached))

group_events-eq_example :
    group_events_by_transaction (events point_deposited) ≡ grouped (events point_deposited)
group_events-eq_example = group_events-eq (events point_deposited)

process_events-ProcessSpec_example :
    ProcessSpec
      (tick 130).query_filter
      21
      120
      at_20.link
      (process_events (tick 130).query_filter 21 120 at_20.link)
process_events-ProcessSpec_example =
    process_events-ProcessSpec (tick 130).query_filter 21 120 at_20.link

abbrev turns : List Tick
turns = tick 130 ∷ tick 130 ∷ []

poll-bounds_example :
    (20 ≤ (poll turns at_20).last_processed_block)
    × ((poll turns at_20).last_processed_block ≤ 130)
    × ((poll turns at_20).last_processed_block ≤ 220)
poll-bounds_example =
    poll-bounds 130 turns at_20 ((λ n e. ground arith), ((λ n e. ground arith), tt)) (omega arith)

recorder-IsUp : IsUp
recorder-IsUp r v = (record { success = true; message = none }, refl)

-- A chain without events.
abbrev quiet : Tick
quiet = record { block_number = some 130; query_filter = λ e a b. some [] }

poll_catches_up_example : (poll (quiet ∷ quiet ∷ []) at_20).last_processed_block ≡ 130
poll_catches_up_example =
    poll_catches_up recorder-IsUp 130 (quiet ∷ quiet ∷ []) at_20
      (
        (refl, λ a b. ([], [], [], [], (refl, refl, refl), tt)),
        ((refl, λ a b. ([], [], [], [], (refl, refl, refl), tt)), tt),
      )
      (omega arith) (omega arith)

abbrev burned : Request
burned = point_events token_to_point_process (record { transaction_hash = 901; event_logs = [] })

post_backend-eq_example : post_backend blank burned start ≡ method_for burned start
post_backend-eq_example = post_backend-eq blank burned start

-- A withdrawal of `alice` in a transaction that the backend does not know.
abbrev direct : Log
direct = log_of 950 25 100

abbrev direct_event : PointEventLog
direct_event = record { wallet_address = 100; point_amount = pos 300; token_amount = pos 3 }

abbrev direct_tick : Tick
direct_tick = record {
  block_number = some 60;
  query_filter = λ e a b. elim e [
    | point_deposited ↦ some []
    | point_withdrawn ↦ some (direct ∷ [])
    | valid_user_set ↦ some []
  ];
}

abbrev in_backend : Outside
in_backend = with_backend blank recorder

abbrev backend_at_20 : Poller ⦃o = in_backend⦄
backend_at_20 = record {
  last_processed_block = 20;
  file = content 21;
  link = record { server = start; answered = [] };
}

direct_parsed : parse_event_log direct ≡ some direct_event
unfolding parse_event_log
direct_parsed = refl

direct_unknown :
    sample.find (TokenToPointTransactions.by_hash 950) start.db.token_to_point_transactions ≡ []
unfolding TokenToPointTransactions.by_hash
direct_unknown = refl

direct-HasKnownUser : HasKnownUser start (event_log direct_event ∷ [])
unfolding Users.by_wallet
direct-HasKnownUser = inl (alice, refl)

direct_withdrawal_skipped_example :
    let v = poll_once ⦃o = in_backend⦄ direct_tick backend_at_20 in
    (v.last_processed_block ≡ 60)
    × (v.link.server.db ≡ start.db)
    × (v.link.server.sent ≡ start.sent)
direct_withdrawal_skipped_example =
    direct_withdrawal_skipped blank recorder direct_tick 60 direct direct_event backend_at_20 refl
      (omega arith) (refl, refl, refl) direct_parsed direct_unknown direct-HasKnownUser

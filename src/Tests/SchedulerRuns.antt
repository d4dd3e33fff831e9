-- ===== src/Tests/SchedulerRuns.antt =====
-- Runs of the scheduler over small queues, each an application of a theorem about it.
use web3_point_exchange.Common.{◌+◌, ◌*◌, pos, ◌≡◌, refl, inr, none, some, List, [], ◌∷◌, length}
use web3_point_exchange.Chain.{
  Environment, Ethers, valid_until_timestamp, get_manager_address, get_manager_private_key,
  get_eip712_domain, get_signature_nonce, get_deposit_point_manager_signature,
  get_deposit_point_calldata, get_withdraw_point_calldata, get_permit_calldata,
  get_multicall_calldata, estimate_gas,
}
use web3_point_exchange.Entities.{SwapType}
use web3_point_exchange.Platform.{PointSwapTransaction}
use web3_point_exchange.Scheduler.{
  Clients, State, head_of, begin, process_queue, check_queue, process_oldest, round, gas_reached,
  process_message, process_transaction_message, process_by_type, process_deposit_point_transaction,
  process_withdraw_point_transaction, resolve_manager_index, get_current_manager_index, next_nonce,
  push_if_estimated, keep_or_fail, push_permit, record_result,
}
use web3_point_exchange.Scheduler.Batches.{process_queue-HasBatch}
use web3_point_exchange.Scheduler.Ends.{TakesUpdates, EncodesLists, AllComplete, process_queue_ends}
use web3_point_exchange.Scheduler.Loop.{IsUp, poison_never_ends}
use web3_point_exchange.Scheduler.Nonces.{HasBatch}
use web3_point_exchange.Tests.Data.{start}
use web3_point_exchange.Tests.Sample.{sample}

instance abbrev clients : Clients
clients = record {
  index_get = λ k. some k;
  index_get_law = λ k. inr refl;
  index_set = λ i. some i;
  index_set_law = λ i. inr refl;
  message_count = λ q. some (length q);
  message_count_law = λ q. inr refl;
  get_message = λ q. some (head_of q);
  get_message_law = λ q. inr refl;
  requeue = λ m q. m ∷ q;
  requeue_alone = λ m. refl;
  requeue_length = λ m q. refl;
}

instance abbrev environment : Environment
environment = record {
  point_manager_contract_address = some 1000;
  point_token_address = some 1001;
  manager_wallet1_address = some 501;
  manager_wallet2_address = some 502;
  manager_wallet3_address = some 503;
  manager_wallet1_private_key = some 601;
  manager_wallet2_private_key = some 602;
  manager_wallet3_private_key = some 603;
  relayer_wallet1_private_key = some 701;
  relayer_wallet2_private_key = some 702;
  relayer_wallet3_private_key = some 703;
  max_manager_count = 3;
  max_relayer_count = 3;
  started = 40;
}

-- A multicall is told by its number of calls, each of which costs 60000 gas.
instance abbrev ethers : Ethers
ethers = record {
  eip712_domain = λ c. some 9;
  nonces = λ c a. some 4;
  sign_typed_data = λ key domain d. some (key + d.nonce);
  encode_deposit_point = λ a amount v m s. some s;
  encode_withdraw_point = λ a amount v s. some (a + s);
  split_signature = λ s. some s;
  encode_permit = λ o sp v d s. some (o + s);
  encode_multicall = λ ds. some (length ds);
  estimate = λ c n. some (n * 60000);
  sign_multicall = λ key c ds. some (key, 900);
  send_transaction = λ key c d. some d;
  broadcast_transaction = λ raw. some raw;
}

abbrev deposit_message : PointSwapTransaction
deposit_message = record {
  user_swap_history_id = 20;
  wallet_address = 100;
  amount = pos 100;
  type = SwapType.point_to_token;
  signature = none;
  valid_until = none;
  permit_data = none;
}

abbrev withdraw_message : PointSwapTransaction
withdraw_message = record deposit_message {
  type = SwapType.token_to_point;
  signature = some 8;
  valid_until = some 99;
}

abbrev unsigned_message : PointSwapTransaction
unsigned_message = record withdraw_message { signature = none }

abbrev idle : List PointSwapTransaction → State
idle q = record {
  world = start;
  queue = q;
  manager_index_key = none;
  relayer_index_key = none;
  before_used_signature_nonce = none;
  current_manager_index = none;
  calldatas = [];
  permit_calldatas = [];
  tx_datas = [];
  permits_sent = [];
  broadcasts = [];
}

-- Two deposits and a withdrawal: the deposits are signed with the nonces 4 and 5.
abbrev after_batch : State
after_batch = record (idle []) {
  manager_index_key = some 0;
  before_used_signature_nonce = some 5;
  current_manager_index = some 0;
  calldatas = 605 ∷ 108 ∷ 606 ∷ [];
  tx_datas =
      (20, SwapType.point_to_token)
      ∷ (20, SwapType.token_to_point)
      ∷ (20, SwapType.point_to_token)
      ∷ [];
}

batch_run :
    process_queue 4 (begin (idle (deposit_message ∷ withdraw_message ∷ deposit_message ∷ [])))
    ≡ some after_batch
unfolding process_queue check_queue process_oldest round gas_reached process_message
    process_transaction_message process_by_type process_deposit_point_transaction
    process_withdraw_point_transaction resolve_manager_index get_current_manager_index next_nonce
    push_if_estimated keep_or_fail push_permit record_result valid_until_timestamp
    get_manager_address get_manager_private_key get_eip712_domain get_signature_nonce
    get_deposit_point_manager_signature get_deposit_point_calldata get_withdraw_point_calldata
    get_multicall_calldata estimate_gas
batch_run = refl

process_queue-HasBatch_example : HasBatch after_batch
process_queue-HasBatch_example =
    process_queue-HasBatch 4 (idle (deposit_message ∷ withdraw_message ∷ deposit_message ∷ []))
      after_batch batch_run

clients-IsUp : IsUp
clients-IsUp = record { counts = λ q. refl; gives = λ q. refl }

poison_never_ends_example : process_queue 50 (idle (unsigned_message ∷ [])) ≡ none
poison_never_ends_example =
    poison_never_ends clients-IsUp unsigned_message 50 (idle (unsigned_message ∷ [])) refl refl refl

ethers-EncodesLists : EncodesLists
unfolding get_multicall_calldata
ethers-EncodesLists = record { multicalls = λ ds. (length ds, refl) }

sample-TakesUpdates : TakesUpdates ⦃p = sample⦄
sample-TakesUpdates = record { updates = λ q f rows. refl }

abbrev permit_message : PointSwapTransaction
permit_message = record withdraw_message {
  permit_data = some (record { owner = 100; value = pos 1; deadline = 99; signature = 8 });
}

queued-AllComplete : AllComplete (withdraw_message ∷ permit_message ∷ [])
unfolding get_withdraw_point_calldata get_permit_calldata
queued-AllComplete = (
  (refl, ((8, 99), refl, (108, refl)), tt),
  ((refl, ((8, 99), refl, (108, refl)), (108, refl)), tt),
)

process_queue_ends_example :
    (s : State) × (process_queue 3 (idle (withdraw_message ∷ permit_message ∷ [])) ≡ some s)
process_queue_ends_example =
    process_queue_ends sample-TakesUpdates ethers-EncodesLists clients-IsUp
      (idle (withdraw_message ∷ permit_message ∷ [])) queued-AllComplete

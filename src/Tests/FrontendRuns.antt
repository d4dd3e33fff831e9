-- ===== src/Tests/FrontendRuns.antt =====
-- Runs of the hooks in a browser whose wallet signs everything, and whose storage keeps one text.
use web3_point_exchange.Common.{
  ℕ, pos, ◌+◌, ◌≡◌, refl, inr, true, false, Option, none, some, List, [], ◌∷◌,
}
use web3_point_exchange.Frontend.{
  integer, Domain, Browser, signature, Page, initial_state, LocalStorage, Codec, UserData,
  UserPointRow, UserHook, data_of, set_wallet,
}
use web3_point_exchange.Frontend.Backed.{AllBacked}
use web3_point_exchange.Frontend.Signed.{
  HookOp, do_deposit, do_withdraw, do_fetch_contract_info, do_reset, do_ops, posted_calls-AllBacked,
}
use web3_point_exchange.Frontend.Accounts.{wallet_change_keeps_user}

abbrev domain : Domain
domain = record { name = 1; version = 1; chain_id = 84532; verifying_contract = 500 }

-- What is outside is a clock.
instance abbrev willing : Browser
willing = record {
  Outside = ℕ;
  fetch = λ c o. (
    some (record {
      is_ok = true;
      json = some (record { message = none; swap_id = some 8; histories = none });
    }),
    o + 1000,
  );
  read_domain = λ a o. some domain;
  read_nonce = λ a b o. some 3;
  read_allowance = λ t a s o. some 1;
  sign_typed_data = λ d o. (signature 77, o + 1000);
  date_now = λ o. o;
  parse_ether = λ n. n;
  address = some 100;
  is_connected = true;
  point_manager_address = some 500;
  bloom_token_address = some 600;
}

abbrev fresh_page : Page
fresh_page = record {
  hook = record {
    state = initial_state;
    swap_history = [];
    eip712_domain = none;
    user_nonce = none;
  };
  outside = 5000;
  calls = [];
  signed = [];
}

abbrev clicks : List HookOp
clicks =
    do_fetch_contract_info
    ∷ do_deposit 1 100 (integer (pos 200))
    ∷ do_withdraw 1 (integer (pos 300))
    ∷ do_reset
    ∷ []

posted_calls-AllBacked_example : AllBacked (do_ops clicks fresh_page)
posted_calls-AllBacked_example = posted_calls-AllBacked clicks fresh_page refl

-- A text is a user, or empty.
instance abbrev one_item : LocalStorage
one_item = record {
  Text = Option UserData;
  is_empty = λ t. elim t [ none ↦ true | some d ↦ false ];
  Store = Option (Option UserData);
  get_item = λ k s. some s;
  set_item = λ k t s. some (some t);
  remove_item = λ k s. some none;
  clear = λ s. some none;
  set_item_law = λ k t s. inr (some t, refl, refl);
  remove_item_law = λ k s. inr (none, refl, refl);
}

instance abbrev users : Codec UserData
users = record {
  stringify = some;
  parse = λ t. t;
  parse_law = λ x. refl;
  stringify_law = λ x. refl;
}

abbrev row : UserPointRow
row = record { user_id = 1; user_point_id = 10; balance = pos 500; created_at = 5; updated_at = 5 }

abbrev shown : UserHook
shown = record {
  address = some 100;
  is_connected = true;
  user_data = none;
  status = record { is_loading = false; error = none; success = false };
  query_data = some (row ∷ []);
  store = none;
}

wallet_change_keeps_user_example :
    (set_wallet (some 200) true shown).user_data ≡ some (data_of row (some 200))
wallet_change_keeps_user_example = wallet_change_keeps_user (some 200) true shown row [] refl

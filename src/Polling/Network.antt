-- ===== src/Polling/Network.antt =====
-- What the polling script takes from outside: ethers, axios and the file system. `none` as an answer
-- means that the call throws.
use web3_point_exchange.Common.{ℕ, ℤ, ◌≡◌, ◌⊎◌, Bool, Option, none, some, List}

-- The events of `POINT_MANAGER_ABI`.
pub data EventName : Type 0 where
  point_deposited point_withdrawn valid_user_set : EventName

-- A log of the contract; `payload` stands for its topics and data.
pub record Log : Type 0 where
  pub transaction_hash : ℕ
  pub block_number : ℕ
  pub payload : ℕ

-- `LogDescription.args`: an argument that the parsed event does not have is undefined.
pub record LogArgs : Type 0 where
  pub account : ℕ
  pub amount : Option ℕ
  pub token_amount : Option ℕ
  pub is_valid : Option Bool

-- The endpoints under POINT_SERVER_ADDRESS that take point events.
pub data Endpoint : Type 0 where
  point_to_token_process token_to_point_process : Endpoint

pub record PointEventLog : Type 0 where
  pub wallet_address : ℕ
  pub point_amount : ℤ
  pub token_amount : ℤ

pub record ValidUserEventLog : Type 0 where
  pub wallet_address : ℕ
  pub is_valid : Option Bool

pub record ApiRequest : Type 0 where
  pub transaction_hash : ℕ
  pub event_logs : List PointEventLog

pub record ValidUserApiRequest : Type 0 where
  pub wallet_address : ℕ
  pub is_valid : Option Bool

pub record ApiResponse : Type 0 where
  pub success : Bool
  pub message : Option ℕ

-- A request that the script posts.
pub data Request : Type 0 where
  point_events : Endpoint → ApiRequest → Request
  valid_user : ValidUserApiRequest → Request

-- `.last_processed_block`: missing, not readable, or with a text in it.
pub data BlockFile : Type 0 where
  absent unreadable : BlockFile
  content : ℕ → BlockFile

-- `post` is `axios.post`, which throws on a status that is not 2xx and on a timeout: the server may
-- have changed in either case. `parse_int` is `parseInt(text.trim())`, `none` for NaN.
pub record Outside : Type 1 where
  pub Server : Type 0
  pub post : Request → Server → Option ApiResponse × Server
  pub parse_log : Log → Option LogArgs
  pub to_text : ℕ → ℕ
  pub parse_int : ℕ → Option ℕ
  pub parse_int_law : (n : ℕ) → parse_int (to_text n) ≡ some n
  pub empty_text : ℕ
  pub parse_empty : parse_int empty_text ≡ none
  pub write_file : ℕ → BlockFile → BlockFile
  pub write_file_law :
      (t : ℕ) (f : BlockFile)
      → (write_file t f ≡ f) ⊎ (write_file t f ≡ content empty_text) ⊎ (write_file t f ≡ content t)

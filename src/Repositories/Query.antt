-- ===== src/Repositories/Query.antt =====
-- The optional filters of the paginated queries: `if (x) queryBuilder.andWhere(…)`.
use web3_point_exchange.Common.{ℕ, zero, suc, Bool, true, Option, none, some, ltb, ◌==◌}
use web3_point_exchange.Platform.{Order, asc, desc}

-- `limit = 10, offset = 0, order = 'DESC'` and `lastId` of the query DTOs.
pub record Paging : Type 0 where
  pub last_id : Option ℕ
  pub limit : Option ℕ
  pub offset : Option ℕ
  pub order : Option Order

abbrev pub or_default {ℓ} : {A : Type ℓ} → A → Option A → A
or_default d none = d
or_default d (some a) = a

-- A filter, which is applied when its value is there and is not the empty text or 0: both are the
-- number 0 here.
abbrev pub passes : Option ℕ → ℕ → Bool
passes none n = true
passes (some zero) n = true
passes (some (suc k)) n = n == suc k

-- `id > :lastId` in ascending order, and `id < :lastId` else.
abbrev pub passes_last : Option ℕ → Order → ℕ → Bool
passes_last none o n = true
passes_last (some zero) o n = true
passes_last (some (suc k)) asc n = ltb (suc k) n
passes_last (some (suc k)) desc n = ltb n (suc k)

-- ===== src/Token/Settle.antt =====
-- The loop that sets the status of a list of histories, as one change of the table.
use web3_point_exchange.Common.{
  ℕ, ◌≤◌, ◌≡◌, refl, inl, inr, Bool, List, [], ◌∷◌, map, arith, length, select, set_where, Has,
}
use web3_point_exchange.Entities.{UserSwapHistory, SwapStatus}
use web3_point_exchange.Repositories.UserSwapHistories

-- The table after the loop over the histories `hs`.
unfoldable pub set_all :
    SwapStatus → ℕ → List UserSwapHistory → List UserSwapHistory → List UserSwapHistory
set_all s now [] rows = rows
set_all s now (h ∷ hs) rows = set_all s now hs (
    map
      (set_where (UserSwapHistories.by_id h.user_swap_history_id)
        (UserSwapHistories.set_status s now))
      rows)

-- Rows with the key of `h` have the status `s`.
abbrev pub AllSet : SwapStatus → ℕ → List UserSwapHistory → Type 0
AllSet s i rows = (r : UserSwapHistory) → Has r rows → r.user_swap_history_id ≡ i → r.status ≡ s

set_status-AllSet :
    (s : SwapStatus) (now i j : ℕ) (rows : List UserSwapHistory)
    → AllSet s i rows
    → AllSet s i
        (map (set_where (UserSwapHistories.by_id j) (UserSwapHistories.set_status s now)) rows)
unfolding UserSwapHistories.by_id UserSwapHistories.set_status
set_status-AllSet s now i j [] h r m e = absurd m
set_status-AllSet s now i j (x ∷ xs) h r (inl q) e = ground (arith, h x (inl refl))
set_status-AllSet s now i j (x ∷ xs) h r (inr m) e =
    set_status-AllSet s now i j xs (λ t n. h t (inr n)) r m e

set_status-AllSet_self :
    (s : SwapStatus) (now i : ℕ) (rows : List UserSwapHistory)
    → AllSet s i
        (map (set_where (UserSwapHistories.by_id i) (UserSwapHistories.set_status s now)) rows)
unfolding UserSwapHistories.by_id UserSwapHistories.set_status
set_status-AllSet_self s now i [] r m e = absurd m
set_status-AllSet_self s now i (x ∷ xs) r (inl q) e = ground arith
set_status-AllSet_self s now i (x ∷ xs) r (inr m) e = set_status-AllSet_self s now i xs r m e

set_all-keeps :
    (s : SwapStatus) (now i : ℕ) (hs rows : List UserSwapHistory)
    → AllSet s i rows
    → AllSet s i (set_all s now hs rows)
unfolding set_all
set_all-keeps s now i [] rows h = h
set_all-keeps s now i (x ∷ hs) rows h =
    set_all-keeps s now i hs _ (set_status-AllSet s now i x.user_swap_history_id rows h)

pub set_all-AllSet :
    (s : SwapStatus) (now : ℕ) (hs rows : List UserSwapHistory) (h : UserSwapHistory)
    → Has h hs
    → AllSet s h.user_swap_history_id (set_all s now hs rows)
unfolding set_all
set_all-AllSet s now [] rows h m = absurd m
set_all-AllSet s now (x ∷ hs) rows h (inl e) = rw e (
    set_all-keeps s now x.user_swap_history_id hs _
      (set_status-AllSet_self s now x.user_swap_history_id rows))
set_all-AllSet s now (x ∷ hs) rows h (inr m) = set_all-AllSet s now hs _ h m

pub length-select-le :
    {A : Type 0} (q : A → Bool) (rows : List A) → length (select q rows) ≤ length rows
length-select-le q [] = omega arith
length-select-le q (x ∷ xs) = ground (arith, length-select-le q xs)

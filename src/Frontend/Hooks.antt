-- ===== src/Frontend/Hooks.antt =====
-- The state of `useSwap` with the calls that it makes, and a monad for its methods, which throw.
use web3_point_exchange.Common.{
  ℕ, ◌==◌, Bool, false, Option, none, some, List, [], ◌∷◌, ◌++◌, if◌then◌else◌,
}
use web3_point_exchange.Frontend.Web.{
  Domain, TypedData, HttpCall, SwapHistoryItem, Json, Answer, WalletReply, signature, user_rejected,
  wallet_failed, Browser,
}

-- The texts that the hook shows as its error.
pub data SwapError : Type 0 where
  invalid_amount not_in_hundreds wallet_missing domain_missing token_missing : SwapError
  deposit_failed withdraw_failed permit_cancelled withdraw_cancelled : SwapError
  histories_failed not_connected library_error : SwapError
  from_server : ℕ → SwapError

pub record SwapState : Type 0 where
  pub is_loading : Bool
  pub error : Option SwapError
  pub success : Bool
  pub last_swap_id : Option ℕ

pub record Hook : Type 0 where
  pub state : SwapState
  pub swap_history : List SwapHistoryItem
  pub eip712_domain : Option Domain
  pub user_nonce : Option ℕ

-- `useState({ isLoading: false, error: null, success: false })`
abbrev pub initial_state : SwapState
initial_state = record { is_loading = false; error = none; success = false; last_swap_id = none }

module _ ⦃b : Browser⦄ where
  -- The hook, what is outside, and what the hook has asked for so far: the HTTP calls, and the
  -- signatures with what they are for.
  pub record Page : Type 0 where
    pub hook : Hook
    pub outside : b.Outside
    pub calls : List HttpCall
    pub signed : List (TypedData × ℕ)

  pub data Try (A : Type 0) : Type 0 where
    returned : A → Try A
    threw : SwapError → Try A

  abbrev pub Run : Type 0 → Type 0
  Run A = Page → Try A × Page

  abbrev pub and_then : {A B : Type 0} → Try A × Page → (A → Run B) → Try B × Page
  and_then (returned a, p) f = f a p
  and_then (threw m, p) f = (threw m, p)

  infixl 5 ◌>>=◌
  abbrev pub ◌>>=◌ : {A B : Type 0} → Run A → (A → Run B) → Run B
  ◌>>=◌ m f p = and_then (m p) f

  abbrev pub pure : {A : Type 0} → A → Run A
  pure a p = (returned a, p)

  abbrev pub throw : {A : Type 0} → SwapError → Run A
  throw m p = (threw m, p)

  abbrev pub or_library_error : {A : Type 0} → Option A → Run A
  or_library_error none = throw library_error
  or_library_error (some a) = pure a

  -- A read that throws when the library does.
  abbrev pub read : {A : Type 0} → (b.Outside → Option A) → Run A
  read f p = or_library_error (f p.outside) p

  abbrev pub set_state : (SwapState → SwapState) → Page → Page
  set_state f p = record p { hook = record (p.hook) { state = f p.hook.state } }

  abbrev pub fetched : HttpCall → Page → Option Answer × b.Outside → Try Answer × Page
  fetched c p (none, o) =
      (threw library_error, record p { outside = o; calls = p.calls ++ (c ∷ []) })
  fetched c p (some a, o) = (returned a, record p { outside = o; calls = p.calls ++ (c ∷ []) })

  abbrev pub fetch : HttpCall → Run Answer
  fetch c p = fetched c p (b.fetch c p.outside)

  abbrev pub json_of : Answer → Run Json
  json_of a = or_library_error a.json

  abbrev pub server_message : SwapError → Option ℕ → SwapError
  server_message m none = m
  server_message m (some t) = if t == 0 then m else from_server t

  -- `if (!response.ok) { … throw }`, then the body.
  unfoldable pub ok_body : SwapError → Answer → Run Json
  ok_body m a =
      if a.is_ok then json_of a else (json_of a >>= λ j. throw (server_message m j.message))

  abbrev pub wallet_answer : TypedData → Page → WalletReply × b.Outside → Try (Option ℕ) × Page
  wallet_answer d p (signature s, o) =
      (returned (some s), record p { outside = o; signed = p.signed ++ ((d, s) ∷ []) })
  wallet_answer d p (user_rejected, o) = (returned none, record p { outside = o })
  wallet_answer d p (wallet_failed, o) = (threw library_error, record p { outside = o })

-- ===== src/Worker/RetryPolicy.antt =====
-- packages/worker_core/src/cloudcause_worker_core/retry_policy.py: which failures of a live agent are retried.
-- An error is what the code reads of it; its type's name is in lower case already.
use cloudcause.Prelude.{
  ℕ, String, Bool, true, false, ◌&&◌, ◌||◌, Option, none, some, List, [], ◌∷◌, any, ltb, leb,
  nat_eq, ◌==◌, if◌then◌else◌,
}
use cloudcause.Prelude.Text.{has_part}
use cloudcause.Worker.Retry.{RetryDecision}

pub record LiveError (Num : Type 0) : Type 0 where
  pub is_call_limit : Bool
  pub is_rate_limit : Bool
  pub status_code_attribute : Option ℕ
  pub status_attribute : Option ℕ
  pub response_status : Option ℕ
  pub retry_after : Option Num
  pub is_connection_error : Bool
  pub type_name : String

abbrev pub retryable_name_tokens : List String
retryable_name_tokens =
    "ratelimit" ∷ "throttl" ∷ "serviceunavailable" ∷ "timeout" ∷ "connection" ∷ []

abbrev or_status : Option ℕ → Option ℕ → Option ℕ
or_status none other = other
or_status (some code) other = some code

module _ {Num : Type 0} where
  -- `_status_code`
  unfoldable pub status_code : LiveError Num → Option ℕ
  status_code error =
      or_status error.status_code_attribute (or_status error.status_attribute error.response_status)

  module _ {World Value : Type 0} where
    abbrev decision : Bool → Option Num → RetryDecision Num World (LiveError Num) Value
    decision retryable delay = record { retryable = retryable; delay_seconds = delay }

    abbrev by_status : LiveError Num → Option ℕ → RetryDecision Num World (LiveError Num) Value
    by_status error (some code) =
        if code == 429
        then decision true error.retry_after
        else decision (leb 500 code && ltb code 600) none
    by_status error none =
        if error.is_connection_error
        then decision true none
        else decision (any (λ token. has_part token error.type_name) retryable_name_tokens) none

    -- `classify_live_agent_error`; the list of names that are not retried changes no answer
    unfoldable pub classify_live_agent_error :
        LiveError Num → RetryDecision Num World (LiveError Num) Value
    unfolding status_code
    classify_live_agent_error error =
        if error.is_call_limit || error.is_rate_limit
        then decision false none
        else by_status error (status_code error)

-- ===== src/Proxy/Transaction.antt =====
-- proxy.go: `shouldRespondFromCache` and `completeTransaction`.
use chproxy.Scope.Types.{AsyncCache}
use chproxy.Http.{get_value, Request, Values}
use chproxy.Cache.Registry.States.{lookup-update}
use chproxy.Utils.Comments.{can_cache_query}
use chproxy.Base.{
  Bool, Option, Text, [], arith, bytes, false, if◌then◌else◌, is_empty, is_none, leb, ltb, not,
  refl, some, text_eq, text_eq_refl, ℕ, ◌&&◌, ◌==◌, ◌>>=◌, ◌||◌, ◌≡◌,
}
use chproxy.Cache.Registry.{
  TransactionState, completed, failed, Registry, complete, fail, status, update_transaction_state,
}

-- Whether the request is answered from the cache of its user, and the query; `none` is a query that
-- cannot be read.
unfoldable pub should_respond_from_cache :
    (full_query : Request → Option Text)
    → Option AsyncCache
    → (orig_params : Values) → Request
    → Option (Text × Bool)
unfolding can_cache_query get_value
should_respond_from_cache full_query cache orig_params req =
    let no_cache = get_value (bytes "no_cache") orig_params in
    if is_none cache
    then some ([], false)
    else if text_eq no_cache (bytes "1") || text_eq no_cache (bytes "true")
    then some ([], false)
    else (full_query req >>= λ q. some (q, can_cache_query q))

-- `clickhouseRecoverableStatusCodes`.
abbrev pub is_recoverable : ℕ → Bool
is_recoverable code = code == 503 || code == 408

pub complete_transaction :
    (status_code : ℕ) (key fail_reason : Text) (now : ℕ) → Registry → Registry
complete_transaction status_code key fail_reason now r =
    if ltb status_code 300 || is_empty fail_reason
    then complete key now r
    else if is_recoverable status_code
    then complete key now r
    else fail key fail_reason now r

status-update_transaction_state :
    (key : Text) (state : TransactionState) (reason : Text) (now : ℕ) (r : Registry)
    → status key (update_transaction_state key state reason now r)
      ≡ record { state = state; fail_reason = reason }
unfolding status
status-update_transaction_state key state reason now r =
    rw (lookup-update key key state reason now r, text_eq_refl key) refl

-- After any status and reason, the requests that wait for the transaction see it failed with the
-- reason exactly if the status is an error that is neither 503 nor 408 and the reason is not empty;
-- otherwise they see it completed, whatever the registry held before.
pub complete_transaction-status :
    (status_code : ℕ) (key fail_reason : Text) (now : ℕ) (r : Registry)
    → status key (complete_transaction status_code key fail_reason now r) ≡ (
        if leb 300 status_code && (not (is_empty fail_reason) && not (is_recoverable status_code))
        then record { state = failed; fail_reason = fail_reason }
        else record { state = completed; fail_reason = [] })
unfolding complete_transaction complete fail
complete_transaction-status status_code key fail_reason now r =
    let ended = status-update_transaction_state key completed [] now r in
    let broken = status-update_transaction_state key failed fail_reason now r in ground arith

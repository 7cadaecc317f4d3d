-- ===== src/Proxy/Forward.antt =====
-- proxy.go: `proxyRequest`, and `killQuery` of scope.go. A deadline or a client that closes its
-- connection shows in the attempts as the error of the context.
pub mod Files
pub mod Kept
pub mod Status
use chproxy.Http.{Body}
use chproxy.Proxy.Writers.{srw_set_status_code, rw_respond_with}
use chproxy.Proxy.Retry.{
  Attempt, Flight, Ending, proxied, unreachable, context_done, canceled, deadline_exceeded,
  unreadable, no_node, unfinished, execute_with_retry,
}
use chproxy.Scope.Types.{Scope, node_at, update_node}
use chproxy.Utils.Auth.{default_user}
use chproxy.Topology.{Address, Node, penalize}
use chproxy.Base.{
  Bool, List, Option, Text, bytes, false, hex08, if◌then◌else◌, is_empty, none, some, true, ℕ, ◌++◌,
  ◌==◌,
}

-- The request that kills a query, as it is sent to the host.
pub record KillRequest : Type 0 where
  pub addr : Address
  pub user : Text
  pub password : Text
  pub query : Text

abbrev pub or_default_user : Text → Text
or_default_user name = if is_empty name then default_user else name

unfoldable pub kill_request : Scope → Node → KillRequest
unfolding hex08
kill_request s n = record {
  addr = n.addr;
  user = or_default_user s.cluster.kill_query_user_name;
  password = s.cluster.kill_query_user_password;
  query = bytes "KILL QUERY WHERE query_id = '" ++ (hex08 s.id ++ bytes "'");
}

-- What the host answers: nothing, or a status and the body, which may not be readable.
abbrev pub KillAnswer : Type 0
KillAnswer = Option (ℕ × Option Text)

-- Whether the answer says that the query was killed.
unfoldable pub is_killed : KillAnswer → Bool
is_killed none = false
is_killed (some (status, none)) = false
is_killed (some (status, some body)) = status == 200

-- The scope, the request that is sent, and whether it succeeded. The scope counts as canceled
-- whatever becomes of the request.
unfoldable pub kill_query : KillAnswer → Scope → Scope × Option KillRequest × Bool
unfolding is_killed kill_request
kill_query answer s = (
  record s { canceled = true },
  elim (node_at s.cluster s.host) [ none ↦ none | some n ↦ some (kill_request s n) ],
  is_killed answer,
)

-- What happens around one proxied request.
pub record Course : Type 0 where
  pub attempts : List Attempt
  pub kill_answer : KillAnswer
  pub timeout_error : Text

-- The request returned, crashed, or goes on behind the attempts that were given.
pub data Return : Type 0 where
  returned crashed ongoing : Return

abbrev pub end_killed : KillAnswer → Flight → Flight
unfolding kill_query
end_killed answer f = record f { scope = (kill_query answer f.scope).0 }

abbrev pub penalize_host : Scope → Scope
penalize_host s = record s { cluster = update_node s.host (λ n. (penalize n).0) s.cluster }

unfoldable pub end_request : Course → Flight × Ending → Flight × Return
unfolding srw_set_status_code rw_respond_with kill_query
end_request c (f, proxied code) = (f, returned)
end_request c (f, unreachable code) = (f, returned)
end_request c (f, context_done canceled) =
    let f1 = end_killed c.kill_answer f in
    (record f1 { writers = srw_set_status_code 499 f1.writers }, returned)
end_request c (f, context_done deadline_exceeded) =
    let f1 = end_killed c.kill_answer (record f { scope = penalize_host f.scope }) in
    (
      record f1 {
        writers = srw_set_status_code 504 (rw_respond_with c.timeout_error 504 f1.writers);
      },
      returned,
    )
end_request c (f, unreadable) = (f, crashed)
end_request c (f, no_node) = (f, crashed)
end_request c (f, unfinished) = (f, ongoing)

unfoldable pub proxy_request : Course → Body → Flight → Flight × Return
proxy_request c body f =
    end_request c (execute_with_retry f.scope.cluster.retry_number body c.attempts f)

-- ===== src/Proxy/Forward/Kept.antt =====
-- The counters and the open connections through `proxyRequest` of proxy.go.
use chproxy.Scope.Nodes.{connections_at}
use chproxy.Http.{Body}
use chproxy.Scope.Types.{Scope, update_node}
use chproxy.Base.{arith, refl, true, ◌∙◌}
use chproxy.Topology.{penalize}
use chproxy.Proxy.Forward.{Course, end_request, proxy_request, kill_query, penalize_host}
use chproxy.Proxy.Retry.Connections.{
  SameOthers, IsQuiet, execute_with_retry-SameOthers, connections_at-update, with_cluster,
  map_option_id,
}
use chproxy.Proxy.Retry.{
  Flight, Ending, proxied, unreachable, context_done, canceled, deadline_exceeded, unreadable,
  no_node, unfinished, execute_with_retry,
}

penalize_host-SameOthers : (s : Scope) → SameOthers s (penalize_host s)
unfolding penalize
penalize_host-SameOthers s =
    with_cluster s (update_node s.host (λ n. (penalize n).0) s.cluster) λ k.
      connections_at-update (λ n. (penalize n).0) (λ x. x) (λ n. ground arith) s.host k s.cluster
      ∙ ground (arith, map_option_id (connections_at s.cluster k))

SameOthers-trans : (s t u : Scope) → SameOthers s t → SameOthers t u → SameOthers s u
SameOthers-trans s t u f g = record {
  same_user = g.same_user ∙ f.same_user;
  same_cluster_user = g.same_cluster_user ∙ f.same_cluster_user;
  same_connections = λ k. g.same_connections k ∙ f.same_connections k;
}

pub SameOthers-refl : (s : Scope) → SameOthers s s
SameOthers-refl s = record {
  same_user = refl;
  same_cluster_user = refl;
  same_connections = λ k. refl;
}

canceled-SameOthers : (s t : Scope) → SameOthers s t → SameOthers s (record t { canceled = true })
canceled-SameOthers s t h = record {
  same_user = h.same_user;
  same_cluster_user = h.same_cluster_user;
  same_connections = h.same_connections;
}

end_request-SameOthers :
    (c : Course) (s : Scope) (f : Flight) (e : Ending)
    → SameOthers s f.scope
    → SameOthers s (end_request c (f, e)).0.scope
unfolding end_request kill_query
end_request-SameOthers c s f (proxied code) h = h
end_request-SameOthers c s f (unreachable code) h = h
end_request-SameOthers c s f (context_done canceled) h = canceled-SameOthers s f.scope h
end_request-SameOthers c s f (context_done deadline_exceeded) h =
    canceled-SameOthers s (penalize_host f.scope)
      (SameOthers-trans s f.scope (penalize_host f.scope) h (penalize_host-SameOthers f.scope))
end_request-SameOthers c s f unreadable h = h
end_request-SameOthers c s f no_node h = h
end_request-SameOthers c s f unfinished h = h

pub proxy_request-SameOthers :
    (c : Course) (body : Body) (f : Flight)
    → IsQuiet c.attempts
    → SameOthers f.scope (proxy_request c body f).0.scope
unfolding proxy_request
proxy_request-SameOthers c body f quiet =
    let r = execute_with_retry f.scope.cluster.retry_number body c.attempts f in
    end_request-SameOthers c f.scope r.0 r.1
      (execute_with_retry-SameOthers f.scope.cluster.retry_number body c.attempts f quiet)

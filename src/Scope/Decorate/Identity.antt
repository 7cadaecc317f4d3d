-- ===== src/Scope/Decorate/Identity.antt =====
-- Under which name, to which host and with which id a request is sent (scope.go,
-- `decorateRequest`).
use chproxy.Scope.Decorate.Params.{fourth}
use chproxy.Base.{
  Dict, Text, [], bytes, delete, false, hex08, insert, itoa, lookup, lookup-delete, lookup-insert,
  lookup-insert_self, none, refl, some, text_eq, ◌∙◌, ◌∷◌, ◌≡◌,
}
use chproxy.Topology.{Node}
use chproxy.Http.{Request, Values, set_value}
use chproxy.Scope.Types.{Scope, node_at}
use chproxy.Scope.Decorate.{decorate_request, purify_params, ping_endpoint, user_agent, rewritten}

lookup-set_set :
    (a b v w : Text) (vs : Values)
    → text_eq b a ≡ false
    → (lookup a (set_value b w (set_value a v vs)) ≡ some (v ∷ []))
      × (lookup b (set_value b w (set_value a v vs)) ≡ some (w ∷ []))
unfolding set_value
lookup-set_set a b v w vs h = (
  rw (lookup-insert a b (w ∷ []) (insert a (v ∷ []) vs), h, lookup-insert_self a (v ∷ []) vs),
  lookup-insert_self b (w ∷ []) (insert a (v ∷ []) vs),
)

different_ids : text_eq (bytes "session_timeout") (bytes "query_id") ≡ false
unfolding text_eq
different_ids = refl

hidden_headers :
    (ua : Text) (hs : Dict Text)
    → let out =
        insert
          (bytes "User-Agent")
          ua
          (delete (bytes "X-ClickHouse-Key") (delete (bytes "X-ClickHouse-User") hs)) in
      (lookup (bytes "X-ClickHouse-User") out ≡ none)
      × (lookup (bytes "X-ClickHouse-Key") out ≡ none)
unfolding text_eq
hidden_headers ua hs =
    let kept = delete (bytes "X-ClickHouse-User") hs in
    let rest = delete (bytes "X-ClickHouse-Key") kept in
    (
      lookup-insert (bytes "X-ClickHouse-User") (bytes "User-Agent") ua rest
          ∙ lookup-delete (bytes "X-ClickHouse-User") (bytes "X-ClickHouse-Key") kept
          ∙ lookup-delete (bytes "X-ClickHouse-User") (bytes "X-ClickHouse-User") hs,
      lookup-insert (bytes "X-ClickHouse-Key") (bytes "User-Agent") ua rest
          ∙ lookup-delete (bytes "X-ClickHouse-Key") (bytes "X-ClickHouse-Key") kept,
    )

-- Every request but a ping goes to the chosen host under the name and the password of the cluster
-- user, with the scope's id as its query_id and the scope's session timeout, whatever the client
-- sent, and without the two headers by which a client can name a user to ClickHouse.
pub decorate_request-identity :
    (s : Scope) (req : Request) (n : Node)
    → node_at s.cluster s.host ≡ some n
    → text_eq req.request_uri ping_endpoint ≡ false
    → (out : Request) × (orig : Values) × (decorate_request s req ≡ some (out, orig))
      × (out.scheme ≡ n.addr.scheme)
      × (out.url_host ≡ n.addr.host)
      × (out.basic_auth ≡ some (s.cluster_user.name, s.cluster_user.password))
      × (lookup (bytes "query_id") out.query ≡ some (hex08 s.id ∷ []))
      × (lookup (bytes "session_timeout") out.query ≡ some (itoa s.session_timeout ∷ []))
      × (lookup (bytes "X-ClickHouse-User") out.headers ≡ none)
      × (lookup (bytes "X-ClickHouse-Key") out.headers ≡ none)
      × (out.body ≡ req.body)
unfolding decorate_request purify_params
decorate_request-identity s req n e h =
    let ids =
      lookup-set_set (bytes "query_id") (bytes "session_timeout") (hex08 s.id)
        (itoa s.session_timeout) (fourth s req) different_ids in
    let hidden = hidden_headers (user_agent s req) req.headers in
    let (out, orig) = rewritten s req n in
    (
      out,
      orig,
      rw (e, h, decorate_request),
      refl,
      refl,
      refl,
      ids.0,
      ids.1,
      hidden.0,
      hidden.1,
      refl,
    )

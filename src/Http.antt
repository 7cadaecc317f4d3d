-- ===== src/Http.antt =====
-- What chproxy reads and writes of a request of net/http. A query string is kept parsed, a header
-- has one value for each canonical name, and the Authorization header of basic authentication is
-- kept decoded: url.Values.Encode and SetBasicAuth are undone by URL.Query and BasicAuth.
-- `url.Values` maps a key to its values; `Get` returns the first one, or the empty text.
use chproxy.Base.{Bool, Dict, List, Option, Text, [], insert, lookup, none, some, ◌∷◌}

abbrev pub Values : Type 0
Values = Dict (List Text)

abbrev first_value : Option (List Text) → Text
first_value none = []
first_value (some []) = []
first_value (some (v ∷ vs)) = v

unfoldable pub get_value : Text → Values → Text
get_value k vs = first_value (lookup k vs)

unfoldable pub set_value : Text → Text → Values → Values
set_value k v vs = insert k (v ∷ []) vs

abbrev pub or_empty : Option Text → Text
or_empty none = []
or_empty (some t) = t

unfoldable pub get_header : Text → Dict Text → Text
get_header k h = or_empty (lookup k h)

-- The body: absent, read to the end, or one whose reading fails.
pub data Body : Type 0 where
  no_body broken_body : Body
  content : Text → Body

pub record Request : Type 0 where
  pub method : Text
  pub request_uri : Text
  pub path : Text
  pub scheme : Text
  pub url_host : Text
  pub query : Values
  pub headers : Dict Text
  pub basic_auth : Option (Text × Text)
  pub body : Body
  pub is_tls : Bool
  pub remote_addr : Text

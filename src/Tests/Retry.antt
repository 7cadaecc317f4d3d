-- ===== src/Tests/Retry.antt =====
-- Examples for the theorems on retries.
use chproxy.Proxy.Writers.{Client, StatWriter}
use chproxy.Base.{[], arith, bytes, false, none, pos, ◌∷◌, ◌≢◌}
use chproxy.Http.{content}
use chproxy.Proxy.Retry.{Attempt, execute_with_retry, unfinished, Flight}
use chproxy.Proxy.Retry.Ends.{execute_with_retry-ends}
use chproxy.Tests.Fixtures.{scope}

abbrev pub client : Client
client = record { header = []; sent = none; body = []; broken = false }

abbrev pub stat : StatWriter
stat = record { client = client; status_code = 0; wrote_header = false }

abbrev pub flight : Flight
flight = record { scope = scope 5; writers = record { stat = stat; tmp = none } }

abbrev pub bad : Attempt
bad = record {
  headers = [];
  status = 502;
  body = bytes "bad";
  context_error = none;
  others = λ c. c;
  error = bytes "cannot reach";
}

abbrev pub fine : Attempt
fine = record {
  headers = (bytes "Content-Type", bytes "text/csv") ∷ [];
  status = 200;
  body = bytes "1";
  context_error = none;
  others = λ c. c;
  error = [];
}

execute_with_retry-ends_example :
    (execute_with_retry (pos 2) (content (bytes "x")) (bad ∷ bad ∷ fine ∷ []) flight).1 ≢ unfinished
execute_with_retry-ends_example =
    execute_with_retry-ends (pos 2) (content (bytes "x")) (bad ∷ bad ∷ fine ∷ []) flight
      (omega arith)

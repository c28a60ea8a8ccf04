-- ===== src/Agent/Http.antt =====
-- The HTTP that agent/agent.go and agent/client.go exchange.
use clustertest.Prelude.{◌≡◌, ℕ, String, Bool, false, ◌&&◌, not, Error, Result, ok, ltb, ◌==◌}
use clustertest.Process.Types.{Bytes}

-- The body of a response: data, the text of an error, or a fixed text.
pub data Body : Type 0 where
  bytes : Bytes → Body
  error_text : Error → Body
  text : String → Body

pub record Response : Type 0 where
  pub status : ℕ
  pub body : Body

-- `http.Error(w, err.Error(), status)`
abbrev pub http_error : Error → ℕ → Response
http_error e status = record { status = status; body = error_text e }

-- `httpClient.Do`: the retrying client of `hashicorp/go-retryablehttp`, between it and the handler
-- the network and the router. It takes what the handler of the request does to the node.
pub record Transport (N : Type 0) : Type 1 where
  pub exchange : (N → Response × N) → N → Result Response × N

-- A server error that the retrying client does not pass on.
unfoldable pub is_retried : ℕ → Bool
is_retried status = not (ltb status 500) && not (status == 501)

module _ {N : Type 0} (T : Transport N) where
  -- A response that the client gets is one that the handler gave in the last attempt.
  abbrev pub IsHonest : Type 0
  IsHonest =
      (h : N → Response × N) (s t : N) (r : Response)
      → T.exchange h s ≡ (ok r, t)
      → (u : N) × (h u ≡ (r, t))

  -- A network that fails no request: the first response that is not retried is passed on.
  abbrev pub IsCalm : Type 0
  IsCalm =
      (h : N → Response × N) (s : N)
      → is_retried (h s).0.status ≡ false
      → T.exchange h s ≡ (ok (h s).0, (h s).1)

-- ===== src/Broker/Proxy.antt =====
-- proxy/proxy.go: the JSON-RPC proxy that all servers over stdio share. JSON documents and server
-- responses are opaque texts; a pipe is a number. Each section under the mutex is one step.
pub mod Laws
use neuralgentics.Prelude.{
  ℕ, ◌+◌, String, Bool, true, false, List, [], ◌∷◌, Option, none, some, ◌==◌, ◌||◌,
  number_comparable, string_comparable, lookup, insert, delete, map, if◌then◌else◌, Result, ok, err,
  ok_or, ◌>>=◌, wrap_error,
}
use neuralgentics.Broker.Transport.{EnvMap, ServerConfig, ToolSummary}

abbrev pub Payload : Type 0
Payload = String

pub data Response : Type 0 where
  failure : ℕ → String → Response
  success : Payload → Response

-- The channel of a request that is waited for: empty, or with the response that the reader put in.
pub data Channel : Type 0 where
  waiting : Channel
  answered : Response → Channel

-- `readers` are the pipes that a goroutine still reads; a reader ends only when its pipe does.
pub record McpProxy : Type 0 where
  pub next_id : ℕ
  pub pending : List (ℕ × Channel)
  pub readers : List ℕ
  pub running : Bool

abbrev pub new_mcp_proxy : McpProxy
new_mcp_proxy = record { next_id = 1; pending = []; readers = []; running = false }

-- The goroutine that was started before goes on: it reads the new `readerCh`, which is open.
unfoldable pub start_reader : ℕ → McpProxy → McpProxy
start_reader stdout p = record p { readers = stdout ∷ p.readers; running = true }

without : ℕ → List ℕ → List ℕ
without stdout [] = []
without stdout (r ∷ readers) =
    let rest = without stdout readers in if r == stdout then readers else r ∷ rest

-- The end of `readLoop`, when the pipe is closed.
unfoldable pub reader_ended : ℕ → McpProxy → McpProxy
unfolding without
reader_ended stdout p = record p { readers = without stdout p.readers; running = false }

-- Closes and removes every channel; a reader that finds `readerCh` nil goes on.
unfoldable pub stop : McpProxy → McpProxy
stop p = record p { running = false; pending = [] }

-- The part of `readLoop` that routes a response: one with an unknown id is dropped. A second
-- response to one id waits in the reader until the first has been taken: it is not put in.
abbrev delivered : ℕ → Response → McpProxy → Option Channel → McpProxy
delivered id response p none = p
delivered id response p (some waiting) = record p {
  pending = insert id (answered response) p.pending;
}
delivered id response p (some (answered first)) = p

unfoldable pub route : ℕ → Response → McpProxy → McpProxy
route id response p = delivered id response p (lookup id p.pending)

pub data ProxyError : Type 0 where
  not_started write_failed stopped_waiting timed_out bad_result not_initialized : ProxyError
  server_error : ℕ → String → ProxyError

-- The first section of `sendRPC`: the id of the new request.
unfoldable pub open_request : McpProxy → McpProxy × Result ProxyError ℕ
open_request p =
    if p.running
    then (
      record p { next_id = p.next_id + 1; pending = insert p.next_id waiting p.pending },
      ok p.next_id,
    )
    else (p, err not_started)

-- delete(p.pending, id)
unfoldable pub close_request : ℕ → McpProxy → McpProxy
close_request id p = record p { pending = delete id p.pending }

-- What the caller of `sendRPC` finds in its channel: nothing yet, the response, or a closed channel.
abbrev found : Option Channel → Option (Result ProxyError Response)
found none = some (err stopped_waiting)
found (some waiting) = none
found (some (answered response)) = some (ok response)

unfoldable pub receive : ℕ → McpProxy → Option (Result ProxyError Response)
receive id p = found (lookup id p.pending)

-- How a request ends that no other call disturbs.
pub data Answer : Type 0 where
  unwritten silent : Answer
  replied : Response → Answer

abbrev received : ℕ → McpProxy → Option (Result ProxyError Response) → Result ProxyError Response
received id p none = err timed_out
received id p (some r) = r

abbrev awaited : Answer → ℕ → McpProxy → McpProxy × Result ProxyError Response
awaited unwritten id p = (close_request id p, err write_failed)
awaited silent id p = (close_request id p, received id p (receive id p))
awaited (replied response) id p =
    let answered_proxy = route id response p in
    (close_request id answered_proxy, received id answered_proxy (receive id answered_proxy))

abbrev sent : Answer → McpProxy × Result ProxyError ℕ → McpProxy × Result ProxyError Response
sent answer (p, err e) = (p, err e)
sent answer (p, ok id) = awaited answer id p

-- `sendRPC` on its own: it registers the request, writes, waits, and removes the request.
unfoldable pub send_rpc : Answer → McpProxy → McpProxy × Result ProxyError Response
unfolding open_request close_request route receive
send_rpc answer p = sent answer (open_request p)

abbrev no_failure : Response → Result ProxyError Payload
no_failure (failure code message) = err (server_error code message)
no_failure (success payload) = ok payload

-- What a server behind a pipe does: its answers, whether the pipe takes a notification, and the
-- JSON decoders.
pub record Peer : Type 0 where
  pub answer : ℕ → String → Payload → Answer
  pub takes_notification : ℕ → Bool
  pub decode_tools : Payload → Option (List (String × String))
  pub decode_object : Payload → Option Payload

abbrev pub handshake : Payload
handshake = "{protocolVersion: 2024-11-05}"

unfoldable pub initialize : Peer → ℕ → McpProxy → McpProxy × Result ProxyError (Unit {0})
unfolding send_rpc
initialize peer stdin p =
    let (p', response) = send_rpc (peer.answer stdin "initialize" handshake) p in
    (
      p',
      response >>= no_failure >>= λ _.
          if peer.takes_notification stdin then ok tt else err write_failed,
    )

unfoldable pub call : Peer → String → Payload → ℕ → McpProxy → McpProxy × Result ProxyError Payload
unfolding send_rpc
call peer method params stdin p =
    let (p', response) = send_rpc (peer.answer stdin method params) p in
    (p', response >>= no_failure >>= λ r. ok_or bad_result (peer.decode_object r))

abbrev summary_of : String → String × String → ToolSummary
summary_of server t = record { server = server; name = t.0; description = t.1 }

unfoldable pub list_tools :
    Peer → String → ℕ → McpProxy → McpProxy × Result ProxyError (List ToolSummary)
unfolding send_rpc
list_tools peer server stdin p =
    let (p', response) = send_rpc (peer.answer stdin "tools/list" "{}") p in
    (
      p',
      response >>= no_failure >>= λ r.
          ok_or bad_result (peer.decode_tools r) >>= λ ts. ok (map (summary_of server) ts),
    )

-- The clients of `NewClientForConfig`.
pub data Client : Type 0 where
  stdio_client : ServerConfig → Client
  http_client : String → String → Client

pub data ClientError : Type 0 where
  url_required unknown_client_type : String → ClientError

abbrev env_value : String → EnvMap → String
env_value key none = ""
env_value key (some env) = elim (lookup key env) [ none ↦ "" | some v ↦ v ]

unfoldable pub new_client_for_config : ServerConfig → Result ClientError Client
new_client_for_config config =
    if config.kind == "stdio"
    then ok (stdio_client config)
    else if (config.kind == "http") || (config.kind == "sse")
    then (if env_value "NEURALGENTICS_MCP_URL" config.env == ""
        then err (url_required config.name)
        else ok (
            http_client (env_value "NEURALGENTICS_MCP_URL" config.env)
              (env_value "NEURALGENTICS_MCP_AUTH" config.env)))
    else err (unknown_client_type config.kind)

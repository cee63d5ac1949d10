-- ===== src/Broker/Core/Activation.antt =====
-- broker.go: ActivateMCPServerWithTransport, which tries the transports of a server in turn.
pub mod Attempts
pub mod Fallback
use Prim.Native.Nat.{◌%◌}
use neuralgentics.Prelude.{
  ℕ, zero, suc, ◌+◌, String, Bool, true, false, List, [], ◌∷◌, Option, none, some, ◌==◌, ◌||◌,
  string_comparable, number_comparable, insert, length, get_elem?, ltb, ℤ, pos, negsuc,
  if◌then◌else◌, Result, ok, err,
}
use neuralgentics.Broker.Transport.{
  ServerConfig, ToolSummary, TransportType, TransportConfig, McpServerConfig, to_server_config,
}
use neuralgentics.Broker.Registry.{
  ServerEntry, Pointer, Registry, modify, set_runtime, set_config, snapshot, get,
}
use neuralgentics.Broker.Proxy.{Client, ClientError, new_client_for_config}
use neuralgentics.Broker.Core.{
  World, Broker, Outcome, not_registered, no_transports, all_transports_failed, start_server,
}

-- An attempt leaves a broker, and says whether the transport works.
abbrev http_published :
    Broker → String → Pointer → ServerConfig → Client → List ToolSummary → Broker × Bool
http_published b name p sc client tools = (
  record b {
    registry = modify (set_runtime none none none tools) p (modify (set_config sc) p b.registry);
    http_clients = insert name client b.http_clients;
  },
  true,
)

abbrev http_listed :
    Broker → String → Pointer → ServerConfig → Client → Option (List ToolSummary) → Broker × Bool
http_listed b name p sc client none = (b, false)
http_listed b name p sc client (some tools) = http_published b name p sc client tools

abbrev http_connected :
    World → Broker → String → Pointer → ServerConfig → Result ClientError Client → Broker × Bool
http_connected w b name p sc (err e) = (b, false)
http_connected w b name p sc (ok client) =
    if w.http_initialize client
    then http_listed b name p sc client (w.http_list_tools client)
    else (b, false)

abbrev rolled_back : Pointer → Option ServerEntry → Outcome (Unit {0}) → Broker × Bool
rolled_back p old (b, ok _) = (b, true)
rolled_back p none (b, err e) = (b, false)
rolled_back p (some e) (b, err _) =
    (record b { registry = modify (set_config e.config) p b.registry }, false)

-- The old configuration comes back when the server does not start.
unfoldable pub stdio_attempt : World → Broker → String → Pointer → ServerConfig → Broker × Bool
stdio_attempt w b name p sc =
    rolled_back p (snapshot b.registry p)
      (start_server w (record b { registry = modify (set_config sc) p b.registry }) name)

-- One round of the loop.
unfoldable pub attempt : World → Broker → String → Pointer → ServerConfig → Broker × Bool
unfolding stdio_attempt
attempt w b name p sc =
    if (sc.kind == "http") || (sc.kind == "sse")
    then http_connected w b name p sc (new_client_for_config sc)
    else stdio_attempt w b name p sc

unfoldable pub start_index : ℤ → ℕ → ℕ
start_index (pos i) n = if ltb i n then i else 0
start_index (negsuc _) n = 0

-- The machine and the servers of round `i` are `worlds i`.
module _ (look_path : String → Bool) (worlds : ℕ → World) (name : String) (p : Pointer)
    (config : McpServerConfig) (start : ℕ) where
  unfoldable pub transport_at : ℕ → Option TransportConfig
  transport_at i = get_elem? config.transports ((start + i) % length config.transports)

  abbrev pub config_of : TransportConfig → ServerConfig
  config_of t = to_server_config look_path t name config.description config.capabilities

  abbrev attempted : ℕ → Broker → Option TransportConfig → Broker × Option TransportType
  attempted i b none = (b, none)
  attempted i b (some t) =
      let r = attempt (worlds i) b name p (config_of t) in (r.0, if r.1 then some t.kind else none)

  -- The loop, from round `i` on; `rounds` are left.
  unfoldable pub try_transports : (rounds i : ℕ) → Broker → Outcome TransportType
  unfolding transport_at
  try_transports zero i b = (b, err (all_transports_failed name))
  try_transports (suc rounds) i b =
      let r = attempted i b (transport_at i) in
      elim r.1 [ none ↦ try_transports rounds (suc i) r.0 | some kind ↦ (r.0, ok kind) ]

abbrev activated :
    (String → Bool)
    → (ℕ → World)
    → Broker
    → String
    → McpServerConfig
    → ℤ
    → Option Pointer
    → Outcome TransportType
activated look_path worlds b name config index none = (b, err (not_registered name))
activated look_path worlds b name config index (some p) =
    if length config.transports == 0
    then (b, err (no_transports name))
    else try_transports look_path worlds name p config
        (start_index index (length config.transports)) (length config.transports) 0 b

unfoldable pub activate_mcp_server_with_transport :
    (String → Bool) → (ℕ → World) → Broker → String → McpServerConfig → ℤ → Outcome TransportType
unfolding try_transports start_index
activate_mcp_server_with_transport look_path worlds b name config index =
    activated look_path worlds b name config index (get b.registry name)

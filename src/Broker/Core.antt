-- ===== src/Broker/Core.antt =====
-- broker.go: the broker over the registry, the launcher, the proxy and the access control. What the
-- machine, the servers and the hash of audit records do is a `World`, an argument of each operation.
pub mod Activation
pub mod Calls
pub mod Curated
pub mod Laws
pub mod Matching
use neuralgentics.Prelude.{
  ℕ, String, Bool, true, false, List, [], ◌∷◌, ◌++◌, Option, none, some, ◌==◌, ◌||◌,
  string_comparable, lookup, insert, delete, select, if◌then◌else◌, Result, ok, err, ok_or, ◌>>=◌,
  wrap_error, succeeded,
}
use neuralgentics.Broker.Transport.{ServerConfig, ToolSummary, ServerStatus, McpServerConfig}
use neuralgentics.Broker.Registry
use neuralgentics.Broker.Registry.{
  ServerEntry, Pointer, Registry, RegistryError, modify, set_tools, set_config, snapshot, get,
  register, deregister, new_registry,
}
use neuralgentics.Broker.Launcher
use neuralgentics.Broker.Launcher.{Machine, LauncherError}
use neuralgentics.Broker.Proxy
use neuralgentics.Broker.Proxy.{
  McpProxy, ProxyError, Peer, Payload, Client, new_mcp_proxy, start_reader,
}
use neuralgentics.Broker.Access.{
  Role, AccessControl, default_access_control, can_access, get_accessible_servers,
}

-- audit.AuditRecord without its times: the hash and the size are computed from opaque documents.
pub record AuditRecord : Type 0 where
  pub agent_role : Role
  pub server : String
  pub tool : String
  pub args_hash : String
  pub success : Bool
  pub result_size : Option ℕ

-- access.ErrUnauthorized
pub record Unauthorized : Type 0 where
  pub role : Role
  pub server : String
  pub available_servers : List String

pub data BrokerError : Type 0 where
  unauthorized : Unauthorized → BrokerError
  name_required command_required : BrokerError
  not_registered disappeared no_pipes not_running no_transports : String → BrokerError
  not_in_catalog : String → BrokerError
  start_failed initialize_failed list_failed call_failed : String → BrokerError
  stop_failed restart_failed all_transports_failed http_failed : String → BrokerError
  no_tools no_match : BrokerError
  registry_error : RegistryError → BrokerError

-- Calls of an HTTP client, and the digests of the audit package.
pub record World : Type 0 where
  pub machine : Machine
  pub peer : Peer
  pub http_initialize : Client → Bool
  pub http_list_tools : Client → Option (List ToolSummary)
  pub http_call : Client → String → Payload → Option Payload
  pub tool_params : String → Payload → Payload
  pub hash_args : Payload → String
  pub result_size : Payload → ℕ

-- An audit writer is the list of the records that were written to it, the first one first.
pub record Broker : Type 0 where
  pub registry : Registry
  pub proxy : McpProxy
  pub access : AccessControl
  pub http_clients : List (String × Client)
  pub audit_writer : Option (List AuditRecord)

unfoldable pub new_broker : Broker
unfolding default_access_control
new_broker = record {
  registry = new_registry;
  proxy = new_mcp_proxy;
  access = default_access_control;
  http_clients = [];
  audit_writer = none;
}

abbrev pub Outcome : Type 0 → Type 0
Outcome A = Broker × Result BrokerError A

unfoldable pub register_server : Broker → ServerConfig → Outcome (Unit {0})
register_server b config =
    if config.name == ""
    then (b, err name_required)
    else if config.command == ""
    then (b, err command_required)
    else (record b { registry = register b.registry config }, ok tt)

-- b.proxy.Stop(); _ = b.launcher.Stop(name)
unfoldable pub abandon : Broker → String → Broker
abandon b name = record b {
  proxy = Proxy.stop b.proxy;
  registry = (Launcher.stop b.registry name).0;
}

abbrev tools_stored : Broker → Pointer → List ToolSummary → Outcome (Unit {0})
tools_stored b p tools = (record b { registry = modify (set_tools tools) p b.registry }, ok tt)

abbrev tools_listed :
    Broker → String → Pointer → McpProxy × Result ProxyError (List ToolSummary) → Outcome (Unit {0})
tools_listed b name p (proxy, err e) =
    (abandon (record b { proxy = proxy }) name, err (list_failed name))
tools_listed b name p (proxy, ok tools) = tools_stored (record b { proxy = proxy }) p tools

abbrev initialized :
    World
    → Broker
    → String
    → Pointer
    → ℕ
    → McpProxy × Result ProxyError (Unit {0})
    → Outcome (Unit {0})
initialized w b name p stdin (proxy, err e) =
    (abandon (record b { proxy = proxy }) name, err (initialize_failed name))
initialized w b name p stdin (proxy, ok _) =
    tools_listed (record b { proxy = proxy }) name p (Proxy.list_tools w.peer name stdin proxy)

-- Steps 2 to 5 of `StartServer`.
abbrev connected : World → Broker → String → Pointer → Option ℕ → Option ℕ → Outcome (Unit {0})
connected w b name p (some stdin) (some stdout) =
    let proxy = start_reader stdout b.proxy in
    initialized w (record b { proxy = proxy }) name p stdin (Proxy.initialize w.peer stdin proxy)
connected w b name p _ _ = (b, err (no_pipes name))

abbrev entry_connected : World → Broker → String → Pointer → Option ServerEntry → Outcome (Unit {0})
entry_connected w b name p none = (b, err (disappeared name))
entry_connected w b name p (some e) = connected w b name p e.stdin e.stdout

abbrev reread : World → Broker → String → Option Pointer → Outcome (Unit {0})
reread w b name none = (b, err (disappeared name))
reread w b name (some p) = entry_connected w b name p (snapshot b.registry p)

abbrev launched : World → Broker → String → Registry × Option LauncherError → Outcome (Unit {0})
launched w b name (r, some e) = (record b { registry = r }, err (start_failed name))
launched w b name (r, none) = reread w (record b { registry = r }) name (get r name)

abbrev launch_entry : World → Broker → String → Option ServerEntry → Outcome (Unit {0})
launch_entry w b name none = (b, err (not_registered name))
launch_entry w b name (some e) = launched w b name (Launcher.start w.machine b.registry e.config)

abbrev entry_of : Registry → Option Pointer → Option ServerEntry
entry_of r none = none
entry_of r (some p) = snapshot r p

-- registry.Get and Snapshot: the entry behind a name.
unfoldable pub entry_named : Registry → String → Option ServerEntry
entry_named r name = entry_of r (get r name)

unfoldable pub start_server : World → Broker → String → Outcome (Unit {0})
unfolding abandon entry_named
start_server w b name = launch_entry w b name (entry_named b.registry name)

abbrev restarted : String → Outcome (Unit {0}) → Outcome (Unit {0})
restarted name (b, r) = (b, wrap_error (λ _. restart_failed name) r)

abbrev reload_stopped :
    World → Broker → String → Registry × Option LauncherError → Outcome (Unit {0})
reload_stopped w b name (r, some e) = (record b { registry = r }, err (stop_failed name))
reload_stopped w b name (r, none) = restarted name (start_server w (record b { registry = r }) name)

abbrev reload_running : World → Broker → String → Option ℕ → Outcome (Unit {0})
reload_running w b name none = start_server w b name
reload_running w b name (some _) =
    let stopped = record b { proxy = Proxy.stop b.proxy } in
    reload_stopped w stopped name (Launcher.stop b.registry name)

abbrev reload_entry : World → Broker → String → Option ServerEntry → Outcome (Unit {0})
reload_entry w b name none = (b, err (not_registered name))
reload_entry w b name (some e) = reload_running w b name e.process

unfoldable pub reload_server : World → Broker → String → Outcome (Unit {0})
unfolding start_server entry_named
reload_server w b name = reload_entry w b name (entry_named b.registry name)

abbrev reconfigured : World → Broker → String → ServerConfig → Option Pointer → Outcome (Unit {0})
reconfigured w b name config none = (b, err (not_registered name))
reconfigured w b name config (some p) =
    let named = record config { name = name } in
    let b' = record b { registry = modify (set_config named) p b.registry } in
    reload_entry w b' name (snapshot b'.registry p)

-- The new configuration is given the name of the server.
unfoldable pub reload_server_with_config :
    World → Broker → String → ServerConfig → Outcome (Unit {0})
unfolding start_server
reload_server_with_config w b name config = reconfigured w b name config (get b.registry name)

abbrev registry_result : Option RegistryError → Result BrokerError (Unit {0})
registry_result none = ok tt
registry_result (some e) = err (registry_error e)

unfoldable pub deregister_server : Broker → String → Outcome (Unit {0})
deregister_server b name =
    let (r, e) = deregister (Launcher.stop b.registry name).0 name in
    (record b { registry = r; http_clients = delete name b.http_clients }, registry_result e)

abbrev audited : AuditRecord → Broker → Broker
audited rec b = elim b.audit_writer [
  | none ↦ b
  | some records ↦ record b { audit_writer = some (records ++ rec ∷ []) }
]

abbrev size_of : World → Result BrokerError Payload → Option ℕ
size_of w (err e) = none
size_of w (ok result) = some (w.result_size result)

unfoldable pub build_record :
    World → Role → String → String → Payload → Result BrokerError Payload → AuditRecord
build_record w role server tool args result = record {
  agent_role = role;
  server = server;
  tool = tool;
  args_hash = w.hash_args args;
  success = succeeded result;
  result_size = size_of w result;
}

abbrev call_proxy :
    World → Broker → String → String → Payload → Option ℕ → Option ℕ → Outcome Payload
call_proxy w b server tool args (some stdin) (some stdout) =
    let (proxy, result) = Proxy.call w.peer "tools/call" (w.tool_params tool args) stdin b.proxy in
    (record b { proxy = proxy }, wrap_error (λ _. call_failed server) result)
call_proxy w b server tool args _ _ = (b, err (not_running server))

abbrev call_entry :
    World → Broker → String → String → Payload → Option ServerEntry → Outcome Payload
call_entry w b server tool args none = (b, err (not_registered server))
call_entry w b server tool args (some e) = call_proxy w b server tool args e.stdin e.stdout

-- A client that is stored for the server, or else the shared proxy.
abbrev dispatched : World → Broker → String → String → Payload → Option Client → Outcome Payload
dispatched w b server tool args (some client) =
    (b, ok_or (http_failed server) (w.http_call client tool args))
dispatched w b server tool args none =
    call_entry w b server tool args (entry_named b.registry server)

abbrev recorded : World → Role → String → String → Payload → Outcome Payload → Outcome Payload
recorded w role server tool args (b, result) =
    (audited (build_record w role server tool args result) b, result)

unfoldable pub refusal : Broker → Role → String → BrokerError
refusal b role server = unauthorized (record {
  role = role;
  server = server;
  available_servers = get_accessible_servers b.access role;
})

unfoldable pub call_server : World → Broker → Role → String → String → Payload → Outcome Payload
unfolding refusal build_record entry_named
call_server w b role server tool args =
    if can_access b.access role server
    then recorded w role server tool args
        (dispatched w b server tool args (lookup server b.http_clients))
    else recorded w role server tool args (b, err (refusal b role server))

abbrev health_status : World → Broker → ServerStatus → String × Launcher.HealthStatus
health_status w b s =
    (s.name, if s.running then Launcher.health w.machine b.registry s.name else Launcher.stopped)

-- The loop of `Health`.
health_of : World → Broker → List ServerStatus → List (String × Launcher.HealthStatus)
health_of w b [] = []
health_of w b (s ∷ statuses) =
    let (name, status) = health_status w b s in insert name status (health_of w b statuses)

unfoldable pub health : World → Broker → List (String × Launcher.HealthStatus)
unfolding health_of
health w b = health_of w b (Registry.list b.registry)

-- The goroutine of `StartReader` at the end of its pipe.
unfoldable pub pipe_closed : Broker → ℕ → Broker
pipe_closed b stdout = record b { proxy = Proxy.reader_ended stdout b.proxy }

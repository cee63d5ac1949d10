-- ===== src/Broker/Core/Curated.antt =====
-- catalog/curated.go and the catalog methods of broker.go. The embedded catalog is an argument.
pub mod Discovery
use neuralgentics.Prelude.{
  ℕ, String, Bool, true, false, not, List, [], ◌∷◌, ◌++◌, Option, none, some, ◌==◌, ◌&&◌, ◌||◌,
  string_comparable, contains, keys, lookup, insert, map, select, ℤ, if◌then◌else◌, Result, ok, err,
}
use neuralgentics.Broker.Transport.{
  EnvMap, TransportType, TransportConfig, McpServerConfig, ServerStatus, npx, uvx, local, docker,
  http, other,
}
use neuralgentics.Broker.Registry
use neuralgentics.Broker.Registry.{Pointer, Registry, RegistryError, register_mcp_server, get}
use neuralgentics.Broker.Access.{Role, can_access}
use neuralgentics.Broker.Core.{
  World, Broker, BrokerError, Outcome, Unauthorized, unauthorized, not_in_catalog, no_transports,
  registry_error, deregister_server,
}
use neuralgentics.Broker.Core.Activation.{activate_mcp_server_with_transport}

pub record CuratedTransport : Type 0 where
  pub kind : String
  pub package_name : String
  pub args : List String
  pub env : EnvMap
  pub url : String
  pub default : Bool
  pub description : String

pub record CuratedServer : Type 0 where
  pub name : String
  pub description : String
  pub homepage : String
  pub category : String
  pub capabilities : List String
  pub transports : List CuratedTransport
  pub required_env : List String

abbrev pub CuratedCatalog : Type 0
CuratedCatalog = List CuratedServer

unfoldable pub transport_binary : String → String
transport_binary kind =
    if kind == "npx"
    then "npx"
    else if kind == "uvx"
    then "uvx"
    else if kind == "docker"
    then "docker"
    else ""

-- The map `binaryAvailable`, read with a key that it holds or not.
abbrev binary_available : (String → Bool) → String → Bool
binary_available look_path binary =
    ((binary == "npx") || (binary == "uvx") || (binary == "docker") || (binary == "podman"))
    && look_path binary

abbrev usable : (String → Bool) → CuratedTransport → Bool
usable look_path t =
    if transport_binary t.kind == ""
    then true
    else binary_available look_path (transport_binary t.kind)

-- The loop, with the available transports, the unavailable types and those that were seen.
sorted_out :
    (String → Bool)
    → List CuratedTransport
    → List CuratedTransport
    → List String
    → List CuratedTransport × List String
unfolding transport_binary
sorted_out look_path [] available unavailable = (available, unavailable)
sorted_out look_path (t ∷ ts) available unavailable =
    sorted_out look_path ts (if usable look_path t then available ++ t ∷ [] else available) (
      if usable look_path t || contains t.kind unavailable
      then unavailable
      else unavailable ++ t.kind ∷ [])

unfoldable pub check_transport_availability :
    (String → Bool) → List CuratedTransport → List CuratedTransport × List String
unfolding sorted_out
check_transport_availability look_path transports = sorted_out look_path transports [] []

abbrev status_names : List ServerStatus → List String
status_names = map (λ s. s.name)

abbrev offered : Broker → Role → List String → CuratedServer → Bool
offered b role registered s =
    not (contains s.name registered) && ((role == "") || can_access b.access role s.name)

unfoldable pub discover_catalog : CuratedCatalog → Broker → Role → List CuratedServer
discover_catalog cat b role = select (offered b role (status_names (Registry.list b.registry))) cat

-- The first entry of the name.
find_server : CuratedCatalog → String → Option CuratedServer
find_server [] name = none
find_server (s ∷ servers) name = if s.name == name then some s else find_server servers name

transport_type : String → TransportType
transport_type kind =
    if kind == "npx"
    then npx
    else if kind == "uvx"
    then uvx
    else if kind == "local"
    then local
    else if kind == "docker"
    then docker
    else if kind == "http"
    then http
    else other kind

to_transport : CuratedTransport → TransportConfig
unfolding transport_type
to_transport t = record {
  kind = transport_type t.kind;
  package_name = t.package_name;
  args = t.args;
  env = t.env;
  url = t.url;
  default = t.default;
  description = t.description;
}

to_mcp_config : CuratedServer → McpServerConfig
unfolding to_transport
to_mcp_config s = record {
  name = s.name;
  transports = map to_transport s.transports;
  description = s.description;
  capabilities = s.capabilities;
}

abbrev then_activated :
    (String → Bool)
    → (ℕ → World)
    → Broker
    → McpServerConfig
    → String
    → ℤ
    → Registry × Option RegistryError
    → Outcome TransportType
then_activated look_path worlds b config name index (r, some e) =
    (record b { registry = r }, err (registry_error e))
then_activated look_path worlds b config name index (r, none) =
    activate_mcp_server_with_transport look_path worlds (record b { registry = r }) name config
      index

abbrev no_transport : CuratedServer → Bool
no_transport s = elim s.transports [ [] ↦ true | _ ∷ _ ↦ false ]

abbrev chosen :
    (String → Bool)
    → (ℕ → World)
    → Broker
    → Role
    → String
    → ℤ
    → Option CuratedServer
    → Outcome TransportType
chosen look_path worlds b role name index none = (b, err (not_in_catalog name))
chosen look_path worlds b role name index (some s) =
    if not (role == "") && not (can_access b.access role name)
    then (b, err (unauthorized (record { role = role; server = name; available_servers = [] })))
    else if no_transport s
    then (b, err (no_transports name))
    else then_activated look_path worlds b (to_mcp_config s) name index
        (register_mcp_server look_path b.registry (to_mcp_config s))

unfoldable pub activate_from_catalog :
    (String → Bool)
    → (ℕ → World)
    → CuratedCatalog
    → Broker
    → Role
    → String
    → ℤ
    → Outcome TransportType
unfolding find_server to_mcp_config
activate_from_catalog look_path worlds cat b role name index =
    chosen look_path worlds b role name index (find_server cat name)

abbrev deactivated : Broker → String → Option Pointer → Outcome (Unit {0})
deactivated b name none = (b, ok tt)
deactivated b name (some _) = deregister_server b name

unfoldable pub deactivate_mcp_server : Broker → String → Outcome (Unit {0})
deactivate_mcp_server b name = deactivated b name (get b.registry name)

abbrev listed :
    (String → Bool)
    → String
    → Option CuratedServer
    → Result BrokerError (List CuratedTransport × List String)
listed look_path name none = err (not_in_catalog name)
listed look_path name (some s) =
    ok (s.transports, (check_transport_availability look_path s.transports).1)

unfoldable pub list_transports :
    (String → Bool)
    → CuratedCatalog
    → String
    → Result BrokerError (List CuratedTransport × List String)
unfolding find_server
list_transports look_path cat name = listed look_path name (find_server cat name)

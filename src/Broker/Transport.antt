-- ===== src/Broker/Transport.antt =====
-- types/types.go: server configurations with one or several transports.
use neuralgentics.Prelude.{
  String, Bool, List, [], ◌∷◌, ◌++◌, Option, none, some, ◌==◌, string_comparable, insert,
  if◌then◌else◌, ◌≡◌, arith,
}

-- A nil map is `none`.
abbrev pub EnvMap : Type 0
EnvMap = Option (List (String × String))

pub record ServerConfig : Type 0 where
  pub name : String
  pub command : String
  pub args : List String
  pub env : EnvMap
  pub kind : String
  pub description : String
  pub capabilities : List String

pub record ToolSummary : Type 0 where
  pub server : String
  pub name : String
  pub description : String

pub record ServerStatus : Type 0 where
  pub name : String
  pub running : Bool
  pub tools : List ToolSummary
  pub last_error : String

pub data TransportType : Type 0 where
  npx uvx local docker http : TransportType
  other : String → TransportType

pub record TransportConfig : Type 0 where
  pub kind : TransportType
  pub package_name : String
  pub args : List String
  pub env : EnvMap
  pub url : String
  pub default : Bool
  pub description : String

pub record McpServerConfig : Type 0 where
  pub name : String
  pub transports : List TransportConfig
  pub description : String
  pub capabilities : List String

-- exec.LookPath: whether the machine has a program of the name.
module _ (look_path : String → Bool) where
  unfoldable pub detect_container_runtime : String
  detect_container_runtime =
      if look_path "docker" then "docker" else if look_path "podman" then "podman" else "docker"

  abbrev with_url : EnvMap → String → EnvMap
  with_url none url = some (("NEURALGENTICS_MCP_URL", url) ∷ [])
  with_url (some env) url = some (insert "NEURALGENTICS_MCP_URL" url env)

  -- The `switch` on the type: command, arguments, environment, and the kind of connection.
  abbrev launch : TransportType → TransportConfig → ServerConfig → ServerConfig
  launch npx t sc = record sc {
    command = "npx";
    args = "-y" ∷ t.package_name ∷ t.args;
    kind = "stdio";
  }
  launch uvx t sc = record sc { command = "uvx"; args = t.package_name ∷ t.args; kind = "stdio" }
  launch local t sc = record sc { command = t.package_name; args = t.args; kind = "stdio" }
  launch docker t sc =
      let run = "run" ∷ "-i" ∷ "--rm" ∷ t.args in
      record sc {
        command = detect_container_runtime;
        args = if t.package_name == "" then run else run ++ t.package_name ∷ [];
        kind = "stdio";
      }
  launch http t sc = record sc {
    command = "";
    kind = "http";
    env = if t.url == "" then sc.env else with_url sc.env t.url;
  }
  launch (other s) t sc = sc

  unfoldable pub to_server_config : TransportConfig → String → String → List String → ServerConfig
  unfolding detect_container_runtime insert
  to_server_config t name description capabilities = launch t.kind t (record {
    name = name;
    command = "";
    args = [];
    env = t.env;
    kind = "";
    description = description;
    capabilities = capabilities;
  })

  -- `none` is the error "has no transports".
  abbrev first_transport : McpServerConfig → List TransportConfig → Option ServerConfig
  first_transport c [] = none
  first_transport c (t ∷ _) = some (to_server_config t c.name c.description c.capabilities)

  unfoldable pub to_legacy_server_config : McpServerConfig → Option ServerConfig
  unfolding to_server_config
  to_legacy_server_config c = first_transport c c.transports

  -- A configuration made from a transport carries the name, the description and the capabilities
  -- that it was given; it talks over stdio for each of the four transports that launch a program.
  pub to_server_config_kind :
      (t : TransportConfig) (name description : String) (capabilities : List String)
      → ((to_server_config t name description capabilities).name ≡ name)
        × ((to_server_config t name description capabilities).capabilities ≡ capabilities)
        × ((to_server_config t name description capabilities).kind
            ≡ elim t.kind [ http ↦ "http" | other s ↦ "" | k ↦ "stdio" ])
  unfolding to_server_config
  to_server_config_kind t name description capabilities = ground arith

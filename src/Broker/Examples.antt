-- ===== src/Broker/Examples.antt =====
-- Runs of the broker's definitions on small inputs.
use neuralgentics.Prelude.{
  String, ◌≡◌, ◌≢◌, refl, Bool, true, false, List, [], ◌∷◌, none, lookup, insert, Distinct, ◌==◌,
  ==_iff, string_comparable, number_comparable,
}
use neuralgentics.Broker.Access.{AccessControl, can_access, revoke}
use neuralgentics.Broker.Access.Changes.{revoke_last_opens}
use neuralgentics.Broker.Transport.{
  ServerConfig, ToolSummary, TransportConfig, McpServerConfig, TransportType, to_server_config,
  to_server_config_kind,
}
use neuralgentics.Broker.Registry.{
  Registry, new_registry, register, get, get_tools, modify, set_tools, clear_runtime, snapshot,
}
use neuralgentics.Broker.Registry.Laws.{
  IsValid, register-IsValid, modify-IsValid, get_tools-modify, clear_runtime-set_tools,
}

differ : (a b : String) → (a == b) ≡ false → a ≢ b
differ a b e same = absurd (cc (e, (==_iff a b).1 same))

abbrev matrix : List (String × List String)
matrix = ("github", "git" ∷ []) ∷ ("search", "coder" ∷ "git" ∷ []) ∷ []

abbrev control : AccessControl
control = record { server_roles = matrix }

matrix-Distinct : Distinct matrix
matrix-Distinct = (refl, (refl, tt))

revoke_last_opens_example :
    (can_access control "coder" "github" ≡ false)
    × (can_access (revoke control "git" "github") "coder" "github" ≡ true)
unfolding lookup
revoke_last_opens_example =
    revoke_last_opens control "git" "github" "coder" refl (differ "coder" "git" refl)
      (differ "coder" "orchestrator" refl)

abbrev server : String → ServerConfig
server name = record {
  name = name;
  command = "npx";
  args = [];
  env = none;
  kind = "stdio";
  description = "";
  capabilities = [];
}

abbrev tool : String → ToolSummary
tool name = record { server = "fs"; name = name; description = "" }

new_registry-IsValid : IsValid new_registry
unfolding get snapshot lookup
new_registry-IsValid = record {
  allocated = λ p e h. absurd (cc h);
  present = λ name p h. absurd (cc h);
  unshared = λ a b p h k. absurd (cc h);
}

abbrev one : Registry
one = register new_registry (server "fs")

one-IsValid : IsValid one
one-IsValid = register-IsValid new_registry new_registry-IsValid (server "fs")

modify-IsValid_example : IsValid (modify clear_runtime 0 one)
modify-IsValid_example = modify-IsValid one one-IsValid clear_runtime 0

abbrev two : Registry
two = register one (server "web")

two-IsValid : IsValid two
two-IsValid = register-IsValid one one-IsValid (server "web")

get_tools-modify_example :
    get_tools (modify (set_tools (tool "fs_read" ∷ [])) 0 two) "web" ≡ get_tools two "web"
unfolding get register lookup insert
get_tools-modify_example =
    get_tools-modify two two-IsValid (set_tools (tool "fs_read" ∷ [])) "fs" "web" 0 refl
      (differ "web" "fs" refl)

clear_runtime-set_tools_example :
    get_tools (modify clear_runtime 0 (modify (set_tools (tool "fs_read" ∷ [])) 0 one)) "fs"
    ≡ tool "fs_read" ∷ []
unfolding get register lookup insert
clear_runtime-set_tools_example =
    clear_runtime-set_tools one one-IsValid "fs" 0 (tool "fs_read" ∷ []) refl

abbrev transport : TransportConfig
transport = record {
  kind = TransportType.npx;
  package_name = "fs-server";
  args = [];
  env = none;
  url = "";
  default = true;
  description = "";
}

abbrev config : McpServerConfig
config = record { name = "fs"; transports = transport ∷ []; description = ""; capabilities = [] }

abbrev only_podman : String → Bool
only_podman name = name == "podman"

to_server_config_kind_example :
    ((to_server_config only_podman transport "fs" "files" []).name ≡ "fs")
    × ((to_server_config only_podman transport "fs" "files" []).capabilities ≡ [])
    × ((to_server_config only_podman transport "fs" "files" []).kind ≡ "stdio")
to_server_config_kind_example = to_server_config_kind only_podman transport "fs" "files" []

abbrev tools : List ToolSummary
tools = tool "fs_read" ∷ tool "fs_write" ∷ []

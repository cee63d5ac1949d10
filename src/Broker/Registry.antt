-- ===== src/Broker/Registry.antt =====
-- registry/registry.go. The registry holds pointers to entries, and callers keep such pointers: the
-- entries stand in a heap, and a pointer is a number. Each method runs under a mutex, so it is one
-- step. Process handles and pipes are opaque numbers.
pub mod Laws
pub mod Capabilities
use neuralgentics.Prelude.{
  ℕ, ◌+◌, String, Bool, true, false, not, List, [], ◌∷◌, ◌++◌, Option, none, some, ◌==◌,
  string_comparable, number_comparable, lookup, insert, delete, contains, keys, map, select,
  if◌then◌else◌,
}
use neuralgentics.Broker.Transport.{
  ServerConfig, ToolSummary, ServerStatus, McpServerConfig, to_legacy_server_config,
}

pub record ServerEntry : Type 0 where
  pub config : ServerConfig
  pub process : Option ℕ
  pub tools : List ToolSummary
  pub stdin : Option ℕ
  pub stdout : Option ℕ

abbrev pub Pointer : Type 0
Pointer = ℕ

pub record Registry : Type 0 where
  pub heap : List (Pointer × ServerEntry)
  pub fresh : Pointer
  pub servers : List (String × Pointer)

abbrev pub new_registry : Registry
new_registry = record { heap = []; fresh = 0; servers = [] }

-- A method of an entry, called through a pointer.
abbrev pub modify : (ServerEntry → ServerEntry) → Pointer → Registry → Registry
modify f p r = elim (lookup p r.heap) [
  | none ↦ r
  | some e ↦ record r { heap = insert p (f e) r.heap }
]

unfoldable pub set_runtime :
    Option ℕ → Option ℕ → Option ℕ → List ToolSummary → ServerEntry → ServerEntry
set_runtime process stdin stdout tools e = record e {
  process = process;
  stdin = stdin;
  stdout = stdout;
  tools = tools;
}

unfoldable pub set_tools : List ToolSummary → ServerEntry → ServerEntry
set_tools tools e = record e { tools = tools }

unfoldable pub set_config : ServerConfig → ServerEntry → ServerEntry
set_config config e = record e { config = config }

unfoldable pub clear_runtime : ServerEntry → ServerEntry
clear_runtime e = record e { process = none; stdin = none; stdout = none }

-- Snapshot: a copy of the entry behind the pointer.
unfoldable pub snapshot : Registry → Pointer → Option ServerEntry
snapshot r p = lookup p r.heap

-- Register allocates a new entry; it never fails.
unfoldable pub register : Registry → ServerConfig → Registry
register r config = record {
  heap =
      insert r.fresh
        (record { config = config; process = none; tools = []; stdin = none; stdout = none })
        r.heap;
  fresh = r.fresh + 1;
  servers = insert config.name r.fresh r.servers;
}

pub data RegistryError : Type 0 where
  server_not_found : String → RegistryError
  name_required transport_required no_transports : RegistryError

abbrev removed : Registry → String → Option Pointer → Registry × Option RegistryError
removed r name none = (r, some (server_not_found name))
removed r name (some _) = (record r { servers = delete name r.servers }, none)

-- The registry afterwards, and the error if there is one.
pub deregister : Registry → String → Registry × Option RegistryError
deregister r name = removed r name (lookup name r.servers)

unfoldable pub get : Registry → String → Option Pointer
get r name = lookup name r.servers

pub update_entry : Registry → String → Pointer → Registry
update_entry r name p = record r { servers = insert name p r.servers }

abbrev entry_tools : Option ServerEntry → List ToolSummary
entry_tools none = []
entry_tools (some e) = e.tools

pub get_tools : Registry → String → List ToolSummary
unfolding snapshot
get_tools r name = elim (lookup name r.servers) [ none ↦ [] | some p ↦ entry_tools (snapshot r p) ]

-- The loop over the entries; the order is that of the map.
gather : Registry → List (String × Pointer) → List ToolSummary
unfolding snapshot
gather r [] = []
gather r ((name, p) ∷ rest) = entry_tools (snapshot r p) ++ gather r rest

pub get_all_tools : Registry → List ToolSummary
unfolding gather
get_all_tools r = gather r r.servers

abbrev running : Option ServerEntry → Bool
running none = false
running (some e) = elim e.process [ none ↦ false | some _ ↦ true ]

statuses : Registry → List (String × Pointer) → List ServerStatus
unfolding snapshot
statuses r [] = []
statuses r ((name, p) ∷ rest) =
    record {
      name = name;
      running = running (snapshot r p);
      tools = entry_tools (snapshot r p);
      last_error = "";
    }
    ∷ statuses r rest

pub list : Registry → List ServerStatus
unfolding statuses
list r = statuses r r.servers

pub get_server_names : Registry → List String
get_server_names r = keys r.servers

abbrev registered : Registry → Option ServerConfig → Registry × Option RegistryError
registered r none = (r, some no_transports)
registered r (some sc) = (register r sc, none)

abbrev no_transport : McpServerConfig → Bool
no_transport config = elim config.transports [ [] ↦ true | _ ∷ _ ↦ false ]

pub register_mcp_server :
    (String → Bool) → Registry → McpServerConfig → Registry × Option RegistryError
register_mcp_server look_path r config =
    if config.name == ""
    then (r, some name_required)
    else if no_transport config
    then (r, some transport_required)
    else registered r (to_legacy_server_config look_path config)

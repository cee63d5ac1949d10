-- ===== src/Broker/Scenarios.antt =====
-- broker.go and the proxy on a machine with one server that answers over stdio.
use neuralgentics.Prelude.{
  ℕ, ◌+◌, ◌≡◌, ◌⊎◌, refl, true, false, [], ◌∷◌, none, some, negsuc, lookup, string_comparable,
  number_comparable, ok, err, succeeded, insert, delete, sort_strings,
}
use neuralgentics.Broker.Transport.{
  ServerConfig, McpServerConfig, npx, other, to_server_config, detect_container_runtime,
}
use neuralgentics.Broker.Registry.{
  register, new_registry, get, snapshot, set_runtime, set_tools, set_config, clear_runtime,
}
use neuralgentics.Broker.Launcher.{
  Machine, build_command, start as start_process, stop as stop_process, clear_after_exit,
}
use neuralgentics.Broker.Proxy.{
  Peer, success, replied, new_mcp_proxy, start_reader, open_request, send_rpc, not_started,
  initialize, list_tools, call as call_proxy, close_request, receive, route, stop as stop_proxy,
  reader_ended, new_client_for_config,
}
use neuralgentics.Broker.Proxy.Laws.{fresh, after, starts, opens, send_rpc_lem}
use neuralgentics.Broker.Access.{
  can_access, default_access_control, default_server_roles, new_access_control,
  get_accessible_servers,
}
use neuralgentics.Broker.Core.{
  World, Broker, new_broker, start_server, call_server, refusal, pipe_closed, abandon, build_record,
  entry_named,
}
use neuralgentics.Broker.Core.Calls.{
  Recorded, Request, requested, after_requests, is_success, call_server_audited,
  pipe_closed_disables,
}
use neuralgentics.Broker.Core.Activation.{
  activate_mcp_server_with_transport, start_index, attempt, stdio_attempt, transport_at,
  try_transports,
}
use neuralgentics.Broker.Core.Activation.Fallback.{Ends, activate_mcp_server_with_transport-Ends}
use neuralgentics.Broker.Core.Curated.{CuratedServer}

abbrev machine : Machine
machine = record {
  environ = "HOME=/root" ∷ [];
  stdin_pipe = λ _. some 3;
  stdout_pipe = λ _. some 4;
  start_process = λ _. some 77;
  alive = λ _. true;
}

abbrev peer : Peer
peer = record {
  answer = λ _ _ _. replied (success "{}");
  takes_notification = λ _. true;
  decode_tools = λ _. some (("search", "finds things") ∷ []);
  decode_object = λ r. some r;
}

abbrev world : World
world = record {
  machine = machine;
  peer = peer;
  http_initialize = λ _. false;
  http_list_tools = λ _. none;
  http_call = λ _ _ _. none;
  tool_params = λ tool args. args;
  hash_args = λ args. args;
  result_size = λ _. 2;
}

abbrev fetch_config : ServerConfig
fetch_config = record {
  name = "fetch";
  command = "fetchd";
  args = [];
  env = none;
  kind = "stdio";
  description = "";
  capabilities = [];
}

abbrev broker : Broker
broker = record {
  registry = register new_registry fetch_config;
  proxy = new_mcp_proxy;
  access = new_broker.access;
  http_clients = [];
  audit_writer = some [];
}

-- A running server answers a call; after a pipe was closed, the same call fails.
call_answered :
    (call_server world (start_server world broker "fetch").0 "coder" "fetch" "search" "{}").1
    ≡ ok "{}"
unfolding lookup insert delete sort_strings get register snapshot set_runtime set_tools set_config
    clear_runtime can_access default_access_control default_server_roles new_access_control
    get_accessible_servers to_server_config detect_container_runtime build_command start_process
    stop_process clear_after_exit initialize start_reader list_tools call_proxy close_request
    open_request receive route send_rpc stop_proxy reader_ended new_client_for_config new_broker
    abandon build_record entry_named refusal start_server call_server pipe_closed attempt
    stdio_attempt transport_at try_transports start_index activate_mcp_server_with_transport
call_answered = refl

call_after_close :
    succeeded
      (call_server world
        (pipe_closed (start_server world broker "fetch").0 9)
        "coder"
        "fetch"
        "search"
        "{}").1
    ≡ false
unfolding lookup insert delete sort_strings get register snapshot set_runtime set_tools set_config
    clear_runtime can_access default_access_control default_server_roles new_access_control
    get_accessible_servers to_server_config detect_container_runtime build_command start_process
    stop_process clear_after_exit initialize start_reader list_tools call_proxy close_request
    open_request receive route send_rpc stop_proxy reader_ended new_client_for_config new_broker
    abandon build_record entry_named refusal start_server call_server pipe_closed attempt
    stdio_attempt transport_at try_transports start_index activate_mcp_server_with_transport
call_after_close = refl

call_server_audited_example :
    Recorded world broker "coder" "github-mcp" "search" "{}"
      (call_server world broker "coder" "github-mcp" "search" "{}")
    × (can_access broker.access "coder" "github-mcp" ≡ false
        → ((call_server world broker "coder" "github-mcp" "search" "{}").1
            ≡ err (refusal broker "coder" "github-mcp"))
          × ((call_server world broker "coder" "github-mcp" "search" "{}").0.proxy ≡ broker.proxy))
unfolding lookup insert delete sort_strings get register snapshot set_runtime set_tools set_config
    clear_runtime can_access default_access_control default_server_roles new_access_control
    get_accessible_servers to_server_config detect_container_runtime build_command start_process
    stop_process clear_after_exit initialize start_reader list_tools call_proxy close_request
    open_request receive route send_rpc stop_proxy reader_ended new_client_for_config new_broker
    abandon build_record entry_named refusal start_server call_server pipe_closed attempt
    stdio_attempt transport_at try_transports start_index activate_mcp_server_with_transport
call_server_audited_example = call_server_audited world broker "coder" "github-mcp" "search" "{}"

abbrev started : Broker
started = (start_server world broker "fetch").0

abbrev search_fetch : Request
search_fetch = record {
  world = world;
  role = "coder";
  server = "fetch";
  tool = "search";
  args = "{}";
}

pipe_closed_disables_example :
    (is_success
        (requested (after_requests (pipe_closed started 9) (search_fetch ∷ [])) search_fetch).1
      ≡ false)
    × (is_success
          (requested (after_requests (abandon started "other") (search_fetch ∷ [])) search_fetch).1
        ≡ false)
unfolding lookup insert delete sort_strings get register snapshot set_runtime set_tools set_config
    clear_runtime can_access default_access_control default_server_roles new_access_control
    get_accessible_servers to_server_config detect_container_runtime build_command start_process
    stop_process clear_after_exit initialize start_reader list_tools call_proxy close_request
    open_request receive route send_rpc stop_proxy reader_ended new_client_for_config new_broker
    abandon build_record entry_named refusal start_server call_server pipe_closed attempt
    stdio_attempt transport_at try_transports start_index activate_mcp_server_with_transport
pipe_closed_disables_example =
    pipe_closed_disables started 9 "other" (search_fetch ∷ []) search_fetch refl

send_rpc_lem_example :
    (((open_request (start_reader 4 new_mcp_proxy)).0.running ≡ false)
      × (send_rpc (replied (success "{}")) (open_request (start_reader 4 new_mcp_proxy)).0
          ≡ ((open_request (start_reader 4 new_mcp_proxy)).0, err not_started)))
    ⊎ (((open_request (start_reader 4 new_mcp_proxy)).0.running ≡ true)
        × ((send_rpc (replied (success "{}")) (open_request (start_reader 4 new_mcp_proxy)).0).1
            ≡ ok (success "{}"))
        × ((send_rpc
              (replied (success "{}"))
              (open_request (start_reader 4 new_mcp_proxy)).0).0.next_id
            ≡ (open_request (start_reader 4 new_mcp_proxy)).0.next_id + 1)
        × ((id : ℕ)
            → lookup id
                (send_rpc
                  (replied (success "{}"))
                  (open_request (start_reader 4 new_mcp_proxy)).0).0.pending
              ≡ lookup id (open_request (start_reader 4 new_mcp_proxy)).0.pending))
unfolding open_request start_reader
send_rpc_lem_example =
    send_rpc_lem (open_request (start_reader 4 new_mcp_proxy)).0 (replied (success "{}"))
      (after (after fresh (starts 4)) opens)

abbrev two_transports : McpServerConfig
two_transports = record {
  name = "fetch";
  transports =
      record {
        kind = other "sse";
        package_name = "";
        args = [];
        env = none;
        url = "";
        default = false;
        description = "";
      }
      ∷ record {
        kind = npx;
        package_name = "fetch-mcp";
        args = [];
        env = none;
        url = "";
        default = true;
        description = "";
      }
      ∷ [];
  description = "";
  capabilities = [];
}

-- The first transport fails and the second is taken.
activate_falls_back :
    (activate_mcp_server_with_transport
      (λ _. true)
      (λ _. world)
      broker
      "fetch"
      two_transports
      (negsuc 0)).1
    ≡ ok npx
unfolding lookup insert delete sort_strings get register snapshot set_runtime set_tools set_config
    clear_runtime can_access default_access_control default_server_roles new_access_control
    get_accessible_servers to_server_config detect_container_runtime build_command start_process
    stop_process clear_after_exit initialize start_reader list_tools call_proxy close_request
    open_request receive route send_rpc stop_proxy reader_ended new_client_for_config new_broker
    abandon build_record entry_named refusal start_server call_server pipe_closed attempt
    stdio_attempt transport_at try_transports start_index activate_mcp_server_with_transport
activate_falls_back = refl

activate_mcp_server_with_transport-Ends_example :
    Ends
      (λ _. true)
      (λ _. world)
      "fetch"
      0
      two_transports
      0
      fetch_config
      broker
      2
      (activate_mcp_server_with_transport
        (λ _. true)
        (λ _. world)
        broker
        "fetch"
        two_transports
        (negsuc 0))
unfolding lookup insert delete sort_strings get register snapshot set_runtime set_tools set_config
    clear_runtime can_access default_access_control default_server_roles new_access_control
    get_accessible_servers to_server_config detect_container_runtime build_command start_process
    stop_process clear_after_exit initialize start_reader list_tools call_proxy close_request
    open_request receive route send_rpc stop_proxy reader_ended new_client_for_config new_broker
    abandon build_record entry_named refusal start_server call_server pipe_closed attempt
    stdio_attempt transport_at try_transports start_index activate_mcp_server_with_transport
activate_mcp_server_with_transport-Ends_example =
    activate_mcp_server_with_transport-Ends (λ _. true) (λ _. world) broker "fetch" two_transports
      (negsuc 0) 0 fetch_config refl refl (λ e. cc)

abbrev github : CuratedServer
github = record {
  name = "github-mcp";
  description = "";
  homepage = "";
  category = "code";
  capabilities = [];
  transports = [];
  required_env = [];
}

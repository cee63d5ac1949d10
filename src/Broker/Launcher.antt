-- ===== src/Broker/Launcher.antt =====
-- launcher/launcher.go: the processes of the servers. What the operating system does is a `Machine`,
-- an argument of each operation; a process handle and a pipe are opaque numbers.
pub mod Laws
use Prim.Native.String.{◌++◌ as append}
use neuralgentics.Prelude.{
  ℕ, String, Bool, true, false, List, [], ◌∷◌, ◌++◌, Option, none, some, ◌==◌, ◌||◌,
  string_comparable, map, if◌then◌else◌, Result, ok, err, ok_or, ◌>>=◌,
}
use neuralgentics.Broker.Transport.{
  EnvMap, ServerConfig, ToolSummary, TransportConfig, to_server_config,
}
use neuralgentics.Broker.Registry.{
  ServerEntry, Pointer, Registry, modify, set_runtime, clear_runtime, snapshot, get,
}

-- The constants of `HealthStatus`.
pub data HealthStatus : Type 0 where
  stopped dead initializing healthy unhealthy : HealthStatus

-- exec.Cmd, as far as it is set; an environment of `none` is that of the broker itself.
pub record Command : Type 0 where
  pub program : String
  pub args : List String
  pub environment : Option (List String)

-- os/exec and os: the environment of the broker, the pipes that a command is given, the process
-- that starting it gives, and whether a process answers signal 0.
pub record Machine : Type 0 where
  pub environ : List String
  pub stdin_pipe : Command → Option ℕ
  pub stdout_pipe : Command → Option ℕ
  pub start_process : Command → Option ℕ
  pub alive : ℕ → Bool

pub data LauncherError : Type 0 where
  not_registered not_found : String → LauncherError
  no_stdin_pipe no_stdout_pipe not_started : LauncherError
  unknown_type : String → LauncherError

-- What `BuildCommand` returns.
pub record Built : Type 0 where
  pub command : Command
  pub stdin : Option ℕ
  pub stdout : Option ℕ

abbrev binding : String × String → String
binding e = append e.0 (append "=" e.1)

command_environment : Machine → EnvMap → Option (List String)
command_environment m none = none
command_environment m (some []) = none
command_environment m (some (e ∷ env)) = some (m.environ ++ map binding (e ∷ env))

-- The `switch` on the type.
with_pipes : Machine → String → Command → Result LauncherError Built
with_pipes m kind c =
    if kind == "stdio"
    then (ok_or no_stdin_pipe (m.stdin_pipe c) >>= λ i.
        ok_or no_stdout_pipe (m.stdout_pipe c) >>= λ o.
        ok (record { command = c; stdin = some i; stdout = some o }))
    else if (kind == "http") || (kind == "sse")
    then ok (record { command = c; stdin = none; stdout = none })
    else err (unknown_type kind)

unfoldable pub build_command : Machine → ServerConfig → Result LauncherError Built
unfolding with_pipes command_environment
build_command m config = with_pipes m config.kind (record {
  program = config.command;
  args = config.args;
  environment = command_environment m config.env;
})

pub build_command_for_transport :
    (String → Bool)
    → Machine
    → TransportConfig
    → String
    → String
    → List String
    → Result LauncherError Built
build_command_for_transport look_path m t name description capabilities =
    build_command m (to_server_config look_path t name description capabilities)

abbrev cached_tools : Option ServerEntry → List ToolSummary
cached_tools none = []
cached_tools (some e) = e.tools

abbrev launched : Pointer → Built → Registry → Option ℕ → Registry × Option LauncherError
launched p b r none = (r, some not_started)
launched p b r (some process) =
    (modify (set_runtime (some process) b.stdin b.stdout (cached_tools (snapshot r p))) p r, none)

abbrev launch_built :
    Machine → Pointer → Registry → Result LauncherError Built → Registry × Option LauncherError
launch_built m p r (err e) = (r, some e)
launch_built m p r (ok b) = launched p b r (m.start_process b.command)

abbrev start_at :
    Machine → ServerConfig → Registry → Option Pointer → Registry × Option LauncherError
start_at m config r none = (r, some (not_registered config.name))
start_at m config r (some p) = launch_built m p r (build_command m config)

-- Start, without the goroutine that waits for the process: see `clear_after_exit`.
unfoldable pub start : Machine → Registry → ServerConfig → Registry × Option LauncherError
start m r config = start_at m config r (get r config.name)

abbrev cleared : Registry → Option Pointer → Registry
cleared r none = r
cleared r (some p) = modify clear_runtime p r

-- The entry is looked up by its name; the goroutine of `Start` calls this when its process has
-- failed, which may be at any later time.
unfoldable pub clear_after_exit : Registry → String → Registry
clear_after_exit r name = cleared r (get r name)

abbrev stop_process : Registry → String → Option ℕ → Registry × Option LauncherError
stop_process r name none = (r, none)
stop_process r name (some _) = (clear_after_exit r name, none)

abbrev process_of : Option ServerEntry → Option ℕ
process_of none = none
process_of (some e) = e.process

abbrev stop_at : Registry → String → Option Pointer → Registry × Option LauncherError
stop_at r name none = (r, some (not_found name))
stop_at r name (some p) = stop_process r name (process_of (snapshot r p))

-- Interrupt, and kill after five seconds: the process is gone on every path.
unfoldable pub stop : Registry → String → Registry × Option LauncherError
unfolding clear_after_exit
stop r name = stop_at r name (get r name)

abbrev piped : Option ℕ → Option ℕ → HealthStatus
piped (some _) (some _) = healthy
piped _ _ = initializing

abbrev health_of_process : Machine → ServerEntry → Option ℕ → HealthStatus
health_of_process m e none = stopped
health_of_process m e (some process) = if m.alive process then piped e.stdin e.stdout else dead

abbrev health_of : Machine → Option ServerEntry → HealthStatus
health_of m none = stopped
health_of m (some e) = health_of_process m e e.process

abbrev health_at : Machine → Registry → Option Pointer → HealthStatus
health_at m r none = stopped
health_at m r (some p) = health_of m (snapshot r p)

unfoldable pub health : Machine → Registry → String → HealthStatus
health m r name = health_at m r (get r name)

-- ===== src/Broker/Core/Calls.antt =====
-- broker.go: the calls of tools, their audit records, and what stops them.
use neuralgentics.Prelude.{
  ℕ, String, ◌≡◌, inl, inr, refl, ap, ◌∙◌, Bool, true, false, Result, ok, List, [], ◌∷◌, ◌++◌,
  Option, none, some, lookup, string_comparable, arith, Option-cases, Bool-cases, err,
}
use neuralgentics.Broker.Registry.{ServerEntry}
use neuralgentics.Broker.Access.{Role, can_access}
use neuralgentics.Broker.Proxy
use neuralgentics.Broker.Proxy.{McpProxy, Peer, Payload, Client, ProxyError, send_rpc}
use neuralgentics.Broker.Proxy.Laws.{send_rpc_stopped}
use neuralgentics.Broker.Core.{
  AuditRecord, World, Broker, Outcome, entry_named, build_record, call_proxy, call_entry,
  dispatched, recorded, refusal, call_server, pipe_closed, abandon,
}

-- What one call writes to the audit log.
abbrev pub logged : Option (List AuditRecord) → AuditRecord → Option (List AuditRecord)
logged none r = none
logged (some records) r = some (records ++ r ∷ [])

-- What a call leaves alone.
record Intact (b b' : Broker) : Type 0 where
  registry : b'.registry ≡ b.registry
  access : b'.access ≡ b.access
  http_clients : b'.http_clients ≡ b.http_clients
  audit_writer : b'.audit_writer ≡ b.audit_writer

Intact-of_proxy : (b : Broker) (proxy : McpProxy) → Intact b (record b { proxy = proxy })
Intact-of_proxy b proxy = record {
  registry = refl;
  access = refl;
  http_clients = refl;
  audit_writer = refl;
}

module _ (w : World) (b : Broker) (server tool : String) (args : Payload) where
  call_proxy-Intact :
      (stdin stdout : Option ℕ) → Intact b (call_proxy w b server tool args stdin stdout).0
  call_proxy-Intact (some stdin) (some stdout) = Intact-of_proxy b _
  call_proxy-Intact none stdout = Intact-of_proxy b b.proxy
  call_proxy-Intact (some stdin) none = Intact-of_proxy b b.proxy

  call_entry-Intact : (e : Option ServerEntry) → Intact b (call_entry w b server tool args e).0
  call_entry-Intact none = Intact-of_proxy b b.proxy
  call_entry-Intact (some e) = call_proxy-Intact e.stdin e.stdout

  dispatched-Intact : (c : Option Client) → Intact b (dispatched w b server tool args c).0
  dispatched-Intact (some client) = Intact-of_proxy b b.proxy
  dispatched-Intact none = call_entry-Intact (entry_named b.registry server)

abbrev pub is_success : {E A : Type 0} → Result E A → Bool
is_success (ok a) = true
is_success (err e) = false

-- What is true of a call that leaves `b'` and returns `result`.
pub record Recorded (w : World) (b : Broker) (role : Role) (server tool : String) (args : Payload)
    (r : Outcome Payload) : Type 0 where
  pub registry : r.0.registry ≡ b.registry
  pub access : r.0.access ≡ b.access
  pub http_clients : r.0.http_clients ≡ b.http_clients
  pub audit_writer :
      r.0.audit_writer
      ≡ logged b.audit_writer (record {
        agent_role = role;
        server = server;
        tool = tool;
        args_hash = w.hash_args args;
        success = is_success r.1;
        result_size = elim r.1 [ ok result ↦ some (w.result_size result) | err e ↦ none ];
      })

module _ (w : World) (b : Broker) (role : Role) (server tool : String) (args : Payload) where
  recorded-Recorded :
      (r : Outcome Payload)
      → Intact b r.0
      → Recorded w b role server tool args (recorded w role server tool args r)
  unfolding build_record
  recorded-Recorded (b', result) i = elim (Option-cases b'.audit_writer) [
    | inl e ↦ ground arith
    | inr (records, e) ↦ ground arith
  ]

  -- Every call, refused, failed or answered, whatever the servers do, writes exactly one record to
  -- an installed audit log, behind those that are there: the role, the server, the tool and the
  -- hash of the arguments of the call, true for a call that was answered and false for one that
  -- failed or was refused, and the size of the answer, if there is one. The registry, the
  -- permissions and the HTTP clients stay as they are. A call that the role is not permitted is
  -- refused with the servers that it could call, and does not reach the proxy.
  pub call_server_audited :
      Recorded w b role server tool args (call_server w b role server tool args)
      × (can_access b.access role server ≡ false
          → ((call_server w b role server tool args).1 ≡ err (refusal b role server))
            × ((call_server w b role server tool args).0.proxy ≡ b.proxy))
  unfolding call_server
  call_server_audited = elim (Bool-cases (can_access b.access role server)) [
    | inl yes_ ↦ rw yes_ (
      recorded-Recorded (dispatched w b server tool args (lookup server b.http_clients))
          (dispatched-Intact w b server tool args (lookup server b.http_clients)),
      λ off. cc,
    )
    | inr no_ ↦ rw no_ (
      recorded-Recorded (b, err (refusal b role server)) (Intact-of_proxy b b.proxy),
      λ off. elim (Option-cases b.audit_writer) [
        | inl e ↦ ground arith
        | inr (records, e) ↦ ground arith
      ],
    )
  ]

module _ (w : World) (b : Broker) (server tool : String) (args : Payload)
    (off : b.proxy.running ≡ false) where
  call_proxy_fails :
      (stdin stdout : Option ℕ)
      → is_success (call_proxy w b server tool args stdin stdout).1 ≡ false
  unfolding Proxy.call
  call_proxy_fails (some stdin) (some stdout) =
      rw (send_rpc_stopped (w.peer.answer stdin "tools/call" (w.tool_params tool args)) b.proxy off)
        refl
  call_proxy_fails none stdout = refl
  call_proxy_fails (some stdin) none = refl

  call_entry_fails :
      (e : Option ServerEntry) → is_success (call_entry w b server tool args e).1 ≡ false
  call_entry_fails none = refl
  call_entry_fails (some e) = call_proxy_fails e.stdin e.stdout

  call_proxy_stopped :
      (stdin stdout : Option ℕ)
      → (call_proxy w b server tool args stdin stdout).0.proxy.running ≡ false
  unfolding Proxy.call
  call_proxy_stopped (some stdin) (some stdout) =
      rw (send_rpc_stopped (w.peer.answer stdin "tools/call" (w.tool_params tool args)) b.proxy off)
        off
  call_proxy_stopped none stdout = off
  call_proxy_stopped (some stdin) none = off

  call_entry_stopped :
      (e : Option ServerEntry) → (call_entry w b server tool args e).0.proxy.running ≡ false
  call_entry_stopped none = off
  call_entry_stopped (some e) = call_proxy_stopped e.stdin e.stdout

  dispatched_stopped :
      (c : Option Client) → (dispatched w b server tool args c).0.proxy.running ≡ false
  dispatched_stopped (some client) = off
  dispatched_stopped none = call_entry_stopped (entry_named b.registry server)

  -- A call does not start the proxy.
  call_server_stopped :
      (role : Role) → (call_server w b role server tool args).0.proxy.running ≡ false
  unfolding call_server
  call_server_stopped role = elim (Bool-cases (can_access b.access role server)) [
    | inl on ↦ rw on (
        recorded_stopped role (dispatched w b server tool args (lookup server b.http_clients))
          (dispatched_stopped (lookup server b.http_clients)))
    | inr denied ↦ rw denied (recorded_stopped role (b, err (refusal b role server)) off)
  ]
    where
      recorded_stopped :
          (role : Role) (r : Outcome Payload)
          → r.0.proxy.running ≡ false
          → (recorded w role server tool args r).0.proxy.running ≡ false
      recorded_stopped role (c, result) h = elim (Option-cases c.audit_writer) [
        | inl e ↦ ground arith
        | inr (records, e) ↦ ground arith
      ]

  call_server_fails :
      (role : Role)
      → lookup server b.http_clients ≡ none
      → is_success (call_server w b role server tool args).1 ≡ false
  unfolding call_server
  call_server_fails role stdio = elim (Bool-cases (can_access b.access role server)) [
    | inl on ↦ rw on (rw stdio (call_entry_fails (entry_named b.registry server)))
    | inr denied ↦ rw denied refl
  ]

-- A call of a tool, with what the servers do in it.
pub record Request : Type 0 where
  pub world : World
  pub role : Role
  pub server : String
  pub tool : String
  pub args : Payload

abbrev pub requested : Broker → Request → Outcome Payload
requested b q = call_server q.world b q.role q.server q.tool q.args

-- The broker after calls in this order.
abbrev pub after_requests : Broker → List Request → Broker
after_requests b [] = b
after_requests b (q ∷ qs) = after_requests (requested b q).0 qs

-- The proxy is stopped, and the server has no HTTP client.
record Stopped (server : String) (b : Broker) : Type 0 where
  off : b.proxy.running ≡ false
  stdio : lookup server b.http_clients ≡ none

after_requests-Stopped :
    (server : String) (b : Broker) (qs : List Request)
    → Stopped server b
    → Stopped server (after_requests b qs)
after_requests-Stopped server b [] h = h
after_requests-Stopped server b (q ∷ qs) h =
    after_requests-Stopped server (requested b q).0 qs (record {
      off = call_server_stopped q.world b q.server q.tool q.args h.off q.role;
      stdio =
          ap (lookup server)
            (call_server_audited q.world b q.role q.server q.tool q.args).0.http_clients
          ∙ h.stdio;
    })

-- When the pipe of any one server is closed, as when that server exits or is deregistered, then
-- also after any calls that follow, whatever they are and the servers do in them, no call of any
-- role to any server over stdio succeeds, also to one that runs and answers; and so it is after a
-- start of one server that fails at its handshake.
pub pipe_closed_disables :
    (b : Broker) (stdout : ℕ) (other : String) (qs : List Request) (q : Request)
    → lookup q.server b.http_clients ≡ none
    → (is_success (requested (after_requests (pipe_closed b stdout) qs) q).1 ≡ false)
      × (is_success (requested (after_requests (abandon b other) qs) q).1 ≡ false)
unfolding pipe_closed Proxy.reader_ended abandon Proxy.stop
pipe_closed_disables b stdout other qs q stdio = (
  Stopped-fails (pipe_closed b stdout) (record { off = refl; stdio = stdio }),
  Stopped-fails (abandon b other) (record { off = refl; stdio = stdio }),
)
  where
    Stopped-fails :
        (c : Broker) → Stopped q.server c → is_success (requested (after_requests c qs) q).1 ≡ false
    Stopped-fails c h =
        let k = after_requests-Stopped q.server c qs h in
        call_server_fails q.world (after_requests c qs) q.server q.tool q.args k.off q.role k.stdio

-- ===== src/Broker/Core/Laws.antt =====
-- broker.go: what starting a server leaves alone.
use neuralgentics.Prelude.{
  ℕ, String, ◌≡◌, refl, sym, ap, subst, ◌∙◌, List, Option, none, some, arith, Result, ok, err,
}
use neuralgentics.Broker.Transport.{ToolSummary}
use neuralgentics.Broker.Registry.{ServerEntry, Pointer, Registry, set_tools, snapshot, get}
use neuralgentics.Broker.Launcher
use neuralgentics.Broker.Launcher.{LauncherError}
use neuralgentics.Broker.Launcher.Laws.{
  Touches, Touches-refl, Touches-trans, modify-Touches, stop-Touches, start-Touches,
}
use neuralgentics.Broker.Proxy
use neuralgentics.Broker.Proxy.{McpProxy, ProxyError, start_reader}
use neuralgentics.Broker.Core.{
  World, Broker, abandon, tools_listed, initialized, connected, entry_connected, reread, launched,
  launch_entry, entry_named, start_server,
}

-- Only the entry behind the pointer and the proxy differ.
pub record Keeps (p : Pointer) (b b' : Broker) : Type 0 where
  pub touched : Touches p b.registry b'.registry
  pub access : b'.access ≡ b.access
  pub http_clients : b'.http_clients ≡ b.http_clients
  pub audit_writer : b'.audit_writer ≡ b.audit_writer

Keeps-of_Touches :
    (p : Pointer) (b : Broker) (r : Registry) (proxy : McpProxy)
    → Touches p b.registry r
    → Keeps p b (record b { registry = r; proxy = proxy })
Keeps-of_Touches p b r proxy t = record {
  touched = t;
  access = refl;
  http_clients = refl;
  audit_writer = refl;
}

pub Keeps-trans : {p : Pointer} {a b c : Broker} → Keeps p a b → Keeps p b c → Keeps p a c
Keeps-trans f g = record {
  touched = Touches-trans f.touched g.touched;
  access = g.access ∙ f.access;
  http_clients = g.http_clients ∙ f.http_clients;
  audit_writer = g.audit_writer ∙ f.audit_writer;
}

pub Keeps-refl : (p : Pointer) (b : Broker) → Keeps p b b
Keeps-refl p b = Keeps-of_Touches p b b.registry b.proxy (Touches-refl p b.registry)

module _ (w : World) (b : Broker) (name : String) (p : Pointer)
    (h : get b.registry name ≡ some p) where
  abandon-Keeps : (proxy : McpProxy) → Keeps p b (abandon (record b { proxy = proxy }) name)
  unfolding abandon
  abandon-Keeps proxy = Keeps-of_Touches p b _ (Proxy.stop proxy) (stop-Touches b.registry name p h)

  tools_listed-Keeps :
      (x : McpProxy × Result ProxyError (List ToolSummary)) → Keeps p b (tools_listed b name p x).0
  unfolding set_tools
  tools_listed-Keeps (proxy, err e) = abandon-Keeps proxy
  tools_listed-Keeps (proxy, ok tools) =
      Keeps-of_Touches p b _ proxy (modify-Touches (set_tools tools) p b.registry (λ _. refl))

  initialized-Keeps :
      (stdin : ℕ) (x : McpProxy × Result ProxyError (Unit {0}))
      → Keeps p b (initialized w b name p stdin x).0
  initialized-Keeps stdin (proxy, err e) = abandon-Keeps proxy
  initialized-Keeps stdin (proxy, ok _) =
      tools_listed-Keeps (Proxy.list_tools w.peer name stdin proxy)

  connected-Keeps : (stdin stdout : Option ℕ) → Keeps p b (connected w b name p stdin stdout).0
  connected-Keeps (some stdin) (some stdout) =
      initialized-Keeps stdin (Proxy.initialize w.peer stdin (start_reader stdout b.proxy))
  connected-Keeps none stdout = Keeps-refl p b
  connected-Keeps (some stdin) none = Keeps-refl p b

  entry_connected-Keeps : (e : Option ServerEntry) → Keeps p b (entry_connected w b name p e).0
  entry_connected-Keeps none = Keeps-refl p b
  entry_connected-Keeps (some e) = connected-Keeps e.stdin e.stdout

module _ (w : World) (b : Broker) (name : String) (p : Pointer)
    (h : get b.registry name ≡ some p) where
  reread-Keeps : (q : Option Pointer) → q ≡ some p → Keeps p b (reread w b name q).0
  reread-Keeps none e = cc
  reread-Keeps (some q) e =
      let same : q ≡ p = ground arith in
      subst (λ x. Keeps p b (reread w b name (some x)).0) (sym same)
        (entry_connected-Keeps w b name p h (snapshot b.registry p))

module _ (w : World) (b : Broker) (name : String) (p : Pointer)
    (h : get b.registry name ≡ some p) where
  launched-Keeps :
      (x : Registry × Option LauncherError)
      → Touches p b.registry x.0
      → Keeps p b (launched w b name x).0
  launched-Keeps (r, some e) t = Keeps-of_Touches p b r b.proxy t
  launched-Keeps (r, none) t =
      let there : get r name ≡ some p = t.names name ∙ h in
      Keeps-trans (Keeps-of_Touches p b r b.proxy t)
        (reread-Keeps w (record b { registry = r }) name p there (get r name) there)

  launch_entry-Keeps :
      (e : ServerEntry) → e.config.name ≡ name → Keeps p b (launch_entry w b name (some e)).0
  launch_entry-Keeps e same =
      launched-Keeps (Launcher.start w.machine b.registry e.config)
        (start-Touches w.machine b.registry e.config p (ap (get b.registry) same ∙ h))

  -- Whatever the machine and the server do, `StartServer` changes the shared proxy and the entry of
  -- the server it starts, and of that entry not the configuration; other servers, the permissions,
  -- the HTTP clients and the audit log stay as they are.
  pub start_server-Keeps :
      (e : ServerEntry)
      → snapshot b.registry p ≡ some e
      → e.config.name ≡ name
      → Keeps p b (start_server w b name).0
  unfolding start_server entry_named
  start_server-Keeps e found same = rw h (rw found (launch_entry-Keeps e same))

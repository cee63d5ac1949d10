-- ===== src/Broker/Core/Curated/Discovery.antt =====
-- broker.go: which servers of the catalog are offered, and what a deactivation removes.
use neuralgentics.Prelude.{
  String, ◌≡◌, ◌≢◌, ◌↔◌, ◌⊎◌, inl, inr, refl, ◌∙◌, true, none, some, ==_iff, ==_self,
  string_comparable, contains, keys, lookup, lookup-delete, lookup-eq-none_iff, In, In-select_iff,
  arith, Option-cases, Bool-cases, ok,
}
use neuralgentics.Broker.Registry.{Pointer, get}
use neuralgentics.Broker.Registry.Laws.{names-list, deregister_found}
use neuralgentics.Broker.Launcher
use neuralgentics.Broker.Launcher.Laws.{stop-Touches}
use neuralgentics.Broker.Access.{Role, can_access}
use neuralgentics.Broker.Core.{Broker, deregister_server}
use neuralgentics.Broker.Core.Curated.{
  CuratedServer, CuratedCatalog, offered, discover_catalog, deactivate_mcp_server,
}

-- A server is discovered exactly if it stands in the catalog, is not registered, and the role, if
-- one is given, may access it.
pub discover_catalog_iff :
    (cat : CuratedCatalog) (b : Broker) (role : Role) (s : CuratedServer)
    → In s (discover_catalog cat b role) ↔ (
        In s cat
        × (get b.registry s.name ≡ none)
        × ((role ≡ "") ⊎ (can_access b.access role s.name ≡ true)))
unfolding discover_catalog get
discover_catalog_iff cat b role s = rw (names-list b.registry) (
    ground (
      arith,
      In-select_iff (offered b role (keys b.registry.servers)) s cat,
      lookup-eq-none_iff s.name b.registry.servers,
      Bool-cases (contains s.name (keys b.registry.servers)),
      ==_iff role "",
    ))

deregister_server_found :
    (b : Broker) (name other : String) (p : Pointer)
    → get b.registry name ≡ some p
    → ((deregister_server b name).1 ≡ ok tt)
      × (get (deregister_server b name).0.registry name ≡ none)
      × (some p ≢ none → lookup name (deregister_server b name).0.http_clients ≡ none)
      × (name ≢ other → get (deregister_server b name).0.registry other ≡ get b.registry other)
unfolding deregister_server get
deregister_server_found b name other p h =
    let t = stop-Touches b.registry name p h in
    let r = (Launcher.stop b.registry name).0 in
    let there : get r name ≡ some p = t.names name ∙ h in
    rw (deregister_found r name p there) (
      refl,
      ground (arith, lookup-delete name name r.servers, ==_self name),
      λ _. ground (arith, lookup-delete name name b.http_clients, ==_self name),
      λ ne. ground (arith, lookup-delete name other r.servers, ==_iff name other, t.names other),
    )

-- Deactivation always succeeds; the server is not registered afterwards, its HTTP client is
-- dropped if it was registered, and every other name has the entry that it had.
pub deactivate_mcp_server_lem :
    (b : Broker) (name other : String)
    → ((deactivate_mcp_server b name).1 ≡ ok tt)
      × (get (deactivate_mcp_server b name).0.registry name ≡ none)
      × (get b.registry name ≢ none
          → lookup name (deactivate_mcp_server b name).0.http_clients ≡ none)
      × (name ≢ other → get (deactivate_mcp_server b name).0.registry other ≡ get b.registry other)
unfolding deactivate_mcp_server
deactivate_mcp_server_lem b name other = elim (Option-cases (get b.registry name)) [
  | inl e ↦ rw e (refl, e, λ ne. absurd (ne refl), λ _. refl)
  | inr (p, e) ↦ rw e (deregister_server_found b name other p e)
]

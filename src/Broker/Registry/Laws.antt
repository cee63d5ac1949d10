-- ===== src/Broker/Registry/Laws.antt =====
-- The registry's invariant, and what its operations do to names, pointers and entries.
use neuralgentics.Prelude.{
  ◌+◌, ◌<◌, String, ◌≡◌, ◌≢◌, ◌⊎◌, inl, inr, refl, Bool, List, [], none, some, ◌==◌, ==_iff,
  ==_self, string_comparable, number_comparable, lookup, if◌then◌else◌, lookup-insert,
  lookup-delete, arith, ap, delete, keys, map, ◌∷◌, Option-cases, List-cases, Bool-cases,
}
use neuralgentics.Broker.Transport.{
  ServerConfig, ToolSummary, McpServerConfig, to_legacy_server_config, to_server_config,
}
use neuralgentics.Broker.Registry.{
  ServerEntry, Pointer, Registry, modify, set_tools, clear_runtime, snapshot, register,
  server_not_found, name_required, transport_required, deregister, get, get_tools, statuses, list,
  register_mcp_server,
}

-- Every pointer in use was allocated, every registered name has an entry, and no two names share
-- one.
pub record IsValid (r : Registry) : Type 0 where
  pub allocated : (p : Pointer) (e : ServerEntry) → lookup p r.heap ≡ some e → p < r.fresh
  pub present :
      (name : String) (p : Pointer)
      → get r name ≡ some p
      → (e : ServerEntry) × (snapshot r p ≡ some e)
  pub unshared : (a b : String) (p : Pointer) → get r a ≡ some p → get r b ≡ some p → a ≡ b

abbrev pub new_entry : ServerConfig → ServerEntry
new_entry c = record { config = c; process = none; tools = []; stdin = none; stdout = none }

module _ (r : Registry) (c : ServerConfig) where
  get-register :
      (name : String)
      → get (register r c) name ≡ (if c.name == name then some r.fresh else get r name)
  unfolding get register
  get-register name = lookup-insert c.name name r.fresh r.servers

  snapshot-register :
      (p : Pointer)
      → snapshot (register r c) p ≡ (if r.fresh == p then some (new_entry c) else snapshot r p)
  unfolding snapshot register
  snapshot-register p = lookup-insert r.fresh p (new_entry c) r.heap

  fresh-register : (register r c).fresh ≡ r.fresh + 1
  unfolding register
  fresh-register = refl

module _ (r : Registry) (v : IsValid r) where
  get-lt-fresh : (name : String) (p : Pointer) → get r name ≡ some p → p < r.fresh
  unfolding snapshot
  get-lt-fresh name p h = let (e, found) = v.present name p h in v.allocated p e found

  -- `Register` keeps a registry valid: every pointer to an entry was allocated, every registered
  -- name has an entry, and no two names share one.
  pub register-IsValid : (c : ServerConfig) → IsValid (register r c)
  unfolding snapshot
  register-IsValid c = record {
    allocated = λ p e h.
        rw (fresh-register r c)
          (ground (arith, snapshot-register r c p, v.allocated p e, ==_iff r.fresh p));
    present = λ name p h. elim (Bool-cases (r.fresh == p)) [
      | inl new ↦ (new_entry c, ground (arith, snapshot-register r c p))
      | inr old ↦
          let q : get r name ≡ some p = ground (arith, get-register r c name, ==_iff r.fresh p) in
          let (e, found) = v.present name p q in (e, ground (arith, snapshot-register r c p))
    ];
    unshared = λ a b p h k. ground (
      arith,
      get-register r c a,
      get-register r c b,
      get-lt-fresh a p,
      get-lt-fresh b p,
      v.unshared a b p,
      ==_iff c.name a,
      ==_iff c.name b,
    );
  }

pub snapshot-modify :
    (f : ServerEntry → ServerEntry) (p q : Pointer) (r : Registry)
    → snapshot (modify f p r) q
      ≡ (if p == q then elim (snapshot r p) [ none ↦ none | some e ↦ some (f e) ] else snapshot r q)
unfolding snapshot
snapshot-modify f p q r = elim (Option-cases (lookup p r.heap)) [
  | inl e ↦ ground (arith, ==_iff p q)
  | inr (entry, e) ↦ ground (arith, lookup-insert p q (f entry) r.heap)
]

pub get-modify :
    (f : ServerEntry → ServerEntry) (p : Pointer) (r : Registry) (name : String)
    → get (modify f p r) name ≡ get r name
unfolding get
get-modify f p r name = ground arith

fresh-modify :
    (f : ServerEntry → ServerEntry) (p : Pointer) (r : Registry) → (modify f p r).fresh ≡ r.fresh
fresh-modify f p r = ground arith

module _ (r : Registry) (v : IsValid r) where
  -- A method that is called through any pointer keeps the invariant.
  pub modify-IsValid : (f : ServerEntry → ServerEntry) (p : Pointer) → IsValid (modify f p r)
  unfolding snapshot
  modify-IsValid f p = record {
    allocated = λ q e h. rw (fresh-modify f p r) (elim (Option-cases (lookup q r.heap)) [
      | inl k ↦ absurd (ground (arith, snapshot-modify f p q r, ==_iff p q))
      | inr (e', k) ↦ v.allocated q e' k
    ]);
    present = λ name q h.
        let (e, found) = v.present name q (rw (get-modify f p r name) at h) in
        elim (Bool-cases (p == q)) [
          | inl same ↦ (f e, ground (arith, snapshot-modify f p q r, ==_iff p q))
          | inr other ↦ (e, ground (arith, snapshot-modify f p q r))
        ];
    unshared =
        λ a b q h k. v.unshared a b q (rw (get-modify f p r a) at h) (rw (get-modify f p r b) at k);
  }

  -- `Deregister` of a valid registry fails for a name that is not registered, and then changes
  -- nothing; else the name is gone, and every other name and every entry is as before.
  pub deregister_lem :
      (name other : String)
      → ((get r name ≡ none) × (deregister r name ≡ (r, some (server_not_found name))))
        ⊎ (((deregister r name).1 ≡ none)
            × (get (deregister r name).0 other ≡ (if name == other then none else get r other))
            × ((deregister r name).0.heap ≡ r.heap))
  unfolding deregister get
  deregister_lem name other =
      ground (arith, Option-cases (lookup name r.servers), lookup-delete name other r.servers)

  -- A method called through the pointer of one server is read by `GetTools` of that server alone.
  pub get_tools-modify :
      (f : ServerEntry → ServerEntry) (name other : String) (p : Pointer)
      → get r name ≡ some p
      → other ≢ name
      → get_tools (modify f p r) other ≡ get_tools r other
  unfolding get_tools get
  get_tools-modify f name other p h ne = elim (Option-cases (lookup other r.servers)) [
    | inl e ↦ ground (arith, get-modify f p r other)
    | inr (q, e) ↦ ground (
      arith,
      get-modify f p r other,
      snapshot-modify f p q r,
      ==_iff p q,
      v.unshared other name q,
    )
  ]

  -- When a server has been registered anew in a valid registry, whoever still holds a pointer
  -- from before (such as the watcher of the old process) cannot reach the new entry: whatever
  -- method it calls, the server has the new configuration, no process and no tools.
  pub register_shields :
      (c : ServerConfig) (f : ServerEntry → ServerEntry) (p : Pointer)
      → p < r.fresh
      → (get (modify f p (register r c)) c.name ≡ some r.fresh)
        × (snapshot (modify f p (register r c)) r.fresh ≡ some (new_entry c))
        × (get_tools (modify f p (register r c)) c.name ≡ [])
  unfolding get_tools get
  register_shields c f p old =
      let there : get (modify f p (register r c)) c.name ≡ some r.fresh =
        ground
          (arith, get-modify f p (register r c) c.name, get-register r c c.name, ==_self c.name) in
      let kept : snapshot (modify f p (register r c)) r.fresh ≡ some (new_entry c) = ground (
        arith,
        snapshot-modify f p r.fresh (register r c),
        snapshot-register r c r.fresh,
        ==_iff p r.fresh,
        ==_self r.fresh,
      ) in
      (there, kept, ground arith)

  -- When the process has exited, `ClearRuntime` drops the handle and the pipes; the tools that
  -- `SetTools` had stored are still listed.
  pub clear_runtime-set_tools :
      (name : String) (p : Pointer) (tools : List ToolSummary)
      → get r name ≡ some p
      → get_tools (modify clear_runtime p (modify (set_tools tools) p r)) name ≡ tools
  unfolding get_tools get set_tools clear_runtime
  clear_runtime-set_tools name p tools h =
      let (e, found) = v.present name p h in
      let r' = modify (set_tools tools) p r in
      ground (
        arith,
        get-modify (set_tools tools) p r name,
        get-modify clear_runtime p r' name,
        snapshot-modify (set_tools tools) p p r,
        snapshot-modify clear_runtime p p r',
        ==_self p,
      )

-- `RegisterMCPServer` registers the first transport of a named configuration, and refuses, with no
-- change, a configuration without a name or without transports; its third error never occurs.
pub register_mcp_server_lem :
    (look_path : String → Bool) (r : Registry) (config : McpServerConfig)
    → ((config.name ≡ "") × (register_mcp_server look_path r config ≡ (r, some name_required)))
      ⊎ ((config.transports ≡ [])
          × (register_mcp_server look_path r config ≡ (r, some transport_required)))
      ⊎ ((sc : ServerConfig) × (to_legacy_server_config look_path config ≡ some sc)
          × (register_mcp_server look_path r config ≡ (register r sc, none)))
unfolding register_mcp_server to_legacy_server_config
register_mcp_server_lem look_path r config = elim (Bool-cases (config.name == "")) [
  | inl unnamed ↦ inl (ground (arith, ==_iff config.name ""))
  | inr named ↦ elim (List-cases config.transports) [
    | inl e ↦ inr (inl (e, ground arith))
    | inr (t, ts, e) ↦ inr (
        inr (
          to_server_config look_path t config.name config.description config.capabilities,
          ground arith,
          ground arith,
        ))
  ]
]

names-statuses :
    (r : Registry) (entries : List (String × Pointer))
    → map (λ s. s.name) (statuses r entries) ≡ keys entries
unfolding statuses
names-statuses r [] = refl
names-statuses r ((name, p) ∷ entries) = ap (λ ns. name ∷ ns) (names-statuses r entries)

-- `List` has one status for each registered name.
pub names-list : (r : Registry) → map (λ s. s.name) (list r) ≡ keys r.servers
unfolding list
names-list r = names-statuses r r.servers

pub deregister_found :
    (r : Registry) (name : String) (p : Pointer)
    → get r name ≡ some p
    → deregister r name ≡ (record r { servers = delete name r.servers }, none)
unfolding deregister get
deregister_found r name p h = rw h refl

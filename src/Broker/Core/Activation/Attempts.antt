-- ===== src/Broker/Core/Activation/Attempts.antt =====
-- broker.go: what the attempt of an activation with one transport leaves behind.
use neuralgentics.Prelude.{
  String, ◌≡◌, ◌≢◌, inl, inr, refl, ap, ◌∙◌, Bool, false, ◌||◌, List, Option, none, some, ◌==◌,
  string_comparable, number_comparable, if◌then◌else◌, arith, Option-cases, Bool-cases, Result, ok,
  err,
}
use neuralgentics.Broker.Transport.{ServerConfig, ToolSummary}
use neuralgentics.Broker.Registry.{
  ServerEntry, Pointer, Registry, modify, set_config, set_runtime, snapshot, get,
}
use neuralgentics.Broker.Registry.Laws.{get-modify}
use neuralgentics.Broker.Launcher.Laws.{
  config_at, modify-others, modify-Touches, snapshot-modify_self,
}
use neuralgentics.Broker.Proxy.{Client, ClientError, new_client_for_config}
use neuralgentics.Broker.Core.{World, Broker, Outcome, start_server}
use neuralgentics.Broker.Core.Laws.{Keeps, start_server-Keeps}
use neuralgentics.Broker.Core.Activation.{
  http_published, http_listed, http_connected, rolled_back, stdio_attempt, attempt,
}

-- The two brokers differ in the proxy, the HTTP clients and the entry behind the pointer alone.
pub record Frames (p : Pointer) (b b' : Broker) : Type 0 where
  pub names : (name : String) → get b'.registry name ≡ get b.registry name
  pub others : (q : Pointer) → p ≢ q → snapshot b'.registry q ≡ snapshot b.registry q
  pub access : b'.access ≡ b.access
  pub audit_writer : b'.audit_writer ≡ b.audit_writer

pub Frames-refl : (p : Pointer) (b : Broker) → Frames p b b
Frames-refl p b = record {
  names = λ _. refl;
  others = λ _ _. refl;
  access = refl;
  audit_writer = refl;
}

pub Frames-trans : {p : Pointer} {a b c : Broker} → Frames p a b → Frames p b c → Frames p a c
Frames-trans f g = record {
  names = λ n. g.names n ∙ f.names n;
  others = λ q ne. g.others q ne ∙ f.others q ne;
  access = g.access ∙ f.access;
  audit_writer = g.audit_writer ∙ f.audit_writer;
}

Frames-of_Keeps : {p : Pointer} {b b' : Broker} → Keeps p b b' → Frames p b b'
Frames-of_Keeps k = record {
  names = k.touched.names;
  others = k.touched.others;
  access = k.access;
  audit_writer = k.audit_writer;
}

modify-Frames :
    (f : ServerEntry → ServerEntry) (p : Pointer) (b : Broker)
    → Frames p b (record b { registry = modify f p b.registry })
modify-Frames f p b = record {
  names = get-modify f p b.registry;
  others = modify-others f p b.registry;
  access = refl;
  audit_writer = refl;
}

-- The configuration of the entry.
abbrev pub configured : Broker → Pointer → Option ServerConfig
configured b p = config_at (snapshot b.registry p)

configured-set_config :
    (c old : ServerConfig) (p : Pointer) (r : Registry)
    → config_at (snapshot r p) ≡ some old
    → config_at (snapshot (modify (set_config c) p r) p) ≡ some c
unfolding set_config
configured-set_config c old p r h = elim (Option-cases (snapshot r p)) [
  | inl e ↦ absurd (ground arith)
  | inr (e, found) ↦ ground (arith, snapshot-modify_self (set_config c) p r e found)
]

-- What an attempt with the configuration `new` comes to.
pub record Tried (p : Pointer) (old new : ServerConfig) (b : Broker) (r : Broker × Bool)
    : Type 0 where
  pub frames : Frames p b r.0
  pub config : configured r.0 p ≡ some (if r.1 then new else old)

module _ (b : Broker) (name : String) (p : Pointer) (old new : ServerConfig)
    (h : configured b p ≡ some old) where
  failed-Tried : Tried p old new b (b, false)
  failed-Tried = record { frames = Frames-refl p b; config = h }

  http_published-Tried :
      (client : Client) (tools : List ToolSummary)
      → Tried p old new b (http_published b name p new client tools)
  unfolding set_runtime
  http_published-Tried client tools =
      let f = Frames-trans (modify-Frames (set_config new) p b) (
        modify-Frames (set_runtime none none none tools) p
          (record b { registry = modify (set_config new) p b.registry })) in
      record {
        frames = record { names = f.names; others = f.others; access = refl; audit_writer = refl };
        config =
            (modify-Touches (set_runtime none none none tools) p
              (modify (set_config new) p b.registry) (λ _. refl)).config
            ∙ configured-set_config new old p b.registry h;
      }

  http_listed-Tried :
      (client : Client) (tools : Option (List ToolSummary))
      → Tried p old new b (http_listed b name p new client tools)
  http_listed-Tried client none = failed-Tried
  http_listed-Tried client (some tools) = http_published-Tried client tools

  http_connected-Tried :
      (w : World) (client : Result ClientError Client)
      → Tried p old new b (http_connected w b name p new client)
  http_connected-Tried w (err e) = failed-Tried
  http_connected-Tried w (ok client) = elim (Bool-cases (w.http_initialize client)) [
    | inl yes_ ↦ rw yes_ (http_listed-Tried client (w.http_list_tools client))
    | inr no_ ↦ rw no_ failed-Tried
  ]

  rolled_back-Tried :
      (e : ServerEntry) (r : Outcome (Unit {0}))
      → e.config ≡ old
      → Frames p b r.0
      → configured r.0 p ≡ some new
      → Tried p old new b (rolled_back p (some e) r)
  rolled_back-Tried e (b', ok _) same f c = record { frames = f; config = c }
  rolled_back-Tried e (b', err _) same f c = record {
    frames = Frames-trans f (modify-Frames (set_config e.config) p b');
    config = configured-set_config e.config new p b'.registry c ∙ ap some same;
  }

  stdio_attempt-Tried :
      (w : World)
      → get b.registry name ≡ some p
      → new.name ≡ name
      → Tried p old new b (stdio_attempt w b name p new)
  unfolding stdio_attempt
  stdio_attempt-Tried w there named = elim (Option-cases (snapshot b.registry p)) [
    | inl e ↦ absurd (ground arith)
    | inr (e, found) ↦
        let b' = record b { registry = modify (set_config new) p b.registry } in
        let c : configured b' p ≡ some new = configured-set_config new old p b.registry h in
        elim (Option-cases (snapshot b'.registry p)) [
          | inl k ↦ absurd (ground arith)
          | inr (e', k) ↦
              let kept =
                start_server-Keeps w b' name p
                  (get-modify (set_config new) p b.registry name ∙ there) e' k (ground arith) in
              rw found (
                rolled_back-Tried e (start_server w b' name) (ground arith)
                  (Frames-trans (modify-Frames (set_config new) p b) (Frames-of_Keeps kept))
                  (kept.touched.config ∙ c))
        ]
  ]

  pub attempt-Tried :
      (w : World)
      → get b.registry name ≡ some p
      → new.name ≡ name
      → Tried p old new b (attempt w b name p new)
  unfolding attempt
  attempt-Tried w there named = elim (Bool-cases ((new.kind == "http") || (new.kind == "sse"))) [
    | inl yes_ ↦ rw yes_ (http_connected-Tried w (new_client_for_config new))
    | inr no_ ↦ rw no_ (stdio_attempt-Tried w there named)
  ]

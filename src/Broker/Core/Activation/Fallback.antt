-- ===== src/Broker/Core/Activation/Fallback.antt =====
-- broker.go: what an activation leaves behind when transports fail and when one works.
use Prim.Native.Nat.{◌%◌}
use neuralgentics.Prelude.{
  ℕ, zero, suc, ◌+◌, ◌<◌, String, ◌≡◌, ◌≢◌, ◌⊎◌, inl, inr, refl, sym, ap, ◌∙◌, Bool, true, false,
  List, [], ◌∷◌, none, some, ◌==◌, string_comparable, number_comparable, length, ℤ, if◌then◌else◌,
  arith, subst, get_elem?, Bool-cases, ok, err,
}
use neuralgentics.Broker.Transport.{
  ServerConfig, TransportType, TransportConfig, McpServerConfig, to_server_config_kind,
}
use neuralgentics.Broker.Registry.{Pointer, get}
use neuralgentics.Broker.Core.{World, Broker, Outcome, all_transports_failed}
use neuralgentics.Broker.Core.Activation.{
  attempt, transport_at, config_of, attempted, try_transports, start_index,
  activate_mcp_server_with_transport,
}
use neuralgentics.Broker.Core.Activation.Attempts.{
  Frames, Frames-refl, Frames-trans, Tried, attempt-Tried, configured,
}

get_elem?-some :
    {A : Type 0} (xs : List A) (i : ℕ) → i < length xs → (x : A) × (get_elem? xs i ≡ some x)
get_elem?-some [] i lt = absurd (omega arith)
get_elem?-some (x ∷ xs) zero lt = (x, refl)
get_elem?-some (x ∷ xs) (suc i) lt = get_elem?-some xs i (omega arith)

module _ (look_path : String → Bool) (worlds : ℕ → World) (name : String) (p : Pointer)
    (config : McpServerConfig) (start : ℕ) where
  -- What is there before round `i`, when no round before it was successful.
  abbrev pub state_at : Broker → ℕ → Broker
  state_at b zero = b
  state_at b (suc i) =
      let c = state_at b i in
      (attempted look_path worlds name p config start i c
        (transport_at look_path worlds name p config start i)).0

  -- What round `i` comes to with the transport `t`.
  abbrev pub round_of : Broker → ℕ → TransportConfig → Broker × Bool
  round_of b i t =
      attempt (worlds i) (state_at b i) name p (config_of look_path worlds name p config start t)

  -- The transport of round `i`: from the start on, and from the end of the list to its head.
  abbrev pub Tries : ℕ → TransportConfig → Type 0
  Tries i t = get_elem? config.transports ((start + i) % length config.transports) ≡ some t

  -- Each of the first rounds has tried its transport and failed.
  abbrev pub RoundsFailed : Broker → ℕ → Type 0
  RoundsFailed b zero = Unit
  RoundsFailed b (suc i) =
      RoundsFailed b i × ((t : TransportConfig) × Tries i t × ((round_of b i t).1 ≡ false))

  -- How the loop may end, for the configuration `old` of the entry before it.
  abbrev pub Ends : ServerConfig → Broker → ℕ → Outcome TransportType → Type 0
  Ends old b bound r =
      Frames p b r.0
      × ((RoundsFailed b bound
            × (r ≡ (state_at b bound, err (all_transports_failed name)))
            × (configured r.0 p ≡ some old))
          ⊎ ((i : ℕ) × (t : TransportConfig) × (i < bound)
              × RoundsFailed b i
              × Tries i t
              × ((round_of b i t).1 ≡ true)
              × (r ≡ ((round_of b i t).0, ok t.kind))
              × (configured r.0 p ≡ some (config_of look_path worlds name p config start t))))

  -- What holds before round `i`.
  record Before (old : ServerConfig) (b : Broker) (i : ℕ) : Type 0 where
    failed : RoundsFailed b i
    framed : Frames p b (state_at b i)
    unchanged : configured (state_at b i) p ≡ some old

  module _ (old : ServerConfig) (b : Broker) (there : get b.registry name ≡ some p) where
    round-Tried :
        (i : ℕ) (t : TransportConfig)
        → Before old b i
        → Tried p old
            (config_of look_path worlds name p config start t)
            (state_at b i)
            (round_of b i t)
    round-Tried i t k =
        attempt-Tried (state_at b i) name p old (config_of look_path worlds name p config start t)
          k.unchanged (worlds i) (k.framed.names name ∙ there)
          (to_server_config_kind look_path t name config.description config.capabilities).0

    state_at-suc :
        (i : ℕ) (t : TransportConfig) → Tries i t → state_at b (suc i) ≡ (round_of b i t).0
    unfolding transport_at
    state_at-suc i t at_i =
        ap (λ x. (attempted look_path worlds name p config start i (state_at b i) x).0) at_i

    Before-suc :
        (i : ℕ) (t : TransportConfig)
        → Before old b i
        → Tries i t
        → (round_of b i t).1 ≡ false
        → Before old b (suc i)
    Before-suc i t k at_i off =
        let tried = round-Tried i t k in
        let moved = state_at-suc i t at_i in
        record {
          failed = (k.failed, (t, at_i, off));
          framed = subst (Frames p b) (sym moved) (Frames-trans k.framed tried.frames);
          unchanged =
              ap (λ c. configured c p) moved
              ∙ tried.config
              ∙ ap (λ f. some (if f then config_of look_path worlds name p config start t else old))
                  off;
        }

    module _ (n : ℕ) (some_ : 0 < length config.transports) where
      -- Round `i`, and the loop after it for the case that the round fails.
      round-Ends :
          (i : ℕ) (t : TransportConfig) (rest : Broker → Outcome TransportType)
          → i < n
          → Before old b i
          → Tries i t
          → ((round_of b i t).1 ≡ false → Ends old b n (rest (round_of b i t).0))
          → Ends old b n (elim (if (round_of b i t).1 then some t.kind else none) [
            | none ↦ rest (round_of b i t).0
            | some kind ↦ ((round_of b i t).0, ok kind)
          ])
      round-Ends i t rest lt k at_i later = elim (Bool-cases (round_of b i t).1) [
        | inl on ↦
            let tried = round-Tried i t k in
            rw on (
              Frames-trans k.framed tried.frames,
              inr (
                i,
                t,
                lt,
                k.failed,
                at_i,
                on,
                refl,
                tried.config
                    ∙ ap
                        (λ f.
                          some
                            (if f then config_of look_path worlds name p config start t else old))
                        on,
              ),
            )
        | inr off ↦ rw off (later off)
      ]

      try_transports-Ends :
          (rounds i : ℕ)
          → rounds + i ≡ n
          → Before old b i
          → Ends old b n
              (try_transports look_path worlds name p config start rounds i (state_at b i))
      unfolding try_transports transport_at
      try_transports-Ends zero i e k =
          let same : i ≡ n = omega arith in
          (
            k.framed,
            inl (
              subst (RoundsFailed b) same k.failed,
              ap (λ j. (state_at b j, err (all_transports_failed name))) same,
              k.unchanged,
            ),
          )
      try_transports-Ends (suc rounds) i e k =
          let at = (start + i) % length config.transports in
          let (t, at_i) = get_elem?-some config.transports at (omega arith) in
          subst
            (λ x. Ends old b n (
              let r = attempted look_path worlds name p config start i (state_at b i) x in
              elim r.1 [
                | none ↦ try_transports look_path worlds name p config start rounds (suc i) r.0
                | some kind ↦ (r.0, ok kind)
              ]))
            (sym at_i)
            (round-Ends i t (try_transports look_path worlds name p config start rounds (suc i))
              (omega arith) k at_i
              (λ off.
                subst
                  (λ c.
                    Ends old b n
                      (try_transports look_path worlds name p config start rounds (suc i) c))
                  (state_at-suc i t at_i)
                  (try_transports-Ends rounds (suc i) (omega arith) (Before-suc i t k at_i off))))

nil_of_length : (ts : List TransportConfig) → (length ts == 0) ≡ true → ts ≡ []
nil_of_length [] e = refl
nil_of_length (t ∷ ts) e = absurd (ground arith)

-- Activation of a registered server whose entry has the configuration `old`, with at least one
-- transport, whatever the machine and the servers do in each round: either every round, one for
-- each of the transports and round `i` with the transport `(start + i)` modulo their number, has
-- failed, and then the error says so and the entry has its old configuration again; or the rounds
-- before some round have failed and that round is successful, and then the result is the type of
-- its transport and what it leaves, and the entry has the configuration made from it. Other
-- servers, the permissions and the audit log stay as they are.
pub activate_mcp_server_with_transport-Ends :
    (look_path : String → Bool) (worlds : ℕ → World) (b : Broker) (name : String)
    (config : McpServerConfig) (index : ℤ) (p : Pointer) (old : ServerConfig)
    → get b.registry name ≡ some p
    → configured b p ≡ some old
    → config.transports ≢ []
    → Ends look_path worlds name p config
        (start_index index (length config.transports))
        old
        b
        (length config.transports)
        (activate_mcp_server_with_transport look_path worlds b name config index)
unfolding activate_mcp_server_with_transport
activate_mcp_server_with_transport-Ends look_path worlds b name config index p old there h some_ =
    let n = length config.transports in
    elim (Bool-cases (n == 0)) [
      | inl e ↦ absurd (some_ (nil_of_length config.transports e))
      | inr e ↦ rw there (
          rw e (
            try_transports-Ends look_path worlds name p config (start_index index n) old b there n
              (ground arith) n 0 (omega arith)
              (record { failed = tt; framed = Frames-refl p b; unchanged = h })))
    ]

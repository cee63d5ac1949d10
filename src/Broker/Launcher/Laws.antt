-- ===== src/Broker/Launcher/Laws.antt =====
-- launcher/launcher.go: what its operations do to the entries of the registry.
use neuralgentics.Prelude.{
  ℕ, String, ◌≡◌, ◌≢◌, inl, inr, refl, sym, subst, ◌∙◌, Option, none, some, ==_iff, ==_self,
  number_comparable, arith, Option-cases, Result, ok, err,
}
use neuralgentics.Broker.Transport.{ServerConfig}
use neuralgentics.Broker.Registry.{
  ServerEntry, Pointer, Registry, modify, set_runtime, clear_runtime, snapshot, get,
}
use neuralgentics.Broker.Registry.Laws.{snapshot-modify, get-modify}
use neuralgentics.Broker.Launcher.{
  Machine, Built, LauncherError, launched, launch_built, start, cleared, clear_after_exit,
  stop_process, process_of, stop, build_command,
}

abbrev pub config_at : Option ServerEntry → Option ServerConfig
config_at none = none
config_at (some e) = some e.config

-- Only the entry behind the pointer differs, and its configuration does not.
pub record Touches (p : Pointer) (r r' : Registry) : Type 0 where
  pub names : (name : String) → get r' name ≡ get r name
  pub others : (q : Pointer) → p ≢ q → snapshot r' q ≡ snapshot r q
  pub config : config_at (snapshot r' p) ≡ config_at (snapshot r p)

pub Touches-refl : (p : Pointer) (r : Registry) → Touches p r r
Touches-refl p r = record { names = λ _. refl; others = λ _ _. refl; config = refl }

pub Touches-trans : {p : Pointer} {r s t : Registry} → Touches p r s → Touches p s t → Touches p r t
Touches-trans a b = record {
  names = λ n. b.names n ∙ a.names n;
  others = λ q ne. b.others q ne ∙ a.others q ne;
  config = b.config ∙ a.config;
}

module _ (f : ServerEntry → ServerEntry) (p : Pointer) (r : Registry) where
  pub modify-others : (q : Pointer) → p ≢ q → snapshot (modify f p r) q ≡ snapshot r q
  modify-others q ne = ground (arith, snapshot-modify f p q r, ==_iff p q)

  pub snapshot-modify_self :
      (e : ServerEntry) → snapshot r p ≡ some e → snapshot (modify f p r) p ≡ some (f e)
  snapshot-modify_self e h = ground (arith, snapshot-modify f p p r, ==_self p)

  pub modify-Touches : ((e : ServerEntry) → (f e).config ≡ e.config) → Touches p r (modify f p r)
  modify-Touches same = record {
    names = get-modify f p r;
    others = modify-others;
    config = elim (Option-cases (snapshot r p)) [
      | inl e ↦ ground (arith, snapshot-modify f p p r, ==_self p)
      | inr (e, h) ↦ ground (arith, snapshot-modify_self e, same e)
    ];
  }

cleared-Touches :
    (r : Registry) (p : Pointer) (found : Option Pointer)
    → found ≡ some p
    → Touches p r (cleared r found)
unfolding clear_runtime
cleared-Touches r p none h = cc
cleared-Touches r p (some q) h =
    let e : q ≡ p = ground arith in
    subst (λ x. Touches p r (modify clear_runtime x r)) (sym e)
      (modify-Touches clear_runtime p r (λ _. refl))

stop_process-Touches :
    (r : Registry) (name : String) (p : Pointer)
    → get r name ≡ some p
    → (process : Option ℕ) → Touches p r (stop_process r name process).0
unfolding clear_after_exit
stop_process-Touches r name p h none = Touches-refl p r
stop_process-Touches r name p h (some _) = cleared-Touches r p (get r name) h

-- `Stop` and `Start` change the entry of the server alone, and not its configuration.
pub stop-Touches :
    (r : Registry) (name : String) (p : Pointer) → get r name ≡ some p → Touches p r (stop r name).0
unfolding stop
stop-Touches r name p h = rw h (stop_process-Touches r name p h (process_of (snapshot r p)))

launched-Touches :
    (p : Pointer) (b : Built) (r : Registry) (process : Option ℕ)
    → Touches p r (launched p b r process).0
unfolding set_runtime
launched-Touches p b r none = Touches-refl p r
launched-Touches p b r (some process) = modify-Touches _ p r (λ _. refl)

launch_built-Touches :
    (m : Machine) (p : Pointer) (r : Registry) (b : Result LauncherError Built)
    → Touches p r (launch_built m p r b).0
launch_built-Touches m p r (err e) = Touches-refl p r
launch_built-Touches m p r (ok b) = launched-Touches p b r (m.start_process b.command)

pub start-Touches :
    (m : Machine) (r : Registry) (config : ServerConfig) (p : Pointer)
    → get r config.name ≡ some p
    → Touches p r (start m r config).0
unfolding start
start-Touches m r config p h = rw h (launch_built-Touches m p r (build_command m config))

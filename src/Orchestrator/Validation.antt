-- ===== src/Orchestrator/Validation.antt =====
-- `ValidateDependencyGraph` of task_runner.go. An error or warning is the case of its message, with
-- the values that the message shows.
use neuralgentics.Prelude.{
  ℕ, subst, sym, ap, String, ◌≡◌, ◌≢◌, ◌⊎◌, ◌↔◌, ◌+◌, ◌≤◌, ◌<◌, refl, Bool, true, false, not, List,
  [], ◌∷◌, ◌++◌, Option, none, some, ◌==◌, ==_iff, ==_self, string_comparable, lookup, insert,
  if◌then◌else◌, arith, Bool-cases, inl, inr, In, contains, contains_iff, map, length, ltb, ◌&&◌,
}
use neuralgentics.Orchestrator.Types.{FineGrainedTaskEntry}
use neuralgentics.Orchestrator.Graph.{
  Outcome, done, cycle, out_of_fuel, get_parallel_groups, task_map,
}
use neuralgentics.Orchestrator.Graph.Cycles.{Needs, get_parallel_groups-Needs}
use neuralgentics.Orchestrator.Graph.Fuel.{get_parallel_groups-ne-out_of_fuel}
pub mod Errors
pub mod Verdict

pub data ValidationError : Type 0 where
  depends_on_itself : String → ValidationError
  depends_on_missing : String → String → ValidationError
  same_target : String → String → String → ValidationError
  cycle_detected : String → ValidationError

pub record ValidationResult : Type 0 where
  pub valid : Bool
  pub errors : List ValidationError
  pub warnings : List ℕ

abbrev pub max_dependency_depth : ℕ
max_dependency_depth = 5

-- errors = append(errors, e), where the test holds.
abbrev pub add_if : Bool → ValidationError → List ValidationError → List ValidationError
add_if true e rest = e ∷ rest
add_if false e rest = rest

unfoldable pub dep_errors : List String → FineGrainedTaskEntry → List String → List ValidationError
dep_errors ids t [] = []
dep_errors ids t (dep ∷ deps) =
    add_if (dep == t.id) (depends_on_itself t.id)
      (add_if (not (contains dep ids)) (depends_on_missing t.id dep) (dep_errors ids t deps))

unfoldable pub shares_target : FineGrainedTaskEntry → FineGrainedTaskEntry → Bool
shares_target t other =
    not (other.id == t.id) && (other.target_file == t.target_file && not (t.target_file == ""))

unfoldable pub file_errors : FineGrainedTaskEntry → List FineGrainedTaskEntry → List ValidationError
unfolding shares_target
file_errors t [] = []
file_errors t (other ∷ others) =
    add_if (shares_target t other) (same_target t.id other.id t.target_file) (file_errors t others)

unfoldable pub task_errors :
    List FineGrainedTaskEntry → List FineGrainedTaskEntry → List ValidationError
unfolding dep_errors file_errors
task_errors tasks [] = []
task_errors tasks (t ∷ ts) =
    dep_errors (map (λ u. u.id) tasks) t t.depends_on
    ++ (file_errors t tasks ++ task_errors tasks ts)

abbrev pub cycle_errors {ℓ} : {A : Type ℓ} → Outcome A → List ValidationError
cycle_errors (done groups) = []
cycle_errors (cycle id) = cycle_detected id ∷ []
cycle_errors out_of_fuel = []

abbrev depth_warnings : Outcome (List (List FineGrainedTaskEntry)) → List ℕ
depth_warnings (done groups) =
    if ltb max_dependency_depth (length groups) then length groups ∷ [] else []
depth_warnings (cycle id) = []
depth_warnings out_of_fuel = []

abbrev pub no_errors : List ValidationError → Bool
no_errors [] = true
no_errors (e ∷ es) = false

unfoldable pub validate_dependency_graph : List FineGrainedTaskEntry → ValidationResult
unfolding task_errors
validate_dependency_graph tasks =
    let errors = task_errors tasks tasks ++ cycle_errors (get_parallel_groups tasks) in
    record {
      valid = no_errors errors;
      errors = errors;
      warnings = depth_warnings (get_parallel_groups tasks);
    }

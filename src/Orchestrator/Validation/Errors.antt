-- ===== src/Orchestrator/Validation/Errors.antt =====
-- Each list of errors, and the check that it stands for.
use neuralgentics.Prelude.{
  subst, sym, String, ◌≡◌, ◌≢◌, ◌↔◌, refl, Bool, true, false, not, List, [], ◌∷◌, ◌++◌, ◌==◌,
  ==_iff, string_comparable, Bool-cases, inl, inr, In, contains, contains_iff, map, ◌&&◌,
}
use neuralgentics.Orchestrator.Types.{FineGrainedTaskEntry}
use neuralgentics.Orchestrator.Validation.{
  ValidationError, depends_on_itself, depends_on_missing, dep_errors, file_errors, task_errors,
  shares_target, no_errors, add_if,
}

pub no_errors-append_iff :
    (xs ys : List ValidationError)
    → no_errors (xs ++ ys) ≡ true ↔ (no_errors xs ≡ true) × (no_errors ys ≡ true)
no_errors-append_iff [] ys = ((λ h. (refl, h)), λ h. h.1)
no_errors-append_iff (x ∷ xs) ys = ((λ h. absurd (cc h)), λ h. absurd (cc h.0))

abbrev pub IsGoodDep : List String → FineGrainedTaskEntry → String → Type 0
IsGoodDep ids t dep = (dep ≢ t.id) × In dep ids

dep-errors_iff :
    (ids : List String) (t : FineGrainedTaskEntry) (d : String) (rest : List ValidationError)
    → no_errors (
          add_if
            (d == t.id)
            (depends_on_itself t.id)
            (add_if (not (contains d ids)) (depends_on_missing t.id d) rest))
        ≡ true
      ↔ IsGoodDep ids t d × (no_errors rest ≡ true)
dep-errors_iff ids t d rest = elim (Bool-cases (d == t.id)) [
  | inl e ↦ rw e ((λ h. absurd (cc h)), λ h. absurd (h.0.0 ((==_iff d t.id).0 e)))
  | inr e ↦ elim (Bool-cases (contains d ids)) [
    | inl k ↦ rw e (
        rw k (
          (λ h. (((λ same. absurd (cc (e, (==_iff d t.id).1 same))), (contains_iff d ids).0 k), h)),
          λ h. h.1,
        ))
    | inr k ↦ rw e (rw k ((λ h. absurd (cc h)), λ h. absurd (cc (k, (contains_iff d ids).1 h.0.1))))
  ]
]

pub dep_errors_iff :
    (ids : List String) (t : FineGrainedTaskEntry) (deps : List String)
    → no_errors (dep_errors ids t deps) ≡ true
      ↔ ((dep : String) → In dep deps → IsGoodDep ids t dep)
unfolding dep_errors
dep_errors_iff ids t [] = ((λ h dep k. absurd k), λ h. refl)
dep_errors_iff ids t (d ∷ deps) =
    let first = dep-errors_iff ids t d (dep_errors ids t deps) in
    let rest = dep_errors_iff ids t deps in
    (
      (λ h dep k. elim k [
        | inl same ↦ subst (IsGoodDep ids t) (sym same) (first.0 h).0
        | inr k ↦ rest.0 (first.0 h).1 dep k
      ]),
      λ h. first.1 (h d (inl refl), rest.1 λ dep k. h dep (inr k)),
    )

pub file_errors_iff :
    (t : FineGrainedTaskEntry) (others : List FineGrainedTaskEntry)
    → no_errors (file_errors t others) ≡ true
      ↔ ((other : FineGrainedTaskEntry) → In other others → shares_target t other ≡ false)
unfolding file_errors
file_errors_iff t [] = ((λ h o k. absurd k), λ h. refl)
file_errors_iff t (o ∷ os) =
    let rest = file_errors_iff t os in
    elim (Bool-cases (shares_target t o)) [
      | inl e ↦ rw e ((λ h. absurd (cc h)), λ h. absurd (cc (e, h o (inl refl))))
      | inr e ↦ rw e (
        (λ h u k. elim k [
          | inl same ↦ subst (λ v. shares_target t v ≡ false) (sym same) e
          | inr k ↦ rest.0 h u k
        ]),
        λ h. rest.1 λ u k. h u (inr k),
      )
    ]

differs_iff : (x y : String) → not (x == y) ≡ true ↔ x ≢ y
differs_iff x y = elim (Bool-cases (x == y)) [
  | inl e ↦ rw e ((λ h. absurd (cc h)), λ h. absurd (h ((==_iff x y).0 e)))
  | inr e ↦ rw e ((λ h same. absurd (cc (e, (==_iff x y).1 same))), λ h. refl)
]

all_three : (a b c : Bool) → (a && (b && c)) ≡ false ↔ (a ≡ true → c ≡ true → b ≢ true)
all_three true true true = ((λ h p q r. absurd (cc h)), λ h. absurd (h refl refl refl))
all_three true true false = ((λ h p q r. absurd (cc q)), λ h. refl)
all_three true false c = ((λ h p q r. absurd (cc r)), λ h. refl)
all_three false b c = ((λ h p q r. absurd (cc p)), λ h. refl)

pub shares_target_iff :
    (t other : FineGrainedTaskEntry)
    → shares_target t other ≡ false
      ↔ (other.id ≢ t.id → t.target_file ≢ "" → other.target_file ≢ t.target_file)
unfolding shares_target
shares_target_iff t other =
    let all =
      all_three (not (other.id == t.id)) (other.target_file == t.target_file)
        (not (t.target_file == "")) in
    let ids = differs_iff other.id t.id in
    let named = differs_iff t.target_file "" in
    let files = ==_iff other.target_file t.target_file in
    (
      (λ h differ name same. all.0 h (ids.1 differ) (named.1 name) (files.1 same)),
      λ h. all.1 λ p q r. h (ids.0 p) (named.0 q) (files.0 r),
    )

pub task_errors_iff :
    (tasks ts : List FineGrainedTaskEntry)
    → no_errors (task_errors tasks ts) ≡ true ↔ (
        (t : FineGrainedTaskEntry)
        → In t ts
        → (no_errors (dep_errors (map (λ u. u.id) tasks) t t.depends_on) ≡ true)
          × (no_errors (file_errors t tasks) ≡ true))
unfolding task_errors
task_errors_iff tasks [] = ((λ h t k. absurd k), λ h. refl)
task_errors_iff tasks (t ∷ ts) =
    let deps = dep_errors (map (λ u. u.id) tasks) t t.depends_on in
    let files = file_errors t tasks in
    let outer = no_errors-append_iff deps (files ++ task_errors tasks ts) in
    let inner = no_errors-append_iff files (task_errors tasks ts) in
    let rest = task_errors_iff tasks ts in
    (
      (λ h u k.
          let tail = (outer.0 h).1 in
          elim k [
            | inl same ↦
                subst
                  (λ v.
                    (no_errors (dep_errors (map (λ w. w.id) tasks) v v.depends_on) ≡ true)
                    × (no_errors (file_errors v tasks) ≡ true))
                  (sym same) ((outer.0 h).0, (inner.0 tail).0)
            | inr k ↦ rest.0 (inner.0 tail).1 u k
          ]),
      λ h.
          let here = h t (inl refl) in
          outer.1 (here.0, inner.1 (here.1, rest.1 λ u k. h u (inr k))),
    )

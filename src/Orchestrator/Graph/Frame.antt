-- ===== src/Orchestrator/Graph/Frame.antt =====
-- What a call of `computeDepth` leaves alone. A relation between the state before a call and after
-- it is kept by every call if it is reflexive, transitive, and kept by a call that marks its id,
-- works, and then stores the depth and takes the mark away.
use neuralgentics.Prelude.{
  ℕ, zero, suc, ◌+◌, String, ◌≡◌, refl, Bool, true, false, List, [], ◌∷◌, Option, none, some, ◌==◌,
  ==_iff, ==_self, string_comparable, lookup, if◌then◌else◌, lookup-insert, arith, ◌∙◌,
}
use neuralgentics.Orchestrator.Graph.{
  DepsMap, deps_of, DepthState, Outcome, done, cycle, out_of_fuel, larger, Visit, deps_depth,
  marked, start, finish, expand, unknown, known, compute_depth,
}
use neuralgentics.Orchestrator.Graph.Depth.{Ends, Ends-bind, Ends-imp}

pub record IsFrame (R : DepthState → DepthState → Type 0) : Type 0 where
  pub same : (st : DepthState) → R st st
  pub then_ : (a b c : DepthState) → R a b → R b c → R a c
  pub bracket :
      (id : String) (d : ℕ) (st st' : DepthState)
      → marked id st ≡ false
      → R (start id st) st'
      → R st (finish id d st')

module _ (m : DepsMap) (R : DepthState → DepthState → Type 0) (frame : IsFrame R) where
  abbrev Keeps : DepthState → ℕ × DepthState → Type 0
  Keeps st r = R st r.1

  module _ (visit : Visit)
      (kept : (id : String) (st : DepthState) → Ends (visit id st) (Keeps st)) where
    deps_depth_frame :
        (ids : List String) (a : ℕ) (st : DepthState) → Ends (deps_depth visit ids a st) (Keeps st)
    unfolding deps_depth
    deps_depth_frame [] a st = frame.same st
    deps_depth_frame (id ∷ ids) a st =
        Ends-bind (Keeps st) (Keeps st) (visit id st) _ (kept id st) λ r p.
          Ends-imp (Keeps r.1) (Keeps st) (deps_depth visit ids (larger a r.0) r.1)
            (deps_depth_frame ids (larger a r.0) r.1) λ r' q. frame.then_ st r.1 r'.1 p q

    expand_frame :
        (id : String) (ids : List String) (st : DepthState)
        → marked id st ≡ false
        → Ends (expand visit id ids (start id st)) (Keeps st)
    unfolding expand
    expand_frame id [] st e = frame.bracket id 0 st (start id st) e (frame.same (start id st))
    expand_frame id (x ∷ xs) st e =
        Ends-bind (Keeps (start id st)) (Keeps st) (deps_depth visit (x ∷ xs) 0 (start id st))
          (λ r. done (r.0 + 1, finish id (r.0 + 1) r.1)) (deps_depth_frame (x ∷ xs) 0 (start id st))
          λ r p. frame.bracket id (r.0 + 1) st r.1 e p

    unknown_frame :
        (id : String) (st : DepthState) (b : Bool)
        → marked id st ≡ b
        → Ends (unknown m visit id st b) (Keeps st)
    unfolding unknown
    unknown_frame id st true e = tt
    unknown_frame id st false e = expand_frame id (deps_of m id) st e

    known_frame :
        (id : String) (st : DepthState) (o : Option ℕ) → Ends (known m visit id st o) (Keeps st)
    unfolding known
    known_frame id st none = unknown_frame id st (marked id st) refl
    known_frame id st (some d) = frame.same st

  pub compute_depth_frame :
      (fuel : ℕ) (id : String) (st : DepthState) → Ends (compute_depth fuel m id st) (λ r. R st r.1)
  unfolding compute_depth
  compute_depth_frame zero id st = tt
  compute_depth_frame (suc fuel) id st =
      known_frame (λ j s. compute_depth fuel m j s) (compute_depth_frame fuel) id st
        (lookup id st.depths)

-- The marks are as before.
abbrev pub SameMarks : DepthState → DepthState → Type 0
SameMarks a b = (id : String) → marked id b ≡ marked id a

pub SameMarks-IsFrame : IsFrame SameMarks
SameMarks-IsFrame = record {
  same = λ st id. refl;
  then_ = λ a b c p q id. q id ∙ p id;
  bracket = λ id d st st' e p j. ground (
    arith,
    p j,
    lookup-insert id j true st.computing,
    lookup-insert id j false st'.computing,
    ==_iff id j,
  );
}

-- What has a stored depth goes on to have one.
abbrev pub Grows : DepthState → DepthState → Type 0
Grows a b =
    (id : String) (d : ℕ) → lookup id a.depths ≡ some d → (e : ℕ) × (lookup id b.depths ≡ some e)

pub Grows-IsFrame : IsFrame Grows
Grows-IsFrame = record {
  same = λ st id d h. (d, h);
  then_ = λ a b c p q id d h. let (e, k) = p id d h in q id e k;
  bracket = λ id d st st' e p j k h.
      let (k', h') = p j k h in
      (if id == j then d else k', ground (arith, lookup-insert id j d st'.depths));
}

pub Ends-and {ℓ} :
    {A : Type 0} (P Q : A → Type ℓ) (o : Outcome A) → Ends o P → Ends o Q → Ends o (λ a. P a × Q a)
Ends-and P Q (done a) p q = (p, q)
Ends-and P Q (cycle id) p q = tt
Ends-and P Q out_of_fuel p q = tt

Ends-any : {A : Type 0} (o : Outcome A) → Ends o (λ a. Unit {0})
Ends-any (done a) = tt
Ends-any (cycle id) = tt
Ends-any out_of_fuel = tt

module _ (m : DepsMap) (visit : Visit) where
  abbrev Stores : String → ℕ × DepthState → Type 0
  Stores id r = lookup id r.1.depths ≡ some r.0

  finish-Stores : (id : String) (d : ℕ) (st : DepthState) → Stores id (d, finish id d st)
  finish-Stores id d st = ground (arith, lookup-insert id id d st.depths, ==_self id)

  expand-Stores :
      (id : String) (ids : List String) (st : DepthState)
      → Ends (expand visit id ids st) (Stores id)
  unfolding expand
  expand-Stores id [] st = finish-Stores id 0 st
  expand-Stores id (x ∷ xs) st =
      Ends-bind (λ r. Unit {0}) (Stores id) (deps_depth visit (x ∷ xs) 0 st)
        (λ r. done (r.0 + 1, finish id (r.0 + 1) r.1)) (Ends-any (deps_depth visit (x ∷ xs) 0 st))
        λ r p. finish-Stores id (r.0 + 1) r.1

  unknown-Stores :
      (id : String) (st : DepthState) (b : Bool) → Ends (unknown m visit id st b) (Stores id)
  unfolding unknown
  unknown-Stores id st true = tt
  unknown-Stores id st false = expand-Stores id (deps_of m id) (start id st)

  known-Stores :
      (id : String) (st : DepthState) (o : Option ℕ)
      → lookup id st.depths ≡ o
      → Ends (known m visit id st o) (Stores id)
  unfolding known
  known-Stores id st none e = unknown-Stores id st (marked id st)
  known-Stores id st (some d) e = e

-- The depth that a call returns is stored.
pub compute_depth_stores :
    (m : DepsMap) (fuel : ℕ) (id : String) (st : DepthState)
    → Ends (compute_depth fuel m id st) (λ r. lookup id r.1.depths ≡ some r.0)
unfolding compute_depth
compute_depth_stores m zero id st = tt
compute_depth_stores m (suc fuel) id st =
    known-Stores m (λ j s. compute_depth fuel m j s) id st (lookup id st.depths) refl

-- ===== src/Memory/Index/Again.antt =====
-- index/indexer.go: a second run over files that have not changed.
use neuralgentics.Prelude.{
  ℕ, suc, ◌+◌, String, ◌≡◌, refl, sym, subst, ◌∙◌, Bool, true, false, not, List, [], ◌∷◌, Option,
  none, some, ==_self, ◌&&◌, string_comparable, All, lookup, if◌then◌else◌, arith,
}
use neuralgentics.Memory.Index.{
  FileTracker, has_changed, Disk, compute_hash, Write, Store, Progress, read_file, hashed,
  index_file, index_files, ProjectIndexer, Indexed, started, ended, index,
}
use neuralgentics.Memory.Index.Settling.{Settles, Settled, run_settles}

-- Nothing was done but to count.
pub record Idle (p q : Progress) : Type 0 where
  pub tracker : q.tracker ≡ p.tracker
  pub writes : q.writes ≡ p.writes
  pub indexed : q.indexed ≡ p.indexed

module _ (store : Store) (disk : Disk) (path : String) (p : Progress) where
  either-Idle :
      (hash : String) (content : Option String) (changed : Bool)
      → Settles p.tracker path (some hash) content
      → (lookup path p.tracker.hashes ≡ some hash → changed ≡ false)
      → Idle p (
          if not false && not changed
          then record p { skipped = p.skipped + 1 }
          else read_file store path hash content p)
  either-Idle hash content false s f = record { tracker = refl; writes = refl; indexed = refl }
  either-Idle hash none true s f = record { tracker = refl; writes = refl; indexed = refl }
  either-Idle hash (some content) true s f = absurd (ground (arith, f s))

  hashed-Idle :
      (h : Option String)
      → Settles p.tracker path h (disk.read_again path)
      → Idle p (hashed store disk false path h p)
  unfolding has_changed
  hashed-Idle none s = record { tracker = refl; writes = refl; indexed = refl }
  hashed-Idle (some hash) s =
      either-Idle hash (disk.read_again path) (has_changed p.tracker path hash) s
        λ k. ground (arith, k, ==_self hash)

  index_file-Idle : Settled disk p.tracker path → Idle p (index_file store disk false path p)
  unfolding index_file
  index_file-Idle s = hashed-Idle (compute_hash disk path) s

Idle-trans : (p q r : Progress) → Idle p q → Idle q r → Idle p r
Idle-trans p q r a b = record {
  tracker = b.tracker ∙ a.tracker;
  writes = b.writes ∙ a.writes;
  indexed = b.indexed ∙ a.indexed;
}

Idle-self : (p : Progress) → Idle p p
Idle-self p = record { tracker = refl; writes = refl; indexed = refl }

stops :
    (p : Progress) (r : Progress × Bool) (on : Bool)
    → Idle p r.0
    → Idle p (if on then r else (p, false)).0
stops p r true idle = idle
stops p r false idle = Idle-self p

index_files-Idle :
    (store : Store) (disk : Disk) (live : ℕ → Bool) (i : ℕ) (paths : List String) (p : Progress)
    → All (Settled disk p.tracker) paths
    → Idle p (index_files store disk false live i paths p).0
unfolding index_files
index_files-Idle store disk live i [] p s = record { tracker = refl; writes = refl; indexed = refl }
index_files-Idle store disk live i (path ∷ paths) p s =
    let q = index_file store disk false path p in
    let idle = index_file-Idle store disk path p s.0 in
    let rest =
      index_files-Idle store disk live (suc i) paths q
        (subst (λ t. All (Settled disk t) paths) (sym idle.tracker) s.1) in
    stops p (index_files store disk false live (suc i) paths q) (live i)
      (Idle-trans p q (index_files store disk false live (suc i) paths q).0 idle rest)

ended-completed : (x : ProjectIndexer) (r : Progress × Bool) → (ended x r).2 ≡ none → r.1 ≡ true
ended-completed x (p, true) h = refl
ended-completed x (p, false) h = absurd (cc)

-- An indexer that is not running.
abbrev pub resting : FileTracker → ProjectIndexer
resting t = record { tracker = t; indexing = false }

ended-resting :
    (x : ProjectIndexer) (r : Progress × Bool)
    → ((ended x r).0 ≡ resting r.0.tracker) × ((ended x r).1 ≡ r.0)
ended-resting x (p, true) = (refl, refl)
ended-resting x (p, false) = (refl, refl)

-- A run that wrote nothing, indexed nothing and left the tracker.
abbrev pub Repeats : ProjectIndexer → List Write → Indexed → Type 0
Repeats x ws r = (r.1.writes ≡ ws) × (r.0.tracker ≡ x.tracker) × (r.1.indexed ≡ 0)

ended-Repeats :
    (x : ProjectIndexer) (ws : List Write) (r : Progress × Bool)
    → Idle (started x ws) r.0
    → Repeats x ws (ended x r)
ended-Repeats x ws (p, true) idle = (idle.writes, idle.tracker, idle.indexed)
ended-Repeats x ws (p, false) idle = (idle.writes, idle.tracker, idle.indexed)

-- After a run over some files that was not cancelled, forced or not, whichever writes the store has
-- refused: a run over the same files that is not forced, while the disk has not changed, makes
-- no write and indexes nothing, and leaves the tracker as it is. What the store has refused
-- is therefore not tried again.
pub index-index :
    (disk : Disk) (first second : Store) (force : Bool) (live again : ℕ → Bool)
    (files : List String) (t : FileTracker) (ws : List Write)
    → (index first disk force live (some files) (resting t) ws).2 ≡ none
    → let r = index first disk force live (some files) (resting t) ws in
      Repeats r.0 r.1.writes (index second disk false again (some files) r.0 r.1.writes)
unfolding index
index-index disk first second force live again files t ws h =
    let x = resting t in
    let r = index_files first disk force live 0 files (started x ws) in
    let q = r.0 in
    let settled =
      run_settles first disk force live 0 files (started x ws) (ended-completed x r h) in
    let idle =
      index_files-Idle second disk again 0 files (started (resting q.tracker) q.writes) settled in
    let (at, now) = ended-resting x r in
    subst
      (λ y.
        Repeats y (ended x r).1.writes
          (index second disk false again (some files) y (ended x r).1.writes))
      (sym at)
      (subst
        (λ (p : Progress).
          Repeats (resting q.tracker) p.writes
            (index second disk false again (some files) (resting q.tracker) p.writes))
        (sym now)
        (ended-Repeats (resting q.tracker) q.writes
          (index_files second disk false again 0 files (started (resting q.tracker) q.writes))
          idle))

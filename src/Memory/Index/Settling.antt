-- ===== src/Memory/Index/Settling.antt =====
-- index/indexer.go: the tracker after a run.
use neuralgentics.Prelude.{
  ℕ, suc, ◌+◌, String, ◌≡◌, ◌⊎◌, inl, inr, refl, sym, subst, ap, ◌∙◌, Bool, true, false, not, List,
  [], ◌∷◌, Option, none, some, ◌==◌, ==_iff, ◌&&◌, string_comparable, All, lookup, lookup-insert,
  if◌then◌else◌, arith, Bool-cases, Option-cases,
}
use neuralgentics.Memory.Chunker.{ChunkResult, default_chunk_config, new_chunker, chunk_file}
use neuralgentics.Memory.Index.{
  FileTracker, has_changed, track, Disk, compute_hash, Write, deletes, Store, Progress, written,
  stored, store_chunks, chunked, read_file, hashed, index_file, index_files,
}

-- A file that can be read is tracked with its hash.
abbrev pub Settles : FileTracker → String → Option String → Option String → Type 0
Settles t path none content = Unit
Settles t path (some hash) none = Unit
Settles t path (some hash) (some content) = lookup path t.hashes ≡ some hash

abbrev pub Settled : Disk → FileTracker → String → Type 0
Settled disk t path = Settles t path (compute_hash disk path) (disk.read_again path)

tracked-Settles :
    (t : FileTracker) (path : String) (h c : Option String)
    → ((hash : String) → h ≡ some hash → lookup path t.hashes ≡ some hash)
    → Settles t path h c
tracked-Settles t path none c f = tt
tracked-Settles t path (some hash) none f = tt
tracked-Settles t path (some hash) (some content) f = f hash refl

-- Tracking one file with its hash settles it, and keeps the others settled.
track-Settles :
    (t : FileTracker) (path hash other : String) (h c : Option String)
    → ((path == other) ≡ true → h ≡ some hash)
    → Settles t other h c
    → Settles (track t path hash) other h c
unfolding track
track-Settles t path hash other none c same s = tt
track-Settles t path hash other (some x) none same s = tt
track-Settles t path hash other (some x) (some content) same s = elim (Bool-cases (path == other)) [
  | inl eq ↦ ground (arith, lookup-insert path other hash t.hashes, eq) ∙ sym (same eq)
  | inr ne ↦ ground (arith, lookup-insert path other hash t.hashes, ne, s)
]

tracker-written :
    (store : Store) (w : Write) (p : Progress) → (written store w p).tracker ≡ p.tracker
tracker-written store w p = ground arith

tracker-store_chunks :
    (store : Store) (chunks : List ChunkResult) (p : Progress)
    → (store_chunks store chunks p).tracker ≡ p.tracker
unfolding store_chunks
tracker-store_chunks store [] p = refl
tracker-store_chunks store (chunk ∷ chunks) p =
    tracker-store_chunks store chunks (stored store chunk p) ∙ ground arith

tracker-chunked :
    (store : Store) (path hash : String) (chunks : List ChunkResult) (p : Progress)
    → (chunked store path hash chunks p).tracker ≡ track p.tracker path hash
tracker-chunked store path hash [] p = refl
tracker-chunked store path hash (chunk ∷ chunks) p =
    ap (λ t. track t path hash) (tracker-store_chunks store (chunk ∷ chunks) p)

-- What indexing one file does to the tracker.
abbrev Tracks : Disk → String → FileTracker → FileTracker → Type 0
Tracks disk path t t' =
    ((t' ≡ t) × Settled disk t path)
    ⊎ ((hash : String) × (compute_hash disk path ≡ some hash) × (t' ≡ track t path hash))

module _ (store : Store) (disk : Disk) (force : Bool) (path : String) (p : Progress) where
  read_file-Tracks :
      (hash : String) (content : Option String)
      → compute_hash disk path ≡ some hash
      → disk.read_again path ≡ content
      → Tracks disk path p.tracker (read_file store path hash content p).tracker
  read_file-Tracks hash none e r = inl (refl, rw (e, r) tt)
  read_file-Tracks hash (some content) e r =
      let q = written store (deletes path) p in
      inr (
        hash,
        e,
        tracker-chunked store path hash (chunk_file (new_chunker default_chunk_config) path content)
              q
            ∙ ap (λ t. track t path hash) (tracker-written store (deletes path) p),
      )

  unchanged-lookup :
      (hash : String)
      → has_changed p.tracker path hash ≡ false
      → lookup path p.tracker.hashes ≡ some hash
  unfolding has_changed
  unchanged-lookup hash h = elim (Option-cases (lookup path p.tracker.hashes)) [
    | inl e ↦ absurd (ground arith)
    | inr (old, e) ↦ ground (arith, ==_iff old hash)
  ]

  either-Tracks :
      (hash : String) (skip : Bool)
      → compute_hash disk path ≡ some hash
      → (skip ≡ true → has_changed p.tracker path hash ≡ false)
      → Tracks disk path p.tracker
          (if skip
            then record p { skipped = p.skipped + 1 }
            else read_file store path hash (disk.read_again path) p).tracker
  either-Tracks hash true e s = inl (
    refl,
    tracked-Settles p.tracker path (compute_hash disk path) (disk.read_again path)
        λ x k. unchanged-lookup hash (s refl) ∙ sym e ∙ k,
  )
  either-Tracks hash false e s = read_file-Tracks hash (disk.read_again path) e refl

  hashed-Tracks :
      (h : Option String)
      → compute_hash disk path ≡ h
      → Tracks disk path p.tracker (hashed store disk force path h p).tracker
  hashed-Tracks none e = inl (refl, rw e tt)
  hashed-Tracks (some hash) e =
      either-Tracks hash (not force && not (has_changed p.tracker path hash)) e λ k. ground arith

  index_file-Tracks : Tracks disk path p.tracker (index_file store disk force path p).tracker
  unfolding index_file
  index_file-Tracks = hashed-Tracks (compute_hash disk path) refl

  index_file-Settled : Settled disk (index_file store disk force path p).tracker path
  unfolding track
  index_file-Settled = elim index_file-Tracks [
    | inl (same, s) ↦ subst (λ t. Settled disk t path) (sym same) s
    | inr (hash, e, new) ↦
        subst (λ t. Settled disk t path) (sym new)
          (tracked-Settles (track p.tracker path hash) path (compute_hash disk path)
            (disk.read_again path)
            λ x k.
              ground (arith, lookup-insert path path hash p.tracker.hashes, ==_iff path path)
              ∙ sym e
              ∙ k)
  ]

  keeps_Settled :
      (other : String)
      → Settled disk p.tracker other
      → Settled disk (index_file store disk force path p).tracker other
  keeps_Settled other s = elim index_file-Tracks [
    | inl (same, _) ↦ subst (λ t. Settled disk t other) (sym same) s
    | inr (hash, e, new) ↦
        subst (λ t. Settled disk t other) (sym new)
          (track-Settles p.tracker path hash other (compute_hash disk other) (disk.read_again other)
            (λ k. ap (compute_hash disk) (sym ((==_iff path other).0 k)) ∙ e) s)
  ]

module _ (store : Store) (disk : Disk) (force : Bool) (live : ℕ → Bool) where
  run_keeps :
      (i : ℕ) (paths : List String) (p : Progress) (other : String)
      → Settled disk p.tracker other
      → Settled disk (index_files store disk force live i paths p).0.tracker other
  unfolding index_files
  run_keeps i [] p other s = s
  run_keeps i (path ∷ paths) p other s = elim (Bool-cases (live i)) [
    | inl on ↦ rw on (
        run_keeps (suc i) paths (index_file store disk force path p) other
          (keeps_Settled store disk force path p other s))
    | inr off ↦ rw off s
  ]

  continued :
      (i : ℕ) (path : String) (paths : List String) (p : Progress)
      → live i ≡ true
      → index_files store disk force live i (path ∷ paths) p
        ≡ index_files store disk force live (suc i) paths (index_file store disk force path p)
  unfolding index_files
  continued i path paths p on =
      let rest =
        index_files store disk force live (suc i) paths (index_file store disk force path p) in
      ap (λ t. if t then rest else (p, false)) on

  -- A run that is not cancelled settles every file.
  pub run_settles :
      (i : ℕ) (paths : List String) (p : Progress)
      → (index_files store disk force live i paths p).1 ≡ true
      → All (Settled disk (index_files store disk force live i paths p).0.tracker) paths
  unfolding index_files
  run_settles i [] p h = tt
  run_settles i (path ∷ paths) p h = elim (Bool-cases (live i)) [
    | inl on ↦
        let q = index_file store disk force path p in
        let e = continued i path paths p on in
        subst (λ (r : Progress × Bool). All (Settled disk r.0.tracker) (path ∷ paths)) (sym e)
          (
            run_keeps (suc i) paths q path (index_file-Settled store disk force path p),
            run_settles (suc i) paths q (sym (ap (λ r. r.1) e) ∙ h),
          )
    | inr off ↦ absurd (ground (arith, off))
  ]

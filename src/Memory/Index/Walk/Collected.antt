-- ===== src/Memory/Index/Walk/Collected.antt =====
-- index/tracker.go: which files are collected.
use neuralgentics.Prelude.{
  String, ◌≡◌, ◌↔◌, ◌⊎◌, inl, inr, refl, sym, subst, Bool, true, false, List, [], ◌∷◌, ◌++◌,
  string_comparable, contains, In, In-append_iff, All, if◌then◌else◌, arith,
}
use neuralgentics.Memory.Chunker.Text.{extension}
use neuralgentics.Memory.Index.Walk.{
  Entries, done, file, dir, skipped, any_skipped, allowed_extensions, should_index_path, walk,
  collect_files,
}

-- The path of a file below the directories.
abbrev pub FileAt : List String → List String → Entries → Type 0
FileAt path dirs done = ⊥
FileAt path dirs (file name rest) = (path ≡ name ∷ dirs) ⊎ FileAt path dirs rest
FileAt path dirs (dir name inside rest) = FileAt path (name ∷ dirs) inside ⊎ FileAt path dirs rest

abbrev pub IsKept : String → Type 0
IsKept name = skipped name ≡ false

-- The extension is allowed, and none of the directories is skipped.
abbrev pub IsIndexed : List String → Type 0
IsIndexed [] = ⊥
IsIndexed (name ∷ dirs) = (contains (extension name) allowed_extensions ≡ true) × All IsKept dirs

any_skipped_iff : (dirs : List String) → (any_skipped dirs ≡ false) ↔ All IsKept dirs
unfolding any_skipped
any_skipped_iff [] = (λ h. tt, λ h. refl)
any_skipped_iff (d ∷ dirs) =
    let (there, back) = any_skipped_iff dirs in
    (λ h. (ground arith, there (ground arith)), λ h. ground (arith, back h.1, h.0))

should_index_path_iff :
    (dirs : List String) (name : String)
    → All IsKept dirs
    → (should_index_path dirs name ≡ true) ↔ (contains (extension name) allowed_extensions ≡ true)
unfolding should_index_path
should_index_path_iff dirs name kept = ground (arith, (any_skipped_iff dirs).1 kept)

-- A file that is indexed lies in directories that are kept.
FileAt-IsKept :
    (path dirs : List String) (entries : Entries)
    → FileAt path dirs entries
    → IsIndexed path
    → All IsKept dirs
FileAt-IsKept path dirs done f x = absurd f
FileAt-IsKept path dirs (file name rest) (inl here) x = (subst IsIndexed here x).1
FileAt-IsKept path dirs (file name rest) (inr there) x = FileAt-IsKept path dirs rest there x
FileAt-IsKept path dirs (dir name inside rest) (inl below) x =
    (FileAt-IsKept path (name ∷ dirs) inside below x).1
FileAt-IsKept path dirs (dir name inside rest) (inr there) x = FileAt-IsKept path dirs rest there x

-- The walk below directories that are kept.
abbrev Walks : List String → List String → Entries → Type 0
Walks path dirs entries = In path (walk dirs entries) ↔ (FileAt path dirs entries × IsIndexed path)

either-In :
    (path head : List String) (more : List (List String)) (t : Bool)
    → In path (if t then head ∷ more else more) ↔ (((t ≡ true) × (path ≡ head)) ⊎ In path more)
either-In path head more true = ground arith
either-In path head more false = ground arith

either-In_append :
    (path : List String) (below more : List (List String)) (t : Bool)
    → In path (if t then more else below ++ more) ↔ (((t ≡ false) × In path below) ⊎ In path more)
either-In_append path below more true = ground arith
either-In_append path below more false = ground (arith, In-append_iff path below more)

walk_iff : (path dirs : List String) (entries : Entries) → All IsKept dirs → Walks path dirs entries
unfolding walk
walk_iff path dirs done kept = (λ h. absurd h, λ h. h.0)
walk_iff path dirs (file name rest) kept =
    let (there, back) = walk_iff path dirs rest kept in
    let (out, in_) = either-In path (name ∷ dirs) (walk dirs rest) (should_index_path dirs name) in
    let (ext, tested) = should_index_path_iff dirs name kept in
    (
      λ h. elim (out h) [
        | inl (t, e) ↦ (inl e, subst IsIndexed (sym e) (ext t, kept))
        | inr k ↦ (inr (there k).0, (there k).1)
      ],
      λ h. elim h.0 [
        | inl e ↦ in_ (inl (tested (subst IsIndexed e h.1).0, e))
        | inr k ↦ in_ (inr (back (k, h.1)))
      ],
    )
walk_iff path dirs (dir name inside rest) kept =
    let (there, back) = walk_iff path dirs rest kept in
    let (out, in_) =
      either-In_append path (walk (name ∷ dirs) inside) (walk dirs rest) (skipped name) in
    (
      λ h. elim (out h) [
        | inl (t, k) ↦ let r = (walk_iff path (name ∷ dirs) inside (t, kept)).0 k in (inl r.0, r.1)
        | inr k ↦ (inr (there k).0, (there k).1)
      ],
      λ h. elim h.0 [
        | inl below ↦
            let all = FileAt-IsKept path (name ∷ dirs) inside below h.1 in
            in_ (inl (all.0, (walk_iff path (name ∷ dirs) inside all).1 (below, h.1)))
        | inr k ↦ in_ (inr (back (k, h.1)))
      ],
    )

-- The paths that are collected from a directory are exactly those of its files whose extension is
-- allowed and none of whose directories is skipped, provided that the directory itself does
-- not have the name of one that is skipped: then nothing is collected.
pub collect_files_iff :
    (root : String) (entries : Entries) (path : List String)
    → In path (collect_files root entries) ↔ (IsKept root × FileAt path [] entries × IsIndexed path)
unfolding collect_files
collect_files_iff root entries path =
    let (there, back) = walk_iff path [] entries tt in ground arith

-- ===== src/Broker/SkillTags/Merged.antt =====
-- catalog/skills.go: the merged tags.
use neuralgentics.Prelude.{
  String, ◌≡◌, inl, inr, refl, sym, ap, ◌∙◌, Bool, true, false, List, [], ◌∷◌, Option, ◌==◌, ==_iff,
  string_comparable, contains, contains-append, if◌then◌else◌, arith, Bool-cases,
}
use neuralgentics.Memory.Chunker.Text.{has_prefix, after_prefix}
use neuralgentics.Broker.SkillTags.{
  Tags, dropped, added, clean_tag, modified, apply_modifiers, or_none, merged_tags,
}

-- What one tag of the front matter says of a tag: "-t" takes it away, "+t" and "t" add it.
abbrev pub after_tag : String → String → Bool → Bool
after_tag t tag held =
    if has_prefix tag "-"
    then (if after_prefix "-" tag == t then false else held)
    else if clean_tag tag == t
    then true
    else held

-- The last word on a tag.
abbrev pub verdict : String → List String → Bool → Bool
verdict t [] held = held
verdict t (tag ∷ tags) held = verdict t tags (after_tag t tag held)

contains-dropped :
    (t tag : String) (tags : List String)
    → contains t (dropped tag tags) ≡ (if tag == t then false else contains t tags)
contains-dropped t tag [] = ground arith
contains-dropped t tag (x ∷ tags) =
    ground (arith, contains-dropped t tag tags, ==_iff x tag, ==_iff x t, ==_iff tag t)

-- The map holds the tags of the list.
abbrev Same : Tags → Type 0
Same tags = (t : String) → contains t tags.0 ≡ contains t tags.1

module _ (t : String) where
  added-held :
      (tag : String) (merged seen : List String)
      → Same (merged, seen)
      → contains t (added tag (merged, seen)).0 ≡ (if tag == t then true else contains t merged)
  added-held tag merged seen same = elim (Bool-cases (contains tag seen)) [
    | inl old ↦ ground (arith, old, same tag, ==_iff tag t)
    | inr new ↦ ground (arith, new, contains-append t merged (tag ∷ []))
  ]

  added-seen :
      (tag : String) (merged seen : List String)
      → contains t (added tag (merged, seen)).1 ≡ (if tag == t then true else contains t seen)
  added-seen tag merged seen = ground (arith, ==_iff tag t)

  modified-held :
      (tag : String) (merged seen : List String)
      → Same (merged, seen)
      → contains t (modified tag (merged, seen)).0 ≡ after_tag t tag (contains t merged)
  unfolding modified
  modified-held tag merged seen same = elim (Bool-cases (has_prefix tag "-")) [
    | inl minus ↦ rw minus (contains-dropped t (after_prefix "-" tag) merged)
    | inr plus ↦ rw plus (added-held (clean_tag tag) merged seen same)
  ]

  modified-seen :
      (tag : String) (merged seen : List String)
      → contains t (modified tag (merged, seen)).1 ≡ after_tag t tag (contains t seen)
  unfolding modified
  modified-seen tag merged seen = elim (Bool-cases (has_prefix tag "-")) [
    | inl minus ↦ rw minus (contains-dropped t (after_prefix "-" tag) seen)
    | inr plus ↦ rw plus (added-seen (clean_tag tag) merged seen)
  ]

modified-Same :
    (tag : String) (merged seen : List String)
    → Same (merged, seen)
    → Same (modified tag (merged, seen))
modified-Same tag merged seen same = λ t.
    modified-held t tag merged seen same
    ∙ ap (after_tag t tag) (same t)
    ∙ sym (modified-seen t tag merged seen)

apply_modifiers-held :
    (t : String) (tags : List String) (r : Tags)
    → Same r
    → contains t (apply_modifiers tags r).0 ≡ verdict t tags (contains t r.0)
unfolding apply_modifiers
apply_modifiers-held t [] r same = refl
apply_modifiers-held t (tag ∷ tags) (merged, seen) same =
    apply_modifiers-held t tags (modified tag (merged, seen)) (modified-Same tag merged seen same)
    ∙ ap (verdict t tags) (modified-held t tag merged seen same)

-- A tag is among the merged tags of a skill exactly when the last tag of its front matter that names
-- it, with or without "+", adds it, or, when none names it, the scope gives it to the role; one
-- that names it with "-" takes it away.
pub contains-merged_tags :
    (t : String) (fm_tags : List String) (yaml_tags : Option (List String))
    → contains t (merged_tags fm_tags yaml_tags)
      ≡ verdict t fm_tags (contains t (or_none yaml_tags))
unfolding merged_tags
contains-merged_tags t [] yaml_tags = refl
contains-merged_tags t (tag ∷ tags) yaml_tags =
    apply_modifiers-held t (tag ∷ tags) (or_none yaml_tags, or_none yaml_tags) λ x. refl

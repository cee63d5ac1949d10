-- ===== src/Broker/SkillTags.antt =====
-- catalog/skills.go: the tags of a skill for a role, and which skills a role sees. The scope file and
-- the parsed front matter are arguments; an absent role has no list of tags.
pub mod Merged
use neuralgentics.Prelude.{
  ℕ, String, Bool, true, false, not, List, [], ◌∷◌, ◌++◌, Option, none, some, ◌==◌, ◌&&◌, ◌||◌,
  string_comparable, contains, select, keys, lookup, length, ltb, if◌then◌else◌,
}
use neuralgentics.Memory.Chunker.Text.{has_prefix, after_prefix}

-- A version that is not positive is 0.
pub record ScopeFile : Type 0 where
  pub version : ℕ
  pub roles : List (String × List String)

abbrev pub empty : {A : Type 0} → List A → Bool
empty [] = true
empty (x ∷ xs) = false

-- The tags so far, and the map of those that were seen.
abbrev pub Tags : Type 0
Tags = List String × List String

abbrev pub dropped : String → List String → List String
dropped tag = select (λ t. not (t == tag))

abbrev pub added : String → Tags → Tags
added tag (merged, seen) =
    if contains tag seen then (merged, seen) else (merged ++ tag ∷ [], tag ∷ seen)

abbrev pub clean_tag : String → String
clean_tag tag = if has_prefix tag "+" then after_prefix "+" tag else tag

-- One tag of the front matter.
unfoldable pub modified : String → Tags → Tags
unfolding has_prefix after_prefix
modified tag (merged, seen) =
    if has_prefix tag "-"
    then (dropped (after_prefix "-" tag) merged, dropped (after_prefix "-" tag) seen)
    else added (clean_tag tag) (merged, seen)

unfoldable pub apply_modifiers : List String → Tags → Tags
unfolding modified
apply_modifiers [] tags = tags
apply_modifiers (tag ∷ rest) tags = apply_modifiers rest (modified tag tags)

abbrev or_none : Option (List String) → List String
or_none none = []
or_none (some tags) = tags

-- The first half: tags that the scope gives, and those of the front matter.
unfoldable pub merged_tags : List String → Option (List String) → List String
unfolding apply_modifiers
merged_tags fm_tags yaml_tags =
    if empty fm_tags
    then or_none yaml_tags
    else (apply_modifiers fm_tags (or_none yaml_tags, or_none yaml_tags)).0

unfoldable pub tag_intersection : List String → List String → List String
tag_intersection a b = select (λ t. contains t b) a

abbrev is_wildcard : String → Bool
is_wildcard role = role == "orchestrator" || role == ""

abbrev scope_of : String → List String → Option (List String) → List String
scope_of role all_roles none = if is_wildcard role then all_roles else []
scope_of role all_roles (some tags) = if is_wildcard role then all_roles else role ∷ []

abbrev base_scope : String → ScopeFile → Option (List String) → List String
base_scope role scope yaml_tags =
    if ltb 0 scope.version && not (empty scope.roles)
    then scope_of role (keys scope.roles) yaml_tags
    else keys scope.roles

-- A role with tags does not see a skill that shares none of them.
abbrev filtered :
    String → List String → List String → Option (List String) → List String → List String
filtered role fm_tags merged none agent_scope = agent_scope
filtered role fm_tags merged (some yaml_tags) agent_scope =
    if not (empty fm_tags) && (not (is_wildcard role) && empty (tag_intersection merged yaml_tags))
    then []
    else agent_scope

unfoldable pub merge_tags : List String → String → ScopeFile → List String × List String
unfolding merged_tags tag_intersection
merge_tags fm_tags role scope =
    let yaml_tags = lookup role scope.roles in
    let merged = merged_tags fm_tags yaml_tags in
    (merged, filtered role fm_tags merged yaml_tags (base_scope role scope yaml_tags))

-- What a walk has parsed of a skill.
pub record SkillSummary : Type 0 where
  pub name : String
  pub description : String
  pub source : String
  pub tags : List String
  pub path : String
  pub agent_scope : List String

-- A skill with its merged tags is left out when a role that is filtered has no scope.
abbrev pub is_hidden : String → ScopeFile → List String → Bool
is_hidden role scope agent_scope =
    not (is_wildcard role) && (not (ltb 0 scope.version && empty scope.roles) && empty agent_scope)

abbrev pub with_tags : SkillSummary → List String × List String → SkillSummary
with_tags s r = record s { tags = r.0; agent_scope = r.1 }

-- The loop of walkLocalSkills over the skills that could be parsed.
unfoldable pub local_skills : String → ScopeFile → List SkillSummary → List SkillSummary
unfolding merge_tags
local_skills role scope [] = []
local_skills role scope (s ∷ skills) =
    let rest = local_skills role scope skills in
    let r = merge_tags s.tags role scope in
    if is_hidden role scope r.1 then rest else with_tags s r ∷ rest

-- The loop of walkExternalSkills, with the names that were seen.
unfoldable pub external_skills :
    String → ScopeFile → List String → List SkillSummary → List SkillSummary
unfolding merge_tags
external_skills role scope seen [] = []
external_skills role scope seen (s ∷ skills) =
    let r = merge_tags s.tags role scope in
    let skipped = external_skills role scope seen skills in
    let taken = external_skills role scope (s.name ∷ seen) skills in
    if contains s.name seen || is_hidden role scope r.1 then skipped else with_tags s r ∷ taken

names : List SkillSummary → List String
names [] = []
names (s ∷ skills) = s.name ∷ names skills

pub record SkillCatalog : Type 0 where
  pub skills : List SkillSummary
  pub total_skills : ℕ
  pub role : String

-- The external skills are none without a manifest.
unfoldable pub build_skills :
    String → ScopeFile → List SkillSummary → List SkillSummary → SkillCatalog
unfolding local_skills external_skills names
build_skills role scope locals externals =
    let first = local_skills role scope locals in
    let skills = first ++ external_skills role scope (names first) externals in
    record { skills = skills; total_skills = length skills; role = role }

-- ===== src/Orchestrator/Skills.antt =====
-- skills/: parsing a skill's markdown, loading the skills of a directory, and the registry. A path
-- is the list of its components, the last one first; the file system is a parameter.
pub mod Sections
use Prim.Native.String.{◌++◌ as append}
use neuralgentics.Prelude.{
  ℕ, String, Bool, true, false, not, List, [], ◌∷◌, ◌++◌, Option, none, some, ◌==◌, ◌&&◌, ◌||◌,
  string_comparable, lookup, insert, keys, map, select, sort_strings, if◌then◌else◌, Result, ok,
  err, ◌>>=◌,
}
use neuralgentics.Memory.Chunker.Text.{
  trim_space, has_prefix, after_prefix, contains_text, lowers_to, split_lines, join_lines,
}

abbrev pub FilePath : Type 0
FilePath = List String

pub record SkillSection : Type 0 where
  pub heading : String
  pub body : String

pub record Skill : Type 0 where
  pub name : String
  pub description : String
  pub location : FilePath
  pub content : String
  pub sections : List SkillSection

-- filepath.Base(filepath.Dir(location))
unfoldable pub derive_skill_name : FilePath → String
derive_skill_name [] = "."
derive_skill_name (file ∷ []) = "."
derive_skill_name (file ∷ dir ∷ path) = dir

-- The lines behind the closing marker.
closed : List String → Option (List String)
closed [] = none
closed (line ∷ lines) = if trim_space line == "---" then some lines else closed lines

abbrev or_lines : List String → Option (List String) → List String
or_lines lines none = lines
or_lines lines (some rest) = rest

unfoldable pub strip_frontmatter : List String → List String
unfolding closed
strip_frontmatter [] = []
strip_frontmatter (line ∷ lines) =
    if not (trim_space line == "---") then line ∷ lines else or_lines (line ∷ lines) (closed lines)

abbrev pub heading_of : String → String
heading_of line = trim_space (after_prefix "## " line)

-- The section that the loop has open, with its lines; a heading of "" is none.
abbrev pub flushed : String → List String → List SkillSection
flushed heading body =
    if heading == ""
    then []
    else record { heading = heading; body = trim_space (join_lines body) } ∷ []

sections_from : String → List String → List String → List SkillSection
unfolding after_prefix
sections_from heading body [] = flushed heading body
sections_from heading body (line ∷ lines) =
    if has_prefix line "## "
    then flushed heading body ++ sections_from (heading_of line) [] lines
    else sections_from heading (if heading == "" then body else body ++ line ∷ []) lines

unfoldable pub parse_sections : List String → List SkillSection
unfolding sections_from
parse_sections lines = sections_from "" [] lines

-- strings.Join(lines, " ")
joined : List String → String
joined [] = ""
joined (line ∷ []) = line
joined (line ∷ next ∷ lines) = append line (append " " (joined (next ∷ lines)))

abbrev paragraph : List String → String
paragraph lines = trim_space (joined lines)

abbrev empty : List String → Bool
empty [] = true
empty (_ ∷ _) = false

-- The loop, with `pastH1` and the lines of the paragraph.
describe : Bool → List String → List String → String
unfolding joined after_prefix
describe past [] [] = ""
describe past (p ∷ ps) [] = paragraph (p ∷ ps)
describe past ps (line ∷ lines) =
    let trimmed = trim_space line in
    let title = describe true ps lines in
    let on = describe past ps lines in
    let grown = describe past (ps ++ trimmed ∷ []) lines in
    if has_prefix trimmed "# " && not (has_prefix trimmed "## ")
    then title
    else if has_prefix trimmed "## "
    then (if past then (if empty ps then after_prefix "## " trimmed else paragraph ps) else on)
    else if past
    then (if trimmed == "" then (if empty ps then on else paragraph ps) else grown)
    else on

unfoldable pub extract_description : List String → String
unfolding describe
extract_description lines = describe false [] lines

unfoldable pub parse : FilePath → String → Skill
unfolding strip_frontmatter parse_sections extract_description derive_skill_name
parse location content =
    let lines = strip_frontmatter (split_lines content) in
    record {
      name = derive_skill_name location;
      description = extract_description lines;
      location = location;
      content = join_lines lines;
      sections = parse_sections lines;
    }

abbrev pub Registry : Type 0
Registry = List (String × Skill)

unfoldable pub register : Registry → Skill → Registry
register r skill = insert skill.name skill r

unfoldable pub get : Registry → String → Option Skill
get r name = lookup name r

-- os.ReadDir, os.Stat and os.ReadFile at one moment; `is_file` is Stat's answer for a file.
pub record FileSystem : Type 0 where
  pub read_dir : FilePath → Option (List (String × Bool))
  pub is_file : FilePath → Bool
  pub read_file : FilePath → Option String

pub data LoadError : Type 0 where
  unreadable_dir : FilePath → LoadError
  unreadable_skill : String → LoadError

abbrev skill_path : FilePath → String → FilePath
skill_path base name = "SKILL.md" ∷ name ∷ base

abbrev parsed : FilePath → String → Option String → Result LoadError Skill
parsed path name none = err (unreadable_skill name)
parsed path name (some content) = ok (parse path content)

unfoldable pub load : FileSystem → FilePath → String → Result LoadError Skill
unfolding parse
load fs base name = parsed (skill_path base name) name (fs.read_file (skill_path base name))

abbrev skipped : FileSystem → FilePath → String × Bool → Bool
skipped fs base e = not e.1 || (has_prefix e.0 "." || not (fs.is_file (skill_path base e.0)))

-- The loop over the entries; the first skill that cannot be read ends it.
load_entries : FileSystem → FilePath → List (String × Bool) → Result LoadError (List Skill)
unfolding load
load_entries fs base [] = ok []
load_entries fs base (e ∷ entries) =
    let rest = load_entries fs base entries in
    if skipped fs base e
    then rest
    else load fs base e.0 >>= λ skill. rest >>= λ skills. ok (skill ∷ skills)

abbrev read : FileSystem → FilePath → Option (List (String × Bool)) → Result LoadError (List Skill)
read fs base none = err (unreadable_dir base)
read fs base (some entries) = load_entries fs base entries

unfoldable pub load_all : FileSystem → FilePath → Result LoadError (List Skill)
unfolding load_entries
load_all fs base = read fs base (fs.read_dir base)

register_all : Registry → List Skill → Registry
unfolding register
register_all r [] = r
register_all r (s ∷ skills) = register_all (register r s) skills

-- InitSkillRegistry: the new global registry.
unfoldable pub init_skill_registry : FileSystem → FilePath → Result LoadError Registry
unfolding load_all register_all
init_skill_registry fs base = load_all fs base >>= λ skills. ok (register_all [] skills)

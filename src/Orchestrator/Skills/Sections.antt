-- ===== src/Orchestrator/Skills/Sections.antt =====
-- skills/parser.go: the sections that are read from a document made of sections.
use neuralgentics.Prelude.{
  String, ◌≡◌, refl, sym, ap, ◌∙◌, true, false, List, [], ◌∷◌, ◌++◌, ◌==◌, string_comparable, All,
  map, concat, append_nil, append_assoc, arith,
}
use neuralgentics.Memory.Chunker.Text.{trim_space, has_prefix, join_lines}
use neuralgentics.Orchestrator.Skills.{
  SkillSection, heading_of, flushed, sections_from, parse_sections,
}

-- A heading line and the lines below it.
pub record Written : Type 0 where
  pub line : String
  pub below : List String

abbrev pub Plain : String → Type 0
Plain line = has_prefix line "## " ≡ false

-- The line is a heading with a text, and no line below it is a heading.
pub record IsSection (w : Written) : Type 0 where
  pub marked : has_prefix w.line "## " ≡ true
  pub titled : (heading_of w.line == "") ≡ false
  pub plain : All Plain w.below

abbrev pub written_lines : List Written → List String
written_lines ws = concat (map (λ w. w.line ∷ w.below) ws)

abbrev pub section_of : Written → SkillSection
section_of w = record { heading = heading_of w.line; body = trim_space (join_lines w.below) }

-- Lines that are no headings go to the open section, or nowhere.
sections_from-open :
    (heading : String) (body lines rest : List String)
    → (heading == "") ≡ false
    → All Plain lines
    → sections_from heading body (lines ++ rest) ≡ sections_from heading (body ++ lines) rest
unfolding sections_from
sections_from-open heading body [] rest h p =
    ap (λ b. sections_from heading b rest) (sym (append_nil body))
sections_from-open heading body (line ∷ lines) rest h p = rw p.0 (
    rw h (
      sections_from-open heading (body ++ line ∷ []) lines rest h p.1
      ∙ ap (λ b. sections_from heading b rest) (append_assoc body (line ∷ []) lines)))

sections_from-before :
    (lines rest : List String)
    → All Plain lines
    → sections_from "" [] (lines ++ rest) ≡ sections_from "" [] rest
unfolding sections_from
sections_from-before [] rest p = refl
sections_from-before (line ∷ lines) rest p = rw p.0 (sections_from-before lines rest p.1)

sections_from-written :
    (heading : String) (body : List String) (ws : List Written)
    → All IsSection ws
    → sections_from heading body (written_lines ws) ≡ flushed heading body ++ map section_of ws
unfolding sections_from
sections_from-written heading body [] s = sym (append_nil (flushed heading body))
sections_from-written heading body (w ∷ ws) s = rw s.0.marked (
    ap (λ r. flushed heading body ++ r)
      (sections_from-open (heading_of w.line) [] w.below (written_lines ws) s.0.titled s.0.plain
        ∙ sections_from-written (heading_of w.line) w.below ws s.1
        ∙ ground (arith, s.0.titled)))

-- A heading is a line that starts with "## ". A document of lines that are no headings, followed by
-- sections, each a heading line with a text and lines that are no headings: exactly those sections are parsed, in order, with their
-- trimmed headings and their trimmed lines.
pub parse_sections-written_lines :
    (before : List String) (ws : List Written)
    → All Plain before
    → All IsSection ws
    → parse_sections (before ++ written_lines ws) ≡ map section_of ws
unfolding parse_sections
parse_sections-written_lines before ws p s =
    sections_from-before before (written_lines ws) p ∙ sections_from-written "" [] ws s

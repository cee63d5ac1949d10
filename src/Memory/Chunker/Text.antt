-- ===== src/Memory/Chunker/Text.antt =====
-- What chunker.go uses of the packages strings, unicode and path/filepath. A text is a list of
-- characters.
use Prim.Native.Char.{Char, code}
use mathlib.Core.Path.{ap₂}
use text.Mathlib.TextEquality.{Char-path}
use neuralgentics.Prelude.{
  ==_iff, ℕ, ◌+◌, String, Bool, true, false, List, [], ◌∷◌, ◌==◌, string_comparable,
  number_comparable, leb, if◌then◌else◌, ◌&&◌, ◌||◌, not, Bool-cases, inl, inr, ◌≡◌, ap, refl,
}

-- unicode.IsSpace
unfoldable pub is_space : ℕ → Bool
is_space c =
    (leb 9 c && leb c 13)
    || (c == 32
        || (c == 0x85
            || (c == 0xa0
                || (c == 0x1680
                    || ((leb 0x2000 c && leb c 0x200a)
                        || (c == 0x2028
                            || (c == 0x2029 || (c == 0x202f || (c == 0x205f || c == 0x3000)))))))))

trim_left : String → String
unfolding is_space
trim_left String.[] = ""
trim_left (String.◌∷◌ c s) =
    let rest = trim_left s in if is_space (code c) then rest else String.◌∷◌ c s

trim_right : String → String
unfolding is_space
trim_right String.[] = ""
trim_right (String.◌∷◌ c s) =
    let rest = trim_right s in if rest == "" && is_space (code c) then "" else String.◌∷◌ c rest

-- strings.TrimSpace
unfoldable pub trim_space : String → String
unfolding trim_left trim_right
trim_space s = trim_right (trim_left s)

-- strings.HasPrefix
unfoldable pub has_prefix : String → String → Bool
has_prefix s String.[] = true
has_prefix String.[] (String.◌∷◌ d p) = false
has_prefix (String.◌∷◌ c s) (String.◌∷◌ d p) = code c == code d && has_prefix s p

-- strings.Contains
unfoldable pub contains_text : String → String → Bool
unfolding has_prefix
contains_text String.[] p = has_prefix "" p
contains_text (String.◌∷◌ c s) p = has_prefix (String.◌∷◌ c s) p || contains_text s p

abbrev pub is_empty : String → Bool
is_empty String.[] = true
is_empty (String.◌∷◌ c s) = false

-- unicode.IsSpace(rune(line[0])): the first byte is a character of its own below 128, and no space
-- otherwise.
unfoldable pub starts_blank : String → Bool
unfolding is_space
starts_blank String.[] = false
starts_blank (String.◌∷◌ c s) = leb (code c) 127 && is_space (code c)

abbrev push : Char → List String → List String
push c [] = String.◌∷◌ c "" ∷ []
push c (l ∷ ls) = String.◌∷◌ c l ∷ ls

-- strings.Split(content, "\n")
unfoldable pub split_lines : String → List String
split_lines String.[] = "" ∷ []
split_lines (String.◌∷◌ c s) =
    let rest = split_lines s in if code c == 10 then "" ∷ rest else push c rest

abbrev newline : Char
newline = "\n"

append_text : String → String → String
append_text String.[] t = t
append_text (String.◌∷◌ c s) t = String.◌∷◌ c (append_text s t)

-- strings.Join(lines, "\n")
unfoldable pub join_lines : List String → String
unfolding append_text
join_lines [] = ""
join_lines (l ∷ []) = l
join_lines (l ∷ l' ∷ ls) = append_text l (String.◌∷◌ newline (join_lines (l' ∷ ls)))

has_slash : String → Bool
has_slash String.[] = false
has_slash (String.◌∷◌ c s) = code c == b'/' || has_slash s

-- filepath.Ext: from the last dot of the last element of the path.
unfoldable pub extension : String → String
unfolding has_slash
extension String.[] = ""
extension (String.◌∷◌ c s) =
    let rest = extension s in
    if not (is_empty rest)
    then rest
    else if code c == b'.' && not (has_slash s)
    then String.◌∷◌ c s
    else ""

abbrev lower : ℕ → ℕ
lower c =
    if leb b'A' c && leb c b'Z'
    then c + 32
    else if c == 0x130
    then b'i'
    else if c == 0x212a
    then b'k'
    else c

-- strings.ToLower(s) == t for an ASCII text t: `lower` has the letters that become ASCII.
unfoldable pub lowers_to : String → String → Bool
lowers_to String.[] String.[] = true
lowers_to String.[] (String.◌∷◌ d t) = false
lowers_to (String.◌∷◌ c s) String.[] = false
lowers_to (String.◌∷◌ c s) (String.◌∷◌ d t) = lower (code c) == code d && lowers_to s t

split_lines_cons : (s : String) → (l : String) × (ls : List String) × (split_lines s ≡ l ∷ ls)
unfolding split_lines
split_lines_cons String.[] = ("", [], refl)
split_lines_cons (String.◌∷◌ c s) =
    let (l, ls, e) = split_lines_cons s in
    elim (Bool-cases (code c == 10)) [
      | inl eq ↦ ("", split_lines s, rw eq)
      | inr ne ↦ (String.◌∷◌ c l, ls, rw (ne, e))
    ]

join_lines-push :
    (c : Char) (l : String) (ls : List String)
    → join_lines (push c (l ∷ ls)) ≡ String.◌∷◌ c (join_lines (l ∷ ls))
unfolding join_lines
join_lines-push c l [] = refl
join_lines-push c l (l' ∷ ls) = refl

join_lines-blank :
    (l : String) (ls : List String)
    → join_lines ("" ∷ l ∷ ls) ≡ String.◌∷◌ newline (join_lines (l ∷ ls))
unfolding join_lines
join_lines-blank l ls = refl

join_lines_empty : join_lines ("" ∷ []) ≡ ""
unfolding join_lines
join_lines_empty = refl

-- Joining the lines of a text gives the text back.
pub join_lines-split_lines : (s : String) → join_lines (split_lines s) ≡ s
unfolding split_lines
join_lines-split_lines String.[] = join_lines_empty
join_lines-split_lines (String.◌∷◌ c s) =
    let ih = join_lines-split_lines s in
    let (l, ls, e) = split_lines_cons s in
    elim (Bool-cases (code c == 10)) [
      | inl eq ↦
          rw (eq, split_lines)
            (rw e (
              rw join_lines-blank (
                ap₂ String.◌∷◌ (Char-path newline c (cc ((==_iff (code c) 10).0 eq)))
                  (rw e at ih))))
      | inr ne ↦ rw (ne, split_lines) (rw e (rw join_lines-push (ap (String.◌∷◌ c) (rw e at ih))))
    ]

-- strings.TrimPrefix(s, p), where p is a prefix.
unfoldable pub after_prefix : String → String → String
after_prefix String.[] s = s
after_prefix (String.◌∷◌ c p) String.[] = ""
after_prefix (String.◌∷◌ c p) (String.◌∷◌ d s) = after_prefix p s

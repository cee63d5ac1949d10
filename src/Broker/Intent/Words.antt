-- ===== src/Broker/Intent/Words.antt =====
-- intent/matcher.go: tokens, stop words and stems.
use Prim.Native.Char.{code}
use Prim.Native.Nat.{◌%◌, ◌/◌}
use neuralgentics.Prelude.{
  ℕ, ◌+◌, ◌-◌, String, Bool, true, false, not, List, [], ◌∷◌, ◌++◌, ◌==◌, ◌&&◌, ◌||◌, Comparable,
  number_comparable, ==_iff, contains, length, take, drop, map, select, leb, ltb, if◌then◌else◌,
  ◌≡◌, ◌↔◌, arith,
}

-- A string of the source, as its bytes.
abbrev pub Token : Type 0
Token = List ℕ

unfoldable pub same_token : Token → Token → Bool
same_token [] [] = true
same_token [] (c ∷ t) = false
same_token (c ∷ s) [] = false
same_token (c ∷ s) (d ∷ t) = (c == d) && same_token s t

pub same_token_iff : (s t : Token) → (same_token s t ≡ true) ↔ (s ≡ t)
unfolding same_token
same_token_iff [] [] = ground arith
same_token_iff [] (c ∷ t) = ground arith
same_token_iff (c ∷ s) [] = ground arith
same_token_iff (c ∷ s) (d ∷ t) = ground (arith, ==_iff c d, same_token_iff s t)

instance abbrev pub token_comparable : Comparable Token
token_comparable = record { equal = same_token; equal_iff = same_token_iff }

-- The code points of a text, which are its bytes when it is ASCII.
abbrev pub codes : String → List ℕ
codes String.[] = []
codes (String.◌∷◌ c s) = code c ∷ codes s

-- unicode.IsLetter or unicode.IsDigit, and unicode.ToLower.
pub record Alphabet : Type 0 where
  pub is_word : ℕ → Bool
  pub to_lower : ℕ → ℕ

-- The bytes of a rune that are written to a string.
abbrev pub utf8 : ℕ → List ℕ
utf8 r =
    if ltb r 128
    then r ∷ []
    else if ltb r 2048
    then (192 + r / 64) ∷ (128 + r % 64) ∷ []
    else if ltb r 65536
    then (224 + r / 4096) ∷ (128 + (r / 64) % 64) ∷ (128 + r % 64) ∷ []
    else (240 + r / 262144) ∷ (128 + (r / 4096) % 64) ∷ (128 + (r / 64) % 64) ∷ (128 + r % 64) ∷ []

-- The tokens that the loop writes, with the bytes of the current one; `flush` ends it.
abbrev flush : Token → List Token → List Token
flush [] rest = rest
flush (c ∷ current) rest = (c ∷ current) ∷ rest

split_words : Alphabet → Token → List ℕ → List Token
split_words alphabet current [] = flush current []
split_words alphabet current (r ∷ text) =
    if alphabet.is_word r
    then split_words alphabet (current ++ utf8 r) text
    else flush current (split_words alphabet [] text)

unfoldable pub tokenize : Alphabet → List ℕ → List Token
unfolding split_words
tokenize alphabet text = split_words alphabet [] (map alphabet.to_lower text)

unfoldable pub stop_words : List Token
stop_words = map codes (
    "the" ∷ "a" ∷ "an" ∷ "to" ∷ "for" ∷ "of" ∷ "in" ∷ "is" ∷ "it" ∷ "on" ∷ "and" ∷ "or" ∷ "with"
    ∷ "from" ∷ "by" ∷ "my" ∷ "me" ∷ "at" ∷ [])

abbrev or_all : List Token → List Token → List Token
or_all tokens [] = tokens
or_all tokens (t ∷ ts) = t ∷ ts

-- If all tokens are stop words, they are kept.
unfoldable pub remove_stop_words : List Token → List Token
unfolding stop_words
remove_stop_words tokens = or_all tokens (select (λ t. not (contains t stop_words)) tokens)

-- strings.HasSuffix and strings.HasPrefix
unfoldable pub has_suffix : Token → Token → Bool
has_suffix word suffix =
    leb (length suffix) (length word) && drop (length word - length suffix) word == suffix

unfoldable pub has_prefix : Token → Token → Bool
has_prefix word prefix = take (length prefix) word == prefix

-- strings.Contains
unfoldable pub contains_token : Token → Token → Bool
unfolding has_prefix
contains_token [] part = has_prefix [] part
contains_token (c ∷ word) part = has_prefix (c ∷ word) part || contains_token word part

abbrev drop_last : ℕ → Token → Token
drop_last n word = take (length word - n) word

-- Whether the last two bytes are equal.
abbrev doubled : Token → Bool
doubled stem =
    ltb 1 (length stem) && drop (length stem - 1) stem == take 1 (drop (length stem - 2) stem)

abbrev restored : Token → Token
restored stem =
    if has_suffix stem (codes "at") || has_suffix stem (codes "it") then stem ++ codes "e" else stem

-- The rules in their order.
unfoldable pub simple_stem : Token → Token
unfolding has_suffix
simple_stem word =
    if has_suffix word (codes "ing") && ltb 5 (length word)
    then (let stem = drop_last 3 word in restored (if doubled stem then drop_last 1 stem else stem))
    else if has_suffix word (codes "tion") || has_suffix word (codes "sion")
    then drop_last 4 word
    else if has_suffix word (codes "ness") && ltb 5 (length word)
    then drop_last 4 word
    else if has_suffix word (codes "ed") && ltb 4 (length word)
    then drop_last 2 word
    else if has_suffix word (codes "ly") && ltb 4 (length word)
    then drop_last 2 word
    else word

unfoldable pub stem_tokens : List Token → List Token
unfolding simple_stem
stem_tokens = map simple_stem

-- ===== src/Cli/Text.antt =====
-- examples/common/Ldc1614Cli.cpp: the helpers on texts, and the split of a line into its arguments.
-- A C string is the list of its bytes, without the one that ends it.
use Prim.Native.Char.{code}
use Prim.Native.String.{String}
use ldc.Base.{
  ℕ, ◌+◌, Bool, true, false, ◌&&◌, ◌||◌, not, ◌==◌, ltb, leb, if◌then◌else◌, List, [], ◌∷◌, ◌++◌,
  Option, none, some,
}

-- The bytes of an ASCII literal.
abbrev pub codes : String → List ℕ
codes String.[] = []
codes (String.◌∷◌ c s) = code c ∷ codes s

-- `strcmp(a, b) == 0`.
unfoldable pub same_text : List ℕ → List ℕ → Bool
same_text [] [] = true
same_text [] (b ∷ bs) = false
same_text (a ∷ as_) [] = false
same_text (a ∷ as_) (b ∷ bs) = let rest = same_text as_ bs in a == b && rest

abbrev pub length : List ℕ → ℕ
length [] = 0
length (b ∷ bs) = length bs + 1

abbrev pub count : List (List ℕ) → ℕ
count [] = 0
count (b ∷ bs) = count bs + 1

abbrev is_empty : List ℕ → Bool
is_empty [] = true
is_empty _ = false

-- The loop over the words of the aliases, with the part of a word that is behind the cursor.
unfoldable pub alias_scan : List ℕ → List ℕ → List ℕ → Bool
alias_scan token word [] = same_text word token
alias_scan token word (c ∷ cs) =
    let ends = c == 0x20 in
    let rest = alias_scan token (if ends then [] else word ++ (c ∷ [])) cs in
    if ends && not (is_empty word) then same_text word token || rest else rest

unfoldable pub alias_matches : List ℕ → List ℕ → Bool
alias_matches aliases token = not (is_empty aliases) && alias_scan token [] aliases

-- The value, or none where the text is neither.
unfoldable pub parse_on_off : List ℕ → Option Bool
parse_on_off text =
    if same_text text (codes "on")
    then some true
    else if same_text text (codes "off")
    then some false
    else none

unfoldable pub is_confirmed : List ℕ → Bool
is_confirmed text = same_text text (codes "confirm")

unfoldable pub reject_extra_arguments : ℕ → ℕ → Bool
reject_extra_arguments actual expected = not (actual == expected)

abbrev pub max_tokens : ℕ
max_tokens = 8

abbrev pub max_line_length : ℕ
max_line_length = 127

abbrev pub is_blank : ℕ → Bool
is_blank c = c == 0x20 || c == 0x09

abbrev pub is_printable : ℕ → Bool
is_printable c = not (ltb c 0x21) && not (ltb 0x7E c)

-- Where `parseLine` stands in the line: between two arguments, inside one, or at an error. The
-- arguments before it are those that are complete.
pub data Scan : Type 0 where
  between : List (List ℕ) → Scan
  inside : List (List ℕ) → List ℕ → Scan
  refused : Scan

-- One byte at the cursor.
unfoldable pub scan_byte : Scan → ℕ → Scan
scan_byte (Scan.between argv) c =
    if is_blank c
    then Scan.between argv
    else if leb max_tokens (count argv)
    then Scan.refused
    else if not (is_printable c)
    then Scan.refused
    else Scan.inside argv (c ∷ [])
scan_byte (Scan.inside argv word) c =
    if is_blank c
    then Scan.between (argv ++ (word ∷ []))
    else if not (is_printable c)
    then Scan.refused
    else Scan.inside argv (word ++ (c ∷ []))
scan_byte Scan.refused c = Scan.refused

unfoldable pub scan : Scan → List ℕ → Scan
scan s [] = s
scan s (c ∷ cs) = scan (scan_byte s c) cs

-- The arguments at the end of the line; none of them is an error too.
unfoldable pub parsed : Scan → Option (List (List ℕ))
parsed (Scan.between []) = none
parsed (Scan.between (a ∷ argv)) = some (a ∷ argv)
parsed (Scan.inside argv word) = some (argv ++ (word ∷ []))
parsed Scan.refused = none

unfoldable pub parse_line : List ℕ → Option (List (List ℕ))
parse_line input =
    if ltb max_line_length (length input) then none else parsed (scan (Scan.between []) input)

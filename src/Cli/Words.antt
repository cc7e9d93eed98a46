-- ===== src/Cli/Words.antt =====
-- `parseLine` of examples/common/Ldc1614Cli.cpp, against the lines that are made of words.
use ldc.Base.{
  ℕ, ◌+◌, ◌≤◌, ◌<◌, ◌≡◌, ◌∙◌, sym, ap, refl, Bool, true, false, ◌&&◌, List, [], ◌∷◌, ◌++◌, some,
  arith,
}
use mathlib.Core.List.{append_assoc, append-nil}
use ldc.Cli.Text.{
  length, count, is_printable, Scan, scan_byte, scan, parsed, parse_line, max_tokens,
  max_line_length,
}

abbrev pub all_printable : List ℕ → Bool
all_printable [] = true
all_printable (c ∷ cs) = is_printable c && all_printable cs

-- A word: printable bytes, at least one.
abbrev pub is_word : List ℕ → Bool
is_word [] = false
is_word (c ∷ cs) = all_printable (c ∷ cs)

abbrev pub all_words : List (List ℕ) → Bool
all_words [] = true
all_words (w ∷ ws) = is_word w && all_words ws

-- The words with one blank between two of them.
abbrev pub line_of : List ℕ → List (List ℕ) → List ℕ
line_of w [] = w
line_of w (v ∷ ws) = w ++ (0x20 ∷ line_of v ws)

scan-append : (s : Scan) (a b : List ℕ) → scan s (a ++ b) ≡ scan (scan s a) b
unfolding scan
scan-append s [] b = refl
scan-append s (c ∷ a) b = scan-append (scan_byte s c) a b

printable_step :
    (argv : List (List ℕ)) (word : List ℕ) (c : ℕ)
    → is_printable c ≡ true
    → scan_byte (Scan.inside argv word) c ≡ Scan.inside argv (word ++ (c ∷ []))
unfolding scan_byte
printable_step argv word c h = ground (arith, h)

scan-inside :
    (argv : List (List ℕ)) (word bytes : List ℕ)
    → all_printable bytes ≡ true
    → scan (Scan.inside argv word) bytes ≡ Scan.inside argv (word ++ bytes)
unfolding scan
scan-inside argv word [] h = ap (Scan.inside argv) (sym (append-nil word))
scan-inside argv word (c ∷ bytes) h =
    ap (λ (s : Scan). scan s bytes) (printable_step argv word c (ground (arith, h)))
    ∙ scan-inside argv (word ++ (c ∷ [])) bytes (ground (arith, h))
    ∙ ap (Scan.inside argv) (append_assoc word (c ∷ []) bytes)

first_step :
    (argv : List (List ℕ)) (c : ℕ)
    → is_printable c ≡ true
    → count argv < max_tokens
    → scan_byte (Scan.between argv) c ≡ Scan.inside argv (c ∷ [])
unfolding scan_byte
first_step argv c h b = ground (arith, h, b)

scan-word :
    (argv : List (List ℕ)) (word : List ℕ)
    → is_word word ≡ true
    → count argv < max_tokens
    → scan (Scan.between argv) word ≡ Scan.inside argv word
unfolding scan
scan-word argv [] h b = absurd (ground (arith, h))
scan-word argv (c ∷ word) h b =
    ap (λ (s : Scan). scan s word) (first_step argv c (ground (arith, h)) b)
    ∙ scan-inside argv (c ∷ []) word (ground (arith, h))

blank_step :
    (argv : List (List ℕ)) (word rest : List ℕ)
    → scan (Scan.inside argv word) (0x20 ∷ rest) ≡ scan (Scan.between (argv ++ (word ∷ []))) rest
unfolding scan scan_byte
blank_step argv word rest = refl

pub count-append : (a : List (List ℕ)) (w : List ℕ) → count (a ++ (w ∷ [])) ≡ count a + 1
count-append [] w = refl
count-append (v ∷ a) w = ap (λ (n : ℕ). n + 1) (count-append a w)

parsed-line :
    (argv : List (List ℕ)) (w : List ℕ) (ws : List (List ℕ))
    → all_words (w ∷ ws) ≡ true
    → count argv + count (w ∷ ws) ≤ max_tokens
    → parsed (scan (Scan.between argv) (line_of w ws)) ≡ some (argv ++ (w ∷ ws))
unfolding parsed
parsed-line argv w [] h b = ap parsed (scan-word argv w (ground (arith, h)) (omega (arith, b)))
parsed-line argv w (v ∷ ws) h b =
    ap parsed (
      scan-append (Scan.between argv) w (0x20 ∷ line_of v ws)
      ∙ ap (λ (s : Scan). scan s (0x20 ∷ line_of v ws))
          (scan-word argv w (ground (arith, h)) (omega (arith, b)))
      ∙ blank_step argv w (line_of v ws))
    ∙ parsed-line (argv ++ (w ∷ [])) v ws (ground (arith, h))
        (omega (arith, b, count-append argv w))
    ∙ ap (λ (l : List (List ℕ)). some l) (append_assoc argv (w ∷ []) (v ∷ ws))

-- A line of one to eight words, each of printable bytes and with one blank between two of them, that
-- has at most 127 bytes parses to its words.
pub parse_line-line_of :
    (w : List ℕ) (ws : List (List ℕ))
    → all_words (w ∷ ws) ≡ true
    → count (w ∷ ws) ≤ max_tokens
    → length (line_of w ws) ≤ max_line_length
    → parse_line (line_of w ws) ≡ some (w ∷ ws)
unfolding parse_line
parse_line-line_of w ws h b l = ground (arith, l, parsed-line [] w ws h (omega (arith, b)))

-- ===== src/Cli/Arguments.antt =====
-- `parseLine` of examples/common/Ldc1614Cli.cpp: what the arguments of any line are.
use ldc.Base.{
  ℕ, ◌≤◌, ◌<◌, ◌≡◌, ◌∙◌, sym, ap, refl, true, false, not, if◌then◌else◌, List, [], ◌∷◌, ◌++◌, some,
  arith, subst, if_cases, leb,
}
use mathlib.Core.List.{append_assoc, append-nil}
use ldc.Cli.Text.{
  count, is_printable, is_blank, Scan, scan_byte, scan, parsed, parse_line, max_tokens,
}
use ldc.Cli.Words.{all_printable, is_word, all_words, count-append}

-- The bytes of the arguments, in order.
abbrev pub flat : List (List ℕ) → List ℕ
flat [] = []
flat (w ∷ ws) = w ++ flat ws

-- The bytes of a line that are not blank.
abbrev pub unblanked : List ℕ → List ℕ
unblanked [] = []
unblanked (c ∷ cs) = if is_blank c then unblanked cs else c ∷ unblanked cs

-- The arguments found so far are words, and with the bytes ahead they are those of the line.
abbrev ScanInv : List ℕ → Scan → List ℕ → Type 0
ScanInv line (Scan.between argv) ahead =
    (all_words argv ≡ true)
    × (count argv ≤ max_tokens)
    × (flat argv ++ unblanked ahead ≡ unblanked line)
ScanInv line (Scan.inside argv word) ahead =
    (all_words argv ≡ true)
    × (count argv < max_tokens)
    × (is_word word ≡ true)
    × (flat argv ++ (word ++ unblanked ahead) ≡ unblanked line)
ScanInv line Scan.refused ahead = Unit {0}

flat-append : (a : List (List ℕ)) (w : List ℕ) → flat (a ++ (w ∷ [])) ≡ flat a ++ w
flat-append [] w = append-nil w
flat-append (v ∷ a) w =
    ap (λ (l : List ℕ). v ++ l) (flat-append a w) ∙ sym (append_assoc v (flat a) w)

all_words-append :
    (a : List (List ℕ)) (w : List ℕ)
    → all_words a ≡ true
    → is_word w ≡ true
    → all_words (a ++ (w ∷ [])) ≡ true
all_words-append [] w h k = ground (arith, k)
all_words-append (v ∷ a) w h k = ground (arith, h, all_words-append a w (ground (arith, h)) k)

all_printable-append :
    (a : List ℕ) (c : ℕ)
    → all_printable a ≡ true
    → is_printable c ≡ true
    → all_printable (a ++ (c ∷ [])) ≡ true
all_printable-append [] c h k = ground (arith, k)
all_printable-append (b ∷ a) c h k =
    ground (arith, h, all_printable-append a c (ground (arith, h)) k)

is_word-append :
    (a : List ℕ) (c : ℕ) → is_word a ≡ true → is_printable c ≡ true → is_word (a ++ (c ∷ [])) ≡ true
is_word-append [] c h k = absurd (ground (arith, h))
is_word-append (b ∷ a) c h k = all_printable-append (b ∷ a) c h k

unblanked-blank : (c : ℕ) (cs : List ℕ) → is_blank c ≡ true → unblanked (c ∷ cs) ≡ unblanked cs
unblanked-blank c cs h = ground (arith, h)

unblanked-other : (c : ℕ) (cs : List ℕ) → is_blank c ≡ false → unblanked (c ∷ cs) ≡ c ∷ unblanked cs
unblanked-other c cs h = ground (arith, h)

step-between :
    (line : List ℕ) (argv : List (List ℕ)) (c : ℕ) (cs : List ℕ)
    → ScanInv line (Scan.between argv) (c ∷ cs)
    → ScanInv line (scan_byte (Scan.between argv) c) cs
unfolding scan_byte
step-between line argv c cs i =
    let P = λ (s : Scan). ScanInv line s cs in
    if_cases P (is_blank c) _ _
      (λ e. (i.0, i.1, ap (λ (l : List ℕ). flat argv ++ l) (sym (unblanked-blank c cs e)) ∙ i.2))
      (λ e.
        if_cases P (leb max_tokens (count argv)) _ _ (λ g. tt)
          (λ g.
            if_cases P (not (is_printable c)) _ _ (λ k. tt)
              (λ k. (
                i.0,
                ground (arith, g),
                ground (arith, k),
                ap (λ (l : List ℕ). flat argv ++ l) (sym (unblanked-other c cs e)) ∙ i.2,
              ))))

step-inside :
    (line : List ℕ) (argv : List (List ℕ)) (word : List ℕ) (c : ℕ) (cs : List ℕ)
    → ScanInv line (Scan.inside argv word) (c ∷ cs)
    → ScanInv line (scan_byte (Scan.inside argv word) c) cs
unfolding scan_byte
step-inside line argv word c cs i =
    let P = λ (s : Scan). ScanInv line s cs in
    if_cases P (is_blank c) _ _
      (λ e. (
        all_words-append argv word i.0 i.2,
        ground (arith, i.1, count-append argv word),
        ap (λ (l : List ℕ). l ++ unblanked cs) (flat-append argv word)
            ∙ append_assoc (flat argv) word (unblanked cs)
            ∙ ap (λ (l : List ℕ). flat argv ++ (word ++ l)) (sym (unblanked-blank c cs e))
            ∙ i.3,
      ))
      (λ e.
        if_cases P (not (is_printable c)) _ _ (λ k. tt)
          (λ k. (
            i.0,
            i.1,
            is_word-append word c i.2 (ground (arith, k)),
            ap (λ (l : List ℕ). flat argv ++ l)
                  (append_assoc word (c ∷ []) (unblanked cs)
                    ∙ ap (λ (l : List ℕ). word ++ l) (sym (unblanked-other c cs e)))
                ∙ i.3,
          )))

step-ScanInv :
    (line : List ℕ) (s : Scan) (c : ℕ) (cs : List ℕ)
    → ScanInv line s (c ∷ cs)
    → ScanInv line (scan_byte s c) cs
unfolding scan_byte
step-ScanInv line (Scan.between argv) c cs i = step-between line argv c cs i
step-ScanInv line (Scan.inside argv word) c cs i = step-inside line argv word c cs i
step-ScanInv line Scan.refused c cs i = tt

scan-ScanInv :
    (line : List ℕ) (s : Scan) (cs : List ℕ) → ScanInv line s cs → ScanInv line (scan s cs) []
unfolding scan
scan-ScanInv line s [] i = i
scan-ScanInv line s (c ∷ cs) i = scan-ScanInv line (scan_byte s c) cs (step-ScanInv line s c cs i)

-- What the arguments of a line are.
abbrev pub AreArguments : List ℕ → List (List ℕ) → Type 0
AreArguments line argv =
    (all_words argv ≡ true)
    × (0 < count argv)
    × (count argv ≤ max_tokens)
    × (flat argv ≡ unblanked line)

parsed-AreArguments :
    (line : List ℕ) (s : Scan) (argv : List (List ℕ))
    → ScanInv line s []
    → parsed s ≡ some argv
    → AreArguments line argv
unfolding parsed
parsed-AreArguments line (Scan.between []) argv i e = absurd (ground (arith, e))
parsed-AreArguments line (Scan.between (a ∷ as_)) argv i e =
    let same : a ∷ as_ ≡ argv = ground (arith, e) in
    subst (AreArguments line) same (i.0, ground arith, i.1, sym (append-nil (flat (a ∷ as_))) ∙ i.2)
parsed-AreArguments line (Scan.inside before word) argv i e =
    let same : before ++ (word ∷ []) ≡ argv = ground (arith, e) in
    subst (AreArguments line) same (
      all_words-append before word i.0 i.2,
      ground (arith, count-append before word),
      ground (arith, i.1, count-append before word),
      flat-append before word ∙ ap (λ (l : List ℕ). flat before ++ l) (sym (append-nil word)) ∙ i.3,
    )
parsed-AreArguments line Scan.refused argv i e = absurd (ground (arith, e))

-- The arguments of a parsed line are one to eight words of printable bytes, and hold in their order
-- all the bytes of the line that are not blank.
pub parse_line-AreArguments :
    (line : List ℕ) (argv : List (List ℕ)) → parse_line line ≡ some argv → AreArguments line argv
unfolding parse_line
parse_line-AreArguments line argv e =
    parsed-AreArguments line (scan (Scan.between []) line) argv
      (scan-ScanInv line (Scan.between []) line (refl, ground arith, refl)) (ground (arith, e))

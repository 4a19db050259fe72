-- ===== src/Text/Space/Ascii.antt =====
-- strings.TrimSpace and strings.Fields on ASCII.
use vpub_exporter.Prelude.{
  ℕ, ◌<◌, Bool, true, false, Bool-cases, inl, inr, List, [], ◌∷◌, ◌++◌, ◌≡◌, refl, sym, ap, ◌∙◌,
  arith, reverse, map, if◌then◌else◌, All, append_assoc, append-nil,
}
use mathlib.Core.List.{reverse-cons, reverse-reverse, map-append}
use vpub_exporter.Text.Basic.{Bytes}
use vpub_exporter.Text.Space.{
  ascii_space, wide_space, space_width, mark, skip_spaces, trim_space, emit, words, fields,
}

abbrev pub Ascii : Bytes → Type 0
Ascii = All (λ c. c < 128)

abbrev tagged : Bytes → List (Bool × ℕ)
tagged = map (λ c. (ascii_space c, c))

space_width-ascii :
    (c : ℕ) (s : Bytes) → c < 128 → space_width c s ≡ (if ascii_space c then 1 else 0)
unfolding space_width wide_space
space_width-ascii c [] h = refl
space_width-ascii c (a ∷ []) h = ground arith
space_width-ascii c (a ∷ b ∷ s) h = ground arith

mark-tagged : (s : Bytes) → Ascii s → mark 0 s ≡ tagged s
unfolding mark
mark-tagged [] h = refl
mark-tagged (c ∷ s) h = elim (Bool-cases (ascii_space c)) [
  | inl e ↦ rw (space_width-ascii c s h.0, e, mark-tagged s h.1) refl
  | inr e ↦ rw (space_width-ascii c s h.0, e, mark-tagged s h.1) refl
]

skip : Bytes → Bytes
skip [] = []
skip (c ∷ s) = let rest = skip s in if ascii_space c then rest else c ∷ s

skip_spaces-tagged : (s : Bytes) → skip_spaces (tagged s) ≡ tagged (skip s)
unfolding skip_spaces skip
skip_spaces-tagged [] = refl
skip_spaces-tagged (c ∷ s) = elim (Bool-cases (ascii_space c)) [
  | inl e ↦ rw (e, skip_spaces) (skip_spaces-tagged s)
  | inr e ↦ rw (e, skip_spaces) (ap (λ b. (b, c) ∷ tagged s) (sym e))
]

tagged-reverse : (s : Bytes) → reverse (tagged s) ≡ tagged (reverse s)
tagged-reverse [] = refl
tagged-reverse (c ∷ s) =
    reverse-cons (ascii_space c, c) (tagged s)
    ∙ ap (λ l. l ++ (ascii_space c, c) ∷ []) (tagged-reverse s)
    ∙ sym (map-append (λ c'. (ascii_space c', c')) (reverse s) (c ∷ []))
    ∙ ap tagged (sym (reverse-cons c s))

bytes_of_tagged : (s : Bytes) → map (λ m. m.1) (tagged s) ≡ s
bytes_of_tagged [] = refl
bytes_of_tagged (c ∷ s) = ap (◌∷◌ c) (bytes_of_tagged s)

trimmed : Bytes → Bytes
trimmed s = reverse (skip (reverse (skip s)))

trim_space-trimmed : (s : Bytes) → Ascii s → trim_space s ≡ trimmed s
unfolding trim_space trimmed
trim_space-trimmed s h =
    rw
      (
        mark-tagged s h,
        skip_spaces-tagged s,
        tagged-reverse (skip s),
        skip_spaces-tagged (reverse (skip s)),
        tagged-reverse (skip (reverse (skip s))),
      )
      (bytes_of_tagged (reverse (skip (reverse (skip s)))))

Ascii-skip : (s : Bytes) → Ascii s → Ascii (skip s)
unfolding skip
Ascii-skip [] h = tt
Ascii-skip (c ∷ s) h = elim (Bool-cases (ascii_space c)) [
  | inl e ↦ rw e (Ascii-skip s h.1)
  | inr e ↦ rw e h
]

Ascii-append : (s t : Bytes) → Ascii s → Ascii t → Ascii (s ++ t)
Ascii-append [] t h k = k
Ascii-append (c ∷ s) t h k = (h.0, Ascii-append s t h.1 k)

Ascii-reverse : (s : Bytes) → Ascii s → Ascii (reverse s)
Ascii-reverse [] h = tt
Ascii-reverse (c ∷ s) h =
    rw (reverse-cons c s) (Ascii-append (reverse s) (c ∷ []) (Ascii-reverse s h.1) (h.0, tt))

-- The words of a text in ASCII, behind some bytes of a word.
words_of : Bytes → Bytes → List Bytes
words_of w s = words w (tagged s)

fields-words_of : (s : Bytes) → Ascii s → fields s ≡ words_of [] s
unfolding fields words_of
fields-words_of s h = ap (words []) (mark-tagged s h)

skip-false : (c : ℕ) (s : Bytes) → ascii_space c ≡ false → skip (c ∷ s) ≡ c ∷ s
unfolding skip
skip-false c s e = rw e refl

words_of-skip : (s : Bytes) → words_of [] (skip s) ≡ words_of [] s
unfolding words_of words emit skip
words_of-skip [] = refl
words_of-skip (c ∷ s) = elim (Bool-cases (ascii_space c)) [
  | inl e ↦ rw (e, words) (words_of-skip s)
  | inr e ↦ ap (words_of []) (skip-false c s e)
]

words_of-last :
    (w s : Bytes) (c : ℕ) → ascii_space c ≡ true → words_of w (s ++ c ∷ []) ≡ words_of w s
unfolding words_of words
words_of-last w [] c h = rw (h, words) (append-nil (emit w))
words_of-last w (a ∷ s) c h = elim (Bool-cases (ascii_space a)) [
  | inl e ↦ rw (e, words) (ap (λ l. emit w ++ l) (words_of-last [] s c h))
  | inr e ↦ rw (e, words) (words_of-last (w ++ a ∷ []) s c h)
]

words_of-skip_last : (w s : Bytes) → words_of w (reverse (skip s)) ≡ words_of w (reverse s)
unfolding skip
words_of-skip_last w [] = refl
words_of-skip_last w (c ∷ s) = elim (Bool-cases (ascii_space c)) [
  | inl e ↦ rw e (
      words_of-skip_last w s
      ∙ sym (words_of-last w (reverse s) c e)
      ∙ ap (words_of w) (sym (reverse-cons c s)))
  | inr e ↦ rw e refl
]

-- On ASCII, the spaces around a text do not change its fields.
fields-trim_space : (s : Bytes) → Ascii s → fields (trim_space s) ≡ words_of [] s
unfolding trimmed
fields-trim_space s h =
    let inner : Ascii (trimmed s) =
      Ascii-reverse (skip (reverse (skip s)))
        (Ascii-skip (reverse (skip s)) (Ascii-reverse (skip s) (Ascii-skip s h))) in
    rw (trim_space-trimmed s h, fields-words_of (trimmed s) inner)
      (words_of-skip_last [] (reverse (skip s))
        ∙ ap (words_of []) (reverse-reverse (skip s))
        ∙ words_of-skip s)

abbrev pub IsWord : Bytes → Type 0
IsWord = All (λ c. (32 < c) × (c < 127))

pub IsWord-append : (s t : Bytes) → IsWord s → IsWord t → IsWord (s ++ t)
IsWord-append [] t h k = k
IsWord-append (c ∷ s) t h k = (h.0, IsWord-append s t h.1 k)

word_byte : (c : ℕ) → 32 < c → ascii_space c ≡ false
unfolding ascii_space
word_byte c h = ground arith

words_of-word :
    (w s rest : Bytes) → IsWord s → words_of w (s ++ 32 ∷ rest) ≡ emit (w ++ s) ++ words_of [] rest
unfolding words_of words ascii_space
words_of-word w [] rest h = ap (λ v. emit v ++ words_of [] rest) (sym (append-nil w))
words_of-word w (c ∷ s) rest h =
    rw (word_byte c h.0.0, words)
      (words_of-word (w ++ c ∷ []) s rest h.1
        ∙ ap (λ v. emit v ++ words_of [] rest) (append_assoc w (c ∷ []) s))

IsWord-Ascii : (s rest : Bytes) → IsWord s → Ascii rest → Ascii (s ++ 32 ∷ rest)
IsWord-Ascii [] rest h r = (omega arith, r)
IsWord-Ascii (c ∷ s) rest h r = (omega (arith, h.0.1), IsWord-Ascii s rest h.1 r)

-- Two words with a space around each, and what comes behind them.
pub fields-two_words :
    (a b : ℕ) (s t rest : Bytes)
    → IsWord (a ∷ s)
    → IsWord (b ∷ t)
    → Ascii rest
    → (more : List Bytes) × (fields (trim_space (32 ∷ ((a ∷ s) ++ (32 ∷ ((b ∷ t) ++ (32 ∷ rest))))))
        ≡ (a ∷ s) ∷ (b ∷ t) ∷ more)
unfolding emit
fields-two_words a b s t rest h k r =
    let behind : Bytes = (b ∷ t) ++ 32 ∷ rest in
    let all : Bytes = (a ∷ s) ++ 32 ∷ behind in
    let ascii : Ascii (32 ∷ all) =
      (omega arith, IsWord-Ascii (a ∷ s) behind h (IsWord-Ascii (b ∷ t) rest k r)) in
    (
      words_of [] rest,
      fields-trim_space (32 ∷ all) ascii
          ∙ words_of-word [] [] all tt
          ∙ words_of-word [] (a ∷ s) behind h
          ∙ ap (λ l. (a ∷ s) ∷ l) (words_of-word [] (b ∷ t) rest k),
    )

-- ===== src/Serial/Scanned.antt =====
-- What is known of the noted index behind the lines that `_expect` has read so far.
use coppercomm.Prelude.{
  ℕ, suc, ◌≡◌, refl, sym, ap, ◌∙◌, subst, String, Bool, true, Option, none, some, List, [], ◌∷◌,
  ◌++◌, map, any, contains, str_eq, get_elem?, ◌⊎◌, inl, inr, Bool-cases, Option-cases, ℤ, pos,
  continue,
}
use coppercomm.Loops.Results.{After}
use coppercomm.Serial.{
  Port, Reading, ended, quiet, closed, Pattern, regex, on_timeout, Reader, get_line, without_cr,
  line_of,
}
use coppercomm.Serial.Expect.{
  Goal, answer, note_line, first_match, scan, judge, read_round, found_in,
}
use coppercomm.Serial.Indices.{
  From, contains-append, contains-last, From-next, From-here, From-start, some_inside,
}
use coppercomm.Serial.Reads.{ReadSince, read_ended, read_quiet, Holds, map-append}

module _ (P : Port) where
  -- The pattern of that index stands in one of the texts, and what it matched there is kept.
  abbrev pub MatchesIn : List Pattern → List String → ℕ → Reader P → Type 0
  MatchesIn expected texts i s =
      (p text : String) × (get_elem? expected i ≡ some (regex p))
      × (contains texts text ≡ true)
      × (P.search p text ≡ some s.matched)

  -- An index that is returned is that of a pattern that matches in one of the texts, or of
  -- `TIMEOUT`.
  abbrev pub Answers : List Pattern → List String → ℤ → Reader P → Type 0
  Answers expected texts r s =
      (i : ℕ) → r ≡ pos i → MatchesIn expected texts i s ⊎ (get_elem? expected i ≡ some on_timeout)

  -- What a call that began with the port in the state `start` returns, it has from the lines that
  -- it read since, and these are the ones in `output_lines`.
  abbrev pub FoundSince : P.State → List Pattern → ℤ → Reader P → Type 0
  FoundSince start expected r s =
      (texts : List String) × Holds P start texts s × Answers expected texts r s

  -- The index that was noted is that of a pattern that matches in one of the texts.
  abbrev pub Noted : List Pattern → List String → Option ℕ → Reader P → Type 0
  Noted expected texts found s = (i : ℕ) → found ≡ some i → MatchesIn expected texts i s

  -- What is known between two rounds of a call that began at `start`.
  abbrev pub Known : P.State → List Pattern → Option ℕ → Reader P → Type 0
  Known start expected found s =
      (texts : List String) × Holds P start texts s × Noted expected texts found s

  abbrev pub Scanned : P.State → List Pattern → List String → Option ℕ × Reader P → Type 0
  Scanned start all texts x = Holds P start texts x.1 × Noted all texts x.0 x.1

  first_match-Scanned :
      (start : P.State) (all : List Pattern) (texts : List String) (p text found_text : String)
      (k : ℕ) (found : Option ℕ) (s : Reader P)
      → get_elem? all k ≡ some (regex p)
      → P.search p text ≡ some found_text
      → contains texts text ≡ true
      → Scanned start all texts (found, s)
      → Scanned start all texts (first_match P k found_text found s)
  first_match-Scanned start all texts p text found_text k found s here seen read (holds, noted) =
      elim (Bool-cases (str_eq s.matched "")) [
        | inl first ↦ rw first (
          holds,
          λ i e. (
            p,
            text,
            subst (λ n. get_elem? all n ≡ some (regex p)) (some_inside k i e) here,
            read,
            seen,
          ),
        )
        | inr later ↦ rw later (holds, noted)
      ]

  scan-Scanned :
      (start : P.State) (all : List Pattern) (texts : List String) (patterns : List Pattern)
      (text : String) (k : ℕ) (found : Option ℕ) (s : Reader P)
      → From all k patterns
      → contains texts text ≡ true
      → Scanned start all texts (found, s)
      → Scanned start all texts (scan P text k patterns found s)
  unfolding scan
  scan-Scanned start all texts [] text k found s same read known = known
  scan-Scanned start all texts (on_timeout ∷ patterns) text k found s same read known =
      scan-Scanned start all texts patterns text (suc k) found s
        (From-next all patterns on_timeout k same) read known
  scan-Scanned start all texts (regex p ∷ patterns) text k found s same read known =
      elim (Option-cases (P.search p text)) [
        | inl nothing ↦
            rw (scan, nothing)
              (scan-Scanned start all texts patterns text (suc k) found s
                (From-next all patterns (regex p) k same) read known)
        | inr (m, seen) ↦
            rw (scan, seen)
              (scan-Scanned start all texts patterns text (suc k) (first_match P k m found s).0
                (first_match P k m found s).1 (From-next all patterns (regex p) k same) read
                (first_match-Scanned start all texts p text m k found s
                  (From-here all patterns (regex p) k k same refl) seen read known))
      ]

  -- One more line was read and noted.
  note_line-Scanned :
      (start : P.State) (all : List Pattern) (texts : List String) (text : String)
      (found : Option ℕ) (s : Reader P)
      → ReadSince P start (texts ++ (text ∷ [])) s.port
      → s.output_lines ≡ map without_cr texts
      → Noted all texts found s
      → Scanned start all
          (texts ++ (text ∷ []))
          (found, record s { output_lines = s.output_lines ++ (without_cr text ∷ []) })
  note_line-Scanned start all texts text found s since same noted = (
    (since, ap (λ l. l ++ (without_cr text ∷ [])) same ∙ sym (map-append texts text)),
    λ i e.
        let (p, line, here, read, seen) = noted i e in
        (p, line, here, contains-append texts line text read, seen),
  )

  judge-Known :
      (start : P.State) (g : Goal) (prompt_found : Bool) (found : Option ℕ) (texts : List String)
      (text : String) (s : Reader P)
      → ReadSince P start (texts ++ (text ∷ [])) s.port
      → s.output_lines ≡ map without_cr texts
      → Noted g.expected texts found s
      → After (λ marks. Known start g.expected marks.1) (judge P g prompt_found found text s)
  unfolding judge note_line
  judge-Known start g prompt_found found texts text s since same noted =
      elim (Bool-cases (any (found_in P text) g.not_expected)) [
        | inl forbidden ↦ rw (judge, forbidden) tt
        | inr fine ↦
            let (holds, noted') =
              scan-Scanned start g.expected (texts ++ (text ∷ [])) g.expected text 0 found _
                (From-start g.expected) (contains-last texts text)
                (note_line-Scanned start g.expected texts text found s since same noted) in
            rw (judge, fine) (texts ++ (text ∷ []), holds, noted')
      ]

  -- A round keeps what is known.
  pub read_round-Known :
      (start : P.State) (g : Goal) (prompt_found : Bool) (found : Option ℕ) (s : Reader P)
      → Known start g.expected found s
      → After (λ marks. Known start g.expected marks.1) (read_round P g prompt_found found s)
  unfolding read_round get_line
  read_round-Known start g prompt_found found s (texts, (since, same), noted) =
      heard (P.read s.port) refl
    where
      heard :
          (r : Reading × P.State)
          → P.read s.port ≡ r
          → After
              (λ marks. Known start g.expected marks.1)
              (continue (judge P g prompt_found found) (line_of P r s))
      heard (ended text, p) e =
          judge-Known start g prompt_found found texts text (record s { port = p })
            (read_ended text since e) same noted
      heard (quiet text, p) e =
          judge-Known start g prompt_found found texts text (record s { port = p })
            (read_quiet text since e) same noted
      heard (closed, p) e = tt

  pub answer-FoundSince :
      (start : P.State) (expected : List Pattern) (found : Option ℕ) (s : Reader P)
      → Known start expected found s
      → FoundSince start expected (answer found) s
  answer-FoundSince start expected none s (texts, holds, noted) = (texts, holds, λ i e. absurd (cc))
  answer-FoundSince start expected (some k) s (texts, holds, noted) =
      (texts, holds, λ i e. inl (noted i (cc)))

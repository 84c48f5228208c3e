-- ===== src/Serial/Reads.antt =====
-- The lines that a call reads from the port, and what their texts have to do with `output_lines`.
use coppercomm.Prelude.{
  ◌≡◌, refl, ap, String, true, List, [], ◌∷◌, ◌++◌, map, contains, eq_iff, arith,
}
use coppercomm.Serial.{Port, ended, quiet, Reader, without_cr}

module _ (P : Port) where
  -- `ReadSince start texts p`: from `start` on, `texts` are the lines that were read, and nothing
  -- else was done with the port but to look at the clock.
  pub data ReadSince (start : P.State) : List String → P.State → Type 0 where
    unread : ReadSince start [] start
    told_time :
        {texts : List String} {p : P.State}
        → ReadSince start texts p
        → ReadSince start texts (P.clock p).1
    read_ended :
        {texts : List String} {p p' : P.State} (text : String)
        → ReadSince start texts p
        → P.read p ≡ (ended text, p')
        → ReadSince start (texts ++ (text ∷ [])) p'
    read_quiet :
        {texts : List String} {p p' : P.State} (text : String)
        → ReadSince start texts p
        → P.read p ≡ (quiet text, p')
        → ReadSince start (texts ++ (text ∷ [])) p'

  -- `output_lines` holds the lines that were read from `start` on, without their carriage returns.
  abbrev pub Holds : P.State → List String → Reader P → Type 0
  Holds start texts s = ReadSince start texts s.port × (s.output_lines ≡ map without_cr texts)

pub map-append :
    (texts : List String) (text : String)
    → map without_cr (texts ++ (text ∷ [])) ≡ map without_cr texts ++ (without_cr text ∷ [])
map-append [] text = refl
map-append (x ∷ texts) text = ap (λ rest. without_cr x ∷ rest) (map-append texts text)

pub contains-map :
    (texts : List String) (text : String)
    → contains texts text ≡ true
    → contains (map without_cr texts) (without_cr text) ≡ true
contains-map [] text h = absurd (cc)
contains-map (x ∷ texts) text h =
    grind (arith, eq_iff text x, eq_iff (without_cr text) (without_cr x), contains-map texts text)

-- ===== src/Shlex/RoundTrip.antt =====
-- A quoted text is read back as one word.
use Prim.Native.Char.{Char, code}
use text.Mathlib.TextEquality.{Char-path}
use text.Mathlib.TextLemmas.{nil-append, cons-append, append-nil, append_assoc}
use coppercomm.Prelude.{
  String, ◌<>◌, Bool, true, false, ◌≡◌, refl, ◌∙◌, Option, none, some, List, [], ◌∷◌, arith, str_eq,
  ◌==◌, ==_iff, Bool-cases, inl, inr, eq_iff,
}
use coppercomm.Shlex.{bare, single, lex, add, emit, shlex_split, is_safe, all_safe, escape, quote}

t1 : shlex_split "a 'b c' \"d\\\"\" '' e\\ f" ≡ some ("a" ∷ "b c" ∷ "d\"" ∷ "" ∷ "e f" ∷ [])
unfolding shlex_split
t1 = refl

add_append : (word : String) (c : Char) (s : String) → add word c <> s ≡ word <> String.◌∷◌ c s
add_append word c s = append_assoc word (String.◌∷◌ c "") s ∙ rw (cons-append, nil-append)

lex-bare_safe :
    (c : Char) (s word : String) (quoted : Bool)
    → is_safe (code c) ≡ true
    → lex bare quoted word (String.◌∷◌ c s) ≡ lex bare quoted (add word c) s
unfolding lex
lex-bare_safe c s word quoted h = ground arith

lex-single_plain :
    (c : Char) (s word : String)
    → (code c == 39) ≡ false
    → lex single true word (String.◌∷◌ c s) ≡ lex single true (add word c) s
unfolding lex
lex-single_plain c s word h = rw h

lex-single_close :
    (s word : String) → lex single true word (String.◌∷◌ "'" s) ≡ lex bare true word s
unfolding lex
lex-single_close s word = refl

lex-safe :
    (s rest word : String) (quoted : Bool)
    → all_safe s ≡ true
    → lex bare quoted word (s <> rest) ≡ lex bare quoted (word <> s) rest
lex-safe String.[] rest word quoted h = simp (nil-append, append-nil)
lex-safe (String.◌∷◌ c s) rest word quoted h = rw cons-append (
    lex-bare_safe c (s <> rest) word quoted (ground arith)
    ∙ lex-safe s rest (add word c) quoted (ground arith)
    ∙ rw add_append)

-- The five characters that stand for a single quote leave the lexer where it was.
lex-single_escaped :
    (s word : String) → lex single true word ("'\"'\"'" <> s) ≡ lex single true (add word "'") s
unfolding lex
lex-single_escaped s word =
    rw (cons-append, cons-append, cons-append, cons-append, cons-append, nil-append)

lex-escape :
    (s rest word : String)
    → lex single true word (escape s <> ("'" <> rest)) ≡ lex bare true (word <> s) rest
unfolding escape
lex-escape String.[] rest word =
    rw (nil-append, append-nil, cons-append, nil-append) (lex-single_close rest word)
lex-escape (String.◌∷◌ c s) rest word = elim (Bool-cases (code c == 39)) [
  | inl same ↦
      rw (same, append_assoc, lex-single_escaped, lex-escape s rest (add word "'"), add_append)
        (rw (Char-path c "'" ((==_iff (code c) 39).0 same)))
  | inr differ ↦ rw (
    differ,
    append_assoc,
    cons-append,
    nil-append,
    lex-single_plain c _ word differ,
    lex-escape s rest (add word c),
    add_append,
  )
]

emit_of_text :
    (s : String) (words : Option (List String))
    → str_eq s "" ≡ false
    → emit false s words ≡ emit true s words
emit_of_text s none h = refl
emit_of_text s (some words) h = rw h

lex-blank :
    (word rest : String) (quoted : Bool)
    → lex bare quoted word (" " <> rest) ≡ emit quoted word (lex bare false "" rest)
unfolding lex
lex-blank word rest quoted = rw (cons-append, nil-append)

lex-open_quote : (s word : String) → lex bare false word ("'" <> s) ≡ lex single true word s
unfolding lex
lex-open_quote s word = rw (cons-append, nil-append)

lex-empty_quotes :
    (s : String) → lex bare false "" (String.◌∷◌ "'" (String.◌∷◌ "'" s)) ≡ lex bare true "" s
unfolding lex
lex-empty_quotes s = refl

-- Behind a quoted text the lexer holds that text as its word, and will not drop it.
Holds : String → String → Bool → Type 0
Holds s rest quoted =
    (lex bare false "" (quote s <> rest) ≡ lex bare quoted s rest)
    × ((words : Option (List String)) → emit quoted s words ≡ emit true s words)

quote-Holds : (s rest : String) → (quoted : Bool) × Holds s rest quoted
unfolding quote Holds
quote-Holds s rest = elim (Bool-cases (str_eq s "")) [
  | inl empty ↦
      let e = (eq_iff s "").0 empty in
      (true, (rw (e, cons-append, cons-append, nil-append) (lex-empty_quotes rest), λ words. refl))
  | inr text ↦ elim (Bool-cases (all_safe s)) [
    | inl safe ↦ (
      false,
      (
        rw (text, safe, lex-safe s rest "" false safe, nil-append),
        λ words. emit_of_text s words text,
      ),
    )
    | inr unsafe ↦ (
      true,
      (
        rw (
          text,
          unsafe,
          append_assoc,
          append_assoc,
          lex-open_quote,
          lex-escape s rest "",
          nil-append,
        ),
        λ words. refl,
      ),
    )
  ]
]

-- A quoted text, with a blank behind it, is lexed as that text and one word.
pub lex-quote :
    (s rest : String)
    → lex bare false "" (quote s <> (" " <> rest)) ≡ emit true s (lex bare false "" rest)
unfolding Holds
lex-quote s rest =
    let (quoted, (held, kept)) = quote-Holds s (" " <> rest) in
    held ∙ lex-blank s rest quoted ∙ kept _

-- A quoted text at the end of the input.
pub lex-quote_last : (s : String) → lex bare false "" (quote s) ≡ some (s ∷ [])
unfolding lex Holds
lex-quote_last s =
    let (quoted, (held, kept)) = quote-Holds s "" in rw append-nil at held ∙ kept (some [])

-- A bare word, with a blank behind it.
pub lex-word :
    (s rest : String)
    → all_safe s ≡ true
    → str_eq s "" ≡ false
    → lex bare false "" (s <> (" " <> rest)) ≡ emit true s (lex bare false "" rest)
lex-word s rest safe text =
    lex-safe s (" " <> rest) "" false safe
    ∙ rw nil-append (lex-blank s rest false ∙ emit_of_text s _ text)

-- ===== src/AdbLogger/Lines.antt =====
-- What becomes of the texts that a stamping file is given.
use Prim.Native.Char.{code}
use text.Mathlib.TextLemmas.{nil-append, cons-append, append-nil, append_assoc}
use coppercomm.Prelude.{
  ◌==◌, ◌≡◌, refl, sym, ap, ◌∙◌, inl, inr, Bool-cases, String, ◌<>◌, Bool, true, false, ◌||◌, List,
  [], ◌∷◌, ◌++◌, if◌then◌else◌, arith,
}
use coppercomm.AdbLogger.{
  newline, log_lines, incomplete_line, Stamped, TimestampedFile, write_logs, write,
}

-- The lines of the file, without their timestamps.
abbrev pub logged : List Stamped → String
logged [] = ""
logged (x ∷ xs) = x.log <> logged xs

abbrev pub joined : List String → String
joined [] = ""
joined (x ∷ xs) = x <> joined xs

unfoldable pub has_newline : String → Bool
has_newline String.[] = false
has_newline (String.◌∷◌ c s) = let rest = has_newline s in (code c == newline) || rest

snoc-append :
    (line : String) (c : _) (s : String) → (line <> String.◌∷◌ c "") <> s ≡ line <> String.◌∷◌ c s
snoc-append line c s = append_assoc line (String.◌∷◌ c "") s ∙ rw (cons-append, nil-append)

-- The lines of a text and its unfinished line make up the text.
log_lines-joined :
    (line text : String) → joined (log_lines line text) <> incomplete_line line text ≡ line <> text
unfolding log_lines incomplete_line
log_lines-joined line String.[] = nil-append line ∙ sym (append-nil line)
log_lines-joined line (String.◌∷◌ c s) = elim (Bool-cases (code c == newline)) [
  | inl ends ↦
      rw (log_lines, incomplete_line, ends)
        (append_assoc (line <> String.◌∷◌ c "") (joined (log_lines "" s)) (incomplete_line "" s)
          ∙ ap (λ rest. (line <> String.◌∷◌ c "") <> rest) (log_lines-joined "" s ∙ nil-append s)
          ∙ snoc-append line c s)
  | inr other ↦
      rw (log_lines, incomplete_line, other)
        (log_lines-joined (line <> String.◌∷◌ c "") s ∙ snoc-append line c s)
]

-- Behind a "\n" it does not matter how the line began.
incomplete_line-newline :
    (line text : String)
    → has_newline text ≡ true
    → incomplete_line line text ≡ incomplete_line "" text
unfolding incomplete_line has_newline
incomplete_line-newline line String.[] h = absurd (cc)
incomplete_line-newline line (String.◌∷◌ c s) h = elim (Bool-cases (code c == newline)) [
  | inl ends ↦ rw (incomplete_line, ends) refl
  | inr other ↦
      rw (incomplete_line, other)
        (incomplete_line-newline (line <> String.◌∷◌ c "") s (found other h)
          ∙ sym (incomplete_line-newline ("" <> String.◌∷◌ c "") s (found other h)))
]
  where
    found :
        (code c == newline) ≡ false
        → ((code c == newline) || has_newline s) ≡ true
        → has_newline s ≡ true
    found other h = ground arith

has_newline-append :
    (text more : String) → has_newline more ≡ true → has_newline (text <> more) ≡ true
unfolding has_newline
has_newline-append String.[] more h = rw (nil-append more) h
has_newline-append (String.◌∷◌ c s) more h =
    rw (cons-append c s more) (ground (arith, has_newline-append s more h))

neither : (a b : Bool) → (a || b) ≡ false → (a ≡ false) × (b ≡ false)
neither a b h = ground arith

incomplete_line-plain :
    (line text : String) → has_newline text ≡ false → incomplete_line line text ≡ line <> text
unfolding incomplete_line has_newline
incomplete_line-plain line String.[] h = sym (append-nil line)
incomplete_line-plain line (String.◌∷◌ c s) h =
    let (other, rest) = neither (code c == newline) (has_newline s) h in
    rw (incomplete_line, other)
      (incomplete_line-plain (line <> String.◌∷◌ c "") s rest ∙ snoc-append line c s)

incomplete_line-append_newline :
    (line text more : String)
    → has_newline more ≡ true
    → incomplete_line line (text <> more) ≡ incomplete_line "" more
unfolding incomplete_line
incomplete_line-append_newline line String.[] more h =
    ap (incomplete_line line) (nil-append more) ∙ incomplete_line-newline line more h
incomplete_line-append_newline line (String.◌∷◌ c s) more h =
    elim (Bool-cases (code c == newline)) [
      | inl ends ↦
          rw (cons-append c s more, incomplete_line, ends)
            (incomplete_line-append_newline "" s more h)
      | inr other ↦
          rw (cons-append c s more, incomplete_line, other)
            (incomplete_line-append_newline (line <> String.◌∷◌ c "") s more h)
    ]

incomplete_line-append_plain :
    (line text more : String)
    → has_newline more ≡ false
    → incomplete_line line (text <> more) ≡ incomplete_line line text <> more
unfolding incomplete_line
incomplete_line-append_plain line String.[] more h =
    ap (incomplete_line line) (nil-append more) ∙ incomplete_line-plain line more h
incomplete_line-append_plain line (String.◌∷◌ c s) more h = elim (Bool-cases (code c == newline)) [
  | inl ends ↦
      rw (cons-append c s more, incomplete_line, ends) (incomplete_line-append_plain "" s more h)
  | inr other ↦
      rw (cons-append c s more, incomplete_line, other)
        (incomplete_line-append_plain (line <> String.◌∷◌ c "") s more h)
]

logged-append : (xs ys : List Stamped) → logged (xs ++ ys) ≡ logged xs <> logged ys
logged-append [] ys = sym (nil-append (logged ys))
logged-append (x ∷ xs) ys =
    ap (λ rest. x.log <> rest) (logged-append xs ys)
    ∙ sym (append_assoc x.log (logged xs) (logged ys))

module _ {S : Type 0} (now : S → String × S) where
  write_logs-logged :
      (logs : List String) (f : TimestampedFile now)
      → (logged (write_logs now logs f).written ≡ logged f.written <> joined logs)
        × ((write_logs now logs f).tailing_log_entry ≡ f.tailing_log_entry)
  unfolding write_logs
  write_logs-logged [] f = (sym (append-nil (logged f.written)), refl)
  write_logs-logged (log ∷ logs) f =
      let (text, host) = now f.host in
      let line : Stamped = record { timestamp = "[" <> text <> "] "; log = log } in
      let (kept, tail) =
        write_logs-logged logs (record f { host = host; written = f.written ++ (line ∷ []) }) in
      (
        kept
            ∙ ap (λ t. t <> joined logs)
                (logged-append f.written (line ∷ [])
                  ∙ ap (λ t. logged f.written <> t) (append-nil log))
            ∙ append_assoc (logged f.written) log (joined logs),
        tail,
      )

  -- What a write of `entry` drops: the unfinished line before it, if `entry` does not finish it.
  abbrev pub dropped : String → TimestampedFile now → String
  dropped entry f = if has_newline entry then "" else incomplete_line "" f.tailing_log_entry

  dropped-incomplete :
      (entry : String) (f : TimestampedFile now)
      → dropped entry f <> incomplete_line "" entry
        ≡ incomplete_line "" (f.tailing_log_entry <> entry)
  dropped-incomplete entry f = elim (Bool-cases (has_newline entry)) [
    | inl ends ↦ rw ends (
        nil-append (incomplete_line "" entry)
        ∙ sym (incomplete_line-append_newline "" f.tailing_log_entry entry ends))
    | inr other ↦ rw other (
        ap (λ t. incomplete_line "" f.tailing_log_entry <> t)
          (incomplete_line-plain "" entry other ∙ nil-append entry)
        ∙ sym (incomplete_line-append_plain "" f.tailing_log_entry entry other))
  ]

  -- What a `TimestampedFile` has written without its timestamps, what the write drops, and the
  -- unfinished line that it keeps make up the text before, its unfinished line and the new text. A
  -- write drops nothing if the new text contains a line end, and else the unfinished line that was
  -- kept.
  pub write-logged :
      (entry : String) (f : TimestampedFile now)
      → logged (write now entry f).written
          <> (dropped entry f <> (write now entry f).tailing_log_entry)
        ≡ (logged f.written <> f.tailing_log_entry) <> entry
  unfolding write
  write-logged entry f =
      let text = f.tailing_log_entry <> entry in
      let logs = log_lines "" text in
      ap (λ t. t <> (dropped entry f <> incomplete_line "" entry))
        (write_logs-logged logs (record f { tailing_log_entry = "" })).0
      ∙ ap (λ t. (logged f.written <> joined logs) <> t) (dropped-incomplete entry f)
      ∙ append_assoc (logged f.written) (joined logs) (incomplete_line "" text)
      ∙ ap (λ t. logged f.written <> t) (log_lines-joined "" text ∙ nil-append text)
      ∙ sym (append_assoc (logged f.written) f.tailing_log_entry entry)

-- ===== src/Runtime/Tools/Quoting.antt =====
-- src/minion/runtime/tools.py: `shlex.quote`, of Python's library, which puts a text into a command
-- line, with a reader of one word of the shell's language.
use software_engineering_age.Prelude.{
  ℕ, String, Char, code, ◌<>◌, ◌≡◌, refl, sym, ap, ◌∙◌, inl, inr, Bool-cases, Bool, true, false,
  not, ◌&&◌, ◌||◌, Option, none, some, leb, eqb, arith, if◌then◌else◌,
}
use text.Mathlib.TextLemmas.{nil-append, cons-append, append_assoc}
use text.Mathlib.TextEquality.{Char-path}
use software_engineering_age.Prelude.Text.{nonempty}

-- `[\w@%+=:,./-]` in ASCII
abbrev pub is_safe : Char → Bool
is_safe c =
    let n = code c in
    (leb 43 n && leb n 58)
    || (leb 64 n && leb n 90)
    || (leb 97 n && leb n 122)
    || eqb n 95
    || eqb n 61
    || eqb n 37

abbrev pub all_safe : String → Bool
all_safe String.[] = true
all_safe (String.◌∷◌ c s) = is_safe c && all_safe s

-- `s.replace("'", "'\"'\"'")`
abbrev pub escape : String → String
escape String.[] = String.[]
escape (String.◌∷◌ c s) =
    let rest = escape s in if eqb (code c) 39 then "'\"'\"'" <> rest else String.◌∷◌ c rest

-- `shlex.quote`
abbrev pub quote : String → String
quote s = if not (nonempty s) then "''" else if all_safe s then s else "'" <> (escape s <> "'")

-- The shell's reading of a word: what it is in, and what the next character does.
pub data Quoted : Type 0 where
  plain single double : Quoted

pub data Move : Type 0 where
  to : Quoted → Move
  keep stop refuse : Move

-- a space, a tab or a newline
abbrev pub is_blank : ℕ → Bool
is_blank n = eqb n 32 || eqb n 9 || eqb n 10

-- a character with a meaning of its own outside of quotes
abbrev pub is_special : ℕ → Bool
is_special n =
    leb n 42 && not (eqb n 37)
    || eqb n 59
    || eqb n 60
    || eqb n 62
    || eqb n 63
    || eqb n 91
    || eqb n 92
    || eqb n 96
    || leb 123 n && leb n 126

abbrev pub move : Quoted → ℕ → Move
move plain n =
    if eqb n 39
    then to single
    else if eqb n 34
    then to double
    else if is_blank n
    then stop
    else if is_special n
    then refuse
    else keep
move single n = if eqb n 39 then to plain else keep
move double n =
    if eqb n 34
    then to plain
    else if eqb n 33 || eqb n 36 || eqb n 92 || eqb n 96
    then refuse
    else keep

abbrev pub after : Move → Quoted → Quoted
after (to q) p = q
after m p = p

abbrev pub apply : Move → String → Char → Option (String × String) → Option (String × String)
apply (to q) s c rest = rest
apply keep s c rest = elim rest [ none ↦ none | some (w, r) ↦ some (String.◌∷◌ c w, r) ]
apply stop s c rest = some (String.[], s)
apply refuse s c rest = none

-- The first word of a command line and what is left of the line, none where the line is no plain
-- word: a quote that is left open, or a character with a meaning of its own.
abbrev pub shell_word : Quoted → String → Option (String × String)
shell_word plain String.[] = some (String.[], String.[])
shell_word single String.[] = none
shell_word double String.[] = none
shell_word q (String.◌∷◌ c s) =
    let m = move q (code c) in
    let rest = shell_word (after m q) s in apply m (String.◌∷◌ c s) c rest

-- the line is at its end, or a blank comes next
abbrev pub ends_word : String → Bool
ends_word String.[] = true
ends_word (String.◌∷◌ c s) = is_blank (code c)

stops : (r : String) → ends_word r ≡ true → shell_word plain r ≡ some (String.[], r)
stops String.[] h = refl
stops (String.◌∷◌ c s) h = ground arith

safe_keeps : (c : Char) → is_safe c ≡ true → move plain (code c) ≡ keep
safe_keeps c h = ground arith

pub plain_word :
    (s r : String)
    → all_safe s ≡ true
    → ends_word r ≡ true
    → shell_word plain (s <> r) ≡ some (s, r)
plain_word String.[] r h e = rw nil-append (stops r e)
plain_word (String.◌∷◌ c s) r h e = rw cons-append (ground (arith, safe_keeps c, plain_word s r))

-- a closing quote, at the end of the word
closes : (r : String) → ends_word r ≡ true → shell_word single ("'" <> r) ≡ some (String.[], r)
closes r e = rw (cons-append, nil-append) (stops r e)

-- a quote that is written between two others
reopens :
    (c : Char) (t s r : String)
    → c ≡ "'"
    → shell_word single t ≡ some (s, r)
    → shell_word single ("'\"'\"'" <> t) ≡ some (String.◌∷◌ c s, r)
reopens c t s r q h =
    rw (cons-append, cons-append, cons-append, cons-append, cons-append, nil-append)
      (rw h (ap (λ d. some (String.◌∷◌ d s, r)) (sym q)))

escaped_word :
    (s r : String) → ends_word r ≡ true → shell_word single (escape s <> ("'" <> r)) ≡ some (s, r)
escaped_word String.[] r e = rw nil-append (closes r e)
escaped_word (String.◌∷◌ c s) r e = elim (Bool-cases (eqb (code c) 39)) [
  | inl q ↦ rw q (
      rw append_assoc (
        reopens c (escape s <> ("'" <> r)) s r (Char-path c "'" (ground (arith, q)))
          (escaped_word s r e)))
  | inr q ↦ rw q (rw cons-append (ground (arith, escaped_word s r e)))
]

opens :
    (t r : String)
    → shell_word plain (("'" <> (t <> "'")) <> r) ≡ shell_word single (t <> ("'" <> r))
opens t r = rw (append_assoc "'" (t <> "'") r, append_assoc t "'" r, cons-append, nil-append) refl

-- What `shlex.quote` makes of a text is one word of a command line, and the shell reads that word as
-- the text itself, whatever the text is and whatever comes after it behind a blank.
pub quote-shell_word :
    (s r : String) → ends_word r ≡ true → shell_word plain (quote s <> r) ≡ some (s, r)
quote-shell_word s r e = by_case s (all_safe s) refl
  where
    by_case :
        (s : String) (b : Bool) → all_safe s ≡ b → shell_word plain (quote s <> r) ≡ some (s, r)
    by_case String.[] b h = rw (cons-append, cons-append, nil-append) (stops r e)
    by_case (String.◌∷◌ c s) true h = rw h (plain_word (String.◌∷◌ c s) r h e)
    by_case (String.◌∷◌ c s) false h =
        rw h (opens (escape (String.◌∷◌ c s)) r ∙ escaped_word (String.◌∷◌ c s) r e)

-- ===== src/Runtime/Policy.antt =====
-- src/minion/runtime/policy.py: `CommandPolicy`, the deny rules for shell commands. The matching of
-- a regular expression, `re.search`, is a parameter.
use software_engineering_age.Prelude.{
  String, Char, code, ◌<>◌, ◌≡◌, ◌↔◌, refl, Bool, true, false, not, ◌&&◌, ◌||◌, Option, none, some,
  List, [], ◌∷◌, leb, eqb, ◌==◌, if◌then◌else◌, All, arith,
}
use software_engineering_age.Prelude.Text.{nonempty}
use software_engineering_age.Effects.{Result, ok, err, value_error}

-- `str.isspace` of one character
abbrev pub is_space : Char → Bool
is_space c =
    let n = code c in
    (leb 9 n && leb n 13)
    || (leb 28 n && leb n 32)
    || eqb n 133
    || eqb n 160
    || eqb n 5760
    || (leb 8192 n && leb n 8202)
    || eqb n 8232
    || eqb n 8233
    || eqb n 8239
    || eqb n 8287
    || eqb n 12288

abbrev lstrip : String → String
lstrip String.[] = String.[]
lstrip (String.◌∷◌ c s) = if is_space c then lstrip s else String.◌∷◌ c s

abbrev rstrip : String → String
rstrip String.[] = String.[]
rstrip (String.◌∷◌ c s) =
    let rest = rstrip s in
    if is_space c && not (nonempty rest) then String.[] else String.◌∷◌ c rest

-- `s.strip()`
abbrev pub strip : String → String
strip s = rstrip (lstrip s)

pub record PolicyDecision : Type 0 where
  pub allowed : Bool
  pub reason : String

-- `_DENY_PATTERNS`: each pattern's text and reason
abbrev pub deny_patterns : List (String × String)
deny_patterns =
    ("(^|[;&|]\\s*)sudo(?:\\s|$)", "privilege escalation is blocked")
    ∷ ("(^|[;&|]\\s*)su(?:\\s|$)", "privilege escalation is blocked")
    ∷ (
      "\\brm\\s+-[^\\n]*r[^\\n]*f[^\\n]*\\s+/(?:\\s|$|\\*)",
      "recursive deletion of filesystem root is blocked",
    )
    ∷ ("\\b(?:mkfs|fdisk|parted)\\b", "disk/filesystem mutation is blocked")
    ∷ ("\\bdd\\s+[^;\\n]*(?:of=/dev/|if=/dev/)", "raw block-device access is blocked")
    ∷ ("\\b(?:shutdown|reboot|poweroff|halt)\\b", "host lifecycle commands are blocked")
    ∷ ("\\bmount\\b|\\bumount\\b", "mount namespace mutation is blocked")
    ∷ ("\\bgit\\s+push\\b[^\\n]*(?:--force|-f)(?:\\s|$)", "force-pushing is blocked")
    ∷ ("\\bgit\\s+reset\\s+--hard\\b", "destructive git reset is blocked")
    ∷ ("(?:>|>>)\\s*/(?:etc|proc|sys|boot|dev)/", "writes to system paths are blocked")
    ∷ ("\\bchmod\\s+(?:-R\\s+)?777\\s+/", "global permission changes are blocked")
    ∷ []

pub data Mode : Type 0 where
  enforce audit : Mode

-- `CommandPolicy(mode)`
abbrev pub mode_of : String → Result Mode
mode_of mode =
    if mode == "enforce"
    then ok enforce
    else if mode == "audit"
    then ok audit
    else err (value_error "command policy mode must be 'enforce' or 'audit'")

module _ (finds : String → String → Bool) where
  -- the reason of the first pattern that is found in the text
  abbrev pub first_denial : List (String × String) → String → Option String
  first_denial [] command = none
  first_denial ((pattern, reason) ∷ rest) command =
      if finds pattern command then some reason else first_denial rest command

  abbrev pub decide : Mode → Option String → PolicyDecision
  decide mode none = record { allowed = true; reason = "" }
  decide audit (some reason) = record { allowed = true; reason = "audit-only warning: " <> reason }
  decide enforce (some reason) = record { allowed = false; reason = reason }

  unfoldable pub evaluate : Mode → String → PolicyDecision
  evaluate mode command =
      let normalized = strip command in
      if not (nonempty normalized)
      then record { allowed = false; reason = "empty command" }
      else decide mode (first_denial deny_patterns normalized)

  none_found :
      (patterns : List (String × String)) (command : String)
      → (first_denial patterns command ≡ none) ↔ All (λ p. finds p.0 command ≡ false) patterns
  none_found [] command = (λ h. tt, λ h. refl)
  none_found ((pattern, reason) ∷ rest) command =
      let ih = none_found rest command in
      (λ h. (ground arith, ih.0 (ground arith)), λ h. ground (arith, h.0, ih.1 h.1))

  allowed_iff :
      (normalized : String)
      → ((decide enforce (first_denial deny_patterns normalized)).allowed ≡ true)
        ↔ (first_denial deny_patterns normalized ≡ none)
  allowed_iff normalized = by_denial (first_denial deny_patterns normalized)
    where
      by_denial : (o : Option String) → ((decide enforce o).allowed ≡ true) ↔ (o ≡ none)
      by_denial none = (λ h. refl, λ h. refl)
      by_denial (some r) = (λ h. cc, λ h. cc)

  -- An enforcing policy lets a command through exactly when something is left of it without its
  -- outer blanks and none of the deny patterns is found in that.
  pub evaluate_iff :
      (command : String)
      → ((evaluate enforce command).allowed ≡ true) ↔ (
          (nonempty (strip command) ≡ true)
          × All (λ p. finds p.0 (strip command) ≡ false) deny_patterns)
  unfolding evaluate
  evaluate_iff command = by_text (nonempty (strip command)) refl
    where
      by_text :
          (b : Bool)
          → nonempty (strip command) ≡ b
          → ((if not b
                then record { allowed = false; reason = "empty command" }
                else decide enforce (first_denial deny_patterns (strip command))).allowed
              ≡ true)
            ↔ ((nonempty (strip command) ≡ true)
                × All (λ p. finds p.0 (strip command) ≡ false) deny_patterns)
      by_text true e = (
        λ h. (e, (none_found deny_patterns (strip command)).0 ((allowed_iff (strip command)).0 h)),
        λ h. (allowed_iff (strip command)).1 ((none_found deny_patterns (strip command)).1 h.1),
      )
      by_text false e = (λ h. cc, λ h. cc)

-- ===== src/Runtime/Tools/Files/Confinement.antt =====
-- src/minion/runtime/tools.py: where `write_file` writes, and that `read_file` reads it again.
use software_engineering_age.Prelude.{
  ℤ, pos, String, ◌≡◌, ◌⊎◌, refl, sym, ap, ◌∙◌, subst, Bool, true, false, Bool-cases, inl, inr,
  Option, none, some, arith, ltb, ◌==◌, eq_iff, if◌then◌else◌,
}
use Prim.Native.String.{len}
use software_engineering_age.Prelude.Text
use software_engineering_age.Prelude.Dict
use software_engineering_age.Prelude.Dict.{get-put}
use software_engineering_age.Domain.{Payload, Value, payload_get, str}
use software_engineering_age.Effects.{
  external, tool_execution_error, Result, ok, err, pure, lift, ◌>>=◌,
}
use software_engineering_age.Effects.Rules.{
  IsPreorder, Respects, respects_rules, Respects-lift-bind,
}
use software_engineering_age.Effects.Ensures.{
  chain_ok, returned_first, lift_returned, pure_returned,
}
use software_engineering_age.Runtime.Values.{argument, str_of}
use software_engineering_age.Runtime.Workspace.{relative_to}
use software_engineering_age.Runtime.Tools.{
  Toolbox, ToolResult, Disk, int_at, safe_path, repo_of, is_within, success, failure,
}
use software_engineering_age.Runtime.Tools.Files.{
  file_of, write_file, write_at, write_text, read_file, read_text, window,
}

module _ (tools : Toolbox) where
  module _ (p : String) where
    -- The file is as it was.
    pub record SameFile (d d' : Disk) : Type 0 where
      pub file : Dict.get p d'.files ≡ Dict.get p d.files

    SameFile-IsPreorder : IsPreorder SameFile
    SameFile-IsPreorder = record {
      reflexive = λ d. record { file = refl };
      transitive = λ s t u h k. record { file = k.file ∙ h.file };
    }

    write_text-SameFile :
        (path text : String) → path == p ≡ false → Respects SameFile (write_text tools path text)
    unfolding write_text
    write_text-SameFile path text other = record {
      at = λ d. record { file = by_refusal d (tools.refuses path text d) };
    }
      where
        by_refusal :
            (d : Disk) (o : Option (String × Option String))
            → Dict.get p
                (elim o as (λ o'. Result (Unit {0}) × Disk) [
                  | some (e, none) ↦ (err (external e), d)
                  | some (e, some part) ↦
                      (err (external e), record d { files = Dict.put path part d.files })
                  | none ↦ (ok tt, record d { files = Dict.put path text d.files })
                ]).1.files
              ≡ Dict.get p d.files
        by_refusal d none = ground (arith, get-put p path text d.files)
        by_refusal d (some (e, none)) = refl
        by_refusal d (some (e, some part)) = ground (arith, get-put p path part d.files)

    write_at-SameFile :
        (repo path text : String)
        → path == p ≡ false
        → Respects SameFile (write_at tools repo path text)
    unfolding write_at
    write_at-SameFile repo path text other =
        search (respects_rules, SameFile-IsPreorder, write_text-SameFile) depth 8

  safe_path-is_within :
      (repo : String) (v : Value) (path : String)
      → safe_path tools repo v ≡ ok path
      → is_within (tools.resolve repo) path ≡ true
  safe_path-is_within repo (str relative) path h =
      by_test (is_within (tools.resolve repo) (tools.resolve (tools.joined repo relative))) refl h
    where
      by_test :
          (b : Bool)
          → is_within (tools.resolve repo) (tools.resolve (tools.joined repo relative)) ≡ b
          → (if b
              then ok (tools.resolve (tools.joined repo relative))
              else err (tool_execution_error "path escapes repository"))
            ≡ ok path
          → is_within (tools.resolve repo) path ≡ true
      by_test true e h = subst (λ q. is_within (tools.resolve repo) q ≡ true) (ok_injective h) e
        where
          ok_injective :
              ok (tools.resolve (tools.joined repo relative)) ≡ ok path
              → tools.resolve (tools.joined repo relative) ≡ path
          ok_injective h = cc
      by_test false e h = cc
  safe_path-is_within repo _ path h = cc

  -- A path of the arguments is in the repository of the arguments.
  pub file_of-is_within :
      (args : Payload) (repo path : String)
      → file_of tools args ≡ ok (repo, path)
      → (repo_of tools args ≡ ok repo) × (is_within (tools.resolve repo) path ≡ true)
  file_of-is_within args repo path h =
      let (r, e, h₁) = chain_ok (repo_of tools args) _ (repo, path) h in
      let (name, e₁, h₂) = chain_ok (argument "path" args) _ (repo, path) h₁ in
      let (p, e₂, h₃) = chain_ok (safe_path tools r name) _ (repo, path) h₂ in
      let same = same_pair (r, p) h₃ in
      (
        e ∙ ap (λ x. ok (x.0)) same,
        subst (λ x. is_within (tools.resolve x.0) x.1 ≡ true) same
            (safe_path-is_within r name p e₂),
      )
    where
      same_pair : (x : String × String) → ok x ≡ ok (repo, path) → x ≡ (repo, path)
      same_pair x h = cc

  -- Whatever its arguments are and however it ends, write_file leaves every file as it was but those
  -- in the repository that the arguments name.
  pub write_file-SameFile :
      (args : Payload) (p : String) (d : Disk)
      → ((repo : String) → repo_of tools args ≡ ok repo → is_within (tools.resolve repo) p ≡ false)
      → Dict.get p (write_file tools args d).1.files ≡ Dict.get p d.files
  unfolding write_file
  write_file-SameFile args p d outside =
      ((Respects-lift-bind (SameFile-IsPreorder p) (file_of tools args) _ λ (repo, path) h.
          let (e, inside) = file_of-is_within args repo path h in
          let other : path == p ≡ false = ground (arith, eq_iff path p, inside, outside repo e) in
          search (respects_rules, SameFile-IsPreorder, write_at-SameFile, other) depth 10).at
        d).file

  written :
      (path content : String) (d t : Disk) (u : Unit {0})
      → write_text tools path content d ≡ (ok u, t)
      → Dict.get path t.files ≡ some content
  unfolding write_text
  written path content d t u e = by_refusal (tools.refuses path content d) e
    where
      by_refusal :
          (o : Option (String × Option String))
          → elim o as (λ _. Result (Unit {0}) × Disk) [
            | some (x, none) ↦ (err (external x), d)
            | some (x, some part) ↦
                (err (external x), record d { files = Dict.put path part d.files })
            | none ↦ (ok tt, record d { files = Dict.put path content d.files })
          ]
            ≡ (ok u, t)
          → Dict.get path t.files ≡ some content
      by_refusal none e = ground (
        arith,
        ap (λ (x : Result (Unit {0}) × Disk). x.1) e,
        get-put path path content d.files,
        eq_iff path path,
      )
      by_refusal (some (x, none)) e = cc
      by_refusal (some (x, some part)) e = cc

  -- what a text that was written leaves on the disk
  stored :
      (repo path content : String) (d d' : Disk) (r : ToolResult)
      → write_at tools repo path content d ≡ (ok r, d')
      → Dict.get path d'.files ≡ some content
  unfolding write_at
  stored repo path content d d' r h =
      let (u, d₁, e, h₁) = returned_first (write_text tools path content) _ d d' r h in
      let (relative, d₂, e₂, h₂) = returned_first (lift (relative_to repo path)) _ d₁ d' r h₁ in
      let (_, same₁) = lift_returned d₁ d₂ _ relative e₂ in
      let (_, same₂) = pure_returned d₂ d' _ r h₂ in
      subst (λ t. Dict.get path t.files ≡ some content) (same₁ ∙ same₂)
        (written path content d d₁ u e)

  int_default :
      (args : Payload) (key : String) (default : ℤ)
      → payload_get key args ≡ none
      → int_at tools key default args ≡ ok default
  int_default args key default h = rw (h, int_at) refl

  read_stored :
      (args : Payload) (repo path content : String) (d : Disk)
      → file_of tools args ≡ ok (repo, path)
      → Dict.get path d.files ≡ some content
      → payload_get "start_line" args ≡ none
      → payload_get "end_line" args ≡ none
      → read_file tools args d
        ≡ (ok (success (Text.join "\n" (window (tools.splitlines content) 1 (pos 301)))), d)
  unfolding read_file read_text lift pure ◌>>=◌
  read_stored args repo path content d e here no_start no_end =
      rw
        (
          e,
          here,
          int_default args "start_line" (pos 1) no_start,
          int_default args "end_line" (pos 301) no_end,
        )
        refl

  -- A text that write_file has stored is read back: where it answered that it wrote the file,
  -- read_file of the same path shows the first lines of what was written, up to line 301.
  pub read_file-write_file :
      (args : Payload) (v : Value) (r : ToolResult) (d d' : Disk)
      → write_file tools args d ≡ (ok r, d')
      → r.ok? ≡ true
      → argument "content" args ≡ ok v
      → payload_get "start_line" args ≡ none
      → payload_get "end_line" args ≡ none
      → read_file tools args d' ≡ (
        ok (
            success (
              Text.join "\n"
                (window (tools.splitlines (str_of tools.python.shown v)) 1 (pos 301)))),
        d',
      )
  unfolding write_file
  read_file-write_file args v r d d' h good value no_start no_end =
      let ((repo, path), d₁, e₁, h₁) = returned_first (lift (file_of tools args)) _ d d' r h in
      let (found, same₁) = lift_returned d d₁ (file_of tools args) (repo, path) e₁ in
      let (w, d₂, e₂, h₂) = returned_first (lift (argument "content" args)) _ d₁ d' r h₁ in
      let (found₂, same₂) = lift_returned d₁ d₂ (argument "content" args) w e₂ in
      let same_value : w ≡ v = same_ok w v (sym found₂ ∙ value) in
      read_stored args repo path (str_of tools.python.shown v) d' found
        (subst (λ x. Dict.get path d'.files ≡ some (str_of tools.python.shown x)) same_value
          (accepted repo path (str_of tools.python.shown w) d₂
            (Bool-cases (ltb 2000000 (len (str_of tools.python.shown w)))) h₂))
        no_start no_end
    where
      same_ok : (x y : Value) → ok x ≡ ok y → x ≡ y
      same_ok x y h = cc

      accepted :
          (repo path content : String) (t : Disk)
          → (ltb 2000000 (len content) ≡ true) ⊎ (ltb 2000000 (len content) ≡ false)
          → (if ltb 2000000 (len content)
                then pure (failure "write rejected: file content exceeds 2 MB")
                else write_at tools repo path content)
              t
            ≡ (ok r, d')
          → Dict.get path d'.files ≡ some content
      accepted repo path content t (inl big) h =
          let refused : (pure (failure "write rejected: file content exceeds 2 MB") t)
              ≡ (ok r, d') =
            subst
              (λ b.
                (if b
                    then pure (failure "write rejected: file content exceeds 2 MB")
                    else write_at tools repo path content)
                  t
                ≡ (ok r, d'))
              big h in
          let (same, _) =
            pure_returned t d' (failure "write rejected: file content exceeds 2 MB") r refused in
          let no : false ≡ true = ap (λ (x : ToolResult). x.ok?) same ∙ good in cc
      accepted repo path content t (inr small) h = stored repo path content t d' r (
          subst
            (λ b.
              (if b
                  then pure (failure "write rejected: file content exceeds 2 MB")
                  else write_at tools repo path content)
                t
              ≡ (ok r, d'))
            small h)

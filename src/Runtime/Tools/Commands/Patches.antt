-- ===== src/Runtime/Tools/Commands/Patches.antt =====
-- src/minion/runtime/tools.py: what `apply_patch` leaves behind.
use software_engineering_age.Prelude.{
  String, ◌≡◌, subst, ◌⊎◌, inl, inr, refl, sym, ◌∙◌, Bool, true, false, none, eq_iff, if◌then◌else◌,
  arith, not, ltb,
}
use Prim.Native.String.{len}
use software_engineering_age.Prelude.Text
use software_engineering_age.Prelude.Dict
use software_engineering_age.Prelude.Dict.{get-remove}
use software_engineering_age.Domain.{Payload, Value, str}
use software_engineering_age.Effects.{Action, Result, ok, err, pure, lift, finally, ◌>>=◌}
use software_engineering_age.Runtime.Values.{argument, str_of}
use software_engineering_age.Runtime.Policy.{strip}
use software_engineering_age.Runtime.Tools.{Toolbox, ToolResult, Disk, repo_of, command, failure}
use software_engineering_age.Runtime.Tools.Files.{write_text}
use software_engineering_age.Runtime.Tools.Commands.{
  apply_patch, apply_at, apply_command, unlink, patch_file, patch_target,
}

-- The disk is as it was, or there is no file of that path.
abbrev pub IsClean : String → Disk → Disk → Type 0
IsClean path d d' = (d' ≡ d) ⊎ (Dict.get path d'.files ≡ none)

module _ (tools : Toolbox) where
  unlink-gone :
      (path : String) (d : Disk)
      → tools.keeps path d ≡ none
      → Dict.get path (unlink tools path d).1.files ≡ none
  unfolding unlink
  unlink-gone path d gone = ground (arith, gone, get-remove path path d.files, eq_iff path path)

  apply_at-IsClean :
      (name : Value) (repo patch : String) (d : Disk)
      → tools.refuses (patch_target tools repo) patch d ≡ none
      → ((d' : Disk) → tools.keeps (patch_file tools repo) d' ≡ none)
      → Dict.get (patch_file tools repo) (apply_at tools name repo patch d).1.files ≡ none
  unfolding apply_at write_text finally ◌>>=◌
  apply_at-IsClean name repo patch d written gone =
      rw (accepted, apply_at) (unlink-gone (patch_file tools repo) d' (gone d'))
    where
      stored : Disk
      stored = record d { files = Dict.put (patch_target tools repo) patch d.files }

      d' : Disk
      d' = (command tools name (str apply_command) stored).1

      accepted : write_text tools (patch_target tools repo) patch d ≡ (ok tt, stored)
      accepted = ground (arith, written)

  module _ (path : String) (d : Disk) where
    lift-IsClean :
        {A : Type 0} (r : Result A) (f : A → Action Disk ToolResult)
        → ((a : A) → r ≡ ok a → IsClean path d (f a d).1)
        → IsClean path d ((lift r >>= f) d).1
    unfolding lift ◌>>=◌
    lift-IsClean (ok a) f h = h a refl
    lift-IsClean (err e) f h = inl refl

    if-IsClean :
        (b : Bool) (r : ToolResult) (m : Action Disk ToolResult)
        → IsClean path d (m d).1
        → IsClean path d ((if b then pure r else m) d).1
    unfolding pure
    if-IsClean true r m h = inl refl
    if-IsClean false r m h = h

  -- If the name of the patch file is no link, and it can be written and removed, then however
  -- apply_patch ends, cancelled or not, either no file was changed, or the file that the patch was
  -- written to is gone.
  pub apply_patch-IsClean :
      (args : Payload) (repo : String) (d : Disk)
      → repo_of tools args ≡ ok repo
      → patch_target tools repo ≡ patch_file tools repo
      → ((patch : String) → tools.refuses (patch_target tools repo) patch d ≡ none)
      → ((d' : Disk) → tools.keeps (patch_file tools repo) d' ≡ none)
      → ((apply_patch tools args d).1 ≡ d)
        ⊎ (Dict.get (patch_target tools repo) (apply_patch tools args d).1.files ≡ none)
  unfolding apply_patch
  apply_patch-IsClean args repo d h no_link written gone =
      let path = patch_target tools repo in
      lift-IsClean path d (argument "repo" args) _ λ name _.
        lift-IsClean path d (repo_of tools args) _ λ repo' h'.
          lift-IsClean path d (argument "patch" args) _ λ value _.
            let patch = str_of tools.python.shown value in
            if-IsClean path d (not (Text.nonempty (strip patch))) (failure "patch is empty")
              (sized name repo' patch)
              (if-IsClean path d (ltb 500000 (len patch))
                (failure "patch rejected: patch exceeds 500 KB") (apply_at tools name repo' patch)
                (subst (λ r. IsClean path d (apply_at tools name r patch d).1)
                  (same_repo repo repo' (sym h ∙ h'))
                  (inr (
                    subst (λ p. Dict.get p (apply_at tools name repo patch d).1.files ≡ none)
                      (sym no_link) (apply_at-IsClean name repo patch d (written patch) gone)))))
    where
      same_repo : (x y : String) → ok x ≡ ok y → x ≡ y
      same_repo x y h = cc

      sized : Value → String → String → Action Disk ToolResult
      sized name repo' patch =
          if ltb 500000 (len patch)
          then pure (failure "patch rejected: patch exceeds 500 KB")
          else apply_at tools name repo' patch

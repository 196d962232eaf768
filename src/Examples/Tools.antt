-- ===== src/Examples/Tools.antt =====
-- The properties of the tools at concrete inputs.
use software_engineering_age.Prelude.{
  pos, negsuc, String, ◌<>◌, ◌≡◌, subst, ◌+◌, ◌-◌, ◌≤◌, ◌<◌, length, refl, ◌⊎◌, true, false, none,
  some, List, [], ◌∷◌, arith,
}
use software_engineering_age.Prelude.Text
use software_engineering_age.Prelude.Dict
use software_engineering_age.Domain.{Payload, str, null, num, field, end}
use software_engineering_age.Effects.{ok, err, environment_error, pure, lift, catching, ◌>>=◌}
use software_engineering_age.Runtime.Policy.{enforce}
use software_engineering_age.Runtime.Workspace.{Workspace}
use software_engineering_age.Runtime.Tools.{
  Toolbox, Disk, Index, exited, success, repo_of, is_within,
}
use software_engineering_age.Runtime.Tools.Quoting.{quote, shell_word, plain, quote-shell_word}
use software_engineering_age.Runtime.Tools.Files.{
  write_file, write_at, write_text, read_file, window,
}
use software_engineering_age.Runtime.Tools.Files.Confinement.{
  write_file-SameFile, read_file-write_file,
}
use software_engineering_age.Runtime.Tools.Files.Lines.{get_elem?, with_number, window_lem}
use software_engineering_age.Runtime.Tools.Commands.{apply_patch}
use software_engineering_age.Runtime.Tools.Commands.Patches.{apply_patch-IsClean}
use software_engineering_age.Runtime.Tools.Registry.{
  Tool, schema, string_type, integer_type, execute, run_tool,
}
use software_engineering_age.Runtime.Tools.Registry.Errors.{Reported, Escapes, execute-raises}
use software_engineering_age.Runtime.Tools.Registry.ReadOnly.{IsReadOnly, parallel_safe-SameFiles}
use software_engineering_age.Examples.Agent.{python}
use software_engineering_age.Examples.CodeIndex.{lib, lock, sha256, repo, store}

abbrev workspace : Workspace
workspace = record {
  environment_id = "env_1";
  root = "/w/env_1";
  repositories = ("app", "/w/env_1/app") ∷ [];
  container_name = none;
  container_workspace_root = none;
  slot_id = none;
}

-- an index of repositories with one file, which answers nothing
abbrev index : Index
index = record {
  lib = lib;
  lock = lock;
  sha256 = sha256;
  checkout = λ path files. repo;
  overview = λ m. ok null;
  search = λ query limit m. ok null;
  symbol_context = λ symbol limit m. ok null;
  impact_analysis = λ target depth m. ok null;
  dependency_hints = λ path m. ok null;
  stats = λ m. ok (num m.stats.indexed_files);
}

-- tools on a machine whose processes end well and change nothing, without links in its paths
abbrev tools : Toolbox
tools = record {
  workspace = workspace;
  command_timeout = 600;
  index = index;
  mode = enforce;
  mcp = none;
  finds = λ pattern text. false;
  environ = [];
  run = λ process environ timeout d. (ok (exited 0 "done"), d);
  python = python;
  int = λ v. ok (pos 1);
  splitlines = λ text. text ∷ [];
  resolve = λ path. path;
  joined = λ repo relative. repo <> "/" <> relative;
  refuses = λ path text d. none;
  keeps = λ path d. none;
  rglob = λ base d. [];
  class_of = λ text. text;
  is_expected = λ text. true;
}

abbrev disk : Disk
disk = record { files = ("/etc/hosts", "localhost") ∷ []; cache = store }

abbrev arguments : Payload
arguments = ("repo", str "app") ∷ ("path", str "a.txt") ∷ ("content", str "hello") ∷ []

quote_test : shell_word plain (quote "it's" <> " || true") ≡ some ("it's", " || true")
quote_test = quote-shell_word "it's" " || true" refl

outside : (repo : String) → repo_of tools arguments ≡ ok repo → is_within repo "/etc/hosts" ≡ false
outside repo h = subst (λ r. is_within r "/etc/hosts" ≡ false) (same repo h) refl
  where
    same : (repo : String) → ok "/w/env_1/app" ≡ ok repo → "/w/env_1/app" ≡ repo
    same repo h = cc

write_file-SameFile_example :
    Dict.get "/etc/hosts" (write_file tools arguments disk).1.files
    ≡ Dict.get "/etc/hosts" disk.files
write_file-SameFile_example = write_file-SameFile tools arguments "/etc/hosts" disk outside

abbrev written : Disk
written = record {
  files = ("/etc/hosts", "localhost") ∷ ("/w/env_1/app/a.txt", "hello") ∷ [];
  cache = store;
}

-- the answer of write_file
write_file_test : write_file tools arguments disk ≡ (ok (success "wrote a.txt (5 bytes)"), written)
unfolding write_file write_at write_text lift pure ◌>>=◌
write_file_test = refl

read_file-write_file_example :
    read_file tools arguments written
    ≡ (ok (success (Text.join "\n" (window (tools.splitlines "hello") 1 (pos 301)))), written)
read_file-write_file_example =
    read_file-write_file tools arguments (str "hello") (success "wrote a.txt (5 bytes)") disk
      written write_file_test refl refl refl refl

abbrev three_lines : List String
three_lines = "a" ∷ "b" ∷ "c" ∷ []

-- the second of three lines
window_lem_example :
    (1 + 1 ≤ 2
      → 1 ≤ 1000
      → get_elem? (window three_lines 1 (pos 2)) 1
        ≡ with_number (1 + 1) (get_elem? three_lines (1 + 1 - 1)))
    × (2 < 1 + 1 → get_elem? (window three_lines 1 (pos 2)) 1 ≡ none)
    × (length (window three_lines 1 (pos 2)) ≤ 1001)
window_lem_example = window_lem three_lines 1 2 1 (omega arith)

-- a negative end counts from the end of the file
window_test : window ("a" ∷ "b" ∷ "c" ∷ []) 1 (negsuc 0) ≡ "1: a" ∷ "2: b" ∷ []
window_test = refl

abbrev patched : Disk
patched = (apply_patch tools (("repo", str "app") ∷ ("patch", str "diff") ∷ []) disk).1

apply_patch-IsClean_example :
    (patched ≡ disk) ⊎ (Dict.get "/w/env_1/app/.minion-agent.patch" patched.files ≡ none)
apply_patch-IsClean_example =
    apply_patch-IsClean tools (("repo", str "app") ∷ ("patch", str "diff") ∷ []) "/w/env_1/app" disk
      refl refl (λ patch. refl) (λ d. refl)

-- a call for a repository that is not there
unknown_test :
    execute tools "read_file" (("repo", str "lib") ∷ []) disk
    ≡ (err (environment_error "unknown repository 'lib'"), disk)
unfolding execute run_tool catching read_file lift ◌>>=◌
unknown_test = refl

abbrev reader : Tool
reader = record {
  name = "read_file";
  description = "Read a text file with line numbers.";
  parameters =
      schema
        (field "path" string_type
          (field "start_line" integer_type (field "end_line" integer_type end)))
        ("path" ∷ []);
  handler = read_file tools;
  parallel_safe = true;
  mutating = false;
}

missing_repository :
    read_file tools (("repo", str "lib") ∷ []) disk
    ≡ (err (environment_error "unknown repository 'lib'"), disk)
unfolding read_file lift ◌>>=◌
missing_repository = refl

execute-raises_example :
    ((text : String)
      → Reported tools (environment_error "unknown repository 'lib'") text
      → execute tools "read_file" (("repo", str "lib") ∷ []) disk
        ≡ (ok (record { ok? = false; output = text }), disk))
    × (Escapes tools (environment_error "unknown repository 'lib'")
        → execute tools "read_file" (("repo", str "lib") ∷ []) disk
          ≡ (err (environment_error "unknown repository 'lib'"), disk))
    × (((text : String) × Reported tools (environment_error "unknown repository 'lib'") text)
        ⊎ Escapes tools (environment_error "unknown repository 'lib'"))
execute-raises_example =
    execute-raises tools "read_file" (("repo", str "lib") ∷ []) reader
      (environment_error "unknown repository 'lib'") disk disk refl refl missing_repository

read_only : IsReadOnly tools
read_only = record {
  process =
      λ name process environ timeout reads h. record { at = λ d. record { files = λ p o. refl } };
}

-- a file stays as it was while the cache is written
parallel_safe-SameFiles_example :
    Dict.get "/etc/hosts" (execute tools "index_stats" (("repo", str "app") ∷ []) disk).1.files
    ≡ some "localhost"
parallel_safe-SameFiles_example =
    parallel_safe-SameFiles tools read_only "index_stats" (("repo", str "app") ∷ []) "/etc/hosts"
      disk refl refl

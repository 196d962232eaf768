-- ===== src/Runtime/CodeIndex/Build.antt =====
-- src/minion/runtime/code_index.py: `ensure_index`, which makes the manifest of a commit out of the
-- facts that are kept of contents, and the queries that read it. The ranks of files, floating-point
-- numbers, are left out of the manifest.
pub mod Again
use software_engineering_age.Prelude.{
  ℕ, zero, suc, ◌+◌, String, ◌<>◌, Bool, true, false, not, ◌&&◌, ◌||◌, Option, none, some, List, [],
  ◌∷◌, ◌++◌, map, contains, select, any_of, length, ◌==◌, eqb, if◌then◌else◌, get_or,
}
use software_engineering_age.Prelude.Text
use software_engineering_age.Prelude.Dict
use software_engineering_age.Prelude.Dict.{Dict}
use software_engineering_age.Effects.{
  Action, Exn, Result, ok, err, runtime_error, external, chain, pure, raise, lift, gets, modify,
  finally, ◌>>=◌, ◌>>◌,
}
use software_engineering_age.Runtime.Policy.{strip}
use software_engineering_age.Runtime.CodeIndex.{
  Symbol, Facts, Manifest, Stats, IndexedRepository, Content, TextLibrary, sorted,
}
use software_engineering_age.Runtime.CodeIndex.Extraction.{parse_object}

-- What is kept on the disk: the facts by repository and content, the manifests by repository and
-- commit, and the latest one by repository.
pub record Store : Type 0 where
  pub objects : Dict Facts
  pub manifests : Dict Manifest
  pub latest : Dict Manifest

-- `FileLock`, whose calls run in whatever thread they are given; others may write while one waits.
pub record FileLock : Type 0 where
  pub acquire : String → Action Store Unit
  pub release : String → Action Store Unit

-- A checked-out repository: what Git answers, its absolute path, and its files.
pub record Checkout : Type 0 where
  pub git : List String → Result String
  pub resolved : String
  pub content : String → Option Content

abbrev or_local : Checkout → Result String → Result String
or_local repo (ok remote) = ok (strip remote)
or_local repo (err (runtime_error e)) = ok ("local:" <> repo.resolved)
or_local repo (err e) = err e

-- `_identity`: the key, the remote and the commit
abbrev pub identity : (String → String) → Checkout → Result (String × String × String)
identity sha256 repo = chain (repo.git ("rev-parse" ∷ "HEAD" ∷ [])) λ head.
    chain (or_local repo (repo.git ("config" ∷ "--get" ∷ "remote.origin.url" ∷ [])))
      λ remote. ok (sha256 remote, remote, strip head)

abbrev pub object_key : String → String → String
object_key key digest = key <> "/objects/" <> digest

abbrev pub manifest_key : String → String → String
manifest_key key head = key <> "/manifests/" <> head

-- what the loop has found so far
pub record Progress : Type 0 where
  pub files : Dict String
  pub facts : Dict Facts
  pub parsed : ℕ
  pub reused : ℕ

-- the facts of a content that was parsed before, or the fresh ones, which are kept
unfoldable pub take_facts :
    String → String → String → Facts → Progress → Option Facts → Action Store Progress
take_facts key relative digest fresh progress (some facts) = pure (record {
  files = Dict.put relative digest progress.files;
  facts = Dict.put relative (record facts { path = relative }) progress.facts;
  parsed = progress.parsed;
  reused = suc progress.reused;
})
take_facts key relative digest fresh progress none = do
  modify (λ s. record s { objects = Dict.put (object_key key digest) fresh s.objects })
  let next : Progress = record {
    files = Dict.put relative digest progress.files;
    facts = Dict.put relative fresh progress.facts;
    parsed = suc progress.parsed;
    reused = progress.reused;
  }
  pure next

unfoldable pub index_file :
    String → String → Progress → Option (String × Facts) → Action Store Progress
unfolding take_facts
index_file key relative progress none = pure progress
index_file key relative progress (some (digest, fresh)) = do
  known ← gets (λ s. Dict.get (object_key key digest) s.objects)
  take_facts key relative digest fresh progress known

abbrev symbols_in : Dict Facts → ℕ
symbols_in [] = 0
symbols_in ((path, facts) ∷ rest) = length facts.symbols + symbols_in rest

abbrev targets_in : Dict (List String) → ℕ
targets_in [] = 0
targets_in ((path, targets) ∷ rest) = length targets + targets_in rest

-- the manifest that is there already
abbrev pub indexed : String → String → Manifest → IndexedRepository
indexed key head manifest = record {
  repository_key = key;
  head = head;
  parsed_files = 0;
  reused_files = length manifest.files;
}

-- the answer for a commit that is indexed, or else what is done for it
unfoldable pub or_indexed :
    String
    → String
    → Action Store IndexedRepository
    → Option Manifest
    → Action Store IndexedRepository
or_indexed key head next (some manifest) = pure (indexed key head manifest)
or_indexed key head next none = next

module _ (lib : TextLibrary) where
  -- `_tracked_files`
  abbrev pub tracked_files : Checkout → Result (List String)
  tracked_files repo =
      chain (repo.git ("ls-files" ∷ []))
        λ output. ok (select (λ line. Text.nonempty (strip line)) (lib.splitlines output))

  -- the names under which a file can be imported
  abbrev pub import_names : String → List String
  import_names path =
      let normalized = lib.replace "\\" "/" (lib.without_suffix path) in
      lib.lower (lib.stem path)
      ∷ lib.lower normalized
      ∷ lib.lower (lib.replace "/" "." normalized)
      ∷ []

  abbrev lstrip_dots : String → String
  lstrip_dots String.[] = String.[]
  lstrip_dots (String.◌∷◌ c s) =
      if eqb (Prim.Native.Char.code c) 46 || eqb (Prim.Native.Char.code c) 47
      then lstrip_dots s
      else String.◌∷◌ c s

  -- what an imported name may mean; a name that has only dots ends in its last part
  abbrev pub token_names : String → List String
  token_names token =
      let normalized = lib.lower (lib.replace "\\" "/" (lstrip_dots token)) in
      let dotted = lib.replace "/" "." normalized in
      normalized
      ∷ dotted
      ∷ Text.remove_suffix "/index" normalized
      ∷ Text.remove_suffix ".index" dotted
      ∷ lib.stem normalized
      ∷ Text.last_segment normalized
      ∷ Text.last_segment (lib.replace "." "/" dotted)
      ∷ []

  abbrev pub is_imported : List String → String → Bool
  is_imported tokens path =
      any_of (λ token. any_of (λ name. contains name (import_names path)) (token_names token))
        tokens

  -- `_resolve_dependency_edges`, for the sources that are left
  abbrev pub edges_from : List String → Dict Facts → Dict (List String)
  edges_from paths [] = []
  edges_from paths ((source, facts) ∷ rest) =
      (
        source,
        sorted (select (λ path. not (path == source) && is_imported facts.imports path) paths),
      )
      ∷ edges_from paths rest

  abbrev pub resolve_dependency_edges : Dict Facts → Dict (List String)
  resolve_dependency_edges files = edges_from (Dict.keys files) files

  unfoldable pub index_files : Checkout → String → List String → Progress → Action Store Progress
  unfolding index_file
  index_files repo key [] progress = pure progress
  index_files repo key (relative ∷ rest) progress =
      index_file key relative progress (parse_object lib relative (repo.content relative))
      >>= λ next. index_files repo key rest next

  abbrev pub manifest_of : String → String → Progress → Manifest
  manifest_of remote head progress =
      let edges = resolve_dependency_edges progress.facts in
      record {
        repository = remote;
        head = head;
        files = progress.files;
        facts = progress.facts;
        dependency_edges = edges;
        stats = record {
          indexed_files = length progress.facts;
          parsed_files = progress.parsed;
          reused_files = progress.reused;
          symbol_count = symbols_in progress.facts;
          dependency_edges = targets_in edges;
        };
      }

  unfoldable pub build : Checkout → String → String → String → Action Store IndexedRepository
  unfolding index_files
  build repo key remote head = do
    paths ← lift (tracked_files repo)
    let start : Progress = record { files = []; facts = []; parsed = 0; reused = 0 }
    progress ← index_files repo key paths start
    let manifest = manifest_of remote head progress
    modify (λ s. record s {
      manifests = Dict.put (manifest_key key head) manifest s.manifests;
      latest = Dict.put key manifest s.latest;
    })
    let result : IndexedRepository = record {
      repository_key = key;
      head = head;
      parsed_files = progress.parsed;
      reused_files = progress.reused;
    }
    pure result

  -- looks again, now that the lock is held
  unfoldable pub index_locked : Checkout → String → String → String → Action Store IndexedRepository
  unfolding build or_indexed
  index_locked repo key remote head = do
    known ← gets (λ s. Dict.get (manifest_key key head) s.manifests)
    or_indexed key head (build repo key remote head) known

  unfoldable pub index_new :
      FileLock → Checkout → String → String → String → Action Store IndexedRepository
  unfolding index_locked
  index_new lock repo key remote head = lock.acquire (key <> "/index.lock") >>= λ _.
      finally (index_locked repo key remote head) (lock.release (key <> "/index.lock"))

  unfoldable pub ensure_index :
      FileLock → (String → String) → Checkout → Action Store IndexedRepository
  unfolding index_new or_indexed
  ensure_index lock sha256 repo = do
    (key, remote, head) ← lift (identity sha256 repo)
    known ← gets (λ s. Dict.get (manifest_key key head) s.manifests)
    or_indexed key head (index_new lock repo key remote head) known

  abbrev or_missing : Option Manifest → Result Manifest
  or_missing none = err (external "FileNotFoundError")
  or_missing (some manifest) = ok manifest

  -- `_manifest`
  unfoldable pub manifest_for : FileLock → (String → String) → Checkout → Action Store Manifest
  unfolding ensure_index
  manifest_for lock sha256 repo = do
    indexed ← ensure_index lock sha256 repo
    found ← gets (λ s. Dict.get (manifest_key indexed.repository_key indexed.head) s.manifests)
    lift (or_missing found)

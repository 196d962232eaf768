-- ===== src/Runtime/CodeIndex/Build/Again.antt =====
-- src/minion/runtime/code_index.py: a commit that was indexed is not indexed again.
use software_engineering_age.Prelude.{
  String, ◌<>◌, ◌∙◌, ◌≡◌, refl, ap, subst, Option, none, some, eq_iff, arith, length,
}
use software_engineering_age.Prelude.Dict
use software_engineering_age.Prelude.Dict.{Dict, get-put}
use software_engineering_age.Effects.{Action, Result, ok, pure, lift, gets, modify, ◌>>=◌}
use software_engineering_age.Effects.Ensures.{
  Ensures, Ensures-bind, Ensures-then, Ensures-finally, returned_first, lift_returned,
  pure_returned,
}
use software_engineering_age.Runtime.CodeIndex.{Manifest, IndexedRepository, TextLibrary}
use software_engineering_age.Runtime.CodeIndex.Build.{
  Store, Checkout, identity, manifest_key, manifest_of, indexed, build, or_indexed, index_locked,
  index_new, ensure_index, FileLock,
}

-- There is a manifest of the commit.
abbrev pub HasManifest : String → String → Store → Type 0
HasManifest key head s = (m : Manifest) × (Dict.get (manifest_key key head) s.manifests ≡ some m)

module _ (lib : TextLibrary) (repo : Checkout) (key remote head : String) where
  kept : Manifest → Store → Store
  kept manifest s = record s {
    manifests = Dict.put (manifest_key key head) manifest s.manifests;
    latest = Dict.put key manifest s.latest;
  }

  written :
      (manifest : Manifest)
      → Ensures (λ (u : Unit {0}) s. HasManifest key head s) (modify (kept manifest))
  unfolding modify kept
  written manifest = record {
    returned = λ s t u e.
        let same : kept manifest s ≡ t = ap (λ (x : Result (Unit {0}) × Store). x.1) e in
        subst (HasManifest key head) same (
          manifest,
          ground (
            arith,
            get-put (manifest_key key head) (manifest_key key head) manifest s.manifests,
            eq_iff (manifest_key key head) (manifest_key key head),
          ),
        );
  }

  build-HasManifest : Ensures (λ r s. HasManifest key head s) (build lib repo key remote head)
  unfolding build kept
  build-HasManifest = Ensures-bind _ _ λ paths. Ensures-bind _ _ λ progress.
      Ensures-then _ _ (written (manifest_of lib remote head progress))
        (λ u s t r h e. subst (HasManifest key head) (pure_returned s t _ r e).1 h)

  -- what is done for a commit without a manifest leaves one, and so there is one in any case
  or_indexed-HasManifest :
      (next : Action Store IndexedRepository)
      → Ensures (λ r s. HasManifest key head s) next
      → Ensures
          (λ r s. HasManifest key head s)
          (gets (λ s. Dict.get (manifest_key key head) s.manifests) >>= or_indexed key head next)
  unfolding gets or_indexed pure ◌>>=◌
  or_indexed-HasManifest next h = record {
    returned = λ s t r e. by_known s t r (Dict.get (manifest_key key head) s.manifests) refl e;
  }
    where
      by_known :
          (s t : Store) (r : IndexedRepository) (o : Option Manifest)
          → Dict.get (manifest_key key head) s.manifests ≡ o
          → or_indexed key head next o s ≡ (ok r, t)
          → HasManifest key head t
      by_known s t r (some m) e e' =
          subst (HasManifest key head) (ap (λ (x : Result IndexedRepository × Store). x.1) e')
            (m, e)
      by_known s t r none e e' = h.returned s t r e'

  index_new-HasManifest :
      (lock : FileLock)
      → ((name : String) (s : Store) → (lock.release name s).1.manifests ≡ s.manifests)
      → Ensures (λ r s. HasManifest key head s) (index_new lib lock repo key remote head)
  unfolding index_new index_locked
  index_new-HasManifest lock keeps = Ensures-bind _ _ λ _.
      Ensures-finally _ _
        (or_indexed-HasManifest (build lib repo key remote head) build-HasManifest)
        (λ r s (m, there).
          (m, ap (Dict.get (manifest_key key head)) (keeps (key <> "/index.lock") s) ∙ there))

module _ (lib : TextLibrary) (lock : FileLock) (sha256 : String → String) (repo : Checkout) where
  found_again :
      (key remote head : String) (m : Manifest) (t : Store)
      → identity sha256 repo ≡ ok (key, remote, head)
      → Dict.get (manifest_key key head) t.manifests ≡ some m
      → ensure_index lib lock sha256 repo t ≡ (ok (indexed key head m), t)
  unfolding ensure_index lift gets or_indexed pure ◌>>=◌
  found_again key remote head m t found there = rw (found, there) refl

  -- A commit that was indexed is not indexed again: after ensure_index has returned there is a
  -- manifest of the commit, and the next call reports its files as reused and none as parsed, and
  -- changes nothing, if the release of a lock keeps the manifests.
  pub ensure_index-again :
      (r : IndexedRepository) (s t : Store)
      → ((name : String) (s : Store) → (lock.release name s).1.manifests ≡ s.manifests)
      → ensure_index lib lock sha256 repo s ≡ (ok r, t)
      → (key : String) × (remote : String) × (head : String) × (m : Manifest) × (identity sha256
            repo
          ≡ ok (key, remote, head))
        × (Dict.get (manifest_key key head) t.manifests ≡ some m)
        × (ensure_index lib lock sha256 repo t ≡ (
          ok (record {
            repository_key = key;
            head = head;
            parsed_files = 0;
            reused_files = length m.files;
          }),
          t,
        ))
  unfolding ensure_index
  ensure_index-again r s t keeps h =
      let ((key, remote, head), s₁, e₁, h₁) =
        returned_first (lift (identity sha256 repo)) _ s t r h in
      let (found, _) = lift_returned s s₁ (identity sha256 repo) (key, remote, head) e₁ in
      let (m, there) =
        (or_indexed-HasManifest lib repo key remote head (index_new lib lock repo key remote head)
            (index_new-HasManifest lib repo key remote head lock keeps)).returned
          s₁ t r h₁ in
      (key, remote, head, m, found, there, found_again key remote head m t found there)

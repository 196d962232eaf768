-- ===== src/Security/Repositories.antt =====
-- Which repositories a task may name.
use software_engineering_age.Prelude.{
  String, ◌≡◌, refl, ◌⊎◌, inl, inr, ◌↔◌, true, false, List, [], ◌∷◌, contains, is_empty, get_or,
  All, arith, none, Option-cases,
}
use software_engineering_age.Prelude.Text
use software_engineering_age.Domain.{RepositorySpec}
use software_engineering_age.Effects.{ok}
use software_engineering_age.Security.{UrlLibrary, authorize_repository, authorize_repositories}

pub record IsPermitted (urls : UrlLibrary) (repo_hosts : List String) (repo : RepositorySpec)
    : Type 0 where
  pub readable : urls.malformed repo.url ≡ none
  pub scheme : contains (urls.scheme repo.url) ("https" ∷ "ssh" ∷ "git" ∷ []) ≡ true
  pub no_dots : Text.has ".." repo.url ≡ false
  pub host :
      (repo_hosts ≡ [])
      ⊎ (contains (urls.lower (get_or (urls.hostname repo.url) "")) repo_hosts ≡ true)

module _ (urls : UrlLibrary) (repo_hosts : List String) where
  one→ :
      (repo : RepositorySpec)
      → authorize_repository urls repo_hosts repo ≡ ok tt
      → IsPermitted urls repo_hosts repo
  unfolding authorize_repository
  one→ repo h = record {
    readable = ground (arith, Option-cases (urls.malformed repo.url));
    scheme = ground (arith, Option-cases (urls.malformed repo.url));
    no_dots = ground (arith, Option-cases (urls.malformed repo.url));
    host = listed repo_hosts (ground (arith, Option-cases (urls.malformed repo.url)));
  }
    where
      listed :
          (hosts : List String)
          → (is_empty hosts ≡ true)
            ⊎ (contains (urls.lower (get_or (urls.hostname repo.url) "")) hosts ≡ true)
          → (hosts ≡ []) ⊎ (contains (urls.lower (get_or (urls.hostname repo.url) "")) hosts ≡ true)
      listed [] e = inl refl
      listed (x ∷ hosts) (inl e) = cc
      listed (x ∷ hosts) (inr e) = inr e

  one← :
      (repo : RepositorySpec)
      → IsPermitted urls repo_hosts repo
      → authorize_repository urls repo_hosts repo ≡ ok tt
  unfolding authorize_repository
  one← repo p = ground (arith, p.readable, p.host)

  -- A list of repositories is authorized exactly when each has an https, ssh or git URL that can
  -- be read, without "..", whose host is among the allowed ones where any are configured.
  pub authorize_repositories_iff :
      (repos : List RepositorySpec)
      → (authorize_repositories urls repo_hosts repos ≡ ok tt)
        ↔ All (IsPermitted urls repo_hosts) repos
  unfolding authorize_repositories
  authorize_repositories_iff [] = (λ h. tt, λ h. refl)
  authorize_repositories_iff (repo ∷ rest) =
      let ih = authorize_repositories_iff rest in
      (λ h. (one→ repo (ground arith), ih.0 (ground arith)), λ h. rw (one← repo h.0) (ih.1 h.1))

-- ===== src/Examples/Stream.antt =====
-- The properties of the event log, the event stream and the trust boundary at concrete inputs.
use software_engineering_age.Prelude.{
  String, ◌<>◌, ◌≡◌, ◌↔◌, refl, true, false, none, some, [], ◌∷◌, ◌++◌, arith, All, length, eq_iff,
}
use text.Mathlib.Text.{starts_with}
use software_engineering_age.Prelude.Text
use software_engineering_age.Domain.{queued, user_message}
use software_engineering_age.Effects.{ok, err, external}
use software_engineering_age.Table.{find}
use software_engineering_age.Models.{World, EventBus}
use software_engineering_age.Events.{append, event_of, list_after, publish}
use software_engineering_age.Events.Log.{
  IsLog, events_of, append-IsLog, appended, counted_up, append_other-IsLog,
}
use software_engineering_age.Events.Replay.{list_after_lem}
use software_engineering_age.Events.Live.{IsBounded, publish-IsBounded}
use software_engineering_age.Api.{task_events}
use software_engineering_age.Api.Stream.{IsRising, task_events-IsRising, task_events_complete}
use software_engineering_age.Security.{
  authorize_repositories, require_api_token, websocket_authorized, compare_digest, Environ,
  safe_child_environment, git_environment,
}
use software_engineering_age.Security.Repositories.{IsPermitted, authorize_repositories_iff}
use software_engineering_age.Security.Secrets.{
  getenv, getenv-safe_child_environment, git_credential_hidden,
}
use software_engineering_age.Security.Tokens.{require_api_token_iff}
use software_engineering_age.Examples.Data.{urls, repository, session, event, busy}

busy-IsLog : IsLog "task_a" "session_a" (busy queued) (session 2)
unfolding find
busy-IsLog = record { found = refl; numbered = (refl, (refl, tt)); counted = refl }

append-IsLog_example :
    let w' = (append "task_a" "session_a" user_message [] (busy queued)).1 in
    IsLog "task_a" "session_a" w' (counted_up (busy queued) (session 2))
    × (events_of "task_a" w'.events
        ≡ events_of "task_a" (busy queued).events
          ++ appended "task_a" "session_a" user_message [] (busy queued) (session 2) ∷ [])
append-IsLog_example =
    append-IsLog "task_a" "session_a" user_message [] (busy queued) (session 2) busy-IsLog

abbrev pair : World
pair = record (busy queued) {
  sessions = session 2 ∷ record (session 0) { id = "session_b"; task_id = "task_b" } ∷ [];
}

pair-IsLog : IsLog "task_a" "session_a" pair (session 2)
unfolding find
pair-IsLog = record { found = refl; numbered = (refl, (refl, tt)); counted = refl }

pair-IsLog_other :
    IsLog "task_b" "session_b" pair (record (session 0) { id = "session_b"; task_id = "task_b" })
unfolding find
pair-IsLog_other = record { found = refl; numbered = tt; counted = refl }

append_other-IsLog_test :
    IsLog "task_b" "session_b"
      (append "task_a" "session_a" user_message [] pair).1
      (record (session 0) { id = "session_b"; task_id = "task_b" })
append_other-IsLog_test =
    append_other-IsLog "task_a" "session_a" "task_b" "session_b" user_message [] pair (session 2)
      (record (session 0) { id = "session_b"; task_id = "task_b" })
      (λ e. cc ((eq_iff "task_a" "task_b").1 e)) (λ e. cc ((eq_iff "session_a" "session_b").1 e))
      pair-IsLog pair-IsLog_other

list_after_lem_example :
    list_after "task_a" 1 10 (busy queued) ≡ (ok (event_of (event 2) ∷ []), busy queued)
list_after_lem_example =
    list_after_lem "task_a" "session_a" 1 10 (busy queued) (session 2) busy-IsLog

abbrev bus : EventBus
bus = record {
  redis = false;
  channel = [];
  subscribers = record { topic = "task_a"; waiting = [] } ∷ [];
}

publish-IsBounded_example : All IsBounded (publish (event_of (event 1)) bus).subscribers
publish-IsBounded_example = publish-IsBounded (event_of (event 1)) bus (omega arith)

task_events-IsRising_example :
    IsRising 1
      (task_events 1 (event_of (event 2) ∷ []) (event_of (event 2) ∷ event_of (event 3) ∷ []))
task_events-IsRising_example =
    task_events-IsRising "task_a" "session_a" 1 (busy queued) (session 2)
      (event_of (event 2) ∷ event_of (event 3) ∷ []) (event_of (event 2) ∷ []) busy-IsLog
      (unfold list_after in refl)

task_events_complete_example :
    task_events 1 (event_of (event 2) ∷ []) (event_of (event 2) ∷ event_of (event 3) ∷ [])
    ≡ event_of (event 2) ∷ event_of (event 3) ∷ []
task_events_complete_example =
    task_events_complete 1 1 (event 1 ∷ event 2 ∷ []) (event 3 ∷ []) (refl, (refl, (refl, tt)))
      (refl, (refl, tt)) (omega arith) (omega arith) (omega arith)

authorize_repositories_iff_example :
    (authorize_repositories urls ("github.com" ∷ []) (repository ∷ []) ≡ ok tt)
    ↔ All (IsPermitted urls ("github.com" ∷ [])) (repository ∷ [])
authorize_repositories_iff_example =
    authorize_repositories_iff urls ("github.com" ∷ []) (repository ∷ [])

getenv-safe_child_environment_example :
    getenv "GITHUB_TOKEN"
      (safe_child_environment none (("PATH", "/bin") ∷ ("GITHUB_TOKEN", "t") ∷ []))
    ≡ none
getenv-safe_child_environment_example =
    getenv-safe_child_environment "GITHUB_TOKEN" (("PATH", "/bin") ∷ ("GITHUB_TOKEN", "t") ∷ [])

abbrev parent : Environ
parent = ("PATH", "/bin") ∷ ("GITHUB_TOKEN", "t") ∷ []

git_credential_hidden_example :
    getenv "GIT_CONFIG_VALUE_0"
      (safe_child_environment (some (git_environment (λ s. s) (some "t") parent)) parent)
    ≡ none
unfolding safe_child_environment
git_credential_hidden_example =
    git_credential_hidden (λ s. s) (some "t") parent "GIT_CONFIG_VALUE_0"

require_api_token_iff_example :
    ((require_api_token urls (some "t") (some "bearer t") ≡ ok tt) ↔ (
      (p : String) × (some "bearer t" ≡ some (p <> "t"))
      × (Text.length p ≡ 7)
      × (starts_with (urls.lower (p <> "t")) "bearer " ≡ true)))
    × (require_api_token urls (some "t") (some "bearer t") ≡ ok tt
        → websocket_authorized urls (some "t") (some "bearer t") none ≡ ok true)
require_api_token_iff_example = require_api_token_iff urls "t" (some "bearer t") none refl refl

-- a token with a character that is not ASCII is no refusal but an error
not_ascii_test : require_api_token urls (some "t") (some "bearer é") ≡ err (external "TypeError")
unfolding require_api_token compare_digest
not_ascii_test = refl

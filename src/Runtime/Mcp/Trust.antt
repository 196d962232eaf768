-- ===== src/Runtime/Mcp/Trust.antt =====
-- src/minion/runtime/mcp_tools.py: the endpoints that a client is opened for are approved ones.
use software_engineering_age.Prelude.{
  String, ◌≡◌, ◌⊎◌, inl, inr, refl, subst, Bool, Bool-cases, true, false, Option, none, some, List,
  [], ◌∷◌, All, ◌==◌, eq_iff, if◌then◌else◌, arith,
}
use software_engineering_age.Prelude.Text
use software_engineering_age.Prelude.Dict
use software_engineering_age.Prelude.Dict.{Dict}
use software_engineering_age.Domain.{Payload, Value, Fields, obj, field, end}
use software_engineering_age.Effects.{
  Action, Result, ok, err, key_error, chain, pure, lift, gets, modify, ◌>>=◌,
}
use software_engineering_age.Effects.Rules.{
  IsPreorder, Respects, Respects-lift-bind, Respects-bind, Respects-pure, Respects-lift,
  Respects-gets,
}
use software_engineering_age.Effects.Ensures.{chain_ok}
use software_engineering_age.Runtime.Mcp.Names.{safe_name}
use software_engineering_age.Runtime.Mcp.{
  McpServerConfig, McpManager, Outside, Discovered, checked_url, is_local, text_at, parse_server,
  parse_servers, configured, items_of, servers, servers_from, open_client, discover_each,
  discover_all, schemas, schemas_from, server_named, call_route, call,
}

module _ (outside : Outside) where
  -- An endpoint is one over HTTPS, or one over HTTP on this machine.
  abbrev pub IsApproved : String → Type 0
  IsApproved url =
      (Text.nonempty (outside.netloc url) ≡ true)
      × ((outside.scheme url ≡ "https")
          ⊎ ((outside.scheme url ≡ "http") × (is_local (outside.hostname url) ≡ true)))

  abbrev pub AllApproved : Dict McpServerConfig → Type 0
  AllApproved configs = All (λ entry. IsApproved (entry.1).url) configs

  -- The endpoints of a manager are approved: those of its servers, and those it was in contact with.
  pub record IsTrusted (m : McpManager) : Type 0 where
    pub known : (configs : Dict McpServerConfig) → m.servers ≡ some configs → AllApproved configs
    pub contacted : All IsApproved m.contacted

  abbrev pub Trust : McpManager → McpManager → Type 0
  Trust m m' = IsTrusted m → IsTrusted m'

  Trust-IsPreorder : IsPreorder Trust
  Trust-IsPreorder = record { reflexive = λ m t. t; transitive = λ a b c f g t. g (f t) }

  checked_url-IsApproved :
      (raw_name url u : String) → checked_url outside raw_name url ≡ ok u → IsApproved u
  checked_url-IsApproved raw_name url u h = subst IsApproved (same h) (approved h)
    where
      same : checked_url outside raw_name url ≡ ok u → url ≡ u
      same h = ground arith

      by_tests :
          (Text.nonempty (outside.netloc url) ≡ true) ⊎ (Text.nonempty (outside.netloc url) ≡ false)
          → (outside.scheme url == "http" ≡ true) ⊎ (outside.scheme url == "http" ≡ false)
          → (outside.scheme url == "https" ≡ true) ⊎ (outside.scheme url == "https" ≡ false)
          → (is_local (outside.hostname url) ≡ true) ⊎ (is_local (outside.hostname url) ≡ false)
          → checked_url outside raw_name url ≡ ok u
          → IsApproved url
      by_tests (inl n) _ (inl s) _ h = (n, inl ((eq_iff (outside.scheme url) "https").0 s))
      by_tests (inl n) (inl s) (inr _) (inl l) h =
          (n, inr ((eq_iff (outside.scheme url) "http").0 s, l))
      by_tests (inl n) (inl s) (inr s') (inr l) h = absurd (ground (arith, h, n, s, s', l))
      by_tests (inl n) (inr s) (inr s') _ h = absurd (ground (arith, h, n, s, s'))
      by_tests (inr n) _ _ _ h = absurd (ground (arith, h, n))

      approved : checked_url outside raw_name url ≡ ok u → IsApproved url
      approved h =
          by_tests (Bool-cases (Text.nonempty (outside.netloc url)))
            (Bool-cases (outside.scheme url == "http")) (Bool-cases (outside.scheme url == "https"))
            (Bool-cases (is_local (outside.hostname url))) h

  parse_server-IsApproved :
      (raw_name : String) (v : Value) (config : McpServerConfig)
      → parse_server outside raw_name v ≡ ok config
      → IsApproved config.url
  parse_server-IsApproved raw_name (obj fields) config h =
      let (name, _, h₁) = chain_ok (safe_name raw_name) _ config h in
      let (url, checked, h₂) =
        chain_ok (checked_url outside raw_name (text_at outside "url" fields)) _ config h₁ in
      subst (λ c. IsApproved c.url)
        (same
          (record { name = name; url = url; description = text_at outside "description" fields })
          h₂)
        (checked_url-IsApproved raw_name (text_at outside "url" fields) url checked)
    where
      same : (c : McpServerConfig) → ok c ≡ ok config → c ≡ config
      same c h = cc
  parse_server-IsApproved raw_name _ config h = cc

  put-AllApproved :
      (key : String) (config : McpServerConfig) (configs : Dict McpServerConfig)
      → IsApproved config.url
      → AllApproved configs
      → AllApproved (Dict.put key config configs)
  put-AllApproved key config [] h all = (h, tt)
  put-AllApproved key config ((k, c) ∷ rest) h all =
      by_key (k == key) (put-AllApproved key config rest h all.1)
    where
      by_key :
          (b : Bool)
          → AllApproved (Dict.put key config rest)
          → AllApproved (if b then (k, config) ∷ rest else (k, c) ∷ Dict.put key config rest)
      by_key true later = (h, all.1)
      by_key false later = (all.0, later)

  parse_servers-AllApproved :
      (items : Fields) (found configs : Dict McpServerConfig)
      → AllApproved found
      → parse_servers outside items found ≡ ok configs
      → AllApproved configs
  parse_servers-AllApproved end found configs all h = subst AllApproved (same h) all
    where
      same : ok found ≡ ok configs → found ≡ configs
      same h = cc
  parse_servers-AllApproved (field raw_name v rest) found configs all h =
      let (server, e, h') = chain_ok (parse_server outside raw_name v) _ configs h in
      parse_servers-AllApproved rest (Dict.put server.name server found) configs
        (put-AllApproved server.name server found (parse_server-IsApproved raw_name v server e) all)
        h'

  configured-AllApproved :
      (configs : Dict McpServerConfig) → configured outside ≡ ok configs → AllApproved configs
  configured-AllApproved configs h = by_file outside.config h
    where
      by_file :
          (o : Option Value)
          → elim o as (λ _. Result (Dict McpServerConfig)) [
            | none ↦ ok []
            | some raw ↦ chain (items_of raw) λ items. parse_servers outside items []
          ]
            ≡ ok configs
          → AllApproved configs
      by_file none h = subst AllApproved (same h) tt
        where
          same : ok [] ≡ ok configs → [] ≡ configs
          same h = cc
      by_file (some raw) h =
          let (items, _, h') = chain_ok (items_of raw) _ configs h in
          parse_servers-AllApproved items [] configs tt h'

  -- what follows the list of servers may rely on their being approved
  servers-bind :
      {B : Type 0} (f : Dict McpServerConfig → Action McpManager B)
      → ((configs : Dict McpServerConfig) → AllApproved configs → Respects Trust (f configs))
      → Respects Trust (servers outside >>= f)
  unfolding servers servers_from lift gets modify pure ◌>>=◌
  servers-bind {B = B} f h = record { at = λ m t. by_cache m t m.servers refl }
    where
      by_cache :
          (m : McpManager)
          → IsTrusted m
          → (o : Option (Dict McpServerConfig)) → m.servers ≡ o
          → IsTrusted ((servers_from outside o >>= f) m).1
      by_cache m t (some configs) e = (h configs (t.known configs e)).at m t
      by_cache m t none e = by_file (configured outside) refl
        where
          by_file :
              (r : Result (Dict McpServerConfig))
              → configured outside ≡ r
              → IsTrusted
                  (((lift r >>= λ configs.
                        modify (λ m. record m { servers = some configs }) >>= λ _. pure configs)
                      >>= f)
                    m).1
          by_file (err x) e = t
          by_file (ok configs) e =
              let all = configured-AllApproved configs e in
              (h configs all).at (record m { servers = some configs })
                (record {
                  known = λ other e'. subst AllApproved (same configs other e') all;
                  contacted = t.contacted;
                })
            where
              same : (a b : Dict McpServerConfig) → some a ≡ some b → a ≡ b
              same a b h = cc

  open_client-Trust : (url : String) → IsApproved url → Respects Trust (open_client url)
  unfolding open_client
  open_client-Trust url h = record {
    at = λ m t. record { known = t.known; contacted = (h, t.contacted) };
  }

  discover_each-Trust :
      (configs : List McpServerConfig) (found : Discovered)
      → All (λ config. IsApproved config.url) configs
      → Respects Trust (discover_each outside configs found)
  unfolding discover_each
  discover_each-Trust [] found all = Respects-pure Trust-IsPreorder found
  discover_each-Trust (server ∷ rest) found all =
      Respects-bind Trust-IsPreorder _ _ (open_client-Trust server.url all.0) λ n.
        Respects-bind Trust-IsPreorder _ _ (Respects-lift Trust-IsPreorder _) λ tools.
          Respects-bind Trust-IsPreorder _ _ (Respects-lift Trust-IsPreorder _)
            λ more. discover_each-Trust rest more all.1

  All-values :
      (configs : Dict McpServerConfig)
      → AllApproved configs
      → All (λ config. IsApproved config.url) (Dict.values configs)
  All-values [] all = tt
  All-values ((k, c) ∷ rest) all = (all.0, All-values rest all.1)

  remember-Trust :
      (routes : Dict (String × String)) (found : List Value)
      → Respects Trust (modify (λ m. record m { tool_routes = routes; schema_cache = some found }))
  unfolding modify
  remember-Trust routes found = record {
    at = λ m t. record { known = t.known; contacted = t.contacted };
  }

  discover_all-Trust : Respects Trust (discover_all outside)
  unfolding discover_all
  discover_all-Trust = servers-bind _ λ configs all.
      Respects-bind Trust-IsPreorder _ _
        (discover_each-Trust (Dict.values configs) _ (All-values configs all))
        λ found.
          Respects-bind Trust-IsPreorder _ _ (remember-Trust found.routes found.schemas)
            λ _. Respects-pure Trust-IsPreorder found.schemas

  schemas-Trust : Respects Trust (schemas outside)
  unfolding schemas schemas_from
  schemas-Trust = Respects-bind Trust-IsPreorder _ _ (Respects-gets Trust-IsPreorder _) by_cache
    where
      by_cache : (o : Option (List Value)) → Respects Trust (schemas_from outside o)
      by_cache (some found) = Respects-pure Trust-IsPreorder found
      by_cache none = discover_all-Trust

  server_named-IsApproved :
      (name : String) (configs : Dict McpServerConfig) (config : McpServerConfig)
      → AllApproved configs
      → server_named name configs ≡ ok config
      → IsApproved config.url
  server_named-IsApproved name [] config all h = cc
  server_named-IsApproved name ((k, c) ∷ rest) config all h =
      by_key (k == name) h (server_named-IsApproved name rest config all.1)
    where
      by_key :
          (b : Bool)
          → elim (if b then some c else Dict.get name rest) as (λ _. Result McpServerConfig) [
            | none ↦ err (key_error name)
            | some x ↦ ok x
          ]
            ≡ ok config
          → (server_named name rest ≡ ok config → IsApproved config.url)
          → IsApproved config.url
      by_key true h later = subst (λ x. IsApproved x.url) (same c h) all.0
        where
          same : (c : McpServerConfig) → ok c ≡ ok config → c ≡ config
          same c h = cc
      by_key false h later = later h

  -- Whatever the servers answer and whichever tool the model calls, a client is opened for approved
  -- endpoints only: over HTTPS, or over HTTP on this machine. If that held of a manager before a
  -- call, it holds after it, however the call ends.
  pub call-IsTrusted :
      (exposed_name : String) (arguments : Payload) (m : McpManager)
      → IsTrusted m
      → IsTrusted (call outside exposed_name arguments m).1
  unfolding call call_route
  call-IsTrusted exposed_name arguments m t =
      (Respects-bind Trust-IsPreorder (schemas outside) _ schemas-Trust
          λ _. Respects-bind Trust-IsPreorder _ _ (Respects-gets Trust-IsPreorder _) by_route).at
        m t
    where
      by_route :
          (o : Option (String × String))
          → Respects Trust (call_route outside exposed_name arguments o)
      by_route none = Respects-pure Trust-IsPreorder _
      by_route (some (server_name, tool_name)) = servers-bind _ λ configs all.
          Respects-lift-bind Trust-IsPreorder (server_named server_name configs) _ λ server h.
            Respects-bind Trust-IsPreorder _ _
              (open_client-Trust server.url
                (server_named-IsApproved server_name configs server all h))
              λ n.
                Respects-bind Trust-IsPreorder _ _ (Respects-lift Trust-IsPreorder _)
                  λ reply. Respects-pure Trust-IsPreorder _

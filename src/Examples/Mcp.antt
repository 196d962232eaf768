-- ===== src/Examples/Mcp.antt =====
-- The properties of the MCP manager at concrete inputs.
use software_engineering_age.Prelude.{◌≡◌, refl, true, false, none, some, [], ◌∷◌}
use software_engineering_age.Domain.{str, obj, field, end}
use software_engineering_age.Effects.{ok, pure, lift, gets, modify, ◌>>=◌}
use software_engineering_age.Runtime.Mcp.{
  McpManager, Outside, call, call_route, schemas, schemas_from, discover_all, discover_each,
  servers, servers_from, open_client,
}
use software_engineering_age.Runtime.Mcp.Trust.{IsTrusted, call-IsTrusted}

-- one server over HTTPS, with one tool
abbrev outside : Outside
outside = record {
  config = some (
      obj (
        field "servers"
          (obj (field "docs" (obj (field "url" (str "https://docs.example") end)) end)) end));
  scheme = λ url. "https";
  netloc = λ url. "docs.example";
  hostname = λ url. some "docs.example";
  shown = λ v. "?";
  list_tools =
      λ url n. ok (record { name = "look up"; description = ""; input_schema = obj end } ∷ []);
  call_tool = λ url name arguments n. ok (record { is_error = false; payload = "{}" });
}

abbrev manager : McpManager
manager = record { servers = none; schema_cache = none; tool_routes = []; contacted = [] }

new_manager : IsTrusted outside manager
new_manager = record { known = λ configs h. cc; contacted = tt }

call-IsTrusted_example : IsTrusted outside (call outside "mcp__docs__look_up" [] manager).1
call-IsTrusted_example = call-IsTrusted outside "mcp__docs__look_up" [] manager new_manager

-- the call finds the server's tool, which has another name there
call_test : (call outside "mcp__docs__look_up" [] manager).0 ≡ ok (true, "{}")
unfolding call call_route schemas schemas_from discover_all discover_each servers servers_from
    open_client lift gets modify pure ◌>>=◌
call_test = refl

-- ===== src/Runtime/Mcp.antt =====
-- src/minion/runtime/mcp_tools.py: `MCPManager`, the configured servers and their tools. The client of
-- a server, YAML and the parsing of URLs are parameters.
pub mod Names
pub mod Trust
use software_engineering_age.Prelude.{
  ℕ, String, ◌<>◌, Bool, true, false, not, ◌&&◌, ◌||◌, Option, none, some, List, [], ◌∷◌, ◌++◌, map,
  contains, length, ◌==◌, if◌then◌else◌,
}
use software_engineering_age.Prelude.Text
use software_engineering_age.Prelude.Dict
use software_engineering_age.Prelude.Dict.{Dict}
use software_engineering_age.Domain.{Payload, Value, Fields, payload_get, str, obj, field, end}
use software_engineering_age.Effects.{
  Action, Result, ok, err, key_error, value_error, external, chain, pure, raise, lift, gets, modify,
  ◌>>=◌, ◌>>◌,
}
use software_engineering_age.Runtime.Values.{truthy, str_of}
use software_engineering_age.Runtime.Policy.{strip}
use software_engineering_age.Runtime.Mcp.Names.{safe_name}

pub record McpServerConfig : Type 0 where
  pub name : String
  pub url : String
  pub description : String

-- A tool that a server lists.
pub record RemoteTool : Type 0 where
  pub name : String
  pub description : String
  pub input_schema : Value

-- What a call answers: whether it is an error, and the text of the payload as JSON.
pub record Reply : Type 0 where
  pub is_error : Bool
  pub payload : String

-- The manager's fields, and the endpoints that a client was opened for, the last one first.
pub record McpManager : Type 0 where
  pub servers : Option (Dict McpServerConfig)
  pub schema_cache : Option (List Value)
  pub tool_routes : Dict (String × String)
  pub contacted : List String

-- What the manager is given: the configuration file's value, if there is a file; how a URL is read;
-- `str` of a value; and what a server answers, which may change from one call to the next.
pub record Outside : Type 0 where
  pub config : Option Value
  pub scheme : String → String
  pub netloc : String → String
  pub hostname : String → Option String
  pub shown : Value → String
  pub list_tools : String → ℕ → Result (List RemoteTool)
  pub call_tool : String → String → Payload → ℕ → Result Reply

abbrev pub fields_get : String → Fields → Option Value
fields_get key end = none
fields_get key (field k v rest) = if k == key then some v else fields_get key rest

abbrev is_local : Option String → Bool
is_local none = false
is_local (some host) = contains host ("localhost" ∷ "127.0.0.1" ∷ "::1" ∷ [])

-- `str(value.get(key, "")).strip()`
abbrev pub text_at : Outside → String → Fields → String
text_at outside key fields = elim (fields_get key fields) [
  | none ↦ ""
  | some v ↦ strip (str_of outside.shown v)
]

-- the URL of a server, if it may be used
abbrev pub checked_url : Outside → String → String → Result String
checked_url outside raw_name url =
    let scheme = outside.scheme url in
    if not (contains scheme ("http" ∷ "https" ∷ [])) || not (Text.nonempty (outside.netloc url))
    then err (value_error ("MCP server '" <> raw_name <> "' needs an http(s) URL"))
    else if scheme == "http" && not (is_local (outside.hostname url))
    then err (value_error ("MCP server '" <> raw_name <> "' must use HTTPS outside localhost"))
    else ok url

-- one server of the configuration
abbrev pub parse_server : Outside → String → Value → Result McpServerConfig
parse_server outside raw_name (obj fields) = chain (safe_name raw_name) λ name.
    chain (checked_url outside raw_name (text_at outside "url" fields)) λ url.
      ok (record { name = name; url = url; description = text_at outside "description" fields })
parse_server outside raw_name _ =
    err (value_error ("MCP server '" <> raw_name <> "' must be a mapping"))

abbrev pub parse_servers : Outside → Fields → Dict McpServerConfig → Result (Dict McpServerConfig)
parse_servers outside end servers = ok servers
parse_servers outside (field raw_name value rest) servers =
    chain (parse_server outside raw_name value)
      λ server. parse_servers outside rest (Dict.put server.name server servers)

abbrev servers_item : Option Value → Result Fields
servers_item none = ok end
servers_item (some (obj fields)) = ok fields
servers_item (some _) = err (value_error "MCP config 'servers' must be a mapping")

-- `raw.get("servers", {})` of what YAML gives, or of an empty mapping
abbrev items_of : Value → Result Fields
items_of (obj fields) = servers_item (fields_get "servers" fields)
items_of v = if truthy v then err (external "AttributeError") else ok end

-- the servers of the configuration file
abbrev pub configured : Outside → Result (Dict McpServerConfig)
configured outside = elim outside.config [
  | none ↦ ok []
  | some raw ↦ chain (items_of raw) λ items. parse_servers outside items []
]

-- `servers`
unfoldable pub servers_from :
    Outside → Option (Dict McpServerConfig) → Action McpManager (Dict McpServerConfig)
servers_from outside (some servers) = pure servers
servers_from outside none = do
  servers ← lift (configured outside)
  modify (λ m. record m { servers = some servers })
  pure servers

unfoldable pub servers : Outside → Action McpManager (Dict McpServerConfig)
unfolding servers_from
servers outside = gets (λ m. m.servers) >>= servers_from outside

-- `catalog`: the names and descriptions, without the URLs
unfoldable pub catalog : Outside → Action McpManager (List (String × String))
catalog outside = do
  configs ← servers outside
  pure (map (λ config. (config.name, config.description)) (Dict.values configs))

-- `Client(url)`
unfoldable pub open_client : String → Action McpManager ℕ
open_client url m = (ok (length m.contacted), record m { contacted = url ∷ m.contacted })

abbrev object_type : Value
object_type = obj (field "type" (str "object") (field "properties" (obj end) end))

abbrev parameters_of : Value → Value
parameters_of (obj fields) = obj fields
parameters_of _ = object_type

abbrev pub schema_of : McpServerConfig → String → RemoteTool → Value
schema_of server exposed tool = obj (
    field "type" (str "function") (
      field "function"
        (obj (
          field "name" (str exposed) (
            field "description"
              (str (
                "[MCP:"
                <> server.name
                <> "] "
                <> (if Text.nonempty tool.description then tool.description else tool.name)))
              (field "parameters" (parameters_of tool.input_schema) end))))
        end))

-- The routes and the schemas that are found so far.
pub record Discovered : Type 0 where
  pub routes : Dict (String × String)
  pub schemas : List Value

-- the tools of one server
abbrev pub add_tools : McpServerConfig → List RemoteTool → Discovered → Result Discovered
add_tools server [] found = ok found
add_tools server (tool ∷ rest) found = chain (safe_name tool.name) λ safe.
    let exposed = "mcp__" <> server.name <> "__" <> safe in
    add_tools server rest (record {
      routes = Dict.put exposed (server.name, tool.name) found.routes;
      schemas = found.schemas ++ schema_of server exposed tool ∷ [];
    })

unfoldable pub discover_each :
    Outside → List McpServerConfig → Discovered → Action McpManager Discovered
discover_each outside [] found = pure found
discover_each outside (server ∷ rest) found = do
  n ← open_client server.url
  tools ← lift (outside.list_tools server.url n)
  more ← lift (add_tools server tools found)
  discover_each outside rest more

unfoldable pub discover_all : Outside → Action McpManager (List Value)
unfolding discover_each
discover_all outside = do
  configs ← servers outside
  found ← discover_each outside (Dict.values configs) (record { routes = []; schemas = [] })
  modify (λ m. record m { tool_routes = found.routes; schema_cache = some found.schemas })
  pure found.schemas

-- `schemas`
unfoldable pub schemas_from : Outside → Option (List Value) → Action McpManager (List Value)
unfolding discover_all
schemas_from outside (some schemas) = pure schemas
schemas_from outside none = discover_all outside

unfoldable pub schemas : Outside → Action McpManager (List Value)
unfolding schemas_from
schemas outside = gets (λ m. m.schema_cache) >>= schemas_from outside

-- `self.servers()[name]`
abbrev pub server_named : String → Dict McpServerConfig → Result McpServerConfig
server_named name configs = elim (Dict.get name configs) [
  | none ↦ err (key_error name)
  | some config ↦ ok config
]

abbrev pub answer_of : Reply → Bool × String
answer_of reply = (not reply.is_error, Text.take 30000 reply.payload)

-- the call, by the tool's route
unfoldable pub call_route :
    Outside → String → Payload → Option (String × String) → Action McpManager (Bool × String)
call_route outside exposed_name arguments none = pure (false, "unknown MCP tool: " <> exposed_name)
call_route outside exposed_name arguments (some (server_name, tool_name)) = do
  configs ← servers outside
  server ← lift (server_named server_name configs)
  n ← open_client server.url
  reply ← lift (outside.call_tool server.url tool_name arguments n)
  pure (answer_of reply)

-- `call`
unfoldable pub call : Outside → String → Payload → Action McpManager (Bool × String)
unfolding call_route
call outside exposed_name arguments = do
  schemas outside
  route ← gets (λ m. Dict.get exposed_name m.tool_routes)
  call_route outside exposed_name arguments route

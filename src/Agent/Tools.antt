-- ===== src/Agent/Tools.antt =====
-- tool.rs and error.rs: tools, their registry, and the errors of a tool. A tool runs in the world `W`,
-- which it may change.
use auto_ai.Common.{[], ◌∷◌, none, some, string_eq, String, List, Option}
use auto_ai.Common.Format.{format}
use auto_ai.Common.HashMap
use auto_ai.Common.HashMap.{HashMap}
use auto_ai.Config.Wire.{ToolDefinition}

pub data ToolError : Type 0 where
  args : String → ToolError
  exec : String → ToolError
  security_denied : (kind path root hint : String) → ToolError

abbrev pub show_tool_error : ToolError → String
show_tool_error (ToolError.args e) = format ("invalid tool arguments: " ∷ e ∷ [])
show_tool_error (ToolError.exec e) = format ("tool execution failed: " ∷ e ∷ [])
show_tool_error (ToolError.security_denied kind path root hint) = format (
    "security denied (" ∷ kind ∷ "): '" ∷ path ∷ "' is outside workspace '" ∷ root ∷ "'. " ∷ hint
    ∷ [])

module _ (J : Type 0) where
  pub record ToolOutput : Type 0 where
    pub content : String
    pub details : Option J

  pub data ToolResult : Type 0 where
    ran : ToolOutput → ToolResult
    failed : ToolError → ToolResult

  pub record Tool (W : Type 0) : Type 0 where
    pub name : String
    pub description : String
    pub parameters : J
    pub execute : W → J → ToolResult × W

module _ {J : Type 0} where
  abbrev pub output_text : String → ToolOutput J
  output_text s = record { content = s; details = none }

module _ {J W : Type 0} where
  abbrev pub tool_to_definition : Tool J W → ToolDefinition J
  tool_to_definition t = record {
    name = t.name;
    description = t.description;
    parameters = t.parameters;
  }

  -- The registry: a map from names to tools.
  abbrev pub register : Tool J W → HashMap String (Tool J W) → HashMap String (Tool J W)
  register t tools = HashMap.insert t.name t tools

  abbrev pub registered_names : HashMap String (Tool J W) → List String
  registered_names [] = []
  registered_names ((name, _) ∷ tools) = name ∷ registered_names tools

  abbrev pub values : HashMap String (Tool J W) → List (Tool J W)
  values [] = []
  values ((_, t) ∷ tools) = t ∷ values tools

  abbrev add_found : Option (Tool J W) → List (Tool J W) → List (Tool J W)
  add_found none ts = ts
  add_found (some t) ts = t ∷ ts

  abbrev pub named : List String → HashMap String (Tool J W) → List (Tool J W)
  named [] tools = []
  named (name ∷ names) tools = add_found (HashMap.get name tools) (named names tools)

  -- `ToolRegistry::filter`: no names means every tool.
  abbrev pub visible : List String → HashMap String (Tool J W) → List (Tool J W)
  visible [] tools = values tools
  visible (name ∷ names) tools = named (name ∷ names) tools

  abbrev pub execute_found : Option (Tool J W) → String → J → W → ToolResult J × W
  execute_found none name input w =
      (ToolResult.failed (ToolError.exec (format ("tool not found: " ∷ name ∷ []))), w)
  execute_found (some t) name input w = t.execute w input

  unfoldable pub execute : HashMap String (Tool J W) → String → J → W → ToolResult J × W
  execute tools name input w = execute_found (HashMap.get name tools) name input w

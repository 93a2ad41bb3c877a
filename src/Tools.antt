-- ===== src/Tools.antt =====
-- internal/tools/tool.go and registry.go: the port of a tool, and the registry that finds a tool by
-- its kind. What a tool does is outside, a function on a world `W`.
pub mod PatchHeaders
pub mod Dispatch
use ai4se_coding_agent_harne.Prelude.{
  String, ◌==◌, Bool, Option, none, some, List, [], ◌∷◌, if◌then◌else◌, is_some, Table, lookup,
  insert, Result, ok, err,
}
use ai4se_coding_agent_harne.Domain.{Action}

-- The sentinel errors, with the kind that the message names; `other` is any other error.
pub data ToolError : Type 0 where
  empty_tool : ToolError
  unknown_tool duplicate_tool : String → ToolError
  invalid_args binary_file invalid_regex protected_path invalid_patch patch_limit : ToolError
  patch_conflict stale_baseline patch_atomicity_breach already_exists create_limit : ToolError
  other : String → ToolError

pub record ToolResult : Type 0 where
  pub code : String
  pub data_json : String
  pub text : String
  pub sha256 : String
  pub truncated : Bool

pub record Tool (W : Type 0) : Type 0 where
  pub kind : String
  pub execute : String → W → Result ToolError ToolResult × W

pub record Registry (W : Type 0) : Type 0 where
  pub tools : Table (Tool W)

module _ {W : Type 0} where
  -- The loop of `NewRegistry`, with the tools registered before. A tool may be nil.
  unfoldable pub register : Table (Tool W) → List (Option (Tool W)) → Result ToolError (Registry W)
  register table [] = ok (record { tools = table })
  register table (none ∷ tools) = err empty_tool
  register table (some tool ∷ tools) =
      let rest = register (insert tool.kind tool table) tools in
      if tool.kind == ""
      then err empty_tool
      else if is_some (lookup tool.kind table)
      then err (duplicate_tool tool.kind)
      else rest

  unfoldable pub new_registry : List (Option (Tool W)) → Result ToolError (Registry W)
  unfolding register
  new_registry tools = register [] tools

  unfoldable pub execute : Registry W → Action → W → Result ToolError ToolResult × W
  execute r action w = elim (lookup action.kind r.tools) [
    | none ↦ (err (unknown_tool action.kind), w)
    | some tool ↦ tool.execute action.args w
  ]

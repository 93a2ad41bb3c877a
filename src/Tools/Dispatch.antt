-- ===== src/Tools/Dispatch.antt =====
-- internal/tools/registry.go: every tool that was registered is the one that its kind executes.
use ai4se_coding_agent_harne.Prelude.{
  String, ◌==◌, eq_iff, ◌≡◌, refl, sym, ap, ◌∙◌, Bool, true, false, Option, none, some, List, [],
  ◌∷◌, if◌then◌else◌, is_some, All, Table, lookup, insert, lookup-insert, lookup-insert_self,
  Result, ok, err, arith,
}
use ai4se_coding_agent_harne.Tools.{
  Tool, Registry, ToolError, register, new_registry, execute, empty_tool,
}

module _ {W : Type 0} where
  -- A registry that finds what the table holds, and the tools.
  abbrev Finds : Table (Tool W) → Registry W → Type 0
  Finds table r =
      (kind : String) (tool : Tool W)
      → lookup kind table ≡ some tool
      → lookup kind r.tools ≡ some tool

  abbrev Dispatches : Registry W → Option (Tool W) → Type 0
  Dispatches r none = ⊥
  Dispatches r (some tool) =
      (args : String) (w : W)
      → execute r (record { kind = tool.kind; args = args }) w ≡ tool.execute args w

  found-Dispatches :
      (r : Registry W) (tool : Tool W)
      → lookup tool.kind r.tools ≡ some tool
      → Dispatches r (some tool)
  unfolding execute
  found-Dispatches r tool l args w = rw (execute, l) refl

  Finds-insert :
      (table : Table (Tool W)) (tool : Tool W) (r : Registry W)
      → is_some (lookup tool.kind table) ≡ false
      → Finds (insert tool.kind tool table) r
      → Finds table r
  Finds-insert table tool r fresh finds kind other l =
      finds kind other
        (lookup-insert tool.kind kind tool table ∙ ground (arith, eq_iff tool.kind kind))

  accepted :
      (b c : Bool) (e : ToolError) (rest : Result ToolError (Registry W)) {r : Registry W}
      → (if b then err empty_tool else if c then err e else rest) ≡ ok r
      → (c ≡ false) × (rest ≡ ok r)
  accepted true c e rest h = cc
  accepted false true e rest h = cc
  accepted false false e rest h = (refl, h)

  register-Dispatches :
      (table : Table (Tool W)) (tools : List (Option (Tool W))) (r : Registry W)
      → register table tools ≡ ok r
      → Finds table r × All (Dispatches r) tools
  unfolding register
  register-Dispatches table [] r h =
      let same : record { tools = table } ≡ r = cc in
      (λ kind tool l. ap (λ r. lookup kind r.tools) (sym same) ∙ l, tt)
  register-Dispatches table (none ∷ tools) r h = cc
  register-Dispatches table (some tool ∷ tools) r h =
      let (fresh, rest) = accepted (tool.kind == "") (is_some (lookup tool.kind table)) _ _ h in
      let (finds, others) = register-Dispatches (insert tool.kind tool table) tools r rest in
      (
        Finds-insert table tool r fresh finds,
        (
          found-Dispatches r tool (finds tool.kind tool (lookup-insert_self tool.kind tool table)),
          others,
        ),
      )

  -- Every tool of a list that makes a registry is the one that the registry executes for an action of
  -- its kind.
  new_registry-Dispatches :
      (tools : List (Option (Tool W))) (r : Registry W)
      → new_registry tools ≡ ok r
      → All (Dispatches r) tools
  unfolding new_registry
  new_registry-Dispatches tools r h = (register-Dispatches [] tools r h).1

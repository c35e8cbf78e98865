-- ===== src/Opa/Sandbox.antt =====
-- opa_capabilities.go: which built-ins a policy may call; and `sandboxHint` of tool_opa.go. OPA's
-- full set of capabilities is a parameter; of a built-in the source reads the name alone.
use mcp_opa.Base.{
  Bool, List, [], ◌∷◌, Option, none, some, Bytes, codes, String, str_eq, if◌then◌else◌, any,
}
use mcp_opa.Text.Search.{contains}
use mcp_opa.Config.Load.{Config}

pub record Builtin (Decl : Type 0) : Type 0 where
  pub name : String
  pub decl : Decl

-- `ast.Capabilities`: of the hosts that may be asked for schemas, none is a nil slice, which means
-- any host. The rest is carried along.
pub record Capabilities (Decl Rest : Type 0) : Type 0 where
  pub builtins : List (Builtin Decl)
  pub allow_net : Option (List Bytes)
  pub rest : Rest

abbrev pub sandboxed_builtins : List String
sandboxed_builtins = "http.send" ∷ "net.lookup_ip_addr" ∷ "opa.runtime" ∷ []

-- `slices.Contains`
abbrev pub listed : String → List String → Bool
listed name names = any (λ n. str_eq n name) names

-- The loop over the built-ins.
unfoldable pub keep_builtins :
    {Decl : Type 0} → List String → List (Builtin Decl) → List (Builtin Decl)
keep_builtins names [] = []
keep_builtins names (b ∷ bs) =
    let rest = keep_builtins names bs in if listed b.name names then rest else b ∷ rest

module _ {Decl Rest : Type 0} where
  unfoldable pub without_builtins : Capabilities Decl Rest → List String → Capabilities Decl Rest
  without_builtins caps names = record caps {
    builtins = keep_builtins names caps.builtins;
    allow_net = some [];
  }

  unfoldable pub capabilities : Capabilities Decl Rest → Config → Capabilities Decl Rest
  capabilities base cfg =
      if cfg.allow_network_builtins then base else without_builtins base sandboxed_builtins

abbrev pub first_named : Bytes → List String → Option String
first_named msg [] = none
first_named msg (name ∷ names) =
    if contains (codes name) msg then some name else first_named msg names

-- The built-in that the note behind a compile error names, if there is to be a note.
unfoldable pub sandbox_hint : Bytes → Config → Option String
sandbox_hint msg cfg =
    if cfg.allow_network_builtins then none else first_named msg sandboxed_builtins

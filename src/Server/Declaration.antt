-- ===== src/Server/Declaration.antt =====
-- What the four register functions hand to mcp-go: the options of `mcp.NewTool`, in the order in
-- which the source writes them.
use mcp_opa.Base.{Bool, true, false, List, [], ◌∷◌, ◌++◌, String, if◌then◌else◌}

-- The options of a property: `mcp.Required`, `mcp.Description` and `mcp.Enum`.
pub data PropertyOption : Type 0 where
  required : PropertyOption
  about : String → PropertyOption
  one_of : List String → PropertyOption

-- The types that `mcp.WithOutputSchema` is given.
pub data Output : Type 0 where
  evaluate_result evaluate_output batch_output discover_output : Output

pub data ToolOption : Type 0 where
  description : String → ToolOption
  title : String → ToolOption
  read_only : Bool → ToolOption
  destructive : Bool → ToolOption
  idempotent : Bool → ToolOption
  open_world : Bool → ToolOption
  output_schema : Output → ToolOption
  text : String → List PropertyOption → ToolOption
  flag : String → List PropertyOption → ToolOption

pub record Declaration : Type 0 where
  pub name : String
  pub options : List ToolOption

-- The arguments that are declared as strings, and as booleans.
abbrev pub texts_of : List ToolOption → List String
texts_of [] = []
texts_of (text name ps ∷ os) = name ∷ texts_of os
texts_of (_ ∷ os) = texts_of os

abbrev pub flags_of : List ToolOption → List String
flags_of [] = []
flags_of (flag name ps ∷ os) = name ∷ flags_of os
flags_of (_ ∷ os) = flags_of os

abbrev pub is_required : List PropertyOption → Bool
is_required [] = false
is_required (required ∷ ps) = true
is_required (_ ∷ ps) = is_required ps

abbrev pub required_of : List ToolOption → List String
required_of [] = []
required_of (text name ps ∷ os) = (if is_required ps then name ∷ [] else []) ++ required_of os
required_of (_ ∷ os) = required_of os

-- The arguments whose values are listed, with the values.
abbrev pub values_of : List PropertyOption → List (List String)
values_of [] = []
values_of (one_of vs ∷ ps) = vs ∷ values_of ps
values_of (_ ∷ ps) = values_of ps

abbrev pub listed_as : String → List (List String) → List (String × List String)
listed_as name [] = []
listed_as name (vs ∷ rest) = (name, vs) ∷ listed_as name rest

abbrev pub enums_of : List ToolOption → List (String × List String)
enums_of [] = []
enums_of (text name ps ∷ os) = listed_as name (values_of ps) ++ enums_of os
enums_of (_ ∷ os) = enums_of os

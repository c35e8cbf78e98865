-- ===== src/Json.antt =====
-- What the source sees of encoding/json. Raw messages are bytes, and nil is the empty text: the
-- source never tells a nil message from an empty one. A decoded `any` is a `Value`.
use mcp_opa.Base.{Bool, Bytes, String, List, Option, Result}

mutual
  pub data Value : Type 0 where
    null : Value
    boolean : Bool → Value
    number : Bytes → Value
    string : Bytes → Value
    array : Items → Value
    object : Fields → Value

  pub data Items : Type 0 where
    nil : Items
    cons : Value → Items → Items

  pub data Fields : Type 0 where
    end : Fields
    field : String → Value → Fields → Fields

abbrev pub RawMessage : Type 0
RawMessage = Bytes

-- `json.Unmarshal` into a variable of type `A`: the value, or the decoder's message.
abbrev pub Decode : Type 0 → Type 0
Decode A = Bytes → Result Bytes A

-- `json.Marshal` and its kin.
abbrev pub Encode : Type 0 → Type 0
Encode A = A → Result Bytes Bytes

-- A decoded `map[string]json.RawMessage`, or nil, which is what a literal null gives.
abbrev pub RawObject : Type 0
RawObject = Option (List (String × RawMessage))

-- A decoded `[]json.RawMessage`, or nil.
abbrev pub RawArray : Type 0
RawArray = Option (List RawMessage)

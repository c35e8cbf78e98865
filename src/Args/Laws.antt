-- ===== src/Args/Laws.antt =====
-- What the argument readers accept, and that they hand it on unchanged.
use mcp_opa.Base.{
  ℕ, ◌≤◌, ◌≡◌, ◌≢◌, ◌↔◌, ◌⊎◌, inl, inr, refl, Bool, false, [], arith, some, Bytes, length, ok,
  String, Bool-cases, is_empty, Result-cases,
}
use mcp_opa.Json.{Value, object, Fields, RawMessage, Decode}
use mcp_opa.Args.Read.{
  object_or_fault, Request, required_string, optional_json, as_json_object, json_object_arg,
}

-- A required argument is accepted exactly when it is there and within the bound.
required_string_iff :
    (req : Request) (name : String) (max : ℕ) (s : Bytes)
    → (required_string req name max ≡ ok s)
      ↔ ((s ≡ req.get_string name []) × (s ≢ []) × (length s ≤ max))
unfolding required_string
required_string_iff req name max s = (λ h. ground arith, λ h. ground arith)

abbrev pub IsObject : Decode Value → Bytes → Type 0
IsObject decode raw = (fs : Fields) × (decode raw ≡ ok (object fs))

object_or_fault_sound :
    (b : Bytes) (v : Value) {raw : RawMessage}
    → object_or_fault b v ≡ ok raw
    → (raw ≡ b) × ((fs : Fields) × (v ≡ object fs))
unfolding object_or_fault
object_or_fault_sound b (object fs) h = (cc, (fs, refl))
object_or_fault_sound b _ h = cc

-- What `asJSONObject` returns is what it was given, and an object.
pub as_json_object_sound :
    (decode : Decode Value) (b : Bytes) {raw : RawMessage}
    → as_json_object decode b ≡ ok raw
    → (raw ≡ b) × IsObject decode b
unfolding as_json_object
as_json_object_sound decode b h = elim (Result-cases (decode b)) [
  | inl (e, bad) ↦ ground (arith, bad)
  | inr (v, good) ↦
      let (same, (fs, shape)) = object_or_fault_sound b v (rw (good, as_json_object) at h) in
      (same, (fs, cc))
]

pub as_json_object_complete :
    (decode : Decode Value) (b : Bytes) → IsObject decode b → as_json_object decode b ≡ ok b
unfolding as_json_object object_or_fault
as_json_object_complete decode b (fs, e) = rw (e, as_json_object)

abbrev pub AcceptsObject : Decode Value → Bytes → ℕ → Bool → RawMessage → Type 0
AcceptsObject decode sent max required raw =
    (raw ≡ sent)
    × (((raw ≡ []) × (required ≡ false)) ⊎ ((raw ≢ []) × (length raw ≤ max) × IsObject decode raw))

module _ (decode : Decode Value) (req : Request) (name : String) (max : ℕ) (required : Bool)
    (raw : RawMessage) where
  object_arg_sound :
      json_object_arg decode req name max required ≡ ok raw
      → AcceptsObject decode (req.get_string name []) max required raw
  unfolding json_object_arg
  object_arg_sound h = elim (Bool-cases (is_empty (req.get_string name []))) [
    | inl absent ↦ (ground arith, inl (ground arith, ground arith))
    | inr present ↦ elim (Result-cases (as_json_object decode (req.get_string name []))) [
      | inl (e, bad) ↦ absurd (ground arith)
      | inr (b, good) ↦
          let (same, (fs, found)) = as_json_object_sound decode (req.get_string name []) good in
          (ground arith, inr (ground arith, ground arith, (fs, ground arith)))
    ]
  ]

  object_arg_complete :
      AcceptsObject decode (req.get_string name []) max required raw
      → json_object_arg decode req name max required ≡ ok raw
  unfolding json_object_arg
  object_arg_complete (e, inl (z, r)) = ground arith
  object_arg_complete (e, inr (ne, fits, o)) = ground (arith, as_json_object_complete decode raw o)

-- An object argument is accepted exactly when it is absent and optional, or within the bound and
-- an object; its text is then the one that was sent, byte for byte.
pub json_object_arg_iff :
    (decode : Decode Value) (req : Request) (name : String) (max : ℕ) (required : Bool)
    (raw : RawMessage)
    → (json_object_arg decode req name max required ≡ ok raw)
      ↔ AcceptsObject decode (req.get_string name []) max required raw
json_object_arg_iff decode req name max required raw = (
  object_arg_sound decode req name max required raw,
  object_arg_complete decode req name max required raw,
)

-- An optional argument that is decoded is there, within the bound, and decoded whole.
pub optional_json_sound :
    {A : Type 0} (decode : Decode A) (req : Request) (name : String) (max : ℕ) (v : A)
    → optional_json decode req name max ≡ ok (some v)
    → (req.get_string name [] ≢ [])
      × (length (req.get_string name []) ≤ max)
      × (decode (req.get_string name []) ≡ ok v)
unfolding optional_json
optional_json_sound decode req name max v h = (ground arith, ground arith, ground arith)

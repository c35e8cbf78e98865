-- ===== src/Authzen/EntityLaws.antt =====
-- Which entities are accepted.
use mcp_opa.Base.{
  subst, sym, ◌≡◌, ◌≢◌, ◌⊎◌, inl, inr, refl, ap, ◌∙◌, List, [], ◌∷◌, some, Bytes, String, is_empty,
  arith, All, ok, >>=-eq-ok, Result-cases, Option-cases, Bool-cases,
}
use mcp_opa.Json.{Value, string, RawMessage, RawObject, Decode}
use mcp_opa.Authzen.Codec.{Codec}
use mcp_opa.Authzen.Entities.{
  Entity, member, entries_of, text_or_fault, require_member, each_member, require_members, subject,
  action, resource, required_members,
}

-- The member is there, and it is a text that is not empty.
pub record HasText (decode : Decode Value) (obj : List (String × RawMessage)) (m : String)
    : Type 0 where
  pub raw : RawMessage
  pub found : member m obj ≡ some raw
  pub text : Bytes
  pub decodes : decode raw ≡ ok (string text)
  pub not_empty : text ≢ []

text_or_fault_sound :
    (m : String) (v : Value) {u : Unit {0}}
    → text_or_fault m v ≡ ok u
    → (s : Bytes) × (v ≡ string s) × (s ≢ [])
unfolding text_or_fault
text_or_fault_sound m (string s) h = (s, refl, ground arith)
text_or_fault_sound m _ h = cc

module _ (decode : Decode Value) (obj : List (String × RawMessage)) where
  require_member_sound :
      (m : String) {u : Unit {0}} → require_member decode obj m ≡ ok u → HasText decode obj m
  unfolding require_member
  require_member_sound m h = elim (Option-cases (member m obj)) [
    | inl missing ↦ absurd (ground (arith, missing))
    | inr (raw, found) ↦ elim (Result-cases (decode raw)) [
      | inl (e, bad) ↦ absurd (ground (arith, found, bad))
      | inr (v, good) ↦
          let (s, text, full) = text_or_fault_sound m v (ground (arith, found, good)) in
          record {
            raw = raw;
            found = found;
            text = s;
            decodes = good ∙ ap ok text;
            not_empty = full;
          }
    ]
  ]

  require_member_complete :
      (m : String) → HasText decode obj m → require_member decode obj m ≡ ok tt
  unfolding require_member text_or_fault
  require_member_complete m t = ground (arith, t.found, t.decodes, t.not_empty)

  each_member_sound :
      (ms : List String) {u : Unit {0}}
      → each_member decode obj ms ≡ ok u
      → All (HasText decode obj) ms
  unfolding each_member
  each_member_sound [] h = tt
  each_member_sound (m ∷ ms) h =
      let (u, first, rest) = >>=-eq-ok (require_member decode obj m) _ h in
      (require_member_sound m first, each_member_sound ms rest)

  each_member_complete :
      (ms : List String) → All (HasText decode obj) ms → each_member decode obj ms ≡ ok tt
  unfolding each_member
  each_member_complete [] h = refl
  each_member_complete (m ∷ ms) (t, ts) =
      rw (require_member_complete m t) (each_member_complete ms ts)

-- What AuthZEN 1.0 requires: the type and the id of a subject and of a resource, and the name of an
-- action.
abbrev pub demanded : Entity → List String
demanded subject = "type" ∷ "id" ∷ []
demanded action = "name" ∷ []
demanded resource = "type" ∷ "id" ∷ []

demanded-required_members : (e : Entity) → required_members e ≡ demanded e
demanded-required_members subject = refl
demanded-required_members action = refl
demanded-required_members resource = refl

-- An entity is an object that carries every member that the specification requires of it.
pub record IsComplete (codec : Codec) (raw : RawMessage) (e : Entity) : Type 0 where
  pub obj : RawObject
  pub decodes : codec.members raw ≡ ok obj
  pub carries : All (HasText codec.any (entries_of obj)) (demanded e)

abbrev pub IsAcceptable : Codec → RawMessage → Entity → Type 0
IsAcceptable codec raw e = (raw ≡ []) ⊎ IsComplete codec raw e

module _ (codec : Codec) (raw : RawMessage) (e : Entity) where
  pub require_members_sound :
      {u : Unit {0}}
      → require_members codec raw (required_members e) ≡ ok u
      → IsAcceptable codec raw e
  unfolding require_members
  require_members_sound h = elim (Bool-cases (is_empty raw)) [
    | inl absent ↦ inl (ground arith)
    | inr present ↦ elim (Result-cases (codec.members raw)) [
      | inl (x, bad) ↦ absurd (ground (arith, bad))
      | inr (obj, good) ↦ inr (record {
        obj = obj;
        decodes = good;
        carries = subst (All (HasText codec.any (entries_of obj))) (demanded-required_members e) (
            each_member_sound codec.any (entries_of obj) (required_members e)
              (ground (arith, good)));
      })
    ]
  ]

  pub require_members_complete :
      IsAcceptable codec raw e → require_members codec raw (required_members e) ≡ ok tt
  unfolding require_members
  require_members_complete (inl absent) = ground arith
  require_members_complete (inr c) = ground (
    arith,
    c.decodes,
    each_member_complete codec.any (entries_of c.obj) (required_members e) (
        subst (All (HasText codec.any (entries_of c.obj))) (sym (demanded-required_members e))
          c.carries),
  )

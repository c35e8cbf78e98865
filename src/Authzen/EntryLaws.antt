-- ===== src/Authzen/EntryLaws.antt =====
-- Which entries of a batch are accepted.
use mcp_opa.Base.{
  ℕ, ◌+◌, ◌≡◌, ◌≢◌, ◌↔◌, ◌≤◌, inl, inr, refl, ap, ◌∙◌, subst, List, [], ◌∷◌, Option, none, some,
  arith, ok, err, map_err, >>=-eq-ok, map_err-eq-ok, Result-cases, length, All,
}
use mcp_opa.Json.{RawMessage, RawArray}
use mcp_opa.Config.Load.{Config}
use mcp_opa.Args.Read.{Request, as_json_object, optional_json}
use mcp_opa.Args.Laws.{IsObject, as_json_object_sound, as_json_object_complete, optional_json_sound}
use mcp_opa.Pdp.Wire.{EvaluationRequest}
use mcp_opa.Authzen.Codec.{Codec}
use mcp_opa.Authzen.Entities.{
  Entity, subject, action, resource, entry, bad_argument, entry_not_object, entry_not_request,
  no_evaluations, entity_of,
}
use mcp_opa.Authzen.Entries.{
  effective, require_present, check_entry, check_entries, bounded_entries, read_evaluation_entries,
}
use mcp_opa.Authzen.EntityLaws.{IsComplete}
use mcp_opa.Authzen.RequestLaws.{validate_entities_sound, validate_entities_complete}

-- The entry is an object, and over the defaults it names a complete subject, action and resource.
pub record IsEvaluable (codec : Codec) (defaults : EvaluationRequest) (raw : RawMessage)
    : Type 0 where
  pub is_object : IsObject codec.any raw
  pub own : EvaluationRequest
  pub decodes : codec.request raw ≡ ok own
  pub present : (e : Entity) → entity_of (effective own defaults) e ≢ []
  pub complete : (e : Entity) → IsComplete codec (entity_of (effective own defaults) e) e

module _ (codec : Codec) (defaults : EvaluationRequest) where
  require_present_sound :
      (i : ℕ) (r : EvaluationRequest) (e : Entity) {u : Unit {0}}
      → require_present i r e ≡ ok u
      → entity_of r e ≢ []
  require_present_sound i r e h = ground arith

  require_present_complete :
      (i : ℕ) (r : EvaluationRequest) (e : Entity)
      → entity_of r e ≢ []
      → require_present i r e ≡ ok tt
  require_present_complete i r e h = ground arith

  by_entity : (P : Entity → Type 0) → P subject → P action → P resource → (e : Entity) → P e
  by_entity P s a r subject = s
  by_entity P s a r action = a
  by_entity P s a r resource = r

  pub check_entry_sound :
      (i : ℕ) (raw : RawMessage) {u : Unit {0}}
      → check_entry codec defaults i raw ≡ ok u
      → IsEvaluable codec defaults raw
  unfolding check_entry
  check_entry_sound i raw h =
      let (b, object, h1) =
        >>=-eq-ok (map_err (entry_not_object i) (as_json_object codec.any raw)) _ h in
      let (own, decoded, h2) = >>=-eq-ok (map_err (entry_not_request i) (codec.request raw)) _ h1 in
      let (u1, has_subject, h3) =
        >>=-eq-ok (require_present i (effective own defaults) subject) _ h2 in
      let (u2, has_action, h4) =
        >>=-eq-ok (require_present i (effective own defaults) action) _ h3 in
      let (u3, has_resource, valid) =
        >>=-eq-ok (require_present i (effective own defaults) resource) _ h4 in
      let present : ((e : Entity) → entity_of (effective own defaults) e ≢ []) =
        by_entity (λ e. entity_of (effective own defaults) e ≢ [])
          (require_present_sound i (effective own defaults) subject has_subject)
          (require_present_sound i (effective own defaults) action has_action)
          (require_present_sound i (effective own defaults) resource has_resource) in
      record {
        is_object =
            (as_json_object_sound codec.any raw
              (map_err-eq-ok (entry_not_object i) (as_json_object codec.any raw) object)).1;
        own = own;
        decodes = map_err-eq-ok (entry_not_request i) (codec.request raw) decoded;
        present = present;
        complete = λ e.
            elim (validate_entities_sound codec (effective own defaults) (entry i) valid e) [
              | inl absent ↦ absurd (present e absent)
              | inr c ↦ c
            ];
      }

  pub check_entry_complete :
      (i : ℕ) (raw : RawMessage)
      → IsEvaluable codec defaults raw
      → check_entry codec defaults i raw ≡ ok tt
  unfolding check_entry
  check_entry_complete i raw v = ground (
    arith,
    as_json_object_complete codec.any raw v.is_object,
    v.decodes,
    v.present subject,
    v.present action,
    v.present resource,
    validate_entities_complete codec (effective v.own defaults) (entry i) (λ e. inr (v.complete e)),
  )

  check_entries_sound :
      (i : ℕ) (raws : List RawMessage) {u : Unit {0}}
      → check_entries codec defaults i raws ≡ ok u
      → All (IsEvaluable codec defaults) raws
  unfolding check_entries
  check_entries_sound i [] h = tt
  check_entries_sound i (raw ∷ rest) h =
      let (u, first, later) = >>=-eq-ok (check_entry codec defaults i raw) _ h in
      (check_entry_sound i raw first, check_entries_sound (i + 1) rest later)

  check_entries_complete :
      (i : ℕ) (raws : List RawMessage)
      → All (IsEvaluable codec defaults) raws
      → check_entries codec defaults i raws ≡ ok tt
  unfolding check_entries
  check_entries_complete i [] h = refl
  check_entries_complete i (raw ∷ rest) (v, vs) =
      rw (check_entry_complete i raw v) (check_entries_complete (i + 1) rest vs)

-- A batch that may be sent: between one entry and a hundred, decoded from the argument, each of
-- which can be evaluated over the defaults.
pub record ReadsEntries (codec : Codec) (req : Request) (cfg : Config)
    (defaults : EvaluationRequest) (raws : List RawMessage) : Type 0 where
  pub fits :
      (req.get_string "evaluations" [] ≢ [])
      × (length (req.get_string "evaluations" []) ≤ cfg.max_arg_bytes)
  pub decodes : codec.array (req.get_string "evaluations" []) ≡ ok (some raws)
  pub some_entry : 1 ≤ length raws
  pub bounded : length raws ≤ 100
  pub evaluable : All (IsEvaluable codec defaults) raws

module _ (codec : Codec) (req : Request) (cfg : Config) (defaults : EvaluationRequest)
    (raws : List RawMessage) where
  bounded_entries_sound :
      (array : RawArray)
      → bounded_entries codec defaults array ≡ ok raws
      → (array ≡ some raws)
        × (1 ≤ length raws)
        × (length raws ≤ 100)
        × All (IsEvaluable codec defaults) raws
  unfolding bounded_entries
  bounded_entries_sound none h = cc
  bounded_entries_sound (some found) h =
      elim (Result-cases (check_entries codec defaults 0 found)) [
        | inl (e, bad) ↦ absurd (ground (arith, bad))
        | inr (u, good) ↦
            let same : found ≡ raws = ground (arith, good) in
            (
              ap some same,
              ground (arith, same),
              ground (arith, same),
              subst (All (IsEvaluable codec defaults)) same
                  (check_entries_sound codec defaults 0 found good),
            )
      ]

  entries_sound :
      read_evaluation_entries codec req cfg defaults ≡ ok raws
      → ReadsEntries codec req cfg defaults raws
  unfolding read_evaluation_entries
  entries_sound h =
      let (decoded, read, rest) =
        >>=-eq-ok
          (map_err bad_argument (optional_json codec.array req "evaluations" cfg.max_arg_bytes)) _
          h in
      by_decoded decoded
        (map_err-eq-ok bad_argument (optional_json codec.array req "evaluations" cfg.max_arg_bytes)
          read)
        rest
    where
      by_decoded :
          (decoded : Option RawArray)
          → optional_json codec.array req "evaluations" cfg.max_arg_bytes ≡ ok decoded
          → (elim decoded [
            | none ↦ err no_evaluations
            | some array ↦ bounded_entries codec defaults array
          ])
            ≡ ok raws
          → ReadsEntries codec req cfg defaults raws
      by_decoded none read rest = cc
      by_decoded (some array) read rest =
          let (full, fits, decodes) =
            optional_json_sound codec.array req "evaluations" cfg.max_arg_bytes array read in
          let (same, nonempty, bounded, evaluable) = bounded_entries_sound array rest in
          record {
            fits = (full, fits);
            decodes = decodes ∙ ap ok same;
            some_entry = nonempty;
            bounded = bounded;
            evaluable = evaluable;
          }

  entries_complete :
      ReadsEntries codec req cfg defaults raws
      → read_evaluation_entries codec req cfg defaults ≡ ok raws
  unfolding read_evaluation_entries optional_json bounded_entries
  entries_complete r = ground (
    arith,
    r.fits,
    r.decodes,
    r.some_entry,
    r.bounded,
    check_entries_complete codec defaults 0 raws r.evaluable,
  )

-- The batch is accepted exactly when the argument is there, within its bound, and decodes to an
-- array of one to a hundred entries, each of which is an object that over the defaults names a
-- complete subject, action and resource; the entries are then handed on as they were decoded.
pub read_evaluation_entries_iff :
    (codec : Codec) (req : Request) (cfg : Config) (defaults : EvaluationRequest)
    (raws : List RawMessage)
    → (read_evaluation_entries codec req cfg defaults ≡ ok raws)
      ↔ ReadsEntries codec req cfg defaults raws
read_evaluation_entries_iff codec req cfg defaults raws =
    (entries_sound codec req cfg defaults raws, entries_complete codec req cfg defaults raws)

-- ===== src/Authzen/EntryErrors.antt =====
-- Which entry of a batch is blamed where the entries are refused.
use mcp_opa.Base.{
  ℕ, suc, ◌+◌, ◌≡◌, ◌≤◌, refl, ap, sym, ◌∙◌, inl, inr, Bool, true, false, List, [], ◌∷◌, Option,
  none, some, Result, ok, err, map_err, refuse_if, >>=-eq-err, arith, length, take, get_elem?, All,
  Result-cases, is_empty,
}
use mcp_opa.Base.Results
use mcp_opa.Json.{RawMessage}
use mcp_opa.Config.Load.{Config}
use mcp_opa.Args.Read.{Request, optional_json, as_json_object}
use mcp_opa.Pdp.Wire.{EvaluationRequest}
use mcp_opa.Authzen.Codec.{Codec}
use mcp_opa.Authzen.Entities.{
  RequestError, bad_entity, entry_not_object, entry_not_request, no_fallback, Entity, subject,
  action, resource, entry, require_members, entity_of, required_members, check_entity,
  validate_entities,
}
use mcp_opa.Authzen.Entries.{
  effective, require_present, check_entry, check_entries, bounded_entries, read_evaluation_entries,
}
use mcp_opa.Authzen.EntryLaws.{IsEvaluable, check_entry_sound, check_entry_complete}

-- The place of the entry that an error names.
abbrev pub blamed : RequestError → Option ℕ
blamed (bad_entity (entry i) e fault) = some i
blamed (entry_not_object i fault) = some i
blamed (entry_not_request i e) = some i
blamed (no_fallback i e) = some i
blamed _ = none

-- A step whose errors all blame the entry.
abbrev Blames : {A : Type 0} → ℕ → Result RequestError A → Type 0
Blames i m = (e : RequestError) → m ≡ err e → blamed e ≡ some i

module _ (i : ℕ) where
  Blames->>= :
      {A B : Type 0} (m : Result RequestError A) (f : A → Result RequestError B)
      → Blames i m
      → ((a : A) → Blames i (f a))
      → Blames i (Results.◌>>=◌ m f)
  Blames->>= m f first rest e h = elim (>>=-eq-err m f h) [
    | inl here ↦ first e here
    | inr (a, passed, later) ↦ rest a e later
  ]

  Blames-map_err :
      {E A : Type 0} (g : E → RequestError) (m : Result E A)
      → ((d : E) → blamed (g d) ≡ some i)
      → Blames i (map_err g m)
  Blames-map_err g (ok a) names e h = cc
  Blames-map_err g (err d) names e h = let same : g d ≡ e = cc in ap blamed (sym same) ∙ names d

  Blames-refuse_if : (b : Bool) (d : RequestError) → blamed d ≡ some i → Blames i (refuse_if b d)
  Blames-refuse_if true d names e h = let same : d ≡ e = cc in ap blamed (sym same) ∙ names
  Blames-refuse_if false d names e h = cc

  require_present-Blames : (r : EvaluationRequest) (e : Entity) → Blames i (require_present i r e)
  require_present-Blames r e = Blames-refuse_if (is_empty (entity_of r e)) (no_fallback i e) refl

  check_entity-Blames :
      (codec : Codec) (r : EvaluationRequest) (e : Entity)
      → Blames i (check_entity codec r (entry i) e)
  check_entity-Blames codec r e =
      Blames-map_err (bad_entity (entry i) e)
        (require_members codec (entity_of r e) (required_members e)) (λ d. refl)

  check_entry-Blames :
      (codec : Codec) (defaults : EvaluationRequest) (raw : RawMessage)
      → Blames i (check_entry codec defaults i raw)
  unfolding check_entry validate_entities
  check_entry-Blames codec defaults raw =
      Blames->>= _ _
        (Blames-map_err (entry_not_object i) (as_json_object codec.any raw) (λ d. refl))
        (λ object.
          Blames->>= _ _ (Blames-map_err (entry_not_request i) (codec.request raw) (λ d. refl))
            (λ own. Blames->>= _ _ (require_present-Blames (effective own defaults) subject) (λ u.
              Blames->>= _ _ (require_present-Blames (effective own defaults) action) (λ u.
                Blames->>= _ _ (require_present-Blames (effective own defaults) resource) (λ u.
                  Blames->>= _ _ (check_entity-Blames codec (effective own defaults) subject) (λ u.
                    Blames->>= _ _ (check_entity-Blames codec (effective own defaults) action)
                      (λ u. check_entity-Blames codec (effective own defaults) resource)))))))

-- The entry at a place is the first that cannot be evaluated over the defaults.
pub record IsFirstBad (codec : Codec) (defaults : EvaluationRequest) (raws : List RawMessage)
    (k : ℕ) : Type 0 where
  pub raw : RawMessage
  pub there : get_elem? raws k ≡ some raw
  pub bad : ¬ IsEvaluable codec defaults raw
  pub before : All (IsEvaluable codec defaults) (take k raws)

module _ (codec : Codec) (defaults : EvaluationRequest) where
  check_entries-err :
      (i : ℕ) (raws : List RawMessage) {e : RequestError}
      → check_entries codec defaults i raws ≡ err e
      → (k : ℕ) × (blamed e ≡ some (i + k)) × IsFirstBad codec defaults raws k
  unfolding check_entries
  check_entries-err i [] h = cc
  check_entries-err i (raw ∷ rest) {e} h =
      elim (>>=-eq-err (check_entry codec defaults i raw) _ h) [
        | inl here ↦ (
          0,
          check_entry-Blames i codec defaults raw e here ∙ ap some (omega arith),
          record {
            raw = raw;
            there = refl;
            bad = λ v. let passes = check_entry_complete codec defaults i raw v in absurd (cc);
            before = tt;
          },
        )
        | inr (u, passed, later) ↦
            let (k, names, first) = check_entries-err (i + 1) rest later in
            (
              suc k,
              names ∙ ap some (omega arith),
              record {
                raw = first.raw;
                there = first.there;
                bad = first.bad;
                before = (check_entry_sound codec defaults i raw passed, first.before);
              },
            )
      ]

-- Where the argument decodes to one to a hundred entries and reading them fails, the error names the
-- first entry that cannot be evaluated over the defaults.
pub read_evaluation_entries-err :
    (codec : Codec) (req : Request) (cfg : Config) (defaults : EvaluationRequest)
    (raws : List RawMessage) (e : RequestError)
    → optional_json codec.array req "evaluations" cfg.max_arg_bytes ≡ ok (some (some raws))
    → 1 ≤ length raws
    → length raws ≤ 100
    → read_evaluation_entries codec req cfg defaults ≡ err e
    → (k : ℕ) × (blamed e ≡ some k) × IsFirstBad codec defaults raws k
unfolding read_evaluation_entries bounded_entries
read_evaluation_entries-err codec req cfg defaults raws e decoded some_entry few h =
    elim (Result-cases (check_entries codec defaults 0 raws)) [
      | inl (d, bad) ↦
          let (k, names, first) = check_entries-err codec defaults 0 raws bad in
          let same : d ≡ e = ground (arith, decoded, bad) in
          (k, ap blamed (sym same) ∙ names ∙ ap some (omega arith), first)
      | inr (u, good) ↦ absurd (ground (arith, decoded, good))
    ]

-- ===== src/Opa/InTime.antt =====
-- The steps of evaluate_policy that never report that time ran out.
use mcp_opa.Base.{
  ◌≡◌, inl, inr, Bool, true, false, none, some, Bytes, codes, ℕ, ap, sym, refl, ◌∙◌, Option, Result,
  map_err, >>=-eq-err, arith, ok, err,
}
use mcp_opa.Base.Results
use mcp_opa.Config.Load.{Config}
use mcp_opa.Args.Read.{Request, ArgError, required_string, optional_json}
use mcp_opa.Opa.Sandbox.{Capabilities}
use mcp_opa.Opa.Result.{result_members}
use mcp_opa.Opa.Evaluate.{
  read_version, read_data, OpaError, bad_argument, encode_error, DataObject, EvaluateResult,
  OpaCodec, timed_out, read_policy,
}

abbrev pub is_timed_out : OpaError → Bool
is_timed_out (timed_out limit) = true
is_timed_out _ = false

-- A step none of whose errors says that time ran out.
abbrev pub NeverTimesOut : {A : Type 0} → Result OpaError A → Type 0
NeverTimesOut m = (e : OpaError) → m ≡ err e → is_timed_out e ≡ false

pub in_time :
    {A : Type 0} {m : Result OpaError A} (limit : ℕ)
    → NeverTimesOut m
    → m ≡ err (timed_out limit)
    → ⊥
in_time limit never h = absurd (let e = never (timed_out limit) h in cc)

NeverTimesOut->>= :
    {A B : Type 0} (m : Result OpaError A) (f : A → Result OpaError B)
    → NeverTimesOut m
    → ((a : A) → NeverTimesOut (f a))
    → NeverTimesOut (Results.◌>>=◌ m f)
NeverTimesOut->>= m f first rest e h = elim (>>=-eq-err m f h) [
  | inl here ↦ first e here
  | inr (a, passed, later) ↦ rest a e later
]

NeverTimesOut-map_err :
    {E A : Type 0} (g : E → OpaError) (m : Result E A)
    → ((d : E) → is_timed_out (g d) ≡ false)
    → NeverTimesOut (map_err g m)
NeverTimesOut-map_err g (ok a) never e h = cc
NeverTimesOut-map_err g (err d) never e h =
    let same : g d ≡ e = cc in ap is_timed_out (sym same) ∙ never d

NeverTimesOut-ok : {A : Type 0} (a : A) → NeverTimesOut (ok a)
NeverTimesOut-ok a e h = cc

argument-NeverTimesOut :
    {A : Type 0} (m : Result ArgError A) → NeverTimesOut (map_err bad_argument m)
argument-NeverTimesOut m = NeverTimesOut-map_err bad_argument m (λ d. refl)

read_version-NeverTimesOut : (v : Bytes) → NeverTimesOut (read_version v)
read_version-NeverTimesOut v e h = ground arith

read_data-NeverTimesOut : (d : Option (Option DataObject)) → NeverTimesOut (read_data d)
read_data-NeverTimesOut none e h = cc
read_data-NeverTimesOut (some none) e h = ground arith
read_data-NeverTimesOut (some (some d)) e h = cc

module _ {Decl Rest : Type 0} (base : Capabilities Decl Rest) (codec : OpaCodec) (cfg : Config)
    (req : Request) where
  pub read_policy-NeverTimesOut : NeverTimesOut (read_policy base codec cfg req)
  unfolding read_policy
  read_policy-NeverTimesOut =
      NeverTimesOut->>= (map_err bad_argument (required_string req "rego" cfg.max_arg_bytes)) _
        (argument-NeverTimesOut _)
        (λ source.
          NeverTimesOut->>= (map_err bad_argument (required_string req "query" cfg.max_arg_bytes)) _
            (argument-NeverTimesOut _)
            (λ query.
              NeverTimesOut->>= (read_version (req.get_string "rego_version" (codes "v1"))) _
                (read_version-NeverTimesOut _)
                (λ version.
                  NeverTimesOut->>=
                    (map_err bad_argument
                      (optional_json codec.decode_input req "input_json" cfg.max_arg_bytes))
                    _ (argument-NeverTimesOut _)
                    (λ input.
                      NeverTimesOut->>=
                        (map_err bad_argument
                          (optional_json codec.decode_data req "data_json" cfg.max_arg_bytes))
                        _ (argument-NeverTimesOut _)
                        (λ data'.
                          NeverTimesOut->>= (read_data data') _ (read_data-NeverTimesOut data')
                            (λ store. NeverTimesOut-ok _))))))

pub encoding-NeverTimesOut :
    (codec : OpaCodec) (out : EvaluateResult)
    → NeverTimesOut {A = EvaluateResult × Bytes} (
        Results.◌>>=◌
          (map_err encode_error (codec.encode_output (result_members out)))
          (λ text. ok (out, text)))
encoding-NeverTimesOut codec out =
    NeverTimesOut->>= _ _ (NeverTimesOut-map_err encode_error _ (λ d. refl))
      (λ text. NeverTimesOut-ok _)

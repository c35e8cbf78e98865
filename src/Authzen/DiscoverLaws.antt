-- ===== src/Authzen/DiscoverLaws.antt =====
-- authzen_discover: the metadata that are reported were served at the metadata path of the root, and
-- name an evaluation endpoint.
use mcp_opa.Base.{
  ◌↔◌, map_err, subst, refl, ◌≡◌, ◌≢◌, ◌∙◌, ap, sym, false, [], Bytes, Option, ok, arith, is_empty,
  if◌then◌else◌, Bool-cases, inl, inr, refuse_if,
}
use mcp_opa.Config.Load.{Config}
use mcp_opa.Args.Read.{Request}
use mcp_opa.Pdp.Wire.{PdpMetadata, path_metadata}
use mcp_opa.Pdp.Url.{UrlPackage, root_of, resolve_from_root}
use mcp_opa.Pdp.Exchange.{
  Network, answer, answer->>=-eq-ok, answer->>=_of_ok, answer-relabel, attempt->>=_of_ok,
  answer-attempt, answer-relabel-eq-ok, attempt, relabel,
}
use mcp_opa.Pdp.Client.{get_json, get_request, new_request_id}
use mcp_opa.Pdp.Reply.{Obtains}
use mcp_opa.Pdp.Calls.{get_json_sound, get_json_complete}
use mcp_opa.Authzen.Codec.{encode_discover, Codec, DiscoverOutput}
use mcp_opa.Authzen.EvaluateLaws.{structured_result_sound, structured_result_complete}
use mcp_opa.Authzen.Handlers.{
  pdp, no_pdp_url, Structured, structured_result, url_step, report_metadata, authzen_discover,
}

abbrev pub discover_url : Config → Request → Bytes
discover_url cfg req =
    if is_empty (req.get_string "pdp_url" []) then cfg.pdp_url else req.get_string "pdp_url" []

pub record IsDiscovered (urls : UrlPackage) (codec : Codec) (cfg : Config) (entropy : Option Bytes)
    (req : Request) (net : Network) (out : Structured DiscoverOutput) : Type 0 where
  pub given : discover_url cfg req ≢ []
  pub root : Bytes
  pub rooted : root_of urls (discover_url cfg req) ≡ ok root
  pub resolved : resolve_from_root urls root path_metadata ≡ ok out.value.metadata_url
  pub obtains :
      Obtains urls codec.metadata net cfg.pdp_max_bytes
        (get_request cfg (new_request_id entropy) out.value.metadata_url)
        out.value.metadata
  pub names_endpoint : out.value.metadata.access_evaluation_endpoint ≢ []
  pub text_is : encode_discover codec out.value ≡ ok out.text

report_metadata_sound :
    (codec : Codec) (net : Network) (url : Bytes) (meta : PdpMetadata)
    {out : Structured DiscoverOutput}
    → answer net (report_metadata codec url meta) ≡ ok out
    → (meta.access_evaluation_endpoint ≢ [])
      × (out.value.metadata_url ≡ url)
      × (out.value.metadata ≡ meta)
      × (encode_discover codec out.value ≡ ok out.text)
report_metadata_sound codec net url meta {out} h =
    elim (Bool-cases (is_empty meta.access_evaluation_endpoint)) [
      | inl lacks ↦ absurd (unfold report_metadata answer in ground (arith, lacks))
      | inr has ↦
          let v : DiscoverOutput = record { metadata_url = url; metadata = meta } in
          let (value, text) =
            structured_result_sound (encode_discover codec) net v {out = out} (named has ∙ h) in
          (
            ground (arith, has),
            ap (λ (v : DiscoverOutput). v.metadata_url) value,
            ap (λ (v : DiscoverOutput). v.metadata) value,
            ap (encode_discover codec) value ∙ text,
          )
    ]
  where
    named :
        is_empty meta.access_evaluation_endpoint ≡ false
        → answer net (
            structured_result
              (encode_discover codec)
              (record { metadata_url = url; metadata = meta }))
          ≡ answer net (report_metadata codec url meta)
    named has = unfold report_metadata in rw has

authzen_discover-IsDiscovered :
    (urls : UrlPackage) (codec : Codec) (cfg : Config) (entropy : Option Bytes) (req : Request)
    (net : Network) (out : Structured DiscoverOutput)
    → answer net (authzen_discover urls codec cfg entropy req) ≡ ok out
    → IsDiscovered urls codec cfg entropy req net out
unfolding authzen_discover
authzen_discover-IsDiscovered urls codec cfg entropy req net out h =
    let (u, h0, h1) =
      answer->>=-eq-ok net
        (attempt (λ e. e) (refuse_if (is_empty (discover_url cfg req)) no_pdp_url)) _ h in
    let (root, h2, h3) =
      answer->>=-eq-ok net (url_step (root_of urls (discover_url cfg req))) _ h1 in
    let (url, h4, h5) =
      answer->>=-eq-ok net (url_step (resolve_from_root urls root path_metadata)) _ h3 in
    let (meta, h6, h7) =
      answer->>=-eq-ok net (relabel pdp (get_json urls codec.metadata cfg entropy url)) _ h5 in
    let (named, url_is, meta_is, text) = report_metadata_sound codec net url meta {out = out} h7 in
    let o =
      get_json_sound urls codec.metadata cfg entropy url net meta
        (answer-relabel-eq-ok net pdp (get_json urls codec.metadata cfg entropy url) h6) in
    record {
      given =
          ground (
            arith,
            answer-attempt net _ (refuse_if (is_empty (discover_url cfg req)) no_pdp_url) h0,
          );
      root = root;
      rooted = answer-attempt net _ (root_of urls (discover_url cfg req)) h2;
      resolved =
          answer-attempt net _ (resolve_from_root urls root path_metadata) h4 ∙ ap ok (sym url_is);
      obtains =
          subst
            (λ m.
              Obtains urls codec.metadata net cfg.pdp_max_bytes
                (get_request cfg (new_request_id entropy) out.value.metadata_url) m)
            (sym meta_is)
            (subst
              (λ u.
                Obtains urls codec.metadata net cfg.pdp_max_bytes
                  (get_request cfg (new_request_id entropy) u) meta)
              (sym url_is) o);
      names_endpoint = rw meta_is named;
      text_is = text;
    }

IsDiscovered-authzen_discover :
    (urls : UrlPackage) (codec : Codec) (cfg : Config) (entropy : Option Bytes) (req : Request)
    (net : Network) (out : Structured DiscoverOutput)
    → IsDiscovered urls codec cfg entropy req net out
    → answer net (authzen_discover urls codec cfg entropy req) ≡ ok out
unfolding authzen_discover
IsDiscovered-authzen_discover urls codec cfg entropy req net out d =
    let url = out.value.metadata_url in
    let meta = out.value.metadata in
    let get = get_json urls codec.metadata cfg entropy url in
    ap (answer net) (attempt->>=_of_ok _ _ (given_not_refused (discover_url cfg req) d.given))
    ∙ ap (answer net) (attempt->>=_of_ok _ _ d.rooted)
    ∙ ap (answer net) (attempt->>=_of_ok _ _ d.resolved)
    ∙ answer->>=_of_ok net (relabel pdp get) _ meta (
        answer-relabel net pdp get
        ∙ ap (map_err pdp)
            (get_json_complete urls codec.metadata cfg entropy url net meta d.obtains))
    ∙ unfold report_metadata in
      rw (not_empty meta.access_evaluation_endpoint d.names_endpoint) (
        ap (answer net)
          (structured_result_complete (encode_discover codec) net out.value out.text d.text_is)
        ∙ unfold answer in refl)
  where
    not_empty : (s : Bytes) → s ≢ [] → is_empty s ≡ false
    not_empty s h = ground arith

    given_not_refused : (s : Bytes) → s ≢ [] → refuse_if (is_empty s) no_pdp_url ≡ ok tt
    given_not_refused s h = ground arith

-- Metadata are reported exactly when they were served, with status 200, at the metadata path of the
-- root that is derived from the URL given or configured, and name an evaluation endpoint; the
-- result is these metadata and the URL that they were served at.
pub authzen_discover_iff :
    (urls : UrlPackage) (codec : Codec) (cfg : Config) (entropy : Option Bytes) (req : Request)
    (net : Network) (out : Structured DiscoverOutput)
    → (answer net (authzen_discover urls codec cfg entropy req) ≡ ok out)
      ↔ IsDiscovered urls codec cfg entropy req net out
authzen_discover_iff urls codec cfg entropy req net out = (
  authzen_discover-IsDiscovered urls codec cfg entropy req net out,
  IsDiscovered-authzen_discover urls codec cfg entropy req net out,
)

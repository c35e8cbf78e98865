-- ===== src/Opa/SandboxLaws.antt =====
-- The sandbox removes exactly the three built-ins, and the fetching of schemas.
use mcp_opa.Base.{
  ◌≡◌, ◌↔◌, ◌≢◌, ◌⊎◌, inl, inr, refl, true, false, List, [], ◌∷◌, some, String, str_eq, str_eq_iff,
  arith, Bool-cases,
}
use mcp_opa.Config.Load.{Config}
use mcp_opa.Opa.Sandbox.{
  Builtin, Capabilities, sandboxed_builtins, listed, keep_builtins, without_builtins, capabilities,
}

abbrev pub Occurs : {A : Type 0} → A → List A → Type 0
Occurs x [] = ⊥
Occurs x (y ∷ ys) = (x ≡ y) ⊎ Occurs x ys

listed_sound : (name : String) (names : List String) → listed name names ≡ true → Occurs name names
listed_sound name [] h = absurd (ground arith)
listed_sound name (n ∷ ns) h = elim (Bool-cases (str_eq n name)) [
  | inl same ↦ inl (ground (arith, str_eq_iff n name))
  | inr other ↦ inr (listed_sound name ns (ground arith))
]

listed_complete :
    (name : String) (names : List String) → Occurs name names → listed name names ≡ true
listed_complete name [] h = absurd h
listed_complete name (n ∷ ns) (inl e) = ground (arith, str_eq_iff n name)
listed_complete name (n ∷ ns) (inr o) = ground (arith, listed_complete name ns o)

module _ {Decl : Type 0} (names : List String) (b : Builtin Decl) where
  keep_sound :
      (bs : List (Builtin Decl))
      → Occurs b (keep_builtins names bs)
      → Occurs b bs × (¬ Occurs b.name names)
  unfolding keep_builtins
  keep_sound [] o = absurd o
  keep_sound (c ∷ bs) o = elim (Bool-cases (listed c.name names)) [
    | inl out ↦ let (found, clear) = keep_sound bs (rw out at o) in (inr found, clear)
    | inr kept ↦ by_place kept (keep_sound bs) (rw kept at o)
  ]
    where
      by_place :
          listed c.name names ≡ false
          → (Occurs b (keep_builtins names bs) → Occurs b bs × (¬ Occurs b.name names))
          → (b ≡ c) ⊎ Occurs b (keep_builtins names bs)
          → Occurs b (c ∷ bs) × (¬ Occurs b.name names)
      by_place kept ih (inl e) = (inl e, λ o. ground (arith, listed_complete b.name names o, e))
      by_place kept ih (inr o) = let (found, clear) = ih o in (inr found, clear)

  keep_complete :
      (bs : List (Builtin Decl))
      → Occurs b bs
      → ¬ Occurs b.name names
      → Occurs b (keep_builtins names bs)
  unfolding keep_builtins
  keep_complete [] o clear = absurd o
  keep_complete (c ∷ bs) (inl e) clear = elim (Bool-cases (listed c.name names)) [
    | inl out ↦ absurd (clear (listed_sound b.name names (ground (arith, e))))
    | inr kept ↦ rw kept (inl e)
  ]
  keep_complete (c ∷ bs) (inr o) clear = elim (Bool-cases (listed c.name names)) [
    | inl out ↦ rw out (keep_complete bs o clear)
    | inr kept ↦ rw kept (inr (keep_complete bs o clear))
  ]

-- A policy that is evaluated with the network built-ins off may call a built-in exactly when OPA
-- has it and it is none of http.send, net.lookup_ip_addr and opa.runtime; no host may be asked for
-- a schema, and the other capabilities are OPA's.
pub capabilities-sandbox :
    {Decl Rest : Type 0} (base : Capabilities Decl Rest) (cfg : Config) (b : Builtin Decl)
    → cfg.allow_network_builtins ≡ false
    → (Occurs b (capabilities base cfg).builtins ↔ (
        Occurs b base.builtins
        × (b.name ≢ "http.send")
        × (b.name ≢ "net.lookup_ip_addr")
        × (b.name ≢ "opa.runtime")))
      × ((capabilities base cfg).allow_net ≡ some [])
      × ((capabilities base cfg).rest ≡ base.rest)
capabilities-sandbox {Decl} {Rest} base cfg b off = rw closed (iff, refl, refl)
  where
    closed : capabilities base cfg ≡ record base {
      builtins = keep_builtins sandboxed_builtins base.builtins;
      allow_net = some [];
    }
    closed = unfold capabilities without_builtins in rw off

    clear_of :
        b.name ≢ "http.send"
        → b.name ≢ "net.lookup_ip_addr"
        → b.name ≢ "opa.runtime"
        → ¬ Occurs b.name sandboxed_builtins
    clear_of p q r (inl e) = p e
    clear_of p q r (inr (inl e)) = q e
    clear_of p q r (inr (inr (inl e))) = r e
    clear_of p q r (inr (inr (inr o))) = o

    iff : Occurs b (keep_builtins sandboxed_builtins base.builtins) ↔ (
        Occurs b base.builtins
        × (b.name ≢ "http.send")
        × (b.name ≢ "net.lookup_ip_addr")
        × (b.name ≢ "opa.runtime"))
    iff = (
      (λ o.
          let (found, clear) = keep_sound sandboxed_builtins b base.builtins o in
          (found, λ e. clear (inl e), λ e. clear (inr (inl e)), λ e. clear (inr (inr (inl e))))),
      λ h. keep_complete sandboxed_builtins b base.builtins h.0 (clear_of h.1 h.2 h.3),
    )

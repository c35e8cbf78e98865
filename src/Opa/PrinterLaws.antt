-- ===== src/Opa/PrinterLaws.antt =====
-- The collector of prints keeps the first two hundred messages, each cut to its bound, counts the
-- rest, and says whether anything was lost.
use mcp_opa.Base.{
  ℕ, zero, suc, ◌+◌, ◌-◌, ◌≡◌, ◌≤◌, ◌<◌, ◌↔◌, ◌⊎◌, refl, ap, sym, ◌∙◌, Bool, true, ◌||◌, List, [],
  ◌∷◌, ◌++◌, map, Bytes, length, take, any, ltb, arith, length-append, length-map, length-take,
  append_assoc, append-nil, All,
}
use mcp_opa.Text.Truncate.{truncate, length-truncate, truncate_short}
use mcp_opa.Opa.Printer.{is_long, PrintCollector, no_prints, print_message, print_all, lines}

abbrev pub cut_line : Bytes → Bytes
cut_line msg = truncate 1024 msg

-- A collector that has room for `k` more messages, after some more.
abbrev after : PrintCollector → ℕ → List Bytes → PrintCollector
after p room msgs = record {
  out = p.out ++ map cut_line (take room msgs);
  dropped = p.dropped + (length msgs - room);
  truncated = p.truncated || any is_long (take room msgs);
}

after_eq :
    {o o' : List Bytes} {d d' : ℕ} {t t' : Bool}
    → o ≡ o'
    → d ≡ d'
    → t ≡ t'
    → ◌≡◌ {A = PrintCollector}
        (record { out = o; dropped = d; truncated = t })
        (record { out = o'; dropped = d'; truncated = t' })
after_eq p q r = λ i. record { out = p i; dropped = q i; truncated = r i }

print_message_full :
    (p : PrintCollector) (m : Bytes)
    → 200 ≤ length p.out
    → print_message p m ≡ record p { dropped = p.dropped + 1 }
unfolding print_message
print_message_full p m h = ground arith

print_message_room :
    (p : PrintCollector) (m : Bytes)
    → length p.out < 200
    → print_message p m
      ≡ record p { out = p.out ++ cut_line m ∷ []; truncated = p.truncated || is_long m }
unfolding print_message
print_message_room p m h = ground (arith, truncate_short 1024 m)

print_full :
    (p : PrintCollector) (msgs : List Bytes)
    → 200 ≤ length p.out
    → print_all p msgs ≡ record p { dropped = p.dropped + length msgs }
unfolding print_all
print_full p [] h = ground arith
print_full p (m ∷ msgs) h =
    let q : PrintCollector = record p { dropped = p.dropped + 1 } in
    ap (λ c. print_all c msgs) (print_message_full p m h)
    ∙ print_full q msgs h
    ∙ ap (λ d. record p { dropped = d }) (omega arith)

print_room :
    (room : ℕ) (p : PrintCollector) (msgs : List Bytes)
    → length p.out + room ≡ 200
    → print_all p msgs ≡ after p room msgs
unfolding print_all
print_room zero p msgs h =
    print_full p msgs (omega arith) ∙ after_eq (sym (append-nil p.out)) (omega arith) (ground arith)
print_room (suc room) p [] h = after_eq (sym (append-nil p.out)) (omega arith) (ground arith)
print_room (suc room) p (m ∷ msgs) h =
    let q : PrintCollector = record p {
      out = p.out ++ cut_line m ∷ [];
      truncated = p.truncated || is_long m;
    } in
    ap (λ c. print_all c msgs) (print_message_room p m (omega arith))
    ∙ print_room room q msgs (omega (arith, length-append p.out (cut_line m ∷ [])))
    ∙ after_eq (append_assoc p.out (cut_line m ∷ []) (map cut_line (take room msgs))) (omega arith)
        (ground arith)

-- All that is known of the collector after the calls `msgs`.
pub record KeepsPrints (msgs : List Bytes) (p : PrintCollector) : Type 0 where
  pub kept : p.out ≡ map cut_line (take 200 msgs)
  pub counted : length p.out + p.dropped ≡ length msgs
  pub at_most : length p.out ≤ 200
  pub each_bounded : All (λ line. length line ≤ 1039) p.out
  pub lost_iff : ((lines p).1 ≡ true) ↔ ((200 < length msgs) ⊎ (any is_long (take 200 msgs) ≡ true))

cut_lines_bounded : (msgs : List Bytes) → All (λ line. length line ≤ 1039) (map cut_line msgs)
cut_lines_bounded [] = tt
cut_lines_bounded (m ∷ msgs) = (length-truncate 1024 m, cut_lines_bounded msgs)

lost_of :
    (long : Bool) (n : ℕ) → ((long || ltb 0 (0 + (n - 200))) ≡ true) ↔ ((200 < n) ⊎ (long ≡ true))
lost_of long n = (λ h. ground arith, λ h. ground arith)

-- Whatever a policy prints, the collector holds the first two hundred messages in their order, cut
-- to 1024 bytes and the mark; it has counted the others, and reports that output was lost exactly
-- when there were more messages or one of the first two hundred was longer.
pub print_all-KeepsPrints : (msgs : List Bytes) → KeepsPrints msgs (print_all no_prints msgs)
print_all-KeepsPrints msgs = rw (print_room 200 no_prints msgs refl) (record {
  kept = refl;
  counted = omega (arith, length-map cut_line (take 200 msgs), length-take 200 msgs);
  at_most = omega (arith, length-map cut_line (take 200 msgs), length-take 200 msgs);
  each_bounded = cut_lines_bounded (take 200 msgs);
  lost_iff = lost_of (any is_long (take 200 msgs)) (length msgs);
})

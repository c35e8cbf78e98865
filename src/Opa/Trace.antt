-- ===== src/Opa/Trace.antt =====
-- tool_opa.go: `formatTrace`. OPA's printer of traces, `PrettyTraceWithLocation`, is a parameter.
use mcp_opa.Base.{
  ℕ, ◌≡◌, ◌≤◌, ◌<◌, ◌↔◌, ◌⊎◌, inl, inr, refl, ap, sym, ◌∙◌, Bool, true, false, ◌||◌, List, [], ◌∷◌,
  map, Bytes, is_empty, length, take, any, ltb, if◌then◌else◌, arith, All, length-map, length-take,
  take_all, Bool-cases, ltb→le,
}
use mcp_opa.Text.Truncate.{truncate, length-truncate, truncate_short}
use mcp_opa.Text.Lines.{trim_end, split, join, join-split}
use mcp_opa.Opa.Printer.{max_trace_lines, max_print_line_bytes, is_long}

-- The loop that cuts the long lines and notes whether there was one.
unfoldable pub cut_long : List Bytes → Bool → List Bytes × Bool
cut_long [] truncated = ([], truncated)
cut_long (l ∷ ls) truncated =
    let (rest, t) = cut_long ls (truncated || is_long l) in
    ((if is_long l then truncate max_print_line_bytes l else l) ∷ rest, t)

module _ {Event : Type 0} (pretty : List Event → Bytes) where
  unfoldable pub trace_lines : List Event → List Bytes
  trace_lines events = split b'\n' (trim_end b'\n' (pretty events))

  unfoldable pub format_trace : List Event → Bool → List Bytes × Bool
  format_trace events dropped =
      if is_empty events
      then ([], dropped)
      else if ltb max_trace_lines (length (trace_lines events))
      then cut_long (take max_trace_lines (trace_lines events)) true
      else cut_long (trace_lines events) dropped

abbrev cut_line : Bytes → Bytes
cut_line l = truncate 1024 l

cut_long-eq : (ls : List Bytes) (t : Bool) → cut_long ls t ≡ (map cut_line ls, t || any is_long ls)
unfolding cut_long
cut_long-eq [] t = ground arith
cut_long-eq (l ∷ ls) t = ground (arith, cut_long-eq ls (t || is_long l), truncate_short 1024 l)

cut_lines_bounded : (ls : List Bytes) → All (λ line. length line ≤ 1039) (map cut_line ls)
cut_lines_bounded [] = tt
cut_lines_bounded (l ∷ ls) = (length-truncate 1024 l, cut_lines_bounded ls)

-- Lines none of which is long are left as they are.
cut_lines_short : (ls : List Bytes) → any is_long ls ≡ false → map cut_line ls ≡ ls
cut_lines_short [] h = refl
cut_lines_short (l ∷ ls) h = ground (arith, truncate_short 1024 l, cut_lines_short ls)

lost_of :
    (dropped long : Bool) (n : ℕ)
    → ((if ltb 200 n then true || long else (dropped || long)) ≡ true)
      ↔ ((dropped ≡ true) ⊎ (200 < n) ⊎ (long ≡ true))
lost_of dropped long n = (λ h. ground arith, λ h. ground arith)

whole_of :
    (dropped long : Bool) (n : ℕ)
    → (if ltb 200 n then true || long else (dropped || long)) ≡ false
    → (n ≤ 200) × (long ≡ false)
whole_of dropped long n h = (ground arith, ground arith)

module _ {Event : Type 0} (pretty : List Event → Bytes) (events : List Event) (dropped : Bool) where
  format_trace-eq :
      is_empty events ≡ false
      → format_trace pretty events dropped ≡ (
        map cut_line (take 200 (trace_lines pretty events)),
        (if ltb 200 (length (trace_lines pretty events))
            then true || any is_long (take 200 (trace_lines pretty events))
            else (dropped || any is_long (take 200 (trace_lines pretty events)))),
      )
  unfolding format_trace
  format_trace-eq some_event = elim (Bool-cases (ltb 200 (length (trace_lines pretty events)))) [
    | inl over ↦ rw (some_event, over) (cut_long-eq (take 200 (trace_lines pretty events)) true)
    | inr fits ↦
        rw (some_event, fits)
          (rw
            (take_all 200 (trace_lines pretty events)
              (ltb→le 200 (length (trace_lines pretty events)) fits))
            (cut_long-eq (trace_lines pretty events) dropped))
  ]

  -- A trace with an event is shown as the first two hundred lines of OPA's text, each cut to 1024
  -- bytes and the mark; and it is marked as truncated exactly when events were dropped, when there
  -- are more lines, or when one of those shown was longer.
  pub format_trace_shows :
      is_empty events ≡ false
      → ((format_trace pretty events dropped).0
          ≡ map cut_line (take 200 (trace_lines pretty events)))
        × (length (format_trace pretty events dropped).0 ≤ 200)
        × All (λ line. length line ≤ 1039) (format_trace pretty events dropped).0
        × (((format_trace pretty events dropped).1 ≡ true) ↔ (
            (dropped ≡ true)
            ⊎ (200 < length (trace_lines pretty events))
            ⊎ (any is_long (take 200 (trace_lines pretty events)) ≡ true)))
  format_trace_shows some_event = rw (format_trace-eq some_event) (
    refl,
    omega (
      arith,
      length-map cut_line (take 200 (trace_lines pretty events)),
      length-take 200 (trace_lines pretty events),
    ),
    cut_lines_bounded (take 200 (trace_lines pretty events)),
    lost_of dropped (any is_long (take 200 (trace_lines pretty events)))
        (length (trace_lines pretty events)),
  )

  -- Of a trace with an event, what is shown and not marked as truncated is OPA's text, but for
  -- the newlines at its end.
  format_trace_whole :
      is_empty events ≡ false
      → (format_trace pretty events dropped).1 ≡ false
      → join b'\n' (format_trace pretty events dropped).0 ≡ trim_end b'\n' (pretty events)
  format_trace_whole some_event whole =
      let shown = trace_lines pretty events in
      let flag = ap (λ r. r.1) (sym (format_trace-eq some_event)) ∙ whole in
      let (fits, short) = whole_of dropped (any is_long (take 200 shown)) (length shown) flag in
      let all_shown : take 200 shown ≡ shown = take_all 200 shown fits in
      ap (λ r. join b'\n' r.0) (format_trace-eq some_event)
      ∙ ap (join b'\n') (cut_lines_short (take 200 shown) short ∙ all_shown)
      ∙ unfold trace_lines in join-split b'\n' (trim_end b'\n' (pretty events))

-- Whatever the events, what is shown is bounded.
pub format_trace_bounds :
    {Event : Type 0} (pretty : List Event → Bytes) (events : List Event) (dropped : Bool)
    → (length (format_trace pretty events dropped).0 ≤ 200)
      × All (λ line. length line ≤ 1039) (format_trace pretty events dropped).0
unfolding format_trace
format_trace_bounds pretty [] dropped = (omega arith, tt)
format_trace_bounds pretty (e ∷ es) dropped =
    let (kept, lines, bytes, lost) = format_trace_shows pretty (e ∷ es) dropped refl in
    (lines, bytes)

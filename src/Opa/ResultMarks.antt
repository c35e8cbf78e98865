-- ===== src/Opa/ResultMarks.antt =====
-- What the result of evaluate_policy says of the rows, the prints and the trace, with its marks.
use mcp_opa.Base.{
  ◌∷◌, ◌-◌, ◌≡◌, ◌≢◌, ◌≤◌, ◌<◌, ◌↔◌, ◌⊎◌, inl, inr, refl, ◌∙◌, Bool, true, false, List, [], map,
  none, Bytes, length, take, any, ltb, Bool-cases, arith, All,
}
use mcp_opa.Json.{null}
use mcp_opa.Opa.Printer.{no_prints, print_all, lines, is_long}
use mcp_opa.Opa.PrinterLaws.{cut_line, print_all-KeepsPrints}
use mcp_opa.Opa.Tracer.{no_events, trace_all, trace_all-take}
use mcp_opa.Text.Lines.{split, trim_end}
use mcp_opa.Opa.Trace.{format_trace, format_trace_bounds, format_trace_shows, trace_lines}
use mcp_opa.Opa.Size.{encodes_within}
use mcp_opa.Opa.Evaluate.{
  ResultSet, rows, EvaluateResult, OpaCodec, single_value, with_results, with_trace,
}

-- What is said of the results: that there are some, and as much of them as fits 256 KiB.
pub record TellsResults (codec : OpaCodec) (rs : ResultSet) (out : EvaluateResult) : Type 0 where
  pub defined_iff : (out.defined ≡ true) ↔ (rows rs ≢ [])
  pub whole_or_omitted :
      ((encodes_within codec.encode_results rs 262144 ≡ true)
        × (out.result_set ≡ rs)
        × (out.result_set_omitted ≡ false)
        × (out.value ≡ single_value rs))
      ⊎ ((encodes_within codec.encode_results rs 262144 ≡ false)
          × (out.result_set ≡ none)
          × (out.result_set_omitted ≡ true)
          × (((encodes_within codec.encode_value (single_value rs) 262144 ≡ true)
                × (out.value ≡ single_value rs))
              ⊎ ((encodes_within codec.encode_value (single_value rs) 262144 ≡ false)
                  × (out.value ≡ null))))

-- The lines of OPA's text for the first 800 events.
abbrev pub shown_lines : {Event : Type 0} → (List Event → Bytes) → List Event → List Bytes
shown_lines pretty events = split b'\n' (trim_end b'\n' (pretty (take 800 events)))

-- What is shown of a trace: nothing of none, and else the first 200 lines, each cut; it is marked
-- exactly where events, lines or the end of a line were lost.
abbrev pub TellsTrace :
    {Event : Type 0} → (List Event → Bytes) → List Event → List Bytes → Bool → Type 0
TellsTrace pretty events shown marked =
    ((events ≡ []) × (shown ≡ []) × (marked ≡ false))
    ⊎ ((events ≢ [])
        × (shown ≡ map cut_line (take 200 (shown_lines pretty events)))
        × ((marked ≡ true) ↔ (
            (800 < length events)
            ⊎ (200 < length (shown_lines pretty events))
            ⊎ (any is_long (take 200 (shown_lines pretty events)) ≡ true))))

-- The bounds on what a policy puts into its result, and the marks where something was cut.
pub record IsBoundedResult {Event : Type 0} (pretty : List Event → Bytes) (events : List Event)
    (prints : List Bytes) (tracing : Bool) (out : EvaluateResult) : Type 0 where
  pub printed_is : out.printed ≡ map cut_line (take 200 prints)
  pub printed_lost :
      (out.printed_truncated ≡ true)
      ↔ ((200 < length prints) ⊎ (any is_long (take 200 prints) ≡ true))
  pub printed_lines : length out.printed ≤ 200
  pub printed_bytes : All (λ line. length line ≤ 1039) out.printed
  pub trace_lines : length out.trace ≤ 200
  pub trace_bytes : All (λ line. length line ≤ 1039) out.trace
  pub traced : tracing ≡ true → TellsTrace pretty events out.trace out.trace_truncated
  pub no_trace : (tracing ≡ true) ⊎ ((out.trace ≡ []) × (out.trace_truncated ≡ false))

module _ (codec : OpaCodec) (rs : ResultSet) where
  pub with_results-TellsResults :
      (out : EvaluateResult)
      → out.defined ≡ ltb 0 (length (rows rs))
      → out.value ≡ null
      → out.result_set ≡ none
      → out.result_set_omitted ≡ false
      → TellsResults codec rs (with_results codec rs out)
  unfolding with_results
  with_results-TellsResults out d v r o = record {
    defined_iff = (λ h. ground (arith, d), λ h. ground (arith, d));
    whole_or_omitted = elim (Bool-cases (encodes_within codec.encode_results rs 262144)) [
      | inl fits ↦ inl (fits, ground (arith, fits), ground (arith, fits, o), ground (arith, fits))
      | inr large ↦ elim (Bool-cases (encodes_within codec.encode_value (single_value rs) 262144)) [
        | inl small ↦ inr (
          large,
          ground (arith, large, small, r),
          ground (arith, large, small),
          inl (small, ground (arith, large, small)),
        )
        | inr huge ↦ inr (
          large,
          ground (arith, large, huge, r),
          ground (arith, large, huge),
          inr (huge, ground (arith, large, huge, v)),
        )
      ]
    ];
  }

format_trace-TellsTrace :
    {Event : Type 0} (pretty : List Event → Bytes) (events : List Event)
    → (let t = trace_all no_events events in
        let shown = format_trace pretty t.events (ltb 0 t.dropped) in
        TellsTrace pretty events shown.0 shown.1)
unfolding trace_lines
format_trace-TellsTrace pretty [] =
    inl (refl, unfold trace_all format_trace in refl, unfold trace_all format_trace in refl)
format_trace-TellsTrace pretty (e ∷ es) =
    let (kept, count, few) = trace_all-take (e ∷ es) in
    let (shown, n, b, marked) =
      format_trace_shows pretty (take 800 (e ∷ es)) (ltb 0 (length (e ∷ es) - 800)) refl in
    rw (kept, count) (inr (λ h. cc, shown, (λ m. over_of (marked.0 m), λ o. marked.1 (of_over o))))
  where
    over_of :
        {A : Type 0} → (ltb 0 (length (e ∷ es) - 800) ≡ true) ⊎ A → (800 < length (e ∷ es)) ⊎ A
    over_of (inl h) = inl (ground arith)
    over_of (inr a) = inr a

    of_over :
        {A : Type 0} → (800 < length (e ∷ es)) ⊎ A → (ltb 0 (length (e ∷ es) - 800) ≡ true) ⊎ A
    of_over (inl h) = inl (ground arith)
    of_over (inr a) = inr a

module _ {Event : Type 0} (codec : OpaCodec) (pretty : List Event → Bytes) (events : List Event)
    (out : EvaluateResult) where
  pub with_trace-TellsResults :
      (tracing : Bool) (rs : ResultSet)
      → TellsResults codec rs out
      → TellsResults codec rs (with_trace pretty tracing events out)
  unfolding with_trace
  with_trace-TellsResults true rs t = record {
    defined_iff = t.defined_iff;
    whole_or_omitted = t.whole_or_omitted;
  }
  with_trace-TellsResults false rs t = t

  pub with_trace-IsBoundedResult :
      (tracing : Bool) (prints : List Bytes)
      → out.printed ≡ (lines (print_all no_prints prints)).0
      → out.printed_truncated ≡ (lines (print_all no_prints prints)).1
      → out.trace ≡ []
      → out.trace_truncated ≡ false
      → IsBoundedResult pretty events prints tracing (with_trace pretty tracing events out)
  unfolding with_trace
  with_trace-IsBoundedResult true prints p t no_lines no_mark =
      let k = print_all-KeepsPrints prints in
      let (few, short) =
        format_trace_bounds pretty (trace_all no_events events).events
          (ltb 0 (trace_all no_events events).dropped) in
      record {
        printed_is = p ∙ k.kept;
        printed_lost = rw t k.lost_iff;
        printed_lines = rw p k.at_most;
        printed_bytes = rw p k.each_bounded;
        trace_lines = few;
        trace_bytes = short;
        traced = λ on. format_trace-TellsTrace pretty events;
        no_trace = inl refl;
      }
  with_trace-IsBoundedResult false prints p t no_lines no_mark =
      let k = print_all-KeepsPrints prints in
      record {
        printed_is = p ∙ k.kept;
        printed_lost = rw t k.lost_iff;
        printed_lines = rw p k.at_most;
        printed_bytes = rw p k.each_bounded;
        trace_lines = rw no_lines (omega arith);
        trace_bytes = rw no_lines tt;
        traced = λ on. cc;
        no_trace = inr (no_lines, no_mark);
      }

pub with_results-keeps :
    (codec : OpaCodec) (rs : ResultSet) (out : EvaluateResult)
    → ((with_results codec rs out).printed ≡ out.printed)
      × ((with_results codec rs out).printed_truncated ≡ out.printed_truncated)
      × ((with_results codec rs out).trace ≡ out.trace)
      × ((with_results codec rs out).trace_truncated ≡ out.trace_truncated)
unfolding with_results
with_results-keeps codec rs out = (ground arith, ground arith, ground arith, ground arith)

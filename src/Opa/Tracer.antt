-- ===== src/Opa/Tracer.antt =====
-- tool_opa.go: `boundedTracer`. `TraceEvent` holds the mutex throughout, so it is one step.
use mcp_opa.Base.{
  ℕ, zero, suc, ◌+◌, ◌-◌, ◌≡◌, ◌≤◌, ◌<◌, refl, ap, sym, ◌∙◌, List, [], ◌∷◌, ◌++◌, length, take, leb,
  if◌then◌else◌, arith, length-append, append_assoc, append-nil, length-take,
}
use mcp_opa.Opa.Printer.{max_trace_events}

pub record BoundedTracer (Event : Type 0) : Type 0 where
  pub events : List Event
  pub dropped : ℕ

module _ {Event : Type 0} where
  abbrev pub no_events : BoundedTracer Event
  no_events = record { events = []; dropped = 0 }

  unfoldable pub trace_event : BoundedTracer Event → Event → BoundedTracer Event
  trace_event t evt =
      if leb max_trace_events (length t.events)
      then record t { dropped = t.dropped + 1 }
      else record t { events = t.events ++ evt ∷ [] }

  unfoldable pub trace_all : BoundedTracer Event → List Event → BoundedTracer Event
  trace_all t [] = t
  trace_all t (e ∷ es) = trace_all (trace_event t e) es

  trace_event_full :
      (t : BoundedTracer Event) (e : Event)
      → 800 ≤ length t.events
      → trace_event t e ≡ record t { dropped = t.dropped + 1 }
  unfolding trace_event
  trace_event_full t e h = ground arith

  trace_event_room :
      (t : BoundedTracer Event) (e : Event)
      → length t.events < 800
      → trace_event t e ≡ record t { events = t.events ++ e ∷ [] }
  unfolding trace_event
  trace_event_room t e h = ground arith

  trace_full :
      (t : BoundedTracer Event) (es : List Event)
      → 800 ≤ length t.events
      → trace_all t es ≡ record t { dropped = t.dropped + length es }
  unfolding trace_all
  trace_full t [] h = ground arith
  trace_full t (e ∷ es) h =
      let u : BoundedTracer Event = record t { dropped = t.dropped + 1 } in
      ap (λ c. trace_all c es) (trace_event_full t e h)
      ∙ trace_full u es h
      ∙ ap (λ d. record t { dropped = d }) (omega arith)

  tracer_eq :
      {o o' : List Event} {d d' : ℕ}
      → o ≡ o'
      → d ≡ d'
      → ◌≡◌ {A = BoundedTracer Event}
          (record { events = o; dropped = d })
          (record { events = o'; dropped = d' })
  tracer_eq p q = λ i. record { events = p i; dropped = q i }

  trace_room :
      (room : ℕ) (t : BoundedTracer Event) (es : List Event)
      → length t.events + room ≡ 800
      → trace_all t es
        ≡ record { events = t.events ++ take room es; dropped = t.dropped + (length es - room) }
  unfolding trace_all
  trace_room zero t es h =
      trace_full t es (omega arith) ∙ tracer_eq (sym (append-nil t.events)) (omega arith)
  trace_room (suc room) t [] h = tracer_eq (sym (append-nil t.events)) (omega arith)
  trace_room (suc room) t (e ∷ es) h =
      let u : BoundedTracer Event = record t { events = t.events ++ e ∷ [] } in
      ap (λ c. trace_all c es) (trace_event_room t e (omega arith))
      ∙ trace_room room u es (omega (arith, length-append t.events (e ∷ [])))
      ∙ tracer_eq (append_assoc t.events (e ∷ []) (take room es)) (omega arith)

  -- The tracer holds the first 800 events in their order, and has counted the others.
  pub trace_all-take :
      (es : List Event)
      → ((trace_all no_events es).events ≡ take 800 es)
        × ((trace_all no_events es).dropped ≡ length es - 800)
        × (length (trace_all no_events es).events ≤ 800)
  trace_all-take es =
      rw (trace_room 800 no_events es refl) (refl, omega arith, omega (arith, length-take 800 es))

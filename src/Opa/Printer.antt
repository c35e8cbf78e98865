-- ===== src/Opa/Printer.antt =====
-- tool_opa.go: `printCollector`. Each method holds the mutex from its first line to its last, so a
-- method is one step; calls from several goroutines are taken one after another.
use mcp_opa.Base.{
  ℕ, ◌+◌, ◌*◌, Bool, true, false, ◌||◌, List, [], ◌∷◌, ◌++◌, Bytes, length, leb, ltb, if◌then◌else◌,
}
use mcp_opa.Text.Truncate.{truncate}

abbrev pub max_trace_lines : ℕ
max_trace_lines = 200

abbrev pub max_print_lines : ℕ
max_print_lines = 200

abbrev pub max_print_line_bytes : ℕ
max_print_line_bytes = 1024

abbrev pub max_trace_events : ℕ
max_trace_events = 4 * max_trace_lines

abbrev pub max_result_bytes : ℕ
max_result_bytes = 256 * 1024

-- `len(msg) > maxPrintLineBytes`
abbrev pub is_long : Bytes → Bool
is_long msg = ltb max_print_line_bytes (length msg)

pub record PrintCollector : Type 0 where
  pub out : List Bytes
  pub dropped : ℕ
  pub truncated : Bool

abbrev pub no_prints : PrintCollector
no_prints = record { out = []; dropped = 0; truncated = false }

unfoldable pub print_message : PrintCollector → Bytes → PrintCollector
print_message p msg =
    if leb max_print_lines (length p.out)
    then record p { dropped = p.dropped + 1 }
    else if is_long msg
    then record p { out = p.out ++ truncate max_print_line_bytes msg ∷ []; truncated = true }
    else record p { out = p.out ++ msg ∷ [] }

-- The calls of `Print` in the order in which they get the mutex.
unfoldable pub print_all : PrintCollector → List Bytes → PrintCollector
print_all p [] = p
print_all p (msg ∷ msgs) = print_all (print_message p msg) msgs

abbrev pub lines : PrintCollector → List Bytes × Bool
lines p = (p.out, p.truncated || ltb 0 p.dropped)

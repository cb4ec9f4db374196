-- ===== src/Headless/Compaction/Examples.antt =====
-- The compaction of a short history: each message encoded in two bytes.
use latte_code.Base.{
  ℕ, ◌+◌, ◌≤◌, ◌<◌, ◌≡◌, refl, String, none, some, List, [], ◌∷◌, Result, ok, length, ◌<>◌, ok-inj,
  arith,
}
use Prim.Native.String
use latte_code.Core.Profile.{default_context, default_compaction, summarize_on_discard}
use latte_code.Headless.Fixtures.{Value, empty, json, rounds}
use latte_code.Headless.Policy.{budget, validate}
use latte_code.Headless.Request.{
  VolatileTurnContext, wire_bytes, fit_request, fit_slots, fit_core, fit_tails, kept_messages,
  dropped, reversed, admit, enforce_budget,
}
use latte_code.Headless.Request.Assembly.{assemble_request, segment_messages}
use latte_code.Headless.Message.{
  ToolCall, Message, system_message, user_message, assistant_message, tool_message,
}
use latte_code.Headless.History.{
  Segment, denied_content, new_segment, summary_segment, append_denied_tool_results, denied_results,
  last_calls, declared_tool_call, apply_kind, apply_entry, apply_entries,
}
use latte_code.Headless.History.Scan.{
  scan_history_segments, scan_split, newest_summary, elided_sequences,
}
use latte_code.Headless.Compaction.{
  retain_walk, proactive_retain_boundary, retain_bytes, take, fold_prompt_into_summary_source,
  compaction_source,
}
use latte_code.Headless.Compaction.Source.{fold_prompt-cut}
use latte_code.Headless.Compaction.Boundary.{Retained, boundary-Retained}
use latte_code.Headless.Compaction.Planner.{
  PreparedHistory, summarized, wrap_summary, Planning, planned, prepare_history,
  compaction_boundary, compacted, apply_pre_turn_elision, prepare_summary_tier, summarize_history,
}
use latte_code.Headless.Compaction.Prepared.{IsPrepared, prepare_history-IsPrepared}

abbrev encode : List (Message Value) → List ℕ
encode [] = 91 ∷ 93 ∷ []
encode (m ∷ ms) = 34 ∷ 34 ∷ encode ms

abbrev to_vec : List (Message Value) → Result (List ℕ) String
to_vec ms = ok (encode ms)

encode_some : (ms : List (Message Value)) → 0 < length (encode ms)
encode_some [] = omega arith
encode_some (m ∷ ms) = omega (arith, encode_some ms)

wire_some :
    (ms : List (Message Value)) (size : ℕ) → wire_bytes {P = String} to_vec ms ≡ ok size → 0 < size
unfolding wire_bytes
wire_some ms size h = omega (arith, encode_some ms, ok-inj h)

abbrev segments : List (Segment Value)
segments =
    summary_segment 1 none (user_message "before") ""
    ∷ new_segment (some 2) none (user_message "one" ∷ []) ""
    ∷ new_segment (some 3) none (user_message "two" ∷ []) ""
    ∷ []

kept : proactive_retain_boundary {P = String} to_vec segments 40 20 0 ≡ ok (some 1)
unfolding proactive_retain_boundary retain_walk wire_bytes
kept = refl

boundary-Retained_example : Retained String to_vec (retain_bytes 40 20) (take 3 segments) 1
boundary-Retained_example =
    boundary-Retained String to_vec wire_some segments 40 20 0 {r = some 1} kept

fold_prompt-cut_example :
    let folded = fold_prompt_into_summary_source (λ s. s) "[user]\nhi\n" "go" 10 in
    (Prim.Native.String.len folded ≤ 10)
    × (Prim.Native.String.len "[user]\nhi\n" + Prim.Native.String.len ("\n[user]\n" <> "go" <> "\n")
          ≤ 10
        → folded ≡ "[user]\nhi\n" <> "\n[user]\n" <> "go" <> "\n")
    × (Prim.Native.String.len "[user]\nhi\n" ≡ 10 → folded ≡ "[user]\nhi\n")
fold_prompt-cut_example = fold_prompt-cut (λ s. s) "[user]\nhi\n" "go" 10

abbrev plan : Planning String Value
plan = record {
  json = json;
  to_vec = to_vec;
  redact = λ s. s;
  trim = λ s. s;
  describe = λ n. "too large";
  reply = λ ms. some "a summary";
  instructions = "summarize";
  system = system_message "system";
  context = record default_context {
    max_request_bytes = 14;
    compaction = record default_compaction { strategy = summarize_on_discard };
  };
}

abbrev quiet : VolatileTurnContext (Message Value)
quiet = record { repository = none; reminder = none }

abbrev answer : List (ToolCall Value)
answer = record { id = "c2"; name = "read_file"; input = empty } ∷ []

-- The first segment does not fit: it is summarized, and the second one follows the summary.
abbrev sent : PreparedHistory (Message Value)
sent =
    summarized
      (system_message "system"
        ∷ wrap_summary "a summary"
        ∷ user_message "again"
        ∷ assistant_message (some "more") answer
        ∷ tool_message "c2" (some "read_file") denied_content
        ∷ user_message "go"
        ∷ [])
      (record { through_sequence = 3; retain_from_sequence = some 4 }) "a summary"

prepared : prepare_history {P = String} plan rounds "go" quiet 1 ≡ ok (sent, 0)
unfolding prepare_history planned compaction_boundary compacted apply_pre_turn_elision
    prepare_summary_tier summarize_history compaction_source budget validate fit_request fit_slots
    fit_core fit_tails wire_bytes enforce_budget kept_messages dropped reversed admit
    assemble_request segment_messages scan_history_segments scan_split newest_summary
    elided_sequences apply_entries apply_entry apply_kind append_denied_tool_results denied_results
    last_calls declared_tool_call
prepared = refl

prepare_history-IsPrepared_example : IsPrepared String plan rounds quiet "go" 1 sent 0
prepare_history-IsPrepared_example =
    prepare_history-IsPrepared String plan rounds "go" quiet 1 {p = sent} {after = 0} prepared

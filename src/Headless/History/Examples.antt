-- ===== src/Headless/History/Examples.antt =====
-- The history of a short transcript.
use latte_code.Base.{
  ◌≡◌, refl, inr, String, some, List, [], ◌∷◌, ◌++◌, All, keep, map, Picks, keep-Picks,
}
use latte_code.Core.Session.{TranscriptEntry}
use latte_code.Headless.Fixtures.{Value, empty, json, rounds, summary_card, elision_card}
use latte_code.Headless.Message.{ToolCall, Message, user_message, assistant_message, tool_message}
use latte_code.Headless.Request.Assembly.{segment_messages}
use latte_code.Headless.History.{
  last_calls, denied_results, append_denied_tool_results, denied_content, declared_tool_call,
  apply_kind, apply_entry, apply_entries,
}
use latte_code.Headless.History.Scan.{
  scan_history_segments, scan_split, newest_summary, elided_sequences, summary_of_card,
}
use latte_code.Headless.History.Pairing.{IsPaired}
use latte_code.Headless.History.Grammar.{scan-IsPaired}
use latte_code.Headless.History.Denied.{IsAnsweredBy, IsOpen, denial, append_denied_complete}
use latte_code.Headless.History.Superseded.{
  is_needed, boundary_of, IsNeeded, IsNeeded-Decides, scan-superseded,
}

abbrev read : String → List (ToolCall Value)
read id = record { id = id; name = "read_file"; input = empty } ∷ []

-- Without a card every message is projected, with a denied_content for the open call.
projected :
    segment_messages (scan_history_segments json rounds)
    ≡ user_message "hello"
      ∷ assistant_message (some "reading") (read "c1")
      ∷ tool_message "c1" (some "read_file") "file text"
      ∷ user_message "again"
      ∷ assistant_message (some "more") (read "c2")
      ∷ tool_message "c2" (some "read_file") denied_content
      ∷ []
unfolding scan_history_segments scan_split newest_summary elided_sequences apply_entries apply_entry
    apply_kind segment_messages append_denied_tool_results denied_results last_calls
    declared_tool_call
projected = refl

-- The summary comes first, and then what its card retains.
summarized :
    segment_messages (scan_history_segments json (rounds ++ summary_card ∷ []))
    ≡ user_message "a summary"
      ∷ user_message "again"
      ∷ assistant_message (some "more") (read "c2")
      ∷ tool_message "c2" (some "read_file") denied_content
      ∷ []
unfolding scan_history_segments scan_split newest_summary elided_sequences apply_entries apply_entry
    apply_kind segment_messages append_denied_tool_results denied_results last_calls
    declared_tool_call
summarized = refl

scan-IsPaired_example : All IsPaired (scan_history_segments json rounds)
scan-IsPaired_example = scan-IsPaired json rounds

abbrev open_round : List (Message Value)
open_round = user_message "again" ∷ assistant_message (some "more") (read "c2") ∷ []

append_denied_complete_example :
    ((open_calls : List (ToolCall Value)) × Picks (IsOpen open_round) (read "c2") open_calls
      × (append_denied_tool_results open_round ≡ open_round ++ map denial open_calls))
    × All (IsAnsweredBy (append_denied_tool_results open_round)) (read "c2")
    × (append_denied_tool_results (append_denied_tool_results open_round)
        ≡ append_denied_tool_results open_round)
append_denied_complete_example =
    append_denied_complete open_round (read "c2")
      (inr (user_message "again" ∷ [], [], some "more", refl, tt))

-- The elision card and the entries from the boundary of the summary card on.
abbrev needed : List (TranscriptEntry Value)
needed = keep (is_needed json summary_card) rounds

needed-Picks : Picks (IsNeeded json (boundary_of json summary_card)) rounds needed
needed-Picks =
    keep-Picks (is_needed json summary_card) (IsNeeded json (boundary_of json summary_card))
      (IsNeeded-Decides json summary_card (boundary_of json summary_card) refl) rounds

scan-superseded_example :
    (scan_history_segments json (rounds ++ summary_card ∷ [])
      ≡ summary_of_card json summary_card ∷ scan_history_segments json needed)
    × (scan_history_segments json (rounds ++ summary_card ∷ elision_card ∷ [])
        ≡ scan_history_segments json (needed ++ summary_card ∷ elision_card ∷ []))
scan-superseded_example =
    scan-superseded json rounds needed (elision_card ∷ []) summary_card
      (boundary_of json summary_card) refl refl needed-Picks (refl, tt)

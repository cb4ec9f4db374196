-- ===== src/Headless/Request/Examples.antt =====
-- The fit of crates/latte-headless/src/session.rs on texts, each encoded in one byte.
use latte_code.Base.{ℕ, none, some, String, true, false, List, [], ◌∷◌, map, Result, ok, ◌≡◌, refl}
use latte_code.Headless.Request.{
  FitEntry, FitSelection, Slot, slot, history_entry, prompt_entry, volatile_entry, repository_tail,
  reminder_tail, kept_messages, dropped, reversed, admit, wire_bytes, fit_core, fit_tails,
  fit_slots, fit_request, VolatileTurnContext,
}
use latte_code.Headless.Request.Slots.{entries_of, NewestKept, TailsPrefix}
use latte_code.Headless.Request.Fit.{Within, fit_slots-IsFit}
use latte_code.Headless.Request.Assembly.{HistorySegment}
use latte_code.Headless.Request.Closed.{prompt_closed, fit_request_total}

abbrev to_vec : List String → Result (List ℕ) String
to_vec ms = ok (map (λ m. 0) ms)

abbrev entries : List (FitEntry String)
entries =
    history_entry ("old" ∷ [])
    ∷ history_entry ("new" ∷ [])
    ∷ volatile_entry repository_tail ("files" ∷ [])
    ∷ volatile_entry reminder_tail ("note" ∷ [])
    ∷ prompt_entry ("go" ∷ [])
    ∷ []

-- The budget holds the system message, the core and one tail.
abbrev fitted : List (Slot String)
fitted =
    slot (history_entry ("old" ∷ [])) true
    ∷ slot (history_entry ("new" ∷ [])) true
    ∷ slot (volatile_entry repository_tail ("files" ∷ [])) true
    ∷ slot (volatile_entry reminder_tail ("note" ∷ [])) false
    ∷ slot (prompt_entry ("go" ∷ [])) true
    ∷ []

fits : fit_slots {P = String} to_vec "system" entries 5 ≡ ok fitted
unfolding fit_slots fit_core fit_tails wire_bytes kept_messages dropped reversed admit
fits = refl

fit_slots-IsFit_example :
    (entries_of fitted ≡ entries)
    × NewestKept fitted
    × TailsPrefix fitted
    × Within String to_vec "system" 5 (kept_messages fitted)
fit_slots-IsFit_example = fit_slots-IsFit String to_vec "system" 5 entries {slots = fitted} fits

abbrev nothing : FitSelection String
nothing = record {
  messages = [];
  history_kept = 0;
  prompt_kept = false;
  repository_kept = false;
  reminder_kept = false;
}

refused :
    fit_request {P = String} to_vec "system"
      (history_entry ("old" ∷ []) ∷ prompt_entry ("go" ∷ []) ∷ [])
      1
    ≡ ok nothing
unfolding fit_request fit_slots fit_core fit_tails wire_bytes kept_messages dropped reversed admit
refused = refl

prompt_closed_example : nothing.history_kept ≡ 0
prompt_closed_example =
    prompt_closed String to_vec "system" (history_entry ("old" ∷ []) ∷ []) ("go" ∷ []) 1
      {sel = nothing} (λ e. refl, tt) refused refl

fit_request_total_example :
    (sel : FitSelection String) × (fit_request {P = String} to_vec "system" entries 5 ≡ ok sel)
    × Within String to_vec "system" 5 sel.messages
fit_request_total_example =
    fit_request_total String to_vec "system" entries 5 (λ ms. (map (λ m. 0) ms, refl))

abbrev describe : ℕ → String
describe n = "too large"

abbrev only_system : List String
only_system = "system" ∷ []

abbrev describe_summary : String → String
describe_summary s = s

abbrev segments : List (HistorySegment String)
segments =
    (record {
      messages = "old" ∷ [];
      text = "old";
      first_sequence = some 1;
      max_sequence = some 1;
      from_summary = false;
      turn_id = some 6;
      tool_results = [];
    })
    ∷ (record {
      messages = "go" ∷ [];
      text = "go";
      first_sequence = some 2;
      max_sequence = some 2;
      from_summary = false;
      turn_id = some 7;
      tool_results = [];
    })
    ∷ []

abbrev tails : VolatileTurnContext String
tails = record { repository = some "files"; reminder = none }

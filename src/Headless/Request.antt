-- ===== src/Headless/Request.antt =====
-- The request window of crates/latte-headless/src/session.rs: the two-phase exact-byte fit of history,
-- prompt and volatile tails, and the assembly of a request. A message is a parameter, and so is its
-- encoding by serde_json.
pub mod Slots
pub mod Fit
pub mod Closed
pub mod Assembly
mod Examples
use latte_code.Base.{
  ℕ, zero, suc, ◌-◌, ◌+◌, min, String, Bool, true, false, not, ◌&&◌, ◌||◌, Option, none, some, List,
  [], ◌∷◌, ◌++◌, map, Result, ok, err, guard, ◌>>=◌, ◌>>◌, ◌==◌, ltb, leb, length, any, count,
  if◌then◌else◌, nat_eq,
}
use latte_code.Headless.Policy.{
  SessionRuntimeError, SessionHistoryPolicy, or_history, budget, history,
}

pub data FitKind : Type 0 where
  history_unit repository_tail reminder_tail prompt_unit : FitKind

pub record FitEntry (Message : Type 0) : Type 0 where
  pub messages : List Message
  pub kind : FitKind
  pub mandatory : Bool

-- `FitEntry::history`, `FitEntry::prompt` and `FitEntry::volatile`.
abbrev pub history_entry : {Message : Type 0} → List Message → FitEntry Message
history_entry ms = record { messages = ms; kind = history_unit; mandatory = true }

abbrev pub prompt_entry : {Message : Type 0} → List Message → FitEntry Message
prompt_entry ms = record { messages = ms; kind = prompt_unit; mandatory = true }

abbrev pub volatile_entry : {Message : Type 0} → FitKind → List Message → FitEntry Message
volatile_entry kind ms = record { messages = ms; kind = kind; mandatory = false }

pub record FitSelection (Message : Type 0) : Type 0 where
  pub messages : List Message
  pub history_kept : ℕ
  pub prompt_kept : Bool
  pub repository_kept : Bool
  pub reminder_kept : Bool

pub record VolatileTurnContext (Message : Type 0) : Type 0 where
  pub repository : Option Message
  pub reminder : Option Message

abbrev pub listed : {Message : Type 0} → Option Message → List Message
listed none = []
listed (some m) = m ∷ []

-- `VolatileTurnContext::messages`.
abbrev pub volatile_messages : {Message : Type 0} → VolatileTurnContext Message → List Message
volatile_messages v = listed v.repository ++ listed v.reminder

abbrev pub entry_of : {Message : Type 0} → FitKind → Option Message → List (FitEntry Message)
entry_of kind none = []
entry_of kind (some m) = volatile_entry kind (m ∷ []) ∷ []

-- `VolatileTurnContext::fit_entries`.
abbrev pub fit_entries : {Message : Type 0} → VolatileTurnContext Message → List (FitEntry Message)
fit_entries v = entry_of repository_tail v.repository ++ entry_of reminder_tail v.reminder

abbrev pub filter_option : {Message : Type 0} → Bool → Option Message → Option Message
filter_option true m = m
filter_option false m = none

-- `VolatileTurnContext::filtered`.
abbrev pub filtered :
    {Message : Type 0} → VolatileTurnContext Message → Bool → Bool → VolatileTurnContext Message
filtered v repository_kept reminder_kept = record {
  repository = filter_option repository_kept v.repository;
  reminder = filter_option reminder_kept v.reminder;
}

-- An entry with its place in the array `keep`.
pub record Slot (Message : Type 0) : Type 0 where
  pub entry : FitEntry Message
  pub kept : Bool

abbrev pub slot : {Message : Type 0} → FitEntry Message → Bool → Slot Message
slot e k = record { entry = e; kept = k }

-- The messages of the entries that are kept, in order.
unfoldable pub kept_messages : {Message : Type 0} → List (Slot Message) → List Message
kept_messages [] = []
kept_messages (s ∷ ss) = if s.kept then s.entry.messages ++ kept_messages ss else kept_messages ss

-- The older entries, newest first, that are not kept.
unfoldable pub dropped :
    {Message : Type 0} → List (FitEntry Message) → List (Slot Message) → List (Slot Message)
dropped [] newer = newer
dropped (e ∷ older) newer = dropped older (slot e false ∷ newer)

unfoldable pub reversed :
    {Message : Type 0} → List (FitEntry Message) → List (FitEntry Message) → List (FitEntry Message)
reversed [] newer = newer
reversed (e ∷ older) newer = reversed older (e ∷ newer)

-- The first optional entries admitted, as many as the number says.
unfoldable pub admit : {Message : Type 0} → ℕ → List (Slot Message) → List (Slot Message)
admit n [] = []
admit n (s ∷ ss) =
    if s.entry.mandatory then s ∷ admit n ss else slot s.entry (ltb 0 n) ∷ admit (n - 1) ss

abbrev is_optional : {Message : Type 0} → Slot Message → Bool
is_optional s = not s.entry.mandatory

abbrev pub of_kind : {Message : Type 0} → (FitKind → Bool) → Slot Message → Bool
of_kind p s = s.kept && p s.entry.kind

abbrev pub is_history : FitKind → Bool
is_history history_unit = true
is_history _ = false

abbrev pub is_prompt : FitKind → Bool
is_prompt prompt_unit = true
is_prompt _ = false

abbrev pub is_repository : FitKind → Bool
is_repository repository_tail = true
is_repository _ = false

abbrev pub is_reminder : FitKind → Bool
is_reminder reminder_tail = true
is_reminder _ = false

-- The selection of the entries that are kept.
abbrev pub select : {Message : Type 0} → List (Slot Message) → FitSelection Message
select slots = record {
  messages = kept_messages slots;
  history_kept = count (of_kind is_history) slots;
  prompt_kept = any (of_kind is_prompt) slots;
  repository_kept = any (of_kind is_repository) slots;
  reminder_kept = any (of_kind is_reminder) slots;
}

module _ {P : Type 0} {Message : Type 0} (to_vec : List Message → Result (List ℕ) String) where
  -- `wire_bytes`, over the encoding.
  unfoldable pub wire_bytes : List Message → Result ℕ (SessionRuntimeError P)
  wire_bytes ms = do bytes ← or_history (to_vec ms); ok (length bytes)

  -- Phase 1, over the entries from the newest to the oldest: `newer` are decided, the older not kept.
  unfoldable pub fit_core :
      Message
      → ℕ
      → List (FitEntry Message)
      → List (Slot Message)
      → Result (List (Slot Message)) (SessionRuntimeError P)
  fit_core system limit [] newer = ok newer
  fit_core system limit (e ∷ older) newer =
      if e.mandatory
      then (do
        bytes ← wire_bytes (system ∷ kept_messages (slot e true ∷ newer))
        if leb bytes limit
            then fit_core system limit older (slot e true ∷ newer)
            else ok (dropped (e ∷ older) newer))
      else fit_core system limit older (slot e false ∷ newer)

  -- Phase 2: the longest prefix of the optional entries that fits, from the given length down.
  unfoldable pub fit_tails :
      Message → ℕ → List (Slot Message) → ℕ → Result ℕ (SessionRuntimeError P)
  fit_tails system limit slots zero = ok 0
  fit_tails system limit slots (suc n) = do
    bytes ← wire_bytes (system ∷ kept_messages (admit (suc n) slots))
    if leb bytes limit then ok (suc n) else fit_tails system limit slots n

  -- Which entries `fit_request` keeps.
  unfoldable pub fit_slots :
      Message → List (FitEntry Message) → ℕ → Result (List (Slot Message)) (SessionRuntimeError P)
  fit_slots system entries limit = do
    core ← fit_core system limit (reversed entries []) []
    admitted ← fit_tails system limit core (count is_optional core)
    ok (admit admitted core)

  -- `SessionRuntimeService::fit_request`.
  unfoldable pub fit_request :
      Message → List (FitEntry Message) → ℕ → Result (FitSelection Message) (SessionRuntimeError P)
  fit_request system entries limit = do slots ← fit_slots system entries limit; ok (select slots)

  -- `SessionRuntimeService::enforce_budget`; `describe` is the text of the refusal.
  unfoldable pub enforce_budget :
      (ℕ → String)
      → List Message
      → SessionHistoryPolicy
      → Result (List Message) (SessionRuntimeError P)
  enforce_budget describe ms policy = do
    bytes ← wire_bytes ms
    limit ← budget policy
    if ltb limit bytes then err (history (describe bytes)) else ok ms

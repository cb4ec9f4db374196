-- ===== src/Headless/Request/Assembly.antt =====
-- The assembly of a request in crates/latte-headless/src/session.rs: the system message, the summary,
-- the history, and the volatile block, before the prompt or before the open turn. The message that
-- wraps a summary is a parameter.
use latte_code.Base.{
  append_assoc, append-nil, ℕ, ◌≡◌, refl, sym, ap, ◌∙◌, inl, inr, String, Bool, false, Option, none,
  some, List, [], ◌∷◌, ◌++◌, ◌==◌, if◌then◌else◌, nat_eq, arith, Bool-cases,
}
use latte_code.Core.Protocol.{TurnId}
use latte_code.Headless.Request.{VolatileTurnContext, volatile_messages, listed}

pub record HistorySegment (Message : Type 0) : Type 0 where
  pub messages : List Message
  pub text : String
  pub first_sequence : Option ℕ
  pub max_sequence : Option ℕ
  pub from_summary : Bool
  pub turn_id : Option TurnId
  pub tool_results : List (ℕ × String)

-- `segment.turn_id == Some(active_turn)`.
abbrev pub is_of_turn : {Message : Type 0} → TurnId → HistorySegment Message → Bool
is_of_turn active s = elim s.turn_id [ none ↦ false | some t ↦ t == active ]

unfoldable pub segment_messages : {Message : Type 0} → List (HistorySegment Message) → List Message
segment_messages [] = []
segment_messages (s ∷ ss) = s.messages ++ segment_messages ss

-- The segments before the first one of the turn, and those from it on; all and none without one.
pub completed_segments :
    {Message : Type 0} → TurnId → List (HistorySegment Message) → List (HistorySegment Message)
completed_segments active [] = []
completed_segments active (s ∷ ss) =
    let rest = completed_segments active ss in if is_of_turn active s then [] else s ∷ rest

pub open_segments :
    {Message : Type 0} → TurnId → List (HistorySegment Message) → List (HistorySegment Message)
open_segments active [] = []
open_segments active (s ∷ ss) =
    let rest = open_segments active ss in if is_of_turn active s then s ∷ ss else rest

module _ {Message : Type 0} (wrap_summary : String → Message) where
  abbrev pub summary_messages : Option String → List Message
  summary_messages none = []
  summary_messages (some summary) = wrap_summary summary ∷ []

  -- `SessionRuntimeService::assemble_request`.
  unfoldable pub assemble_request :
      Message
      → Option String
      → List (HistorySegment Message)
      → VolatileTurnContext Message
      → Option Message
      → List Message
  assemble_request system summary segments volatile prompt =
      system
      ∷ (summary_messages summary
          ++ (segment_messages segments ++ (volatile_messages volatile ++ listed prompt)))

  -- `SessionRuntimeService::assemble_mid_turn_request`.
  pub assemble_mid_turn_request :
      Message
      → Option String
      → List (HistorySegment Message)
      → TurnId
      → VolatileTurnContext Message
      → List Message
  assemble_mid_turn_request system summary segments active volatile =
      system
      ∷ (summary_messages summary
          ++ (segment_messages (completed_segments active segments)
              ++ (volatile_messages volatile ++ segment_messages (open_segments active segments))))

module _ {Message : Type 0} (active : TurnId) where
  segments-split :
      (ss : List (HistorySegment Message))
      → segment_messages (completed_segments active ss)
          ++ segment_messages (open_segments active ss)
        ≡ segment_messages ss
  unfolding segment_messages completed_segments open_segments
  segments-split [] = refl
  segments-split (s ∷ ss) = elim (Bool-cases (is_of_turn active s)) [
    | inl q ↦ ground (arith, q)
    | inr q ↦ ground (
      arith,
      q,
      segments-split ss,
      append_assoc s.messages (segment_messages (completed_segments active ss))
          (segment_messages (open_segments active ss)),
    )
  ]

  -- A rebuild in the middle of a turn keeps every segment: without a volatile block it is the plain
  -- assembly of the same segments. With one, the block stands exactly where a request of the completed
  -- segments alone would carry it, and the messages of the open turn follow it.
  pub mid_turn-assemble_request :
      (wrap_summary : String → Message) (system : Message) (summary : Option String)
      (segments : List (HistorySegment Message)) (volatile : VolatileTurnContext Message)
      → (assemble_mid_turn_request wrap_summary system summary segments active
            (record { repository = none; reminder = none })
          ≡ assemble_request wrap_summary system summary segments
              (record { repository = none; reminder = none })
              none)
        × (assemble_mid_turn_request wrap_summary system summary segments active volatile
            ≡ assemble_request wrap_summary system summary
                (completed_segments active segments)
                volatile
                none
              ++ segment_messages (open_segments active segments))
  unfolding assemble_request assemble_mid_turn_request
  mid_turn-assemble_request wrap_summary system summary segments volatile =
      let s = summary_messages wrap_summary summary in
      let c = segment_messages (completed_segments active segments) in
      let v = volatile_messages volatile in
      let o = segment_messages (open_segments active segments) in
      (
        ap (λ ms. system ∷ (s ++ ms))
            (segments-split segments ∙ sym (append-nil (segment_messages segments))),
        ap (λ ms. system ∷ ms)
            (sym (
              append_assoc s (c ++ (v ++ [])) o
              ∙ ap (λ ms. s ++ ms)
                  (append_assoc c (v ++ []) o
                    ∙ ap (λ ms. c ++ ms) (ap (λ ms. ms ++ o) (append-nil v))))),
      )

-- ===== src/ProductionService.antt =====
-- apps/production-service: the rules of internal/domain that the staff client relies on, which
-- command an item's status admits, and the status of an order.
use agentic_restaurant.Base.{
  ℕ, ◌+◌, String, ◌&&◌, ◌||◌, Option, none, some, List, [], ◌∷◌, if◌then◌else◌, ltb, ◌==◌, str_eq,
}

pub record Transition : Type 0 where
  pub from : String
  pub command : String
  pub to : String

abbrev transition : String → String → String → Transition
transition from command to = record { from = from; command = command; to = to }

abbrev valid_transitions : List Transition
valid_transitions =
    transition "QUEUED" "pickup" "IN_PROGRESS"
    ∷ transition "QUEUED" "block" "BLOCKED"
    ∷ transition "IN_PROGRESS" "ready" "READY"
    ∷ transition "IN_PROGRESS" "block" "BLOCKED"
    ∷ transition "BLOCKED" "resume" "IN_PROGRESS"
    ∷ []

validate_in : List Transition → String → String → Option String
validate_in [] status command = none
validate_in (t ∷ ts) status command =
    if str_eq t.from status && str_eq t.command command
    then some t.to
    else validate_in ts status command

-- `none` is the error of an invalid transition.
unfoldable pub validate_transition : String → String → Option String
unfolding validate_in
validate_transition status command = validate_in valid_transitions status command

pub record StatusCounts : Type 0 where
  pub queued : ℕ
  pub in_progress : ℕ
  pub blocked : ℕ
  pub ready : ℕ
  pub cancelled : ℕ

unfoldable pub derive_order_status : StatusCounts → String
derive_order_status c =
    let active = c.queued + c.in_progress + c.blocked + c.ready in
    if active == 0 && ltb 0 c.cancelled
    then "CANCELLED"
    else if ltb 0 active && active == c.ready
    then "READY"
    else if ltb 0 c.blocked
    then "BLOCKED"
    else if ltb 0 c.in_progress || ltb 0 c.ready
    then "IN_PROGRESS"
    else "QUEUED"

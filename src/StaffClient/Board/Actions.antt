-- ===== src/StaffClient/Board/Actions.antt =====
-- The commands on offer, against the production service's rules.
use agentic_restaurant.Base.{
  String, ◌≡◌, refl, Bool, true, false, ◌||◌, List, [], ◌∷◌, if◌then◌else◌, ◌+◌, ◌==◌, ◌&&◌, ltb,
  str_eq, eq_iff, arith, is_some, inl, inr, Bool-cases,
}
use agentic_restaurant.ProductionService.{validate_transition, StatusCounts, derive_order_status}
use agentic_restaurant.StaffClient.Production.{
  ProductionItem, ItemCommand, pickup, block, resume, ready, command_name,
}
use agentic_restaurant.StaffClient.Board.{get_allowed_actions, actions_for, lane_definitions}

abbrev pub is_command : ItemCommand → ItemCommand → Bool
is_command pickup pickup = true
is_command block block = true
is_command resume resume = true
is_command ready ready = true
is_command _ _ = false

abbrev pub offers : ItemCommand → List ItemCommand → Bool
offers command [] = false
offers command (c ∷ cs) = is_command command c || offers command cs

str_eq_comm : (s t : String) → str_eq s t ≡ str_eq t s
str_eq_comm s t = ground (arith, eq_iff s t, eq_iff t s)

Agrees : String → ItemCommand → Type 0
Agrees status command =
    offers command (actions_for status)
    ≡ is_some (validate_transition status (command_name command))

Agrees-queued : (command : ItemCommand) → Agrees "QUEUED" command
unfolding Agrees actions_for validate_transition
Agrees-queued pickup = refl
Agrees-queued block = refl
Agrees-queued resume = refl
Agrees-queued ready = refl

Agrees-in_progress : (command : ItemCommand) → Agrees "IN_PROGRESS" command
unfolding Agrees actions_for validate_transition
Agrees-in_progress pickup = refl
Agrees-in_progress block = refl
Agrees-in_progress resume = refl
Agrees-in_progress ready = refl

Agrees-blocked : (command : ItemCommand) → Agrees "BLOCKED" command
unfolding Agrees actions_for validate_transition
Agrees-blocked pickup = refl
Agrees-blocked block = refl
Agrees-blocked resume = refl
Agrees-blocked ready = refl

Agrees-other :
    (status : String) (command : ItemCommand)
    → str_eq status "QUEUED" ≡ false
    → str_eq status "IN_PROGRESS" ≡ false
    → str_eq status "BLOCKED" ≡ false
    → Agrees status command
unfolding Agrees actions_for validate_transition
Agrees-other status command q p b = rw (
  str_eq_comm "QUEUED" status,
  str_eq_comm "IN_PROGRESS" status,
  str_eq_comm "BLOCKED" status,
  q,
  p,
  b,
)

Agrees-all : (status : String) (command : ItemCommand) → Agrees status command
Agrees-all status command = elim (Bool-cases (str_eq status "QUEUED")) [
  | inl e ↦ rw ((eq_iff _ _).0 e) (Agrees-queued command)
  | inr q ↦ elim (Bool-cases (str_eq status "IN_PROGRESS")) [
    | inl e ↦ rw ((eq_iff _ _).0 e) (Agrees-in_progress command)
    | inr p ↦ elim (Bool-cases (str_eq status "BLOCKED")) [
      | inl e ↦ rw ((eq_iff _ _).0 e) (Agrees-blocked command)
      | inr b ↦ Agrees-other status command q p b
    ]
  ]
]

-- A button is shown for a command exactly if the production service admits that command for an
-- item in this status: no button leads to an invalid transition, and no valid one lacks a button.
pub get_allowed_actions-validate_transition :
    (item : ProductionItem) (command : ItemCommand)
    → offers command (get_allowed_actions item)
      ≡ is_some (validate_transition item.status (command_name command))
unfolding get_allowed_actions Agrees
get_allowed_actions-validate_transition item command = Agrees-all item.status command

abbrev pub has_lane : String → List (String × String) → Bool
has_lane status [] = false
has_lane status ((s, label) ∷ lanes) = str_eq s status || has_lane status lanes

by_tests :
    (a b c d : Bool)
    → has_lane
        (if a
          then "CANCELLED"
          else if b
          then "READY"
          else if c
          then "BLOCKED"
          else if d
          then "IN_PROGRESS"
          else "QUEUED")
        lane_definitions
      ≡ (if a then false else true)
by_tests true b c d = refl
by_tests false true c d = refl
by_tests false false true d = refl
by_tests false false false true = refl
by_tests false false false false = refl

-- Whatever the counts of its items, the status that the production service derives for an order is
-- one that has a lane, except where the order has cancelled items only.
pub derive_order_status-has_lane :
    (c : StatusCounts)
    → has_lane (derive_order_status c) lane_definitions ≡ (
        if c.queued + c.in_progress + c.blocked + c.ready == 0 && ltb 0 c.cancelled
        then false
        else true)
unfolding derive_order_status
derive_order_status-has_lane c =
    let active = c.queued + c.in_progress + c.blocked + c.ready in
    by_tests (active == 0 && ltb 0 c.cancelled) (ltb 0 active && active == c.ready)
      (ltb 0 c.blocked) (ltb 0 c.in_progress || ltb 0 c.ready)

-- ===== src/StaffClient/Board.antt =====
-- The board of App.tsx: lanes, badges, and the commands that an item offers.
-- `new Date(text).getTime()` is a parameter, a number for the texts that the service sends.
-- `Array.prototype.sort` is the stable sort by the comparison that it is given.
pub mod Sorting
pub mod Lanes
pub mod Actions
use agentic_restaurant.Base.{ℕ, String, Bool, List, [], ◌∷◌, if◌then◌else◌, str_eq, ltb, keep_if}
use agentic_restaurant.StaffClient.Production.{
  ItemStatusCounts, ProductionOrder, DisplayOrder, ProductionItem, ItemCommand, pickup, block,
  resume, ready, status_queued, status_in_progress, status_blocked, status_ready,
}

-- `ProductionOrder | DisplayOrder`
pub data BoardOrder : Type 0 where
  production : ProductionOrder → BoardOrder
  display : DisplayOrder → BoardOrder

abbrev pub status_of : BoardOrder → String
status_of (production o) = o.status
status_of (display o) = o.status

abbrev pub created_at_of : BoardOrder → String
created_at_of (production o) = o.created_at
created_at_of (display o) = o.created_at

abbrev pub updated_at_of : BoardOrder → String
updated_at_of (production o) = o.updated_at
updated_at_of (display o) = o.updated_at

-- The stable sort: `after l r` says that the comparison of `l` with `r` is positive.
module _ {ℓ} {A : Type ℓ} (after : A → A → Bool) where
  abbrev pub insert : A → List A → List A
  insert x [] = x ∷ []
  insert x (y ∷ ys) = if after x y then y ∷ insert x ys else x ∷ y ∷ ys

  abbrev pub sort : List A → List A
  sort [] = []
  sort (x ∷ xs) = insert x (sort xs)

module _ (get_time : String → ℕ) where
  -- right.UpdatedAt - left.UpdatedAt > 0
  abbrev pub updated_earlier : BoardOrder → BoardOrder → Bool
  updated_earlier left right = ltb (get_time (updated_at_of left)) (get_time (updated_at_of right))

  -- left.CreatedAt - right.CreatedAt > 0
  abbrev pub created_later : BoardOrder → BoardOrder → Bool
  created_later left right = ltb (get_time (created_at_of right)) (get_time (created_at_of left))

  unfoldable pub sort_orders_for_lane : List BoardOrder → String → List BoardOrder
  sort_orders_for_lane orders status =
      let filtered = keep_if (λ order. str_eq (status_of order) status) orders in
      if str_eq status status_ready
      then sort updated_earlier filtered
      else sort created_later filtered

-- `LANE_DEFINITIONS`
abbrev pub lane_definitions : List (String × String)
lane_definitions =
    (status_queued, "Queued")
    ∷ (status_in_progress, "In Progress")
    ∷ (status_blocked, "Blocked")
    ∷ (status_ready, "Ready")
    ∷ []

-- The `switch` on the item's status.
pub actions_for : String → List ItemCommand
actions_for status =
    if str_eq status status_queued
    then pickup ∷ block ∷ []
    else if str_eq status status_in_progress
    then ready ∷ block ∷ []
    else if str_eq status status_blocked
    then resume ∷ []
    else []

unfoldable pub get_allowed_actions : ProductionItem → List ItemCommand
unfolding actions_for
get_allowed_actions item = actions_for item.status

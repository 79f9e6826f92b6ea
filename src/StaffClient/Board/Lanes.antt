-- ===== src/StaffClient/Board/Lanes.antt =====
-- The lanes of the board.
use mathlib.Core.List.{Perm}
use agentic_restaurant.Base.{
  ℕ, ◌+◌, ◌≤◌, String, ◌≡◌, refl, Bool, true, false, ◌||◌, List, [], ◌∷◌, if◌then◌else◌, keep_if,
  All, Any, Bool-cases, inl, inr, arith, str_eq, eq_iff, length, ◌==◌,
}
use agentic_restaurant.StaffClient.Production.{
  status_queued, status_in_progress, status_blocked, status_ready,
}
use agentic_restaurant.StaffClient.Board.{
  BoardOrder, status_of, created_at_of, updated_at_of, insert, sort, updated_earlier, created_later,
  sort_orders_for_lane,
}
use agentic_restaurant.StaffClient.Board.Sorting.{
  sort-perm, IsSorted, IsSorted-of_ordered, sort-IsOrdered, keep_if-sort, sort-All, sort-Any,
}

abbrev pub with_status : String → List BoardOrder → List BoardOrder
with_status status orders = keep_if (λ order. str_eq (status_of order) status) orders

module _ (get_time : String → ℕ) where
  -- A lane shows exactly the orders that have its status, each as often as it was fetched.
  pub sort_orders_for_lane-perm :
      (orders : List BoardOrder) (status : String)
      → Perm (sort_orders_for_lane get_time orders status) (with_status status orders)
  unfolding sort_orders_for_lane
  sort_orders_for_lane-perm orders status = elim (Bool-cases (str_eq status status_ready)) [
    | inl e ↦ rw e (sort-perm (updated_earlier get_time) (with_status status orders))
    | inr e ↦ rw e (sort-perm (created_later get_time) (with_status status orders))
  ]

  pub sort_orders_for_lane-All :
      (P : BoardOrder → Type 0) (orders : List BoardOrder) (status : String)
      → All P (with_status status orders)
      → All P (sort_orders_for_lane get_time orders status)
  unfolding sort_orders_for_lane
  sort_orders_for_lane-All P orders status h = elim (Bool-cases (str_eq status status_ready)) [
    | inl e ↦ rw e (sort-All (updated_earlier get_time) P (with_status status orders) h)
    | inr e ↦ rw e (sort-All (created_later get_time) P (with_status status orders) h)
  ]

  pub sort_orders_for_lane-Any :
      (P : BoardOrder → Type 0) (orders : List BoardOrder) (status : String)
      → Any P (with_status status orders)
      → Any P (sort_orders_for_lane get_time orders status)
  unfolding sort_orders_for_lane
  sort_orders_for_lane-Any P orders status h = elim (Bool-cases (str_eq status status_ready)) [
    | inl e ↦ rw e (sort-Any (updated_earlier get_time) P (with_status status orders) h)
    | inr e ↦ rw e (sort-Any (created_later get_time) P (with_status status orders) h)
  ]

  -- The order of a lane, by the times of two of its orders, of which `y` stands below `x`.
  pub record IsAbove (status : String) (x y : BoardOrder) : Type 0 where
    pub newest_first : status ≡ "READY" → get_time (updated_at_of y) ≤ get_time (updated_at_of x)
    pub oldest_first :
        ¬ (status ≡ "READY") → get_time (created_at_of x) ≤ get_time (created_at_of y)

  abbrev pub lane_time : String → BoardOrder → ℕ
  lane_time status order =
      if str_eq status status_ready
      then get_time (updated_at_of order)
      else get_time (created_at_of order)

  ready_lane-IsSorted :
      (status : String) (orders : List BoardOrder)
      → str_eq status status_ready ≡ true
      → IsSorted (IsAbove status) (sort (updated_earlier get_time) orders)
  ready_lane-IsSorted status orders e =
      IsSorted-of_ordered (updated_earlier get_time) (IsAbove status)
        (λ x y h. record {
          newest_first = λ ready. ground arith;
          oldest_first = λ other. absurd (other ((eq_iff status status_ready).0 e));
        })
        (sort (updated_earlier get_time) orders)
        (sort-IsOrdered (updated_earlier get_time) (λ x y h. ground arith)
          (λ x y z h k. ground arith) orders)

  lane-IsSorted :
      (status : String) (orders : List BoardOrder)
      → str_eq status status_ready ≡ false
      → IsSorted (IsAbove status) (sort (created_later get_time) orders)
  lane-IsSorted status orders e =
      IsSorted-of_ordered (created_later get_time) (IsAbove status)
        (λ x y h. record {
          newest_first = λ ready. absurd (ground (arith, e, (eq_iff status status_ready).1 ready));
          oldest_first = λ other. ground arith;
        })
        (sort (created_later get_time) orders)
        (sort-IsOrdered (created_later get_time) (λ x y h. ground arith) (λ x y z h k. ground arith)
          orders)

  -- What a lane shows of the orders that were fetched with its status.
  pub record IsLane (status : String) (fetched shown : List BoardOrder) : Type 0 where
    pub same : Perm shown fetched
    pub sorted : IsSorted (IsAbove status) shown
    pub stable :
        (time : ℕ)
        → keep_if (λ o. lane_time status o == time) shown
          ≡ keep_if (λ o. lane_time status o == time) fetched

  -- A lane shows exactly the orders that have its status, each as often as it was fetched, "Ready"
  -- in the order of the last update, the newest first, and every other lane in the order of
  -- creation, the oldest first; orders of the same time stay as they were fetched.
  pub sort_orders_for_lane-IsLane :
      (orders : List BoardOrder) (status : String)
      → IsLane status (with_status status orders) (sort_orders_for_lane get_time orders status)
  unfolding sort_orders_for_lane
  sort_orders_for_lane-IsLane orders status =
      let fetched : List BoardOrder = with_status status orders in
      elim (Bool-cases (str_eq status status_ready)) [
        | inl e ↦ record {
          same = sort_orders_for_lane-perm orders status;
          sorted = rw e (ready_lane-IsSorted status fetched e);
          stable = λ time. rw e (
              keep_if-sort (updated_earlier get_time) (λ o. get_time (updated_at_of o) == time)
                (λ x y h. ground arith) fetched);
        }
        | inr e ↦ record {
          same = sort_orders_for_lane-perm orders status;
          sorted = rw e (lane-IsSorted status fetched e);
          stable = λ time. rw e (
              keep_if-sort (created_later get_time) (λ o. get_time (created_at_of o) == time)
                (λ x y h. ground arith) fetched);
        }
      ]

length-insert :
    (after : BoardOrder → BoardOrder → Bool) (x : BoardOrder) (ys : List BoardOrder)
    → length (insert after x ys) ≡ length ys + 1
length-insert after x [] = omega arith
length-insert after x (y ∷ ys) = ground (arith, length-insert after x ys)

length-sort :
    (after : BoardOrder → BoardOrder → Bool) (xs : List BoardOrder)
    → length (sort after xs) ≡ length xs
length-sort after [] = refl
length-sort after (x ∷ xs) =
    omega (arith, length-insert after x (sort after xs), length-sort after xs)

-- The order's status is that of one of the four lanes.
abbrev pub is_shown : BoardOrder → Bool
is_shown order =
    str_eq (status_of order) status_queued
    || str_eq (status_of order) status_in_progress
    || str_eq (status_of order) status_blocked
    || str_eq (status_of order) status_ready

abbrev one : Bool → ℕ
one b = if b then 1 else 0

abbrev lanes_of : String → ℕ
lanes_of s =
    one (str_eq s status_queued)
    + one (str_eq s status_in_progress)
    + one (str_eq s status_blocked)
    + one (str_eq s status_ready)

lanes_of-one :
    (s : String)
    → lanes_of s
      ≡ one (
          str_eq s status_queued
          || str_eq s status_in_progress
          || str_eq s status_blocked
          || str_eq s status_ready)
lanes_of-one s = elim (Bool-cases (str_eq s status_queued)) [
  | inl e ↦ rw ((eq_iff _ _).0 e)
  | inr q ↦ elim (Bool-cases (str_eq s status_in_progress)) [
    | inl e ↦ rw ((eq_iff _ _).0 e)
    | inr p ↦ elim (Bool-cases (str_eq s status_blocked)) [
      | inl e ↦ rw ((eq_iff _ _).0 e)
      | inr b ↦ ground arith
    ]
  ]
]

lanes_cover :
    (orders : List BoardOrder)
    → length (with_status status_queued orders)
        + length (with_status status_in_progress orders)
        + length (with_status status_blocked orders)
        + length (with_status status_ready orders)
      ≡ length (keep_if is_shown orders)
lanes_cover [] = refl
lanes_cover (o ∷ orders) = ground (arith, lanes_of-one (status_of o), lanes_cover orders)

length-lane :
    (get_time : String → ℕ) (orders : List BoardOrder) (status : String)
    → length (sort_orders_for_lane get_time orders status) ≡ length (with_status status orders)
unfolding sort_orders_for_lane
length-lane get_time orders status = ground (
  arith,
  length-sort (updated_earlier get_time) (with_status status orders),
  length-sort (created_later get_time) (with_status status orders),
)

-- The four lanes together show as many cards as there are orders with one of the four statuses: no
-- order is in two lanes.
pub lanes_partition :
    (get_time : String → ℕ) (orders : List BoardOrder)
    → length (sort_orders_for_lane get_time orders status_queued)
        + length (sort_orders_for_lane get_time orders status_in_progress)
        + length (sort_orders_for_lane get_time orders status_blocked)
        + length (sort_orders_for_lane get_time orders status_ready)
      ≡ length (keep_if is_shown orders)
lanes_partition get_time orders = omega (
  arith,
  length-lane get_time orders status_queued,
  length-lane get_time orders status_in_progress,
  length-lane get_time orders status_blocked,
  length-lane get_time orders status_ready,
  lanes_cover orders,
)

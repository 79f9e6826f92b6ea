-- ===== src/StaffClient/App/Lanes/Laws.antt =====
-- The controls of the lanes.
use agentic_restaurant.Base.{
  ℕ, String, ◌≡◌, refl, Bool, true, false, List, [], ◌∷◌, arith, map, All, All-append, Bool-cases,
  inl, inr, str_eq, eq_iff, ap, ◌∙◌,
}
use agentic_restaurant.UiCommon.Widgets.{Admits}
use agentic_restaurant.StaffClient.Production.{ProductionOrder, DisplayOrder}
use agentic_restaurant.StaffClient.Board.{
  BoardOrder, production, display, sort_orders_for_lane, lane_definitions,
}
use agentic_restaurant.StaffClient.Board.Lanes.{with_status, sort_orders_for_lane-All}
use agentic_restaurant.StaffClient.Board.Actions.{has_lane}
use agentic_restaurant.StaffClient.App.{State, Event, toggled_lane, selected_order}
use agentic_restaurant.StaffClient.App.View.{is_display, current_orders}
use agentic_restaurant.StaffClient.App.Lanes.{
  Browser, HasOrder, render_lanes, card, cards, display_card, production_card, render_lane, lanes,
}

module _ (browser : Browser) (P : Event → Type 0) where
  abbrev CanSelect : BoardOrder → Type 0
  CanSelect (production o) = P (selected_order o.order_id)
  CanSelect (display o) = Unit

  card-Admits : (o : BoardOrder) → CanSelect o → All (Admits P) (card browser o)
  unfolding production_card display_card
  card-Admits (production o) h = ground (arith, h)
  card-Admits (display o) h = ground arith

  cards-Admits : (os : List BoardOrder) → All CanSelect os → All (Admits P) (cards browser os)
  unfolding cards
  cards-Admits [] h = tt
  cards-Admits (o ∷ os) h =
      All-append (Admits P) (card browser o) (cards browser os) (card-Admits o h.0)
        (cards-Admits os h.1)

  render_lane-Admits :
      (status label : String) (os : List BoardOrder) (collapsed : Bool)
      → P (toggled_lane status)
      → (collapsed ≡ false → All CanSelect os)
      → All (Admits P) (render_lane browser status label os collapsed)
  unfolding render_lane
  render_lane-Admits status label os true p h = (λ _. p, tt)
  render_lane-Admits status label os false p h = (λ _. p, cards-Admits os (h refl))

  lanes-Admits :
      (definitions : List (String × String)) (os : List BoardOrder) (collapsed : String → Bool)
      → All (λ d. has_lane d.0 lane_definitions ≡ true) definitions
      → ((status : String) → has_lane status lane_definitions ≡ true → P (toggled_lane status))
      → ((status : String)
          → has_lane status lane_definitions ≡ true
          → collapsed status ≡ false
          → All CanSelect (with_status status os))
      → All (Admits P) (lanes browser definitions os collapsed)
  unfolding lanes
  lanes-Admits [] os collapsed l p h = tt
  lanes-Admits ((status, label) ∷ definitions) os collapsed l p h =
      let lane : List BoardOrder = sort_orders_for_lane browser.get_time os status in
      All-append (Admits P) (render_lane browser status label lane (collapsed status))
        (lanes browser definitions os collapsed)
        (render_lane-Admits status label lane (collapsed status) (p status l.0)
          (λ e. sort_orders_for_lane-All browser.get_time CanSelect os status (h status l.0 e)))
        (lanes-Admits definitions os collapsed l.1 p h)

  display_orders-CanSelect :
      (status : String) (os : List DisplayOrder)
      → All CanSelect (with_status status (map display os))
  display_orders-CanSelect status [] = tt
  display_orders-CanSelect status (o ∷ os) = elim (Bool-cases (str_eq o.status status)) [
    | inl e ↦ rw e (tt, display_orders-CanSelect status os)
    | inr e ↦ rw e (display_orders-CanSelect status os)
  ]

  orders-CanSelect :
      (status : String) (collapsed : String → Bool)
      → has_lane status lane_definitions ≡ true
      → collapsed status ≡ false
      → (os : List ProductionOrder) → ((id : ℕ) → HasOrder id collapsed os → P (selected_order id))
      → All CanSelect (with_status status (map production os))
  orders-CanSelect status collapsed l c [] h = tt
  orders-CanSelect status collapsed l c (o ∷ os) h = elim (Bool-cases (str_eq o.status status)) [
    | inl e ↦ rw e (
      h o.order_id (
          inl (
            refl,
            ap (λ t. has_lane t lane_definitions) ((eq_iff _ _).0 e) ∙ l,
            ap collapsed ((eq_iff _ _).0 e) ∙ c,
          )),
      orders-CanSelect status collapsed l c os (λ id k. h id (inr k)),
    )
    | inr e ↦ rw e (orders-CanSelect status collapsed l c os (λ id k. h id (inr k)))
  ]

  current_orders-CanSelect :
      (s : State) (status : String)
      → has_lane status lane_definitions ≡ true
      → s.collapsed_lanes status ≡ false
      → (is_display s.view ≡ false
          → (id : ℕ) → HasOrder id s.collapsed_lanes s.orders
          → P (selected_order id))
      → All CanSelect (with_status status (current_orders s))
  unfolding current_orders
  current_orders-CanSelect s status l c h = elim (Bool-cases (is_display s.view)) [
    | inl e ↦ rw e (display_orders-CanSelect status s.display_orders)
    | inr e ↦ rw e (orders-CanSelect status s.collapsed_lanes l c s.orders (h e))
  ]

  -- The controls of the lanes are their toggles and, where the board is interactive, the orders in
  -- the lanes that are not collapsed.
  pub render_lanes-Admits :
      (s : State)
      → ((status : String) → has_lane status lane_definitions ≡ true → P (toggled_lane status))
      → (is_display s.view ≡ false
          → (id : ℕ) → HasOrder id s.collapsed_lanes s.orders
          → P (selected_order id))
      → All (Admits P) (render_lanes browser s)
  unfolding render_lanes
  render_lanes-Admits s p h =
      lanes-Admits lane_definitions (current_orders s) s.collapsed_lanes
        (refl, (refl, (refl, (refl, tt)))) p (λ status l c. current_orders-CanSelect s status l c h)

-- ===== src/StaffClient/App/Lanes/Complete.antt =====
-- What is in the lanes: every toggle, and every order that has a lane, unless it is collapsed.
use agentic_restaurant.Base.{
  ℕ, String, ◌≡◌, refl, sym, subst, ap, ◌∙◌, Bool, true, false, inl, inr, some, List, [], ◌∷◌, map,
  arith, Any, Bool-cases, str_eq, eq_iff,
}
use agentic_restaurant.UiCommon.Widgets.{Causes, click}
use agentic_restaurant.UiCommon.Widgets.Laws.{
  Causes-here, Causes-cons, Causes-append_left, Causes-append_right,
}
use agentic_restaurant.StaffClient.Production.{ProductionOrder}
use agentic_restaurant.StaffClient.Board.{
  BoardOrder, production, display, sort_orders_for_lane, lane_definitions,
}
use agentic_restaurant.StaffClient.Board.Lanes.{with_status, sort_orders_for_lane-Any}
use agentic_restaurant.StaffClient.Board.Actions.{has_lane}
use agentic_restaurant.StaffClient.App.{State, toggled_lane, selected_order}
use agentic_restaurant.StaffClient.App.View.{is_display, current_orders}
use agentic_restaurant.StaffClient.App.Lanes.{
  Browser, HasOrder, render_lanes, card, cards, production_card, render_lane, lanes,
}

module _ (browser : Browser) where
  abbrev IsCard : ℕ → BoardOrder → Type 0
  IsCard id (production o) = o.order_id ≡ id
  IsCard id (display o) = ⊥

  card-Causes :
      (id : ℕ) (o : BoardOrder) → IsCard id o → Causes (selected_order id) (card browser o)
  unfolding production_card card
  card-Causes id (production o) h = Causes-here click _ (ap (λ i. some (selected_order i)) h)
  card-Causes id (display o) h = absurd h

  cards-Causes :
      (id : ℕ) (os : List BoardOrder)
      → Any (IsCard id) os
      → Causes (selected_order id) (cards browser os)
  unfolding cards
  cards-Causes id [] h = absurd h
  cards-Causes id (o ∷ os) (inl h) =
      Causes-append_left (card browser o) (cards browser os) (card-Causes id o h)
  cards-Causes id (o ∷ os) (inr h) = Causes-append_right (card browser o) (cards-Causes id os h)

  render_lane-Causes :
      (id : ℕ) (status label : String) (os : List BoardOrder) (collapsed : Bool)
      → collapsed ≡ false
      → Any (IsCard id) os
      → Causes (selected_order id) (render_lane browser status label os collapsed)
  unfolding render_lane
  render_lane-Causes id status label os true e h = absurd (ground arith)
  render_lane-Causes id status label os false e h = Causes-cons (cards-Causes id os h)

  lanes-Causes :
      (id : ℕ) (status : String) (definitions : List (String × String)) (os : List BoardOrder)
      (collapsed : String → Bool)
      → has_lane status definitions ≡ true
      → collapsed status ≡ false
      → Any (IsCard id) (with_status status os)
      → Causes (selected_order id) (lanes browser definitions os collapsed)
  unfolding lanes
  lanes-Causes id status [] os collapsed l c h = absurd (ground arith)
  lanes-Causes id status ((s, label) ∷ definitions) os collapsed l c h =
      elim (Bool-cases (str_eq s status)) [
        | inl e ↦
            let same : status ≡ s = sym ((eq_iff s status).0 e) in
            Causes-append_left
              (render_lane browser s label (sort_orders_for_lane browser.get_time os s)
                (collapsed s))
              (lanes browser definitions os collapsed)
              (render_lane-Causes id s label (sort_orders_for_lane browser.get_time os s)
                (collapsed s) (ap collapsed (sym same) ∙ c)
                (sort_orders_for_lane-Any browser.get_time (IsCard id) os s
                  (subst (λ t. Any (IsCard id) (with_status t os)) same h)))
        | inr e ↦
            Causes-append_right
              (render_lane browser s label (sort_orders_for_lane browser.get_time os s)
                (collapsed s))
              (lanes-Causes id status definitions os collapsed (rw (← l, e)) c h)
      ]

  toggles-Causes :
      (status : String) (definitions : List (String × String)) (os : List BoardOrder)
      (collapsed : String → Bool)
      → has_lane status definitions ≡ true
      → Causes (toggled_lane status) (lanes browser definitions os collapsed)
  unfolding lanes render_lane
  toggles-Causes status [] os collapsed l = absurd (ground arith)
  toggles-Causes status ((s, label) ∷ definitions) os collapsed l =
      elim (Bool-cases (str_eq s status)) [
        | inl e ↦ Causes-here click _ (ap (λ t. some (toggled_lane t)) ((eq_iff s status).0 e))
        | inr e ↦
            Causes-append_right
              (render_lane browser s label (sort_orders_for_lane browser.get_time os s)
                (collapsed s))
              (toggles-Causes status definitions os collapsed (rw (← l, e)))
      ]

  -- Where an order is among those with its status.
  lane_of_order :
      (id : ℕ) (collapsed : String → Bool) (os : List ProductionOrder)
      → HasOrder id collapsed os
      → (status : String) × (has_lane status lane_definitions ≡ true)
        × (collapsed status ≡ false)
        × Any (IsCard id) (with_status status (map production os))
  lane_of_order id collapsed [] h = absurd h
  lane_of_order id collapsed (o ∷ os) (inl (i, l, c)) =
      (o.status, l, c, rw ((eq_iff o.status o.status).1 refl) (inl i))
  lane_of_order id collapsed (o ∷ os) (inr h) =
      let (status, l, c, k) = lane_of_order id collapsed os h in
      elim (Bool-cases (str_eq o.status status)) [
        | inl e ↦ (status, l, c, rw e (inr k))
        | inr e ↦ (status, l, c, rw e k)
      ]

  module _ (s : State) where
    pub toggle-Causes :
        (status : String)
        → has_lane status lane_definitions ≡ true
        → Causes (toggled_lane status) (render_lanes browser s)
    unfolding render_lanes
    toggle-Causes status l =
        toggles-Causes status lane_definitions (current_orders s) s.collapsed_lanes l

    pub order-Causes :
        (id : ℕ)
        → is_display s.view ≡ false
        → HasOrder id s.collapsed_lanes s.orders
        → Causes (selected_order id) (render_lanes browser s)
    unfolding render_lanes current_orders
    order-Causes id d h =
        let (status, l, c, k) = lane_of_order id s.collapsed_lanes s.orders h in
        lanes-Causes id status lane_definitions (current_orders s) s.collapsed_lanes l c (rw d k)

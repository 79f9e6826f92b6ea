-- ===== src/UiCommon/AppShell.antt =====
-- components/AppShell.tsx, in a browser: where the navigation stands, and whether it is open.
pub mod Laws
pub mod Page
use agentic_restaurant.Base.{
  ℕ, min, Bool, true, false, not, ◌&&◌, ◌||◌, List, [], ◌∷◌, if◌then◌else◌, ltb, leb,
}

abbrev pub tablet_min_width : ℕ
tablet_min_width = 600

abbrev pub desktop_min_width : ℕ
desktop_min_width = 1200

pub record Viewport : Type 0 where
  pub width : ℕ
  pub height : ℕ

abbrev pub is_landscape_viewport : Viewport → Bool
is_landscape_viewport v = leb v.height v.width

abbrev pub has_tablet_sized_shortest_side : Viewport → Bool
has_tablet_sized_shortest_side v = leb tablet_min_width (min v.width v.height)

abbrev pub uses_side_navigation : Viewport → Bool
uses_side_navigation v =
    leb desktop_min_width v.width || (has_tablet_sized_shortest_side v && is_landscape_viewport v)

abbrev pub uses_top_navigation : Viewport → Bool
uses_top_navigation v =
    ltb v.width desktop_min_width
    && has_tablet_sized_shortest_side v
    && not (is_landscape_viewport v)

-- `isOverlayNavigation`
abbrev pub uses_overlay_navigation : Viewport → Bool
uses_overlay_navigation v = not (uses_side_navigation v) && not (uses_top_navigation v)

-- The variables of `useState`.
pub record Shell : Type 0 where
  pub viewport : Viewport
  pub navigation_open : Bool

-- What a mouse button goes down on: something that is no `Element`, the toggle, the navigation's
-- content, or any other place of the page.
pub data Target : Type 0 where
  no_element toggle navigation elsewhere : Target

pub data Event : Type 0 where
  resized : Viewport → Event
  pressed : Target → Event
  toggled : Event
  drawer_closed : Event  -- the temporary drawer's `onClose`

-- The tests of `handleClickOutside`.
abbrev pub is_outside : Target → Bool
is_outside no_element = false
is_outside toggle = false
is_outside navigation = false
is_outside elsewhere = true

-- `useEffect` attaches the listener only while the overlay is open.
abbrev pub listens : Shell → Bool
listens s = uses_overlay_navigation s.viewport && s.navigation_open

abbrev same : Bool → Bool → Bool
same true b = b
same false b = not b

module _ (default_navigation_open : Bool) where
  -- What the effect on `isSideNavigation` sets.
  abbrev pub opened_by_default : Viewport → Bool
  opened_by_default v = if uses_side_navigation v then default_navigation_open else false

  -- The state after the first rendering and its effects, the second of which sets `navigationOpen`.
  unfoldable pub initial : Viewport → Shell
  initial v = record { viewport = v; navigation_open = opened_by_default v }

  -- `handleResize`, and the effect that runs where `isSideNavigation` has changed.
  unfoldable pub resize : Viewport → Shell → Shell
  resize v s =
      if same (uses_side_navigation s.viewport) (uses_side_navigation v)
      then record s { viewport = v }
      else record { viewport = v; navigation_open = opened_by_default v }

  unfoldable pub step : Event → Shell → Shell
  unfolding resize
  step (resized v) s = resize v s
  step (pressed target) s =
      if listens s && is_outside target then record s { navigation_open = false } else s
  step toggled s = record s { navigation_open = not s.navigation_open }
  step drawer_closed s = if listens s then record s { navigation_open = false } else s

  unfoldable pub run : List Event → Shell → Shell
  run [] s = s
  run (e ∷ es) s = run es (step e s)

-- Where the navigation is on the page, if it is.
pub data Place : Type 0 where
  side top overlay hidden : Place

unfoldable pub place_of : Shell → Place
place_of s =
    if not s.navigation_open
    then hidden
    else if uses_side_navigation s.viewport
    then side
    else if uses_top_navigation s.viewport
    then top
    else overlay

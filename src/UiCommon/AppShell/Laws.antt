-- ===== src/UiCommon/AppShell/Laws.antt =====
-- Which layout a window gets, and what closes the navigation.
use agentic_restaurant.Base.{
  ◌≤◌, ◌<◌, min, ◌≡◌, ◌↔◌, Bool, true, false, not, ◌&&◌, ◌||◌, List, [], ◌∷◌, if◌then◌else◌, arith,
}
use agentic_restaurant.UiCommon.AppShell.{
  Viewport, uses_side_navigation, uses_top_navigation, uses_overlay_navigation, Shell, Target,
  toggle, navigation, elsewhere, Event, resized, pressed, toggled, step, run, place_of, side, top,
  overlay, hidden,
}

-- The three layouts share out the windows: the overlay is for windows that are narrower than a
-- desktop's and whose shorter side is below a tablet's, the top bar for other narrow windows that
-- are higher than wide, and the side bar for all the rest.
pub layout_iff :
    (v : Viewport)
    → ((uses_overlay_navigation v ≡ true) ↔ ((v.width < 1200) × (min v.width v.height < 600)))
      × ((uses_top_navigation v ≡ true)
          ↔ ((v.width < 1200) × (600 ≤ v.width) × (v.width < v.height)))
      × ((uses_side_navigation v && uses_top_navigation v) ≡ false)
      × ((uses_side_navigation v || uses_top_navigation v || uses_overlay_navigation v) ≡ true)
layout_iff v = (
  (λ h. ground arith, λ h. ground arith),
  (λ h. ground arith, λ h. ground arith),
  ground arith,
  ground arith,
)

module _ (default_navigation_open : Bool) where
  -- A resize that neither enters nor leaves the side layout keeps what the user has chosen; one
  -- that enters it opens the navigation exactly if that is the default; one that leaves it closes
  -- it.
  pub navigation_open-resize :
      (s : Shell) (v : Viewport)
      → (step default_navigation_open (resized v) s).navigation_open ≡ (
          if uses_side_navigation v
          then (if uses_side_navigation s.viewport
              then s.navigation_open
              else default_navigation_open)
          else not (uses_side_navigation s.viewport) && s.navigation_open)
  unfolding step
  navigation_open-resize s v = ground arith

  -- A click is a press and then, on the toggle, its handler.
  abbrev pub click : Target → List Event
  click toggle = pressed toggle ∷ toggled ∷ []
  click target = pressed target ∷ []

  -- A click on the toggle always changes whether the navigation is open: the press does not close
  -- the overlay before the toggle's handler opens it again. Any other click closes the navigation
  -- exactly if it lies over the page and the click is not on it.
  pub place_of-click :
      (s : Shell)
      → ((run default_navigation_open (click toggle) s).navigation_open ≡ not s.navigation_open)
        × (place_of (run default_navigation_open (click navigation) s) ≡ place_of s)
        × (place_of (run default_navigation_open (click elsewhere) s)
            ≡ elim (place_of s) [ overlay ↦ hidden | side ↦ side | top ↦ top | hidden ↦ hidden ])
  unfolding run step place_of
  place_of-click s = (ground arith, ground arith, ground arith)

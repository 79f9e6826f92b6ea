-- ===== src/UiCommon/AppShell/Page.antt =====
-- What components/AppShell.tsx renders: the parts of the page that are there, in the order of the
-- document. A persistent drawer and a `Collapse` stay on the page when they are closed.
use agentic_restaurant.Base.{
  ℕ, ◌≡◌, refl, ◌∙◌, String, Bool, true, false, not, ◌&&◌, Option, none, some, List, [], ◌∷◌, ◌++◌,
  if◌then◌else◌, count, count-append, ◌+◌, arith, Bool-cases, inl, inr,
}
use agentic_restaurant.Base.Json.{is_text}
use agentic_restaurant.UiCommon.AppShell.Laws.{layout_iff}
use agentic_restaurant.UiCommon.AppShell.{
  Viewport, Shell, desktop_min_width, uses_side_navigation, uses_top_navigation,
  uses_overlay_navigation, place_of, Place, side, top, overlay, hidden,
}

-- `readViewport`, given the size of the window, if there is one.
abbrev pub read_viewport : Option Viewport → Viewport
read_viewport none = record { width = desktop_min_width; height = 800 }
read_viewport (some window) = window

-- What the caller puts on the page; the navigation and the children are always there.
pub record AppShellProps : Type 0 where
  pub app_title : Option String
  pub header_eyebrow : Option String
  pub header_actions : Bool
  pub footer : Bool

-- A navigation is open or closed.
pub data Section : Type 0 where
  permanent_rail drawer top_navigation : Bool → Section
  toggle_button : Section
  eyebrow title : String → Section
  header_actions main footer : Section

abbrev text_if : (String → Section) → Option String → List Section
text_if section none = []
text_if section (some s) = if is_text s then section s ∷ [] else []

abbrev section_if : Bool → Section → List Section
section_if b section = if b then section ∷ [] else []

abbrev pub app_bar : AppShellProps → List Section
app_bar props =
    toggle_button
    ∷ (text_if eyebrow props.header_eyebrow
        ++ (text_if title props.app_title ++ section_if props.header_actions header_actions))

abbrev pub render_shell : AppShellProps → Shell → List Section
render_shell props s =
    section_if (uses_side_navigation s.viewport) (permanent_rail s.navigation_open)
    ++ (drawer (uses_overlay_navigation s.viewport && s.navigation_open)
        ∷ (app_bar props
            ++ (section_if (uses_top_navigation s.viewport) (top_navigation s.navigation_open)
                ++ (main ∷ section_if props.footer footer))))

-- A section that shows the navigation, and where.
abbrev pub shows : Place → Section → Bool
shows side (permanent_rail shown) = shown
shows top (top_navigation shown) = shown
shows overlay (drawer shown) = shown
shows _ _ = false

abbrev pub is_toggle : Section → Bool
is_toggle toggle_button = true
is_toggle _ = false

abbrev places : Place → Place → ℕ
places side side = 1
places top top = 1
places overlay overlay = 1
places _ _ = 0

-- A test that no text and nothing of the caller's passes.
record IsOfShell (test : Section → Bool) : Type 0 where
  eyebrows : (s : String) → test (eyebrow s) ≡ false
  titles : (s : String) → test (title s) ≡ false
  actions : test header_actions ≡ false
  main : test main ≡ false
  footer : test footer ≡ false

count-text_if :
    (test : Section → Bool) (section : String → Section) (x : Option String)
    → ((s : String) → test (section s) ≡ false)
    → count test (text_if section x) ≡ 0
count-text_if test section none h = refl
count-text_if test section (some s) h = elim (Bool-cases (is_text s)) [
  | inl present ↦ rw (present, h s)
  | inr empty ↦ rw empty
]

count-section_if-false :
    (test : Section → Bool) (b : Bool) (section : Section)
    → test section ≡ false
    → count test (section_if b section) ≡ 0
count-section_if-false test true section h = rw h
count-section_if-false test false section h = refl

count-app_bar :
    (test : Section → Bool) (props : AppShellProps)
    → IsOfShell test
    → count test (app_bar props) ≡ (if test toggle_button then 1 else 0)
count-app_bar test props h =
    let actions = section_if props.header_actions header_actions in
    let titles = text_if title props.app_title ++ actions in
    omega (
      arith,
      count-append test (text_if eyebrow props.header_eyebrow) titles,
      count-append test (text_if title props.app_title) actions,
      count-text_if test eyebrow props.header_eyebrow h.eyebrows,
      count-text_if test title props.app_title h.titles,
      count-section_if-false test props.header_actions header_actions h.actions,
    )

main_unseen :
    (test : Section → Bool) → test main ≡ false → ◌≡◌ {A = ℕ} (if test main then 1 else 0) 0
main_unseen test h = rw h

count-body :
    (test : Section → Bool) (props : AppShellProps) (top_bar : List Section)
    → IsOfShell test
    → count test (app_bar props ++ (top_bar ++ (main ∷ section_if props.footer footer)))
      ≡ (if test toggle_button then 1 else 0) + count test top_bar
count-body test props top_bar h =
    let end = main ∷ section_if props.footer footer in
    omega (
      arith,
      count-append test (app_bar props) (top_bar ++ end),
      count-append test top_bar end,
      count-app_bar test props h,
      count-section_if-false test props.footer footer h.footer,
      main_unseen test h.main,
    )

count-shell :
    (test : Section → Bool) (props : AppShellProps) (s : Shell)
    → IsOfShell test
    → count test (render_shell props s)
      ≡ count test (section_if (uses_side_navigation s.viewport) (permanent_rail s.navigation_open))
        + (count test (drawer (uses_overlay_navigation s.viewport && s.navigation_open) ∷ [])
            + ((if test toggle_button then 1 else 0)
                + count test (
                    section_if
                      (uses_top_navigation s.viewport)
                      (top_navigation s.navigation_open))))
count-shell test props s h =
    let rail = section_if (uses_side_navigation s.viewport) (permanent_rail s.navigation_open) in
    let bar = section_if (uses_top_navigation s.viewport) (top_navigation s.navigation_open) in
    let body = app_bar props ++ (bar ++ (main ∷ section_if props.footer footer)) in
    let closing = drawer (uses_overlay_navigation s.viewport && s.navigation_open) in
    omega (
      arith,
      count-append test rail (closing ∷ body),
      count-append test (closing ∷ []) body,
      count-body test props bar h,
    )

shows-IsOfShell : (place : Place) → IsOfShell (shows place)
shows-IsOfShell place = ground arith

is_toggle-IsOfShell : IsOfShell is_toggle
is_toggle-IsOfShell = ground arith

-- The three navigations, for a window with these layouts.
count-shows :
    (place : Place) (on_side on_top shown : Bool)
    → (on_side && on_top) ≡ false
    → count (shows place) (section_if on_side (permanent_rail shown))
        + (count (shows place) (drawer ((not on_side && not on_top) && shown) ∷ [])
            + ((if shows place toggle_button then 1 else 0)
                + count (shows place) (section_if on_top (top_navigation shown))))
      ≡ places place
          (if not shown then hidden else if on_side then side else if on_top then top else overlay)
count-shows place on_side on_top shown h = ground arith

-- While the navigation is open, the page shows it once, in the place that the window's layout
-- gives it, and nowhere else; while it is closed, nowhere; and the page always has one toggle
-- button.
pub count-render_shell :
    (props : AppShellProps) (s : Shell) (place : Place)
    → (count (shows place) (render_shell props s) ≡ places place (place_of s))
      × (count is_toggle (render_shell props s) ≡ 1)
unfolding place_of
count-render_shell props s place = (
  count-shell (shows place) props s (shows-IsOfShell place)
      ∙ count-shows place (uses_side_navigation s.viewport) (uses_top_navigation s.viewport)
          s.navigation_open (layout_iff s.viewport).2,
  omega (
    arith,
    count-shell is_toggle props s is_toggle-IsOfShell,
    count-section_if-false is_toggle (uses_side_navigation s.viewport)
        (permanent_rail s.navigation_open) refl,
    count-section_if-false is_toggle (uses_top_navigation s.viewport)
        (top_navigation s.navigation_open) refl,
  ),
)

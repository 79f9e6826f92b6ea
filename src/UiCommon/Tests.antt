-- ===== src/UiCommon/Tests.antt =====
-- A page that was opened on the computer itself.
use agentic_restaurant.UiCommon.AppShell.{
  Viewport, Shell, uses_side_navigation, uses_top_navigation, place_of, top,
}
use agentic_restaurant.UiCommon.AppShell.Page.{
  AppShellProps, render_shell, drawer, toggle_button, title, top_navigation, main, footer, shows,
  is_toggle, count-render_shell,
}
use agentic_restaurant.Base.{◌≡◌, refl, true, false, none, some, count, List, [], ◌∷◌}
use agentic_restaurant.Base.Text.{trim}
use agentic_restaurant.Base.Http.{Part, text}
use agentic_restaurant.UiCommon.QrCode.{
  Location, code_of, local_network_qr_code, build_display_url, resolve_display_host,
}

abbrev at_home : Location
at_home = record { protocol = "http:"; hostname = "localhost"; port = "5173" }

abbrev url : List Part
url = text "http:" ∷ text "//" ∷ text "192.168.0.9" ∷ text ":" ∷ text "5173" ∷ []

shows_url : local_network_qr_code at_home false (some " 192.168.0.9 ") ≡ code_of url
unfolding local_network_qr_code build_display_url resolve_display_host trim
shows_url = refl

-- A tablet held upright, and then turned.
abbrev upright : Viewport
upright = record { width = 800; height = 1280 }

abbrev turned : Viewport
turned = record { width = 1280; height = 800 }

upright_layout : (uses_top_navigation upright ≡ true) × (uses_side_navigation turned ≡ true)
upright_layout = (refl, refl)

abbrev closed : Shell
closed = record { viewport = upright; navigation_open = false }

abbrev props : AppShellProps
props = record {
  app_title = some "Orders";
  header_eyebrow = none;
  header_actions = false;
  footer = true;
}

abbrev opened : Shell
opened = record { viewport = upright; navigation_open = true }

opened_page :
    render_shell props opened
    ≡ drawer false ∷ toggle_button ∷ title "Orders" ∷ top_navigation true ∷ main ∷ footer ∷ []
opened_page = refl

count-render_shell_example :
    (count (shows top) (render_shell props opened) ≡ 1)
    × (count is_toggle (render_shell props opened) ≡ 1)
unfolding place_of
count-render_shell_example = count-render_shell props opened top

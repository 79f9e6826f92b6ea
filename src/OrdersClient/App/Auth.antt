-- ===== src/OrdersClient/App/Auth.antt =====
-- The name of a guest.
use agentic_restaurant.Base.{◌≤◌, ◌≡◌, ◌↔◌, true, [], ◌∷◌, arith}
use agentic_restaurant.Base.Json.{is_text}
use agentic_restaurant.Base.Text.{trim, utf16_length}
use agentic_restaurant.OrdersClient.App.{State, app_token}
use agentic_restaurant.OrdersClient.App.Handlers.{on_guest_login}

-- The guest form asks for an application token exactly if the trimmed name has between 1 and 100
-- UTF-16 units, and keeps that trimmed name for the request that creates the guest.
pub on_guest_login-app_token_iff :
    (s : State)
    → ((on_guest_login s).1 ≡ app_token (trim s.guest_display_name) ∷ []) ↔ (
        (is_text (trim s.guest_display_name) ≡ true)
        × (utf16_length (trim s.guest_display_name) ≤ 100))
unfolding on_guest_login
on_guest_login-app_token_iff s = (λ h. ground arith, λ h. ground arith)

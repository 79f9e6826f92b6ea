-- ===== src/UiCommon/QrCode.antt =====
-- The address for phones on the same network: components/LocalNetworkQrCode.tsx, in a browser.
-- The drawing of the code belongs to the library that the component uses.
use agentic_restaurant.Base.{
  String, ◌≡◌, ◌↔◌, ◌⊎◌, Bool, true, false, ◌||◌, not, Option, none, some, List, [], ◌∷◌,
  if◌then◌else◌, str_eq, is_empty, arith,
}
use agentic_restaurant.Base.Json.{is_text}
use agentic_restaurant.Base.Text.{trim}
use agentic_restaurant.Base.Http.{Part, text}

-- `window.location`
pub record Location : Type 0 where
  pub protocol : String
  pub hostname : String
  pub port : String

-- `localIp?.trim() ?? ""`
abbrev pub local_host : Option String → String
unfolding trim
local_host none = ""
local_host (some ip) = trim ip

abbrev pub is_localhost : String → Bool
is_localhost hostname = str_eq hostname "localhost" || str_eq hostname "127.0.0.1"

unfoldable pub resolve_display_host : Location → Option String → String
resolve_display_host location local_ip =
    if not (is_localhost location.hostname) then location.hostname else local_host local_ip

abbrev port_part : String → List Part
port_part port = if is_text port then text ":" ∷ text port ∷ [] else []

-- A text as its pieces; the empty text has none.
unfoldable pub build_display_url : Location → String → List Part
build_display_url location host =
    if not (is_text host)
    then []
    else text location.protocol ∷ text "//" ∷ text host ∷ port_part location.port

pub data QrCode : Type 0 where
  nothing address_missing : QrCode
  code_of : List Part → QrCode

unfoldable pub local_network_qr_code : Location → Bool → Option String → QrCode
local_network_qr_code location hidden local_ip =
    let display_url = build_display_url location (resolve_display_host location local_ip) in
    if hidden
    then nothing
    else if is_empty display_url
    then address_missing
    else code_of display_url

-- Where the component is not hidden, a QR code is drawn exactly if the page was opened by another
-- name than the computer's own, which is not empty, or by the computer's own name and a local
-- address is configured that is not blank.
pub local_network_qr_code_iff :
    (location : Location) (local_ip : Option String)
    → ((url : List Part) × (local_network_qr_code location false local_ip ≡ code_of url)) ↔ (
        ((is_localhost location.hostname ≡ false) × (is_text location.hostname ≡ true))
        ⊎ ((is_localhost location.hostname ≡ true) × (is_text (local_host local_ip) ≡ true)))
unfolding local_network_qr_code build_display_url resolve_display_host
local_network_qr_code_iff location local_ip = (
  λ h. ground arith,
  λ h. (build_display_url location (resolve_display_host location local_ip), ground arith),
)

-- The address in the code is never the computer's own name, if the local address is not.
pub code_of_local_host :
    (location : Location) (hidden : Bool) (local_ip : Option String) (url : List Part)
    → is_localhost (local_host local_ip) ≡ false
    → local_network_qr_code location hidden local_ip ≡ code_of url
    → (host : String) × (is_localhost host ≡ false)
      × (is_text host ≡ true)
      × (url ≡ text location.protocol ∷ text "//" ∷ text host ∷ port_part location.port)
unfolding local_network_qr_code build_display_url resolve_display_host
code_of_local_host location hidden local_ip url other h =
    (resolve_display_host location local_ip, ground arith, ground arith, ground arith)

-- ===== src/UiCommon/Widgets.antt =====
-- What a component renders, as the list of what is on the page, in the order of the document:
-- texts, and the controls of apps/ui-common-libs with the event that each one causes.
pub mod Laws
use agentic_restaurant.Base.{
  ℕ, zero, suc, String, ◌≡◌, Bool, true, false, ◌&&◌, Option, none, some, List, [], ◌∷◌,
  if◌then◌else◌, leb,
}
use agentic_restaurant.Base.Json.{is_text}
use agentic_restaurant.Base.Text.{utf16_length}
use agentic_restaurant.Base.Http.{Part, text}
use agentic_restaurant.UiCommon.TextSize.{TextSize}
use agentic_restaurant.UiCommon.QrCode.{QrCode}

-- components/StatusBadge.tsx
pub data StatusBadgeTone : Type 0 where
  neutral info success warning danger : StatusBadgeTone

-- A text is the pieces of a template. A submit button has the values of its form's required fields,
-- a field has its label, its value and its `maxLength`, and a card's contents follow its button.
pub data Widget {ℓ} (E : Type ℓ) : Type ℓ where
  caption error_text : List Part → Widget E
  badge : List Part → StatusBadgeTone → Widget E
  button : List Part → Bool → E → Widget E
  submit : List Part → Bool → List String → E → Widget E
  field : String → String → Option ℕ → (String → E) → Widget E
  text_size_control : TextSize → (TextSize → E) → Widget E
  qr_code : QrCode → Widget E

-- What a user does at a control.
pub data Gesture : Type 0 where
  click : Gesture
  typed : String → Gesture
  sized : TextSize → Gesture

abbrev pub all_filled : List String → Bool
all_filled [] = true
all_filled (value ∷ values) = is_text value && all_filled values

-- A field with a `maxLength` takes no more UTF-16 units.
abbrev pub fits : Option ℕ → String → Bool
fits none value = true
fits (some limit) value = leb (utf16_length value) limit

module _ {ℓ} {E : Type ℓ} where
  -- A disabled button does nothing, and a form with an empty required field is not submitted.
  abbrev pub caused : Gesture → Widget E → Option E
  caused click (button label disabled e) = if disabled then none else some e
  caused click (submit label disabled required e) =
      if disabled then none else (if all_filled required then some e else none)
  caused (typed value) (field label current limit e) =
      if fits limit value then some (e value) else none
  caused (sized size) (text_size_control current e) = some (e size)
  caused gesture widget = none

  -- The gesture at the control in this place of the page.
  unfoldable pub caused_at : ℕ → Gesture → List (Widget E) → Option E
  caused_at place gesture [] = none
  caused_at zero gesture (w ∷ ws) = caused gesture w
  caused_at (suc place) gesture (w ∷ ws) = caused_at place gesture ws

-- Pieces of a rendering: an error text that is empty is not rendered, as with `{e ? <p>…</p> : null}`.
module _ {ℓ} {E : Type ℓ} where
  abbrev pub error_if : Option String → List (Widget E)
  error_if none = []
  error_if (some message) = if is_text message then error_text (text message ∷ []) ∷ [] else []

  -- components/InfoCard.tsx, with a title, a description and children.
  abbrev pub info_card : List Part → List Part → List (Widget E) → List (Widget E)
  info_card title description children = caption title ∷ caption description ∷ children

  -- components/ChoiceCard.tsx; the title and the description are on the button.
  abbrev pub choice_card : String → Option String → E → Widget E
  choice_card title none e = button (text title ∷ []) false e
  choice_card title (some description) e =
      button (if is_text description then text title ∷ text description ∷ [] else text title ∷ [])
        false e

-- components/AppNavigationMenu.tsx
pub record NavigationItem {ℓ} (E : Type ℓ) : Type ℓ where
  pub id : String
  pub label : String
  pub active : Bool
  pub on_click : E

abbrev pub navigation_menu {ℓ} :
    {E : Type ℓ} → List (NavigationItem E) → List (Widget E) → List (Widget E)
navigation_menu [] footer = footer
navigation_menu (item ∷ items) footer =
    button (text item.label ∷ []) false item.on_click ∷ navigation_menu items footer

-- A property of the events that a control can cause.
abbrev pub Admits {ℓ κ} : {E : Type ℓ} → (E → Type κ) → Widget E → Type κ
Admits P (button label disabled e) = disabled ≡ false → P e
Admits P (submit label disabled required e) = disabled ≡ false → all_filled required ≡ true → P e
Admits P (field label current limit e) = (value : String) → fits limit value ≡ true → P (e value)
Admits P (text_size_control current e) = (size : TextSize) → P (e size)
Admits P _ = Unit

-- Some gesture at some control of the page causes the event.
pub record Causes {ℓ} {E : Type ℓ} (e : E) (ws : List (Widget E)) : Type ℓ where
  pub place : ℕ
  pub gesture : Gesture
  pub causes : caused_at place gesture ws ≡ some e

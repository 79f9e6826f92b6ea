-- ===== src/UiCommon/TextSize.antt =====
-- The text size: components/TextSizeControl.tsx, and the value that both clients keep in
-- `localStorage` (`readInitialTextSize` and the effect on `textSize` of their App.tsx).
use agentic_restaurant.Base.{String, ◌≡◌, refl, ◌||◌, Option, none, some, if◌then◌else◌, str_eq}

pub data TextSize : Type 0 where
  size1 size2 size3 : TextSize

-- `String(textSize)`
abbrev pub text_size_name : TextSize → String
text_size_name size1 = "1"
text_size_name size2 = "2"
text_size_name size3 = "3"

-- `Number(raw)` for a text that is "1", "2" or "3".
abbrev pub text_size_number : String → TextSize
text_size_number raw = if str_eq raw "2" then size2 else if str_eq raw "3" then size3 else size1

-- `readInitialTextSize` in a browser, from the text that `localStorage` has.
unfoldable pub read_initial_text_size : Option String → TextSize
read_initial_text_size none = size1
read_initial_text_size (some raw) =
    if str_eq raw "2" || str_eq raw "3" then text_size_number raw else size1

-- The toggle group's `onChange`: `null` is what deselecting the active button gives.
unfoldable pub change_text_size : TextSize → Option String → TextSize
change_text_size value none = value
change_text_size value (some next) =
    if str_eq next "1" || str_eq next "2" || str_eq next "3" then text_size_number next else value

-- The effect on `textSize`: what `localStorage` has once a rendering with another size is over.
unfoldable pub store_text_size : TextSize → TextSize → Option String → Option String
store_text_size before after stored =
    if str_eq (text_size_name before) (text_size_name after)
    then stored
    else some (text_size_name after)

-- The size that is stored is the size that the next visit starts with.
pub read_initial-text_size_name :
    (size : TextSize) → read_initial_text_size (some (text_size_name size)) ≡ size
unfolding read_initial_text_size
read_initial-text_size_name size1 = refl
read_initial-text_size_name size2 = refl
read_initial-text_size_name size3 = refl

-- Clicking on the button of a size selects it, and any other value leaves the size as it is.
pub change_text_size-name :
    (value size : TextSize) → change_text_size value (some (text_size_name size)) ≡ size
unfolding change_text_size
change_text_size-name value size1 = refl
change_text_size-name value size2 = refl
change_text_size-name value size3 = refl

-- If the size that is shown is the one that the next visit starts with, it is so after the effect.
pub read_initial-store_text_size :
    (before after : TextSize) (stored : Option String)
    → read_initial_text_size stored ≡ before
    → read_initial_text_size (store_text_size before after stored) ≡ after
unfolding read_initial_text_size store_text_size
read_initial-store_text_size size1 size1 stored h = h
read_initial-store_text_size size2 size2 stored h = h
read_initial-store_text_size size3 size3 stored h = h
read_initial-store_text_size size1 size2 stored h = refl
read_initial-store_text_size size1 size3 stored h = refl
read_initial-store_text_size size2 size1 stored h = refl
read_initial-store_text_size size2 size3 stored h = refl
read_initial-store_text_size size3 size1 stored h = refl
read_initial-store_text_size size3 size2 stored h = refl

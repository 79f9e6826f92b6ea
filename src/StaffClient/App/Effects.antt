-- ===== src/StaffClient/App/Effects.antt =====
-- The effects of App.tsx that depend on the view and on the session. React runs an effect after a
-- rendering in which one of its dependencies has changed.
use agentic_restaurant.Base.{
  String, Bool, true, false, not, ◌&&◌, Option, none, some, List, [], ◌++◌, if◌then◌else◌, str_eq,
  is_some,
}
use agentic_restaurant.StaffClient.Session.{UiSession}
use agentic_restaurant.StaffClient.App.{AppView, display_loading, State, Effect, is_board_view}
use agentic_restaurant.StaffClient.App.Handlers.{enter_display_mode, load_board}

abbrev pub is_display_loading : AppView → Bool
is_display_loading display_loading = true
is_display_loading _ = false

-- `view === "display_loading" && !session`
abbrev pub wants_display : State → Bool
wants_display s = is_display_loading s.view && not (is_some s.session)

-- The effect on `[session, view]`. Where its condition held before too, neither has changed.
display_effect : State → State → State × List Effect
unfolding enter_display_mode
display_effect before s =
    if wants_display s && not (wants_display before) then enter_display_mode s else (s, [])

-- `session?.accessToken`
abbrev pub token_of : Option UiSession → Option String
token_of none = none
token_of (some session) = some session.access_token

abbrev pub same_token : Option String → Option String → Bool
same_token none none = true
same_token (some a) (some b) = str_eq a b
same_token _ _ = false

abbrev same_bool : Bool → Bool → Bool
same_bool true b = b
same_bool false b = not b

-- The body of the effect on `[isBoardView, session?.accessToken]`, after the cleanup of the one
-- before it: the board is loaded, and the interval is set.
start_polling : Bool → Option UiSession → State → State × List Effect
unfolding load_board
start_polling true (some session) s =
    load_board session.access_token session.mode
      (record s { polling = some (record { token = session.access_token; mode = session.mode }) })
start_polling _ _ s = (record s { polling = none }, [])

board_effect : State → State → State × List Effect
unfolding start_polling
board_effect before s =
    if same_bool (is_board_view before.view) (is_board_view s.view)
      && same_token (token_of before.session) (token_of s.session)
    then (s, [])
    else start_polling (is_board_view s.view) s.session s

-- The effects after an event, in their order.
unfoldable pub run_effects : State → State → State × List Effect
unfolding display_effect board_effect
run_effects before s =
    let (s', es) = display_effect before s in
    let (s'', fs) = board_effect before s' in (s'', es ++ fs)

-- The effects after the first rendering: every one runs.
unfoldable pub mount : State → State × List Effect
unfolding enter_display_mode start_polling
mount s =
    if wants_display s
    then enter_display_mode s
    else start_polling (is_board_view s.view) s.session s

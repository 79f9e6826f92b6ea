-- ===== src/StaffClient/App/Texts.antt =====
-- Functions on texts that App.tsx applies to labels.
use Prim.Native.Char.{code}
use Prim.Native.String.{String, [], ◌∷◌}
use agentic_restaurant.Base.{str_eq, ◌==◌, if◌then◌else◌}
use agentic_restaurant.StaffClient.Production.{
  status_queued, status_in_progress, status_blocked, status_ready,
}

-- `status.replace(/_/g, " ")`
unfoldable pub status_label : String → String
status_label [] = []
status_label (c ∷ s) = (if code c == 95 then " " else c) ∷ status_label s

-- `s.charAt(0)`, of a text of ASCII characters
abbrev pub first : String → String
first [] = []
first (c ∷ s) = c ∷ []

-- `s.slice(1)`, of a text of ASCII characters
abbrev pub rest : String → String
rest [] = []
rest (c ∷ s) = s

-- The CSS classes of a lane's header.
abbrev pub lane_header_class : String → String
lane_header_class status =
    if str_eq status status_queued
    then "lane-header queued"
    else if str_eq status status_in_progress
    then "lane-header in-progress"
    else if str_eq status status_blocked
    then "lane-header blocked"
    else if str_eq status status_ready
    then "lane-header ready"
    else "lane-header"

-- ===== src/Sessions/Examples.antt =====
-- Sessions with a few lines and connections, for the theorems about src/session_manager.py and
-- src/routers/sessions.py.
use ops_sentry.Prelude.{string_eq, nat_eq, Bool, true, List, [], ◌∷◌, not, ◌==◌}
use ops_sentry.Prelude.Json.{Json, null, bool}
use ops_sentry.Sessions.{Hub, Histories, WebSocket, corrupt}

abbrev three : List Json
three = null ∷ bool true ∷ null ∷ []

abbrev stored : Histories
stored = ("s2", corrupt ∷ []) ∷ []

abbrev hub : Hub
hub = record { active = ("s1", 1 ∷ 2 ∷ []) ∷ []; sent = [] }

abbrev up : WebSocket → Bool
up w = not (w == 2)

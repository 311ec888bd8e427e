-- ===== src/Sessions/Listing.antt =====
-- Whose sessions list_user_sessions of src/session_manager.py lists.
use ops_sentry.Prelude.{string_eq, nat_eq, String, List, map}
use ops_sentry.Sessions.{Histories, list_user_sessions}

-- The ids of the sessions that a user is shown.
abbrev pub shown_ids : String → Histories → List String
shown_ids uid h = map (λ s. s.id) (list_user_sessions uid h)

-- ===== src/Server/Sessions/Pages.antt =====
-- Who sees a page.
use sheath.Prelude.{ℕ, ◌≡◌, arith, Option, none, some, if◌then◌else◌, Text, is_empty}
use sheath.Server.Accounts.{Role, admin, at_least}
use sheath.Server.Sessions.{
  Who, Store, lookup, caller, Page, sign_in, not_allowed, served, return_to, require_role,
}
use sheath.Server.Sessions.Store.{good}

-- The session that a request's cookie names, while it is good.
abbrev pub session_of : Option Text → ℕ → Store → Option Who
session_of none now s = none
session_of (some id) now s = if is_empty id then none else good id now s

abbrev pub page_for : Role → Text → Option Who → Page
page_for need path none = sign_in (return_to path)
page_for need path (some w) = if at_least w.role need then served else not_allowed

-- With an admin token set, a page is served to those whose session is good and has the role; with too little
-- they are told so, and without a good session they are sent to sign in. With none set everybody is
-- treated as an admin.
pub require_role_lem :
    (need : Role) (path admin_token : Text) (cookie : Option Text) (now : ℕ) (s : Store)
    → (require_role need path admin_token cookie now s).0 ≡ (
        if is_empty admin_token
        then (if at_least admin need then served else not_allowed)
        else page_for need path (session_of cookie now s))
unfolding require_role caller lookup
require_role_lem need path admin_token none now s = ground arith
require_role_lem need path admin_token (some id) now s = ground arith

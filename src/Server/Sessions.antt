-- ===== src/Server/Sessions.antt =====
-- server/session.go: who is signed in to the web interface, and what a page asks of them. A session's id is
-- what newToken returned; times are seconds. The store is the list of its sessions, by id.
pub mod Store
pub mod Pages
mod Examples
use sheath.Prelude.{
  ℕ, ◌+◌, Bool, true, false, not, ◌&&◌, ◌||◌, List, [], ◌∷◌, Option, none, some, ltb, ◌==◌,
  if◌then◌else◌, Text, codes, text_eq, is_empty, select,
}
use sheath.Server.Accounts.{Role, admin, at_least, Account, authenticate}

pub record Who : Type 0 where
  pub name : Text
  pub role : Role
  pub exp : ℕ

abbrev pub Store : Type 0
Store = List (Text × Who)

-- `sessionTTL`
abbrev pub session_ttl : ℕ
session_ttl = 43200

-- `m[id] = w`, `m[id]` and `delete(m, id)`
unfoldable pub put : Text → Who → Store → Store
put id w [] = (id, w) ∷ []
put id w ((j, v) ∷ m) = if text_eq j id then (id, w) ∷ m else (j, v) ∷ put id w m

unfoldable pub find : Text → Store → Option Who
find id [] = none
find id ((j, v) ∷ m) = if text_eq j id then some v else find id m

-- `sessions.drop`
unfoldable pub drop : Text → Store → Store
drop id [] = []
drop id ((j, v) ∷ m) = let rest = drop id m in if text_eq j id then rest else (j, v) ∷ rest

abbrev pub expired : ℕ → Who → Bool
expired now w = ltb w.exp now

-- `create`
unfoldable pub create : Text → Text → Role → ℕ → Store → Store
create id name role now s = put id (record { name = name; role = role; exp = now + session_ttl }) s

-- `lookup`: who it is, and the store afterwards.
unfoldable pub lookup : Text → ℕ → Store → Option Who × Store
lookup id now s = if is_empty id then (none, s) else elim (find id s) [
  | none ↦ (none, drop id s)
  | some w ↦ if expired now w then (none, drop id s) else (some w, s)
]

-- One turn of `reap`
unfoldable pub reap : ℕ → Store → Store
reap now [] = []
reap now ((j, v) ∷ m) = if expired now v then reap now m else (j, v) ∷ reap now m

-- `caller`, with the session cookie of the request
unfoldable pub caller : Text → Option Text → ℕ → Store → Option Who × Store
caller admin_token cookie now s =
    if is_empty admin_token
    then (some (record { name = []; role = admin; exp = 0 }), s)
    else elim cookie [ none ↦ (none, s) | some id ↦ lookup id now s ]

pub data Page : Type 0 where
  -- to the sign-in page, and from there to this path
  sign_in : Text → Page
  not_allowed served : Page

abbrev pub return_to : Text → Text
return_to path = if is_empty path || text_eq path (codes "/login") then codes "/" else path

-- `requireRole`
unfoldable pub require_role : Role → Text → Text → Option Text → ℕ → Store → Page × Store
require_role need path admin_token cookie now s =
    let (c, t) = caller admin_token cookie now s in
    elim c [
      | none ↦ (sign_in (return_to path), t)
      | some w ↦ if not (at_least w.role need) then (not_allowed, t) else (served, t)
    ]

-- Where signing in leads
abbrev pub next_page : Text → Text
next_page [] = codes "/"
next_page (c ∷ s) = if not (c == b'/') then codes "/" else c ∷ s

pub record SignIn : Type 0 where
  pub users : List Account
  pub store : Store

-- `hLoginPost`, for a form that parses, its user name trimmed: `id` is the new session's, and the page is
-- the one to go to, or `none` for the sign-in page again.
unfoldable pub login_post :
    (Text → Text → Bool) → Text → Text → Text → Text → Text → ℕ → SignIn → SignIn × Option Text
login_post matches admin_token id name secret next now a =
    if not (is_empty name)
    then (let (users, u) = authenticate matches name secret now a.users in
        elim u [
          | none ↦ (record a { users = users }, none)
          | some v ↦ (
            record { users = users; store = create id v.name v.role now a.store },
            some (next_page next),
          )
        ])
    else if text_eq secret admin_token
    then (record a { store = create id [] admin now a.store }, some (next_page next))
    else (a, none)

-- `hLogout`
unfoldable pub logout : Option Text → Store → Store
logout none s = s
logout (some id) s = drop id s

-- ===== src/Server/Accounts.antt =====
-- server/users.go: accounts, roles and passwords; mayDo of server/usersui.go. The table `users` is a
-- list of rows, and `name` its key. Key derivation and base64 are parameters (`Crypto`).
pub mod Password
pub mod Lockout
mod Examples
use sheath.Prelude.{
  ℕ, ◌<◌, Bool, true, false, not, ◌&&◌, ◌||◌, List, [], ◌∷◌, ◌++◌, Option, none, some, ◌≡◌, leb,
  ltb, ◌==◌, if◌then◌else◌, Text, codes, text_eq, length, any, all, update_where, select,
  find_first,
}

pub data Role : Type 0 where
  admin operator : Role
  -- a string that is neither
  unknown : Text → Role

unfoldable pub valid_role : Role → Bool
valid_role admin = true
valid_role operator = true
valid_role (unknown _) = false

-- `r.atLeast(need)`
unfoldable pub at_least : Role → Role → Bool
at_least admin operator = true
at_least operator operator = true
at_least (unknown _) operator = false
at_least admin _ = true
at_least operator _ = false
at_least (unknown _) _ = false

-- The table row of `User` with its password hash.
pub record Account : Type 0 where
  pub name : Text
  pub pass : Text
  pub role : Role
  pub created : ℕ
  pub last_login : Option ℕ
  pub disabled : Bool

pub data UserError : Type 0 where
  bad_name bad_role weak_password hash_failed last_admin : UserError
  taken no_such_user : Text → UserError

abbrev name_byte : ℕ → Bool
name_byte c =
    (leb b'a' c && leb c b'z')
    || ((leb b'A' c && leb c b'Z') || (leb b'0' c && leb c b'9'))
    || ((c == b'.') || ((c == b'-') || (c == b'_')))

unfoldable pub valid_user_name : Text → Bool
unfolding all
valid_user_name name = not (ltb (length name) 2 || ltb 32 (length name)) && all name_byte name

unfoldable pub usable_password : Text → Bool
usable_password pw = leb 10 (length pw)

abbrev pub named : Text → Account → Bool
named name u = text_eq u.name name

-- An admin who can sign in.
abbrev pub active_admin : Account → Bool
active_admin u = is_admin u.role && not u.disabled
  where
    is_admin : Role → Bool
    is_admin admin = true
    is_admin _ = false

-- `wouldStrandUs`: no other admin could sign in.
unfoldable pub would_strand_us : Text → List Account → Bool
would_strand_us name users = not (any (λ u. active_admin u && not (named name u)) users)

-- `getUser`
unfoldable pub get_user : Text → List Account → Option Account
get_user name = find_first (named name)

-- `anyUsers`
unfoldable pub any_users : List Account → Bool
any_users [] = false
any_users (_ ∷ _) = true

pub data Outcome : Type 0 where
  done : List Account → Outcome
  refused : UserError → Outcome

-- The table after a call: an error changes nothing.
abbrev pub after : List Account → Outcome → List Account
after users (done us) = us
after users (refused _) = users

-- The row that `INSERT INTO users` writes; the columns left out have their defaults.
abbrev pub new_account : Text → Text → Role → ℕ → Account
new_account name h r now = record {
  name = name;
  pass = h;
  role = r;
  created = now;
  last_login = none;
  disabled = false;
}

-- `hashed` is the result of `hashPassword(pw)`, with its fresh salt.
unfoldable pub create_user : Text → Text → Role → Option Text → ℕ → List Account → Outcome
create_user name pw r hashed now users =
    if not (valid_user_name name)
    then refused bad_name
    else if not (valid_role r)
    then refused bad_role
    else if not (usable_password pw)
    then refused weak_password
    else elim hashed [
      | none ↦ refused hash_failed
      | some h ↦
          if any (named name) users
          then refused (taken name)
          else done (users ++ new_account name h r now ∷ [])
    ]

unfoldable pub set_user_password : Text → Text → Option Text → List Account → Outcome
set_user_password name pw hashed users =
    if not (usable_password pw) then refused weak_password else elim hashed [
      | none ↦ refused hash_failed
      | some h ↦
          if any (named name) users
          then done (update_where (named name) (λ u. record u { pass = h }) users)
          else refused (no_such_user name)
    ]

abbrev not_admin : Role → Bool
not_admin admin = false
not_admin _ = true

unfoldable pub set_user_role : Text → Role → List Account → Outcome
set_user_role name r users =
    if not (valid_role r)
    then refused bad_role
    else if not_admin r && would_strand_us name users
    then refused last_admin
    else done (update_where (named name) (λ u. record u { role = r }) users)

unfoldable pub set_user_disabled : Text → Bool → List Account → Outcome
set_user_disabled name off users =
    if off && would_strand_us name users
    then refused last_admin
    else done (update_where (named name) (λ u. record u { disabled = off }) users)

unfoldable pub delete_user : Text → List Account → Outcome
delete_user name users =
    if would_strand_us name users
    then refused last_admin
    else done (select (λ u. not (named name u)) users)

-- `authenticate`: the account that signed in, and the table with its time of login.
unfoldable pub authenticate :
    (Text → Text → Bool) → Text → Text → ℕ → List Account → List Account × Option Account
authenticate matches name pw now users = elim (get_user name users) [
  | none ↦ (users, none)
  | some u ↦
      if not (matches u.pass pw) || u.disabled
      then (users, none)
      else (update_where (named name) (λ v. record v { last_login = some now }) users, some u)
]

pub data Action : Type 0 where
  reimage cancel reset shutdown reboot identify identify_off stealth_on stealth_off probe wipe :
      Action
  -- a kind that `actionNeeds` does not list
  other_action : Text → Action

-- `actionNeeds`, and `roleAdmin` for what it does not list
unfoldable pub action_needs : Action → Role
action_needs wipe = admin
action_needs (other_action _) = admin
action_needs _ = operator

unfoldable pub may_do : Role → Action → Bool
unfolding at_least action_needs
may_do r kind = at_least r (action_needs kind)

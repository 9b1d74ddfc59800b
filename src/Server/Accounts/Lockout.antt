-- ===== src/Server/Accounts/Lockout.antt =====
-- No change through users.go locks every administrator out, and what each role may do.
use sheath.Prelude.{
  ℕ, ◌≡◌, arith, Bool, true, false, not, ◌&&◌, List, [], ◌∷◌, ◌++◌, Option, none, some, Text, any,
  update_where, select,
}
use sheath.Server.Accounts.{
  Role, admin, operator, Account, active_admin, named, would_strand_us, Outcome, after, create_user,
  set_user_password, set_user_role, set_user_disabled, delete_user, Action, may_do, new_account,
  unknown, wipe, other_action,
}

abbrev pub HasAdmin : List Account → Type 0
HasAdmin users = any active_admin users ≡ true

-- The calls that change the table.
pub data Change : Type 0 where
  create : Text → Text → Role → Option Text → ℕ → Change
  set_password : Text → Text → Option Text → Change
  set_role : Text → Role → Change
  set_disabled : Text → Bool → Change
  delete : Text → Change

pub apply : Change → List Account → Outcome
apply (create name pw r hashed now) = create_user name pw r hashed now
apply (set_password name pw hashed) = set_user_password name pw hashed
apply (set_role name r) = set_user_role name r
apply (set_disabled name off) = set_user_disabled name off
apply (delete name) = delete_user name

pub apply_all : List Change → List Account → List Account
unfolding apply
apply_all [] users = users
apply_all (c ∷ cs) users = apply_all cs (after users (apply c users))

abbrev spared : Text → Account → Bool
spared name u = active_admin u && not (named name u)

any-append : (p : Account → Bool) (xs ys : List Account) → any p xs ≡ true → any p (xs ++ ys) ≡ true
unfolding any
any-append p [] ys h = ground arith
any-append p (x ∷ xs) ys h = ground (arith, any-append p xs ys)

-- An update of the rows called `name` leaves the other active admins.
any-update_where :
    (name : Text) (f : Account → Account) (us : List Account)
    → any (spared name) us ≡ true
    → any active_admin (update_where (named name) f us) ≡ true
unfolding any update_where
any-update_where name f [] h = ground arith
any-update_where name f (u ∷ us) h = ground (arith, any-update_where name f us)

-- An update that takes no admin their access away keeps them all.
any-update_keep :
    (p : Account → Bool) (f : Account → Account)
    → ((u : Account) → active_admin u ≡ true → active_admin (f u) ≡ true)
    → (us : List Account) → any active_admin us ≡ true
    → any active_admin (update_where p f us) ≡ true
unfolding any update_where
any-update_keep p f keep [] h = h
any-update_keep p f keep (u ∷ us) h = ground (arith, keep u, any-update_keep p f keep us)

any-select :
    (name : Text) (us : List Account)
    → any (spared name) us ≡ true
    → any active_admin (select (λ u. not (named name u)) us) ≡ true
unfolding any select
any-select name [] h = ground arith
any-select name (u ∷ us) h = ground (arith, any-select name us)

create-HasAdmin :
    (name pw : Text) (r : Role) (hashed : Option Text) (now : ℕ) (us : List Account)
    → HasAdmin us
    → HasAdmin (after us (create_user name pw r hashed now us))
unfolding create_user
create-HasAdmin name pw r none now us h = ground arith
create-HasAdmin name pw r (some p) now us h =
    ground (arith, any-append active_admin us (new_account name p r now ∷ []) h)

password-HasAdmin :
    (name pw : Text) (hashed : Option Text) (us : List Account)
    → HasAdmin us
    → HasAdmin (after us (set_user_password name pw hashed us))
unfolding set_user_password
password-HasAdmin name pw none us h = ground arith
password-HasAdmin name pw (some p) us h =
    ground (arith, any-update_keep (named name) (λ u. record u { pass = p }) (λ u k. k) us h)

role-HasAdmin :
    (name : Text) (r : Role) (us : List Account)
    → HasAdmin us
    → HasAdmin (after us (set_user_role name r us))
unfolding set_user_role would_strand_us
role-HasAdmin name admin us h = ground (
  arith,
  any-update_keep (named name) (λ u. record u { role = admin }) (λ u k. ground arith) us h,
)
role-HasAdmin name r us h = ground (arith, any-update_where name (λ u. record u { role = r }) us)

disabled-HasAdmin :
    (name : Text) (off : Bool) (us : List Account)
    → HasAdmin us
    → HasAdmin (after us (set_user_disabled name off us))
unfolding set_user_disabled would_strand_us
disabled-HasAdmin name true us h =
    ground (arith, any-update_where name (λ u. record u { disabled = true }) us)
disabled-HasAdmin name false us h =
    any-update_keep (named name) (λ u. record u { disabled = false }) (λ u k. ground arith) us h

delete-HasAdmin :
    (name : Text) (us : List Account) → HasAdmin us → HasAdmin (after us (delete_user name us))
unfolding delete_user would_strand_us
delete-HasAdmin name us h = ground (arith, any-select name us)

after-HasAdmin : (c : Change) (us : List Account) → HasAdmin us → HasAdmin (after us (apply c us))
unfolding apply
after-HasAdmin (create name pw r hashed now) us = create-HasAdmin name pw r hashed now us
after-HasAdmin (set_password name pw hashed) us = password-HasAdmin name pw hashed us
after-HasAdmin (set_role name r) us = role-HasAdmin name r us
after-HasAdmin (set_disabled name off) us = disabled-HasAdmin name off us
after-HasAdmin (delete name) us = delete-HasAdmin name us

-- However accounts are created, given passwords and roles, disabled, enabled and deleted, if some
-- admin can sign in at first then some admin can sign in at the end.
pub apply_all-HasAdmin :
    (cs : List Change) (us : List Account) → HasAdmin us → HasAdmin (apply_all cs us)
unfolding apply_all
apply_all-HasAdmin [] us h = h
apply_all-HasAdmin (c ∷ cs) us h =
    apply_all-HasAdmin cs (after us (apply c us)) (after-HasAdmin c us h)

-- An operator may do nothing that an admin may not, a role that is neither may do nothing, and
-- erasing a disk and what the table of actions does not list take an admin.
pub may_do_roles :
    (kind : Action) (t s : Text)
    → (may_do admin kind ≡ true)
      × (may_do (unknown t) kind ≡ false)
      × (may_do operator wipe ≡ false)
      × (may_do operator (other_action s) ≡ false)
unfolding may_do
may_do_roles kind t s = ground arith

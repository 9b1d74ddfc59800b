-- ===== src/Server/Agent/Commands.antt =====
-- Commands are handed out once, and not when they have become old.
use sheath.Prelude.{
  ℕ, ◌-◌, ◌≤◌, ◌≡◌, refl, inl, inr, arith, Bool, true, false, List, [], ◌∷◌, Text, All, select,
  update_where, Bool-cases,
}
use sheath.Server.Policy.{Policy, command_ttl}
use sheath.Server.Fleet.{Command, Taken, fetched, expired, Fleet, is_waiting, log_event}
use sheath.Server.Agent.{is_expired, take_with, expire_commands, hand_commands}

select-update_where :
    (p : Command → Bool) (why : Taken)
    → ((c : Command) → p (take_with why c) ≡ false)
    → (cs : List Command) → select p (update_where p (take_with why) cs) ≡ []
unfolding select update_where
select-update_where p why clears [] = refl
select-update_where p why clears (c ∷ cs) = elim (Bool-cases (p c)) [
  | inl e ↦ rw (e, clears c) (select-update_where p why clears cs)
  | inr e ↦ rw e (ground (arith, e, select-update_where p why clears cs))
]

-- Rewriting rows that are not waiting any more finds none that is.
select-again :
    (p q : Command → Bool) (why : Taken)
    → ((c : Command) → q c ≡ true → p c ≡ true)
    → (cs : List Command) → select p cs ≡ []
    → select p (update_where q (take_with why) cs) ≡ []
unfolding select update_where
select-again p q why only [] h = refl
select-again p q why only (c ∷ cs) h = elim (Bool-cases (p c)) [
  | inl e ↦ absurd (ground arith)
  | inr e ↦ elim (Bool-cases (q c)) [
    | inl f ↦ absurd (ground (arith, only c f))
    | inr f ↦ rw f (ground (arith, e, select-again p q why only cs))
  ]
]

expire_commands-commands :
    (p : Policy) (now : ℕ) (serial : Text) (fl : Fleet)
    → (expire_commands p now serial fl).commands
      ≡ update_where (is_expired (now - command_ttl p) serial) (take_with (expired now)) fl.commands
unfolding expire_commands log_event
expire_commands-commands p now serial fl = ground arith

-- What a blade has fetched is not handed out to it again, at any later time and under any policy.
pub hand_commands_once :
    (p q : Policy) (now later : ℕ) (serial : Text) (fl : Fleet)
    → (hand_commands q later serial (hand_commands p now serial fl).0).1 ≡ []
unfolding hand_commands
hand_commands_once p q now later serial fl = rw (expire_commands-commands q later serial _) (
    select-again (is_waiting serial) (is_expired (later - command_ttl q) serial) (expired later)
      (λ c h. ground arith) _
      (select-update_where (is_waiting serial) (fetched now) (λ c. ground arith) _))

fresh :
    (cutoff : ℕ) (serial : Text) (why : Taken) (cs : List Command)
    → All
        (λ c. (is_waiting serial c ≡ true) × (cutoff ≤ c.created))
        (select (is_waiting serial) (update_where (is_expired cutoff serial) (take_with why) cs))
unfolding select update_where
fresh cutoff serial why [] = tt
fresh cutoff serial why (c ∷ cs) = elim (Bool-cases (is_expired cutoff serial c)) [
  | inl e ↦ rw e (ground (arith, fresh cutoff serial why cs))
  | inr e ↦ elim (Bool-cases (is_waiting serial c)) [
    | inl w ↦ rw (e, w) (ground (arith, w, e, fresh cutoff serial why cs))
    | inr w ↦ rw (e, w) (fresh cutoff serial why cs)
  ]
]

-- Every command that is handed out was waiting for that blade, and is no older than the policy lets a
-- command become.
pub hand_commands_fresh :
    (p : Policy) (now : ℕ) (serial : Text) (fl : Fleet)
    → All
        (λ c. (is_waiting serial c ≡ true) × (now - command_ttl p ≤ c.created))
        (hand_commands p now serial fl).1
unfolding hand_commands
hand_commands_fresh p now serial fl =
    rw (expire_commands-commands p now serial fl)
      (fresh (now - command_ttl p) serial (expired now) fl.commands)

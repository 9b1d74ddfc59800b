-- ===== src/Server/Lifecycle/Armed.antt =====
-- What is armed, and what is left when it is called off or the blade is put aside.
use sheath.Prelude.{
  ap, Option-cases, ℕ, ◌≡◌, refl, inl, inr, arith, Bool, true, false, not, ◌&&◌, ◌||◌, is_some,
  List, [], ◌∷◌, Option, none, some, Text, text_eq, text_eq_iff, any, update_where, select,
  Bool-cases,
}
use sheath.Server.Lifecycle.Changes.{sync_dhcp-rest}
use sheath.Server.Fleet.{
  blade_reset, blade_reset, set_blade, is_waiting, Command, clear_alert, Taken, Blade, Fleet, idle,
  is, get_blade, log_event,
}
use sheath.Server.Reservations.{bootnet, probe_armed, reservation_for, decorate}
use sheath.Server.Placement.Slots.{sync_dhcp-blades}
use sheath.Server.Targets.{check_target, TargetError}
use sheath.Server.Lifecycle.{
  is_provisioning, reset_blade, arm, is_armed, has_image, cancel_install, put_aside, arm_install,
  checked, request_install,
}

-- Rewriting the rows for which a test holds, in a way that makes it fail, leaves none.
update_where-none :
    {A : Type 0} (p : A → Bool) (f : A → A)
    → ((a : A) → p (f a) ≡ false)
    → (xs : List A) → any p (update_where p f xs) ≡ false
unfolding update_where any
update_where-none p f clears [] = refl
update_where-none p f clears (x ∷ xs) = elim (Bool-cases (p x)) [
  | inl e ↦ rw (e, clears x) (update_where-none p f clears xs)
  | inr e ↦ rw (e) (ground (arith, e, update_where-none p f clears xs))
]

-- Once cancelInstall has returned, with an error or not, no blade of that serial is armed for an
-- installation or an erase.
pub cancel_install_disarms :
    (now : ℕ) (serial : Text) (fl : Fleet)
    → any (is_armed serial) (cancel_install now serial fl).0.blades ≡ false
unfolding cancel_install log_event
cancel_install_disarms now serial fl = elim (Bool-cases (any (is_armed serial) fl.blades)) [
  | inr e ↦ rw (e, cancel_install) e
  | inl e ↦
      rw (e, cancel_install, sync_dhcp-blades)
        (update_where-none (is_armed serial) (arm idle) (λ b. ground arith) fl.blades)
]

-- A requested installation: the target was checked, and there is a blade of that serial with an image.
pub request_install_sound :
    (head : Text → Option Text) (setting : Text) (now : ℕ) (serial : Text) (b : Blade) (fl : Fleet)
    → get_blade serial fl ≡ some b
    → (request_install head setting now serial fl).1 ≡ none
    → ((check_target head setting b fl).1 ≡ none)
      × (any (has_image serial) (check_target head setting b fl).0.blades ≡ true)
unfolding request_install arm_install
request_install_sound head setting now serial b fl found ok =
    after (check_target head setting b fl) (ground arith)
  where
    after :
        (r : Fleet × Option TargetError)
        → (checked now serial r).1 ≡ none
        → (r.1 ≡ none) × (any (has_image serial) r.0.blades ≡ true)
    after (gl, some x) e = absurd (ground arith)
    after (gl, none) e = ground arith

-- A row that has the netboot tag, or that a reservation is written for.
abbrev pub on_wire : ℕ → Fleet → Blade → Bool
on_wire later gl b = bootnet later b || is_some (reservation_for later gl b)

aside_row : (now later : ℕ) (gl : Fleet) (b : Blade) → on_wire later gl (put_aside now b) ≡ false
unfolding put_aside bootnet probe_armed reservation_for decorate
aside_row now later gl b = refl

-- What is left of a blade that was put aside.
aside_silent :
    (now later : ℕ) (serial : Text) (gl : Fleet) (bs : List Blade)
    → any (λ b. is serial b && on_wire later gl b) (update_where (is serial) (put_aside now) bs)
      ≡ false
unfolding update_where any
aside_silent now later serial gl [] = refl
aside_silent now later serial gl (b ∷ bs) = elim (Bool-cases (is serial b)) [
  | inl e ↦ rw (e, aside_row now later gl b) (ground (arith, aside_silent now later serial gl bs))
  | inr e ↦ rw e (ground (arith, e, aside_silent now later serial gl bs))
]

select-none :
    (serial : Text) (xs : List Text)
    → any (text_eq serial) (select (λ s. not (text_eq s serial)) xs) ≡ false
unfolding select any
select-none serial [] = refl
select-none serial (x ∷ xs) =
    ground (arith, text_eq_iff x serial, text_eq_iff serial x, select-none serial xs)

taken-none :
    (serial : Text) (why : Taken) (cs : List Command)
    → any (is_waiting serial) (
        update_where
          (λ c. is_waiting serial c && true)
          (λ (c : Command). record c { taken = some why })
          cs)
      ≡ false
unfolding update_where any
taken-none serial why [] = refl
taken-none serial why (c ∷ cs) = elim (Bool-cases (is_waiting serial c && true)) [
  | inl e ↦ rw e (ground (arith, taken-none serial why cs))
  | inr e ↦ rw e (ground (arith, e, taken-none serial why cs))
]

-- After resetBlade has put a blade aside, and at any later time, the rows of its serial carry no netboot
-- tag and no reservation is written for them; no command waits for the blade, and no alert stands against
-- it. What dnsmasq offers a machine that it has no reservation for is not part of this.
pub reset_blade_quiet :
    (now later : ℕ) (serial : Text) (fl : Fleet)
    → (reset_blade now serial fl).1 ≡ none
    → (any
          (λ b. is serial b && on_wire later (reset_blade now serial fl).0 b)
          (reset_blade now serial fl).0.blades
        ≡ false)
      × (any (is_waiting serial) (reset_blade now serial fl).0.commands ≡ false)
      × (any (text_eq serial) (reset_blade now serial fl).0.alerts ≡ false)
unfolding reset_blade log_event clear_alert set_blade
reset_blade_quiet now later serial fl ok = elim (Option-cases (get_blade serial fl)) [
  | inl e ↦ absurd (ground arith)
  | inr (b, e) ↦ elim (Bool-cases (is_provisioning b.state)) [
    | inl busy ↦ absurd (ground arith)
    | inr free ↦ (
      rw
          (ap (any (λ b. is serial b && on_wire later (reset_blade now serial fl).0 b))
            (blades_after b e free))
          (aside_silent now later serial (reset_blade now serial fl).0 fl.blades),
      rw (e, reset_blade, free, (sync_dhcp-rest now _).0)
          (taken-none serial (blade_reset now) fl.commands),
      rw (e, reset_blade, free, (sync_dhcp-rest now _).1) (select-none serial fl.alerts),
    )
  ]
]
  where
    blades_after :
        (b : Blade)
        → get_blade serial fl ≡ some b
        → is_provisioning b.state ≡ false
        → (reset_blade now serial fl).0.blades ≡ update_where (is serial) (put_aside now) fl.blades
    blades_after b e free = rw (e, reset_blade, free, sync_dhcp-blades) refl

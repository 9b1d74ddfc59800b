-- ===== src/Server/Lifecycle/Probing.antt =====
-- When the loop restarts a blade to read its firmware.
use sheath.Prelude.{
  ℕ, ◌≡◌, ◌<◌, refl, inl, inr, arith, Bool, true, false, List, [], ◌∷◌, none, some, Text, length,
  update_where, Bool-cases, Option-cases,
}
use sheath.Server.Fleet.{Blade, Fleet, get_blade, set_blade, log_event, queue_command}
use sheath.Server.Reservations.{probe_armed}
use sheath.Server.Lifecycle.Changes.{sync_dhcp-rest}
use sheath.Server.Lifecycle.{clear_probe, probe_one, fetched, tag_arrived}

length-update_where :
    {A : Type 0} (p : A → Bool) (f : A → A) (xs : List A) → length (update_where p f xs) ≡ length xs
unfolding update_where
length-update_where p f [] = refl
length-update_where p f (x ∷ xs) = omega (arith, length-update_where p f xs)

-- The loop queues a command for a blade only while the arming stands and the netboot tag has arrived:
-- a site fetched after the arming, or none fetches and a minute has gone by.
pub probe_one_restart :
    (now : ℕ) (serial : Text) (fl : Fleet)
    → length fl.commands < length (probe_one now serial fl).commands
    → (b : Blade) × (get_blade serial fl ≡ some b)
      × (probe_armed now b ≡ true)
      × (tag_arrived now (fetched fl b) b.probe ≡ true)
unfolding probe_one log_event set_blade queue_command clear_probe
probe_one_restart now serial fl more = elim (Option-cases (get_blade serial fl)) [
  | inl e ↦ absurd (missing e)
  | inr (b, e) ↦ elim (Bool-cases (probe_armed now b)) [
    | inr late ↦ absurd (expired b e late)
    | inl armed ↦ elim (Bool-cases (tag_arrived now (fetched fl b) b.probe)) [
      | inr wait ↦ absurd (waits b e armed wait)
      | inl go ↦ (b, e, armed, go)
    ]
  ]
]
  where
    missing : get_blade serial fl ≡ none → ⊥
    missing e = omega (arith, more, same_length e)
      where
        same_length :
            get_blade serial fl ≡ none
            → length (probe_one now serial fl).commands ≡ length fl.commands
        same_length e = rw (e, probe_one) refl

    expired : (b : Blade) → get_blade serial fl ≡ some b → probe_armed now b ≡ false → ⊥
    expired b e late = omega (arith, more, same_length b e late)
      where
        same_length :
            (b : Blade)
            → get_blade serial fl ≡ some b
            → probe_armed now b ≡ false
            → length (probe_one now serial fl).commands ≡ length fl.commands
        same_length b e late =
            rw (e, probe_one, late, (sync_dhcp-rest now _).0) (length-update_where _ _ fl.commands)

    waits :
        (b : Blade)
        → get_blade serial fl ≡ some b
        → probe_armed now b ≡ true
        → tag_arrived now (fetched fl b) b.probe ≡ false
        → ⊥
    waits b e armed wait = omega (arith, more, same_length b e armed wait)
      where
        same_length :
            (b : Blade)
            → get_blade serial fl ≡ some b
            → probe_armed now b ≡ true
            → tag_arrived now (fetched fl b) b.probe ≡ false
            → length (probe_one now serial fl).commands ≡ length fl.commands
        same_length b e armed wait = rw (e, probe_one, armed, wait) refl

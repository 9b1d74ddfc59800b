-- ===== src/Agent/Policy/Restarts.antt =====
-- When a blade restarts itself.
use sheath.Prelude.{
  ℕ, ◌+◌, ◌≡◌, ◌≢◌, refl, ap, ◌∙◌, inl, inr, arith, Bool, true, false, not, ◌&&◌, List, [], ◌∷◌,
  if◌then◌else◌, any, Bool-cases,
}
use sheath.Agent.Policy.{AgentPolicy, in_span, in_window, Restart, maybe_restart, passes}

-- A window and the one with its ends exchanged share no minute and leave none out, when the ends differ.
pub in_span-swap :
    (from to mins : ℕ) → from ≢ to → in_span from to mins ≡ not (in_span to from mins)
unfolding in_span
in_span-swap from to mins apart = ground (arith, apart)

-- A pass at which the blade may restart.
abbrev pub may_restart : AgentPolicy → Bool × ℕ → Bool
may_restart pol (required, mins) = pol.reboot_on_cfg && (required && in_window pol mins)

-- One pass that may not restart, and one that does.
stays-pol :
    (required : Bool) (mins : ℕ) (a : Restart)
    → may_restart a.pol (required, mins) ≡ false
    → ((maybe_restart required mins a).pol ≡ a.pol)
      × ((maybe_restart required mins a).restarts ≡ a.restarts)
unfolding maybe_restart
stays-pol required mins a h = (ground (arith, h), ground (arith, h))

goes-pol :
    (required : Bool) (mins : ℕ) (a : Restart)
    → may_restart a.pol (required, mins) ≡ true
    → ((maybe_restart required mins a).pol.reboot_on_cfg ≡ false)
      × ((maybe_restart required mins a).restarts ≡ a.restarts + 1)
unfolding maybe_restart
goes-pol required mins a h = (ground (arith, h), ground (arith, h))

restart_off :
    (ps : List (Bool × ℕ)) (a : Restart)
    → a.pol.reboot_on_cfg ≡ false
    → (passes ps a).restarts ≡ a.restarts
unfolding passes
restart_off [] a h = refl
restart_off ((required, mins) ∷ ps) a h =
    let kept : ((maybe_restart required mins a).pol ≡ a.pol)
        × ((maybe_restart required mins a).restarts ≡ a.restarts) =
      stays-pol required mins a (ground (arith, h)) in
    restart_off ps (maybe_restart required mins a)
      (ap (λ (p : AgentPolicy). p.reboot_on_cfg) kept.0 ∙ h)
    ∙ kept.1

-- Until a new configuration comes, a blade restarts itself once where it may at some pass, and otherwise
-- not at all: never without leave, when nothing calls for it, or outside of its window.
pub passes-restarts :
    (ps : List (Bool × ℕ)) (a : Restart)
    → (passes ps a).restarts ≡ a.restarts + (if any (may_restart a.pol) ps then 1 else 0)
unfolding passes any
passes-restarts [] a = omega arith
passes-restarts ((required, mins) ∷ ps) a = elim (Bool-cases (may_restart a.pol (required, mins))) [
  | inl e ↦
      let (off, more) = goes-pol required mins a e in
      rw e (restart_off ps (maybe_restart required mins a) off ∙ more)
  | inr e ↦
      let (same_pol, same_count) = stays-pol required mins a e in
      rw e (
        passes-restarts ps (maybe_restart required mins a)
        ∙ (ap
              (λ p.
                (maybe_restart required mins a).restarts
                + (if any (may_restart p) ps then 1 else 0))
              same_pol
            ∙ ap (λ n. n + (if any (may_restart a.pol) ps then 1 else 0)) same_count))
]

-- ===== src/Server/Racks/Renaming.antt =====
-- Which blades a new prefix of a site renames.
use mathlib.Core.List.{append_assoc}
use mathlib.Core.Path.{fun_ext}
use sheath.Prelude.{
  true, not, ◌&&◌, text_eq, Bool-cases, ◌||◌, is_empty, if◌then◌else◌, ◌==◌, ℕ, ◌≡◌, refl, sym, ap,
  ◌∙◌, inl, inr, arith, false, List, [], ◌∷◌, ◌++◌, map, Option, none, some, Text, text_eq_iff,
  text_eq_refl, update_where, All, Option-cases,
}
use sheath.Server.Fleet.{get_site, name_derived, Blade, Fleet, is, set_blade, log_event}
use sheath.Server.Addressing.{auto_host, blade_hostname}
use sheath.Server.Reservations.{decorate, host_prefix_of}
use sheath.Server.Racks.{rename_site_blades, new_name, rename_each}

-- What becomes of one blade.
abbrev pub with_name : Option Text → Blade → Blade
with_name none b = b
with_name (some w) b = record b { hostname = w }

abbrev pub blade_renamed : Text → ℕ → Fleet → Blade → Blade
blade_renamed prefix site_id fl b = with_name (new_name prefix site_id fl b) b

-- No serial stands twice.
abbrev pub Distinct : List Blade → Type 0
Distinct [] = Unit
Distinct (b ∷ bs) = All (λ q. is b.serial q ≡ false) bs × Distinct bs

others :
    (s : Text) (f : Blade → Blade) (bs : List Blade)
    → All (λ q. is s q ≡ false) bs
    → update_where (is s) f bs ≡ bs
unfolding update_where
others s f [] h = refl
others s f (b ∷ bs) (hb, h) = rw (hb, others s f bs h) refl

only_one :
    (b : Blade) (f : Blade → Blade) (before bs : List Blade)
    → All (λ q. is b.serial q ≡ false) before
    → All (λ q. is b.serial q ≡ false) bs
    → update_where (is b.serial) f (before ++ b ∷ bs) ≡ before ++ f b ∷ bs
unfolding update_where
only_one b f [] bs h hs = rw (text_eq_refl b.serial) (ap (λ l. f b ∷ l) (others b.serial f bs hs))
only_one b f (q ∷ before) bs (hq, h) hs = rw hq (ap (λ l. q ∷ l) (only_one b f before bs h hs))

-- Blades that come before those that are still to be blade_renamed.
abbrev Before : List Blade → List Blade → Type 0
Before before bs = All (λ b. All (λ q. is b.serial q ≡ false) before) bs

push-Before :
    (b : Blade) (before bs : List Blade)
    → All (λ q. is b.serial q ≡ false) bs
    → Before before bs
    → Before (before ++ b ∷ []) bs
push-Before b before [] h hb = tt
push-Before b before (c ∷ bs) (hc, h) (hbc, hb) = (
  at_end c before hbc
      (ground (arith, text_eq_iff c.serial b.serial, text_eq_iff b.serial c.serial, hc)),
  push-Before b before bs h hb,
)
  where
    at_end :
        (d : Blade) (ls : List Blade)
        → All (λ q. is d.serial q ≡ false) ls
        → is d.serial b ≡ false
        → All (λ q. is d.serial q ≡ false) (ls ++ b ∷ [])
    at_end d [] h e = (e, tt)
    at_end d (l ∷ ls) (hl, h) e = (hl, at_end d ls h e)

rename_each-map :
    (prefix : Text) (site_id : ℕ) (fl gl : Fleet) (before bs : List Blade)
    → gl.blades ≡ before ++ bs
    → Before before bs
    → Distinct bs
    → (rename_each prefix site_id fl bs gl).0.blades
      ≡ before ++ map (blade_renamed prefix site_id fl) bs
unfolding rename_each set_blade log_event
rename_each-map prefix site_id fl gl before [] e hb h = e
rename_each-map prefix site_id fl gl before (b ∷ bs) e (hbb, hb) (hs, h) =
    elim (Option-cases (new_name prefix site_id fl b)) [
      | inl n ↦
          let ih =
            rename_each-map prefix site_id fl gl (before ++ b ∷ []) bs
              (e ∙ sym (append_assoc before (b ∷ []) bs)) (push-Before b before bs hs hb) h in
          rw (rename_each, n)
            (ih ∙ append_assoc before (b ∷ []) (map (blade_renamed prefix site_id fl) bs))
      | inr (w, n) ↦
          let c = record b { hostname = w } in
          let gl' =
            log_event b.serial (name_derived b.hostname w)
              (set_blade b.serial (λ q. record q { hostname = w }) gl) in
          let there =
            ap (update_where (is b.serial) (λ q. record q { hostname = w })) e
            ∙ only_one b (λ q. record q { hostname = w }) before bs hbb hs in
          let ih =
            rename_each-map prefix site_id fl gl' (before ++ c ∷ []) bs
              (there ∙ sym (append_assoc before (c ∷ []) bs)) (push-Before c before bs hs hb) h in
          rw (rename_each, n)
            (ih ∙ append_assoc before (c ∷ []) (map (blade_renamed prefix site_id fl) bs))
    ]

Before-none : (bs : List Blade) → Before [] bs
Before-none [] = tt
Before-none (b ∷ bs) = (tt, Before-none bs)

-- The name that a blade has after its site got a prefix: one that stands in a BladeRunner of that site,
-- and whose name is empty or is one that the server makes, gets the name of its place; any other keeps its own.
abbrev pub name_after : Text → ℕ → Fleet → Blade → Text
name_after prefix site_id fl b = elim (decorate fl b) [
  | none ↦ b.hostname
  | some p ↦
      if (p.rack.site_id == site_id) && (is_empty b.hostname || auto_host b.hostname)
      then blade_hostname prefix p.rack_idx p.slot
      else b.hostname
]

-- A name is written exactly where it differs from the one that the blade has.
written_name :
    (b : Blade) (want : Text)
    → with_name (if text_eq want b.hostname then none else some want) b
      ≡ record b { hostname = want }
written_name b want = elim (Bool-cases (text_eq want b.hostname)) [
  | inl e ↦ rw e (ap (λ t. record b { hostname = t }) (sym ((text_eq_iff want b.hostname).0 e)))
  | inr e ↦ rw e refl
]

blade_renamed-name_after :
    (prefix : Text) (site_id : ℕ) (fl : Fleet) (b : Blade)
    → blade_renamed prefix site_id fl b ≡ record b { hostname = name_after prefix site_id fl b }
unfolding new_name
blade_renamed-name_after prefix site_id fl b = elim (Option-cases (decorate fl b)) [
  | inl n ↦ rw (new_name, name_after, n) refl
  | inr (p, n) ↦ elim (Bool-cases (p.rack.site_id == site_id)) [
    | inr e ↦ rw (new_name, name_after, n, e) refl
    | inl e ↦ elim (Bool-cases (is_empty b.hostname || auto_host b.hostname)) [
      | inl own ↦
          let free : (not (is_empty b.hostname) && not (auto_host b.hostname)) ≡ false =
            ground (arith, own) in
          rw (new_name, name_after, n, e, free, own)
            (written_name b (blade_hostname prefix p.rack_idx p.slot))
      | inr typed ↦
          let kept : (not (is_empty b.hostname) && not (auto_host b.hostname)) ≡ true =
            ground (arith, typed) in
          rw (new_name, name_after, n, e, kept, typed) refl
    ]
  ]
]

-- renameSiteBlades calls each blade that stands in a BladeRunner of the site, and whose name is empty or
-- one that the server makes, after its place and with the prefix of the site. Every other blade, one of
-- another site or with a name that somebody typed, keeps its name, and nothing else of any blade changes,
-- when no serial stands twice in the table.
pub rename_site_blades-map :
    (site_id : ℕ) (fl : Fleet)
    → Distinct fl.blades
    → (rename_site_blades site_id fl).0.blades
      ≡ map
          (λ (b : Blade). record b {
            hostname = name_after (host_prefix_of (get_site site_id fl)) site_id fl b;
          })
          fl.blades
unfolding rename_site_blades
rename_site_blades-map site_id fl h =
    rename_each-map (host_prefix_of (get_site site_id fl)) site_id fl fl [] fl.blades refl
      (Before-none fl.blades) h
    ∙ ap (λ f. map f fl.blades)
        (fun_ext (blade_renamed-name_after (host_prefix_of (get_site site_id fl)) site_id fl))

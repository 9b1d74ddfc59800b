-- ===== src/Server/Agent/Silence.antt =====
-- The sweep judges each blade once, by the number of its own site.
use sheath.Prelude.{
  ltb, Option, none, some, arith, ◌+◌, ◌||◌, ◌∙◌, ap, any, ℕ, ◌-◌, ◌≡◌, refl, inl, inr, Bool, true,
  false, not, ◌&&◌, List, [], ◌∷◌, ◌==◌, map, update_where, Bool-cases,
}
use sheath.Server.Policy.{Policy, offline_after}
use sheath.Server.Fleet.{
  Site, Rack, Blade, BladeState, online, offline, new, enrolled, provisioning, error, other_state,
}
use sheath.Server.Agent.{
  Fleet, is_online, flip_sites, flip_all, is_silent, in_racks, mark_offline, flip,
}

-- Online, and last heard of more than `limit` seconds ago.
abbrev pub overdue : ℕ → ℕ → Blade → Bool
overdue now limit b = elim b.state [
  | online ↦ elim b.last_seen [ none ↦ false | some t ↦ ltb (t + limit) now ]
  | _ ↦ false
]

-- In a rack of that site, online, and not heard of for longer than the policy of the site allows.
abbrev pub late_at : (ℕ → Policy) → ℕ → List Rack → Blade → Site → Bool
late_at policy now racks b st =
    overdue now (offline_after (policy st.id)) b
    && in_racks (λ (r : Rack). r.site_id == st.id) racks b

-- In no rack, online, and not heard of for longer than the installation's policy allows.
abbrev pub late_alone : Policy → ℕ → List Rack → Blade → Bool
late_alone global now racks b =
    overdue now (offline_after global) b && not (in_racks (λ _. true) racks b)

-- What the statement tests of a row says that it is overdue.
is_silent-overdue : (now limit : ℕ) (b : Blade) → is_silent (now - limit) b ≡ overdue now limit b
is_silent-overdue now limit b = over b.state b.last_seen
  where
    over :
        (s : BladeState) (t : Option ℕ)
        → (is_online s && elim t [ none ↦ false | some t ↦ ltb t (now - limit) ])
          ≡ elim s [ online ↦ elim t [ none ↦ false | some t ↦ ltb (t + limit) now ] | _ ↦ false ]
    over online none = refl
    over online (some t) = ground arith
    over new t = refl
    over enrolled t = refl
    over provisioning t = refl
    over offline t = refl
    over error t = refl
    over (other_state _) t = refl

abbrev pub mark_if : Bool → Blade → Blade
mark_if true b = mark_offline b
mark_if false b = b

flip-map :
    (now limit : ℕ) (p : Blade → Bool) (bs : List Blade)
    → flip (now - limit) p bs ≡ map (λ b. mark_if (overdue now limit b && p b) b) bs
unfolding flip update_where
flip-map now limit p [] = refl
flip-map now limit p (b ∷ bs) =
    let tested : (is_silent (now - limit) b && p b) ≡ (overdue now limit b && p b) =
      ap (λ s. s && p b) (is_silent-overdue now limit b) in
    elim (Bool-cases (overdue now limit b && p b)) [
      | inl e ↦ rw (tested ∙ e, e, flip-map now limit p bs) refl
      | inr e ↦ rw (tested ∙ e, e, flip-map now limit p bs) refl
    ]

map-map :
    {A B C : Type 0} (g : B → C) (f : A → B) (h : A → C)
    → ((a : A) → g (f a) ≡ h a)
    → (xs : List A) → map g (map f xs) ≡ map h xs
map-map g f h same [] = refl
map-map g f h same (x ∷ xs) = rw (same x, map-map g f h same xs) refl

module _ (policy : ℕ → Policy) (now : ℕ) (racks : List Rack) where
  -- A marked blade is not silent any more.
  marked_quiet :
      (b : Blade) (sites : List Site)
      → any (late_at policy now racks (mark_offline b)) sites ≡ false
  unfolding any
  marked_quiet b [] = refl
  marked_quiet b (st ∷ sites) = marked_quiet b sites

  mark_then :
      (b : Blade) (st : Site) (sites : List Site)
      → mark_if
          (any (late_at policy now racks (mark_if (late_at policy now racks b st) b)) sites)
          (mark_if (late_at policy now racks b st) b)
        ≡ mark_if (any (late_at policy now racks b) (st ∷ sites)) b
  unfolding any
  mark_then b st sites = elim (Bool-cases (late_at policy now racks b st)) [
    | inl e ↦ rw (e, marked_quiet b sites) refl
    | inr e ↦ rw e refl
  ]

  flip_sites-map :
      (sites : List Site) (bs : List Blade)
      → flip_sites policy now racks sites bs
        ≡ map (λ b. mark_if (any (late_at policy now racks b) sites) b) bs
  unfolding flip_sites any
  flip_sites-map [] bs = same bs
    where
      same : (bs : List Blade) → bs ≡ map (λ (b : Blade). b) bs
      same [] = refl
      same (b ∷ bs) = ap (λ r. b ∷ r) (same bs)
  flip_sites-map (st ∷ sites) bs =
      flip_sites-map sites _
      ∙ (ap (map (λ b. mark_if (any (late_at policy now racks b) sites) b)) (
            flip-map now (offline_after (policy st.id))
              (in_racks (λ (r : Rack). r.site_id == st.id) racks) bs)
          ∙ map-map _ _ _ (λ b. mark_then b st sites) bs)

-- The statements of the sweep, one after the other, come to one judgement of each blade. It is marked
-- offline if it is online and was last heard of longer ago than a site allows that its rack stands in,
-- or, where it stands in no rack, longer ago than the installation allows. Every other blade is left
-- alone: one in another state than online, one that was never heard of, and one heard of in time.
pub flip_all-map :
    (global : Policy) (policy : ℕ → Policy) (now : ℕ) (fl : Fleet)
    → flip_all global policy now fl
      ≡ map
          (λ b.
            mark_if
              (any (late_at policy now fl.racks b) fl.sites || late_alone global now fl.racks b)
              b)
          fl.blades
unfolding flip_all
flip_all-map global policy now fl =
    flip-map now (offline_after global) (λ b. not (in_racks (λ _. true) fl.racks b)) _
    ∙ (ap (map (λ b. mark_if (late_alone global now fl.racks b) b))
          (flip_sites-map policy now fl.racks fl.sites fl.blades)
        ∙ map-map _ _ _ last fl.blades)
  where
    last :
        (b : Blade)
        → mark_if
            (late_alone global now fl.racks
              (mark_if (any (late_at policy now fl.racks b) fl.sites) b))
            (mark_if (any (late_at policy now fl.racks b) fl.sites) b)
          ≡ mark_if
              (any (late_at policy now fl.racks b) fl.sites || late_alone global now fl.racks b)
              b
    last b = elim (Bool-cases (any (late_at policy now fl.racks b) fl.sites)) [
      | inl e ↦ rw e refl
      | inr e ↦ rw e refl
    ]

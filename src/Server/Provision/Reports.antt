-- ===== src/Server/Provision/Reports.antt =====
-- What the reports of an installer lead to.
use sheath.Prelude.{
  ℕ, ◌≡◌, refl, inl, inr, arith, Bool, true, false, not, ◌&&◌, ◌||◌, List, [], ◌∷◌, ◌++◌, some,
  Text, codes, text_eq, is_empty, is_some, any, map, update_where, find_first, Bool-cases,
  Option-cases, Object,
}
use sheath.Server.Fleet.{Blade, Fleet, InstallState, is, get_blade, set_blade, log_event}
use sheath.Server.Reservations.{armed_state}
use sheath.Server.Placement.Slots.{sync_dhcp-blades}
use sheath.Server.Lifecycle.{is_armed, finish_wipe, wiped, clear_probe}
use sheath.Server.Facts.{merge_facts}
use sheath.Server.Provision.{
  Desk, Arrival, Report, Answer, go, wipe, Config, arrive, known_blade, fresh_blade, take_hardware,
  link_session, answer, provision, follow, log_report, provision_status, installed, is_wiping,
  is_pending, broken,
}

-- No blade of the serial is armed.
abbrev pub Unarmed : Text → Fleet → Type 0
Unarmed serial fl = any (is_armed serial) fl.blades ≡ false

-- A change of the blades of one serial that arms none.
set_blade-Unarmed :
    (serial : Text) (f : Blade → Blade) (fl : Fleet)
    → ((b : Blade)
        → ((f b).serial ≡ b.serial)
          × (armed_state (f b).install_state ≡ true → armed_state b.install_state ≡ true))
    → Unarmed serial fl
    → Unarmed serial (set_blade serial f fl)
unfolding set_blade any update_where
set_blade-Unarmed serial f fl keeps h = over fl.blades h
  where
    over :
        (bs : List Blade)
        → any (is_armed serial) bs ≡ false
        → any (is_armed serial) (update_where (is serial) f bs) ≡ false
    over [] h = refl
    over (b ∷ bs) h = elim (Bool-cases (is serial b)) [
      | inl e ↦ rw e (ground (arith, e, keeps b, over bs))
      | inr e ↦ rw e (ground (arith, e, over bs))
    ]

-- One that disarms them.
set_blade-disarms :
    (serial : Text) (f : Blade → Blade) (fl : Fleet)
    → ((b : Blade) → armed_state (f b).install_state ≡ false)
    → Unarmed serial (set_blade serial f fl)
unfolding set_blade any update_where
set_blade-disarms serial f fl clears = over fl.blades
  where
    over : (bs : List Blade) → any (is_armed serial) (update_where (is serial) f bs) ≡ false
    over [] = refl
    over (b ∷ bs) = elim (Bool-cases (is serial b)) [
      | inl e ↦ rw e (ground (arith, e, clears b, over bs))
      | inr e ↦ rw e (ground (arith, e, over bs))
    ]

append-Unarmed :
    (serial : Text) (bs cs : List Blade)
    → any (is_armed serial) bs ≡ false
    → any (is_armed serial) cs ≡ false
    → any (is_armed serial) (bs ++ cs) ≡ false
unfolding any
append-Unarmed serial [] cs h k = k
append-Unarmed serial (b ∷ bs) cs h k = ground (arith, append-Unarmed serial bs cs)

known_blade-Unarmed :
    (serial tok : Text) (fl : Fleet)
    → Unarmed serial fl
    → Unarmed serial (known_blade serial tok fl)
unfolding known_blade log_event any
known_blade-Unarmed serial tok fl h = elim (Option-cases (get_blade serial fl)) [
  | inr (b, e) ↦ rw (e, known_blade) h
  | inl e ↦
      rw (e, known_blade)
        (append-Unarmed serial fl.blades (fresh_blade serial tok ∷ []) h (ground (arith)))
]

clear_probe-Unarmed :
    (now : ℕ) (serial : Text) (fl : Fleet)
    → Unarmed serial fl
    → Unarmed serial (clear_probe now serial fl)
unfolding clear_probe
clear_probe-Unarmed now serial fl h =
    rw (sync_dhcp-blades) (set_blade-Unarmed serial _ fl (λ b. (refl, λ x. x)) h)

take_hardware-Unarmed :
    (now : ℕ) (serial : Text) (hw : Object) (fl : Fleet)
    → Unarmed serial fl
    → Unarmed serial (take_hardware now serial hw fl)
unfolding take_hardware log_event
take_hardware-Unarmed now serial [] fl h = h
take_hardware-Unarmed now serial (x ∷ hw) fl h = elim (Option-cases (get_blade serial merged)) [
  | inl e ↦ rw (e, take_hardware) merged_Unarmed
  | inr (b, e) ↦ elim (Bool-cases (is_some b.probe)) [
    | inr f ↦ rw (e, take_hardware, f) merged_Unarmed
    | inl t ↦ rw (e, take_hardware, t) (clear_probe-Unarmed now serial merged merged_Unarmed)
  ]
]
  where
    merged : Fleet
    merged = set_blade serial (λ (b : Blade). record b { facts = merge_facts b.facts (x ∷ hw) }) fl

    merged_Unarmed : Unarmed serial merged
    merged_Unarmed = set_blade-Unarmed serial _ fl (λ b. (refl, λ y. y)) h

link_session-Unarmed :
    (now : ℕ) (serial mac : Text) (d : Desk)
    → Unarmed serial d.fleet
    → Unarmed serial (link_session now serial mac d).fleet
unfolding link_session
link_session-Unarmed now serial [] d h = h
link_session-Unarmed now serial (m ∷ mac) d h =
    set_blade-Unarmed serial _ d.fleet (λ b. (refl, λ y. y)) h

arrive-Unarmed :
    (tok : Text) (now : ℕ) (serial : Text) (in_ : Arrival) (d : Desk)
    → Unarmed serial d.fleet
    → Unarmed serial (arrive tok now serial in_ d).fleet
unfolding arrive
arrive-Unarmed tok now serial in_ d h =
    link_session-Unarmed now serial in_.mac _
      (take_hardware-Unarmed now serial in_.hardware _ (known_blade-Unarmed serial tok d.fleet h))

-- An answer that makes the mini OS write or erase a disk.
abbrev pub touches_disk : Answer → Bool
touches_disk (go _ _ _ _ _ _) = true
touches_disk (wipe _ _) = true
touches_disk _ = false

get_blade-Unarmed :
    (serial : Text) (b : Blade) (fl : Fleet)
    → Unarmed serial fl
    → get_blade serial fl ≡ some b
    → armed_state b.install_state ≡ false
unfolding get_blade any find_first
get_blade-Unarmed serial b fl h e = over fl.blades h e
  where
    over :
        (bs : List Blade)
        → any (is_armed serial) bs ≡ false
        → find_first (is serial) bs ≡ some b
        → armed_state b.install_state ≡ false
    over [] h e = ground arith
    over (q ∷ bs) h e = ground (arith, over bs)

answer-touches_disk :
    (base_url : Text) (config : Blade → Config) (now : ℕ) (serial : Text) (b : Blade) (d : Desk)
    → armed_state b.install_state ≡ false
    → touches_disk (answer base_url config now serial b d).1 ≡ false
unfolding answer
answer-touches_disk base_url config now serial b d un = elim (Bool-cases (is_empty b.image)) [
  | inl e ↦ rw (e, answer) refl
  | inr e ↦ rw (e, answer, not_wiping, not_pending) refl
]
  where
    not_wiping : is_wiping b.install_state ≡ false
    not_wiping = ground arith

    not_pending : is_pending b.install_state ≡ false
    not_pending = ground arith

-- A blade that is not armed is told to write nothing and to erase nothing, whatever it sends.
pub provision-Unarmed :
    (tok base_url : Text) (config : Blade → Config) (now : ℕ) (serial : Text) (in_ : Arrival)
    (d : Desk)
    → Unarmed serial d.fleet
    → touches_disk (provision tok base_url config now serial in_ d).1 ≡ false
unfolding provision
provision-Unarmed tok base_url config now serial in_ d h =
    elim (Option-cases (get_blade serial (arrive tok now serial in_ d).fleet)) [
      | inl e ↦ rw (e, provision) refl
      | inr (b, e) ↦
          rw (e, provision)
            (answer-touches_disk base_url config now serial b _
              (get_blade-Unarmed serial b _ (arrive-Unarmed tok now serial in_ d h) e))
    ]

-- The report that ends an installation, and the one that ends an erase.
abbrev pub ends : Report → Bool
ends in_ =
    is_empty in_.error
    && (is_empty in_.note
        && (text_eq in_.phase (codes "wiped") || text_eq in_.phase (codes "done")))

log_report-blades :
    (serial : Text) (in_ : Report) (d : Desk)
    → (log_report serial in_ d).fleet.blades ≡ d.fleet.blades
unfolding log_report log_event
log_report-blades serial in_ d = ground arith

follow-Unarmed :
    (now : ℕ) (serial : Text) (in_ : Report) (d : Desk)
    → ends in_ ≡ true
    → Unarmed serial (follow now serial in_ d).fleet
unfolding follow finish_wipe log_event wiped
follow-Unarmed now serial in_ d e = elim (Bool-cases (text_eq in_.phase (codes "wiped"))) [
  | inl w ↦
      rw (no_error, follow, w, sync_dhcp-blades)
        (set_blade-disarms serial wiped d.fleet (λ b. refl))
  | inr n ↦
      rw (no_error, follow, n, done_phase n, sync_dhcp-blades)
        (set_blade-disarms serial (installed now) d.fleet (λ b. refl))
]
  where
    no_error : not (is_empty in_.error) ≡ false
    no_error = ground arith

    done_phase : text_eq in_.phase (codes "wiped") ≡ false → text_eq in_.phase (codes "done") ≡ true
    done_phase n = ground arith

-- Once an installer has reported, with neither an error nor a note, that it is done or that the disk
-- is erased, the mini OS of that blade is told next to write nothing and to erase nothing, whatever
-- it sends.
pub provision-after-status :
    (tok base_url : Text) (config : Blade → Config) (now later : ℕ) (serial : Text) (in_ : Report)
    (next : Arrival) (d : Desk)
    → ends in_ ≡ true
    → touches_disk
        (provision tok base_url config later serial next (provision_status now serial in_ d)).1
      ≡ false
unfolding provision_status
provision-after-status tok base_url config now later serial in_ next d e =
    provision-Unarmed tok base_url config later serial next (provision_status now serial in_ d)
      settled
  where
    no_note : (not (is_empty in_.note) && is_empty in_.error) ≡ false
    no_note = ground arith

    settled : Unarmed serial (provision_status now serial in_ d).fleet
    settled = rw (no_note, provision_status, log_report-blades) (follow-Unarmed now serial in_ d e)

-- What is armed, and for which image.
abbrev pub armed_for : Blade → InstallState × Text
armed_for b = (b.install_state, b.image)

map-update_where :
    {A B : Type 0} (g : A → B) (p : A → Bool) (f : A → A)
    → ((a : A) → g (f a) ≡ g a)
    → (xs : List A) → map g (update_where p f xs) ≡ map g xs
unfolding update_where
map-update_where g p f keeps [] = refl
map-update_where g p f keeps (x ∷ xs) = elim (Bool-cases (p x)) [
  | inl e ↦ rw (e, keeps x, map-update_where g p f keeps xs) refl
  | inr e ↦ rw (e, map-update_where g p f keeps xs) refl
]

follow-armed :
    (now : ℕ) (serial : Text) (in_ : Report) (d : Desk)
    → (not (is_empty in_.note) && is_empty in_.error) ≡ false
    → ends in_ ≡ false
    → map armed_for (follow now serial in_ d).fleet.blades ≡ map armed_for d.fleet.blades
unfolding follow set_blade
follow-armed now serial in_ d no_note e = elim (Bool-cases (is_empty in_.error)) [
  | inr failed ↦
      rw (failed, follow) (map-update_where armed_for (is serial) broken (λ b. refl) d.fleet.blades)
  | inl fine ↦ rw (fine, follow, not_wiped fine, not_done fine) refl
]
  where
    not_wiped : is_empty in_.error ≡ true → text_eq in_.phase (codes "wiped") ≡ false
    not_wiped fine = ground arith

    not_done : is_empty in_.error ≡ true → text_eq in_.phase (codes "done") ≡ false
    not_done fine = ground arith

-- A failure, a note or a report of progress leaves every blade armed as it was, and for the image it had.
pub provision_status-armed :
    (now : ℕ) (serial : Text) (in_ : Report) (d : Desk)
    → ends in_ ≡ false
    → map armed_for (provision_status now serial in_ d).fleet.blades ≡ map armed_for d.fleet.blades
unfolding provision_status log_event
provision_status-armed now serial in_ d e =
    elim (Bool-cases (not (is_empty in_.note) && is_empty in_.error)) [
      | inl note ↦ rw (note, provision_status) refl
      | inr report ↦
          rw (report, provision_status, log_report-blades) (follow-armed now serial in_ d report e)
    ]

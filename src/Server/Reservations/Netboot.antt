-- ===== src/Server/Reservations/Netboot.antt =====
-- The reservation files after syncDHCP (server/ipam.go), and the netboot switch in them.
use mathlib.Core.Path.{subst}
use sheath.Prelude.{
  sym, Option-cases, ℕ, ◌≡◌, ◌↔◌, ◌⊎◌, inl, inr, refl, ◌∙◌, ap, arith, true, false, List, [], ◌∷◌,
  Option, none, some, if◌then◌else◌, Text, text_eq, text_eq_iff, any, select, All, Bool-cases, ◌+◌,
  ◌<◌,
}
use sheath.Server.Fleet.{Blade, Reservation, Fleet, pending, wiping, InstallState}
use sheath.Server.Reservations.{
  reservation_for, armed_state, reservation, bootnet, probe_armed, probe_for, valid_reservation,
  put_host, get_host, Sync, synced, stopped, write_hosts, wanted, sync_dhcp, finish_sync,
}

-- What the files should hold for a serial.
unfoldable pub planned : ℕ → Fleet → Text → List Blade → Option Reservation
planned now fl k [] = none
planned now fl k (b ∷ bs) =
    if text_eq b.serial k then reservation_for now fl b else planned now fl k bs

abbrev pub Valid : Option Reservation → Type 0
Valid none = Unit
Valid (some r) = valid_reservation r ≡ true

abbrev pub Distinct : List Blade → Type 0
Distinct [] = Unit
Distinct (b ∷ bs) = All (λ c. text_eq c.serial b.serial ≡ false) bs × Distinct bs

get_host-put_host :
    (j k : Text) (r : Reservation) (hs : List (Text × Reservation))
    → get_host j (put_host k r hs) ≡ (if text_eq k j then some r else get_host j hs)
unfolding get_host put_host
get_host-put_host j k r [] = refl
get_host-put_host j k r ((i, q) ∷ hs) =
    ground (arith, text_eq_iff k j, text_eq_iff i k, text_eq_iff i j, get_host-put_host j k r hs)

get_host-select :
    (k : Text) (want : List Text) (hs : List (Text × Reservation))
    → get_host k (select (wanted want) hs) ≡ (if any (text_eq k) want then get_host k hs else none)
unfolding get_host select
get_host-select k want [] = ground arith
get_host-select k want ((i, q) ∷ hs) = elim (Bool-cases (text_eq i k)) [
  | inl e ↦
      ground
        (arith, ap (λ t. any (text_eq t) want) ((text_eq_iff i k).0 e), get_host-select k want hs)
  | inr n ↦ ground (arith, get_host-select k want hs)
]

planned_absent :
    (now : ℕ) (fl : Fleet) (k : Text) (bs : List Blade)
    → All (λ c. text_eq c.serial k ≡ false) bs
    → planned now fl k bs ≡ none
unfolding planned
planned_absent now fl k [] h = refl
planned_absent now fl k (b ∷ bs) (hb, hbs) = ground (arith, planned_absent now fl k bs hbs)

-- What the loop leaves for a key: the blade's reservation where there is one, what was there else.
abbrev IsWritten : Option Reservation → Text → List (Text × Reservation) → List Text → Sync → Type 0
IsWritten plan k hosts want (stopped _) = ⊥
IsWritten (some r) k hosts want (synced hs ws) =
    (get_host k hs ≡ some r) × (any (text_eq k) ws ≡ true)
IsWritten none k hosts want (synced hs ws) =
    (get_host k hs ≡ get_host k hosts) × (any (text_eq k) ws ≡ any (text_eq k) want)

text_eq-false : (s t : Text) → text_eq s t ≡ false → text_eq t s ≡ false
text_eq-false s t h = ground (arith, text_eq_iff s t, text_eq_iff t s)

advance :
    (plan : Option Reservation) (i : Text) (r : Reservation) (k : Text)
    (hosts : List (Text × Reservation)) (want : List Text) (out : Sync)
    → text_eq i k ≡ false
    → IsWritten plan k (put_host i r hosts) (i ∷ want) out
    → IsWritten plan k hosts want out
unfolding any
advance plan i r k hosts want (stopped _) ne w = elim w [ ]
advance (some q) i r k hosts want (synced hs ws) ne w = w
advance none i r k hosts want (synced hs ws) ne (a, b) =
    (ground (arith, get_host-put_host k i r hosts), ground (arith, text_eq-false i k ne))

hit :
    (i : Text) (r : Reservation) (k : Text) (hosts : List (Text × Reservation)) (want : List Text)
    (out : Sync)
    → text_eq i k ≡ true
    → IsWritten none k (put_host i r hosts) (i ∷ want) out
    → IsWritten (some r) k hosts want out
unfolding any
hit i r k hosts want (stopped _) e w = elim w [ ]
hit i r k hosts want (synced hs ws) e (a, b) = (
  ground (arith, get_host-put_host k i r hosts),
  ground (arith, text_eq_iff i k, text_eq_iff k i),
)

module _ (now : ℕ) (fl : Fleet) (k : Text) where
  -- A blade that gets no reservation changes nothing.
  skip :
      (b : Blade) (bs : List Blade)
      → Distinct (b ∷ bs)
      → reservation_for now fl b ≡ none
      → planned now fl k (b ∷ bs) ≡ planned now fl k bs
  unfolding planned
  skip b bs (fresh, _) e = elim (Bool-cases (text_eq b.serial k)) [
    | inl same ↦ rw same (
        e
        ∙ sym (
            planned_absent now fl k bs (
              subst (λ t. All (λ (c : Blade). text_eq c.serial t ≡ false) bs)
                ((text_eq_iff b.serial k).0 same) fresh)))
    | inr other ↦ rw other
  ]

  write :
      (b : Blade) (bs : List Blade) (r : Reservation) (hosts : List (Text × Reservation))
      (want : List Text) (out : Sync)
      → Distinct (b ∷ bs)
      → reservation_for now fl b ≡ some r
      → IsWritten (planned now fl k bs) k (put_host b.serial r hosts) (b.serial ∷ want) out
      → IsWritten (planned now fl k (b ∷ bs)) k hosts want out
  unfolding planned
  write b bs r hosts want out (fresh, _) e w = elim (Bool-cases (text_eq b.serial k)) [
    | inl same ↦
        let gone = planned_absent now fl k bs (
          subst (λ t. All (λ (c : Blade). text_eq c.serial t ≡ false) bs)
            ((text_eq_iff b.serial k).0 same) fresh) in
        rw same (
          rw e (
            hit b.serial r k hosts want out same (
              subst (λ p. IsWritten p k (put_host b.serial r hosts) (b.serial ∷ want) out) gone w)))
    | inr other ↦ rw other (advance (planned now fl k bs) b.serial r k hosts want out other w)
  ]

  write_hosts-planned :
      (bs : List Blade) (hosts : List (Text × Reservation)) (want : List Text)
      → Distinct bs
      → All (λ b. Valid (reservation_for now fl b)) bs
      → IsWritten (planned now fl k bs) k hosts want (write_hosts now fl bs hosts want)
  unfolding write_hosts
  write_hosts-planned [] hosts want d v = unfold planned in (refl, refl)
  write_hosts-planned (b ∷ bs) hosts want d (vb, vbs) =
      elim (Option-cases (reservation_for now fl b)) [
        | inl e ↦ rw (skip b bs d e, e, write_hosts) (write_hosts-planned bs hosts want d.1 vbs)
        | inr (r, e) ↦
            let good : valid_reservation r ≡ true = subst Valid e vb in
            rw (e, write_hosts, good)
              (write b bs r hosts want _ d e
                (write_hosts-planned bs (put_host b.serial r hosts) (b.serial ∷ want) d.1 vbs))
      ]

finish_planned :
    (fl : Fleet) (plan : Option Reservation) (k : Text) (out : Sync)
    → IsWritten plan k fl.hosts [] out
    → get_host k (finish_sync fl out).hosts ≡ plan
unfolding any
finish_planned fl plan k (stopped _) w = elim w [ ]
finish_planned fl (some r) k (synced hs ws) (a, b) = ground (arith, get_host-select k ws hs)
finish_planned fl none k (synced hs ws) (a, b) = ground (arith, get_host-select k ws hs)

-- Where this server writes the reservations, serials are distinct and every reservation is valid,
-- a sync leaves for each serial exactly the reservation of that blade, and no file for a serial
-- that should have none: the files of blades that left their slot are gone.
pub sync_dhcp_exact :
    (now : ℕ) (fl : Fleet) (k : Text)
    → fl.local_dhcp ≡ true
    → Distinct fl.blades
    → All (λ b. Valid (reservation_for now fl b)) fl.blades
    → get_host k (sync_dhcp now fl).hosts ≡ planned now fl k fl.blades
unfolding sync_dhcp
sync_dhcp_exact now fl k here d v =
    let run : sync_dhcp now fl ≡ finish_sync fl (write_hosts now fl fl.blades fl.hosts []) =
      ground arith in
    ap (λ (f : Fleet). get_host k f.hosts) run
    ∙ finish_planned fl _ k _ (write_hosts-planned now fl k fl.blades fl.hosts [] d v)

reservation_bootnet :
    (now : ℕ) (fl : Fleet) (b : Blade) (r : Reservation)
    → reservation_for now fl b ≡ some r
    → r.bootnet ≡ bootnet now b
unfolding reservation_for reservation
reservation_bootnet now fl b r h = ground arith

probe_armed_iff :
    (now : ℕ) (b : Blade) (p : Option ℕ)
    → b.probe ≡ p
    → (probe_armed now b ≡ true) ↔ ((t : ℕ) × (b.probe ≡ some t) × (now < t + probe_for))
unfolding probe_armed
probe_armed_iff now b none e = (λ h. absurd (ground arith), λ h. ground (arith, h.1))
probe_armed_iff now b (some t) e = (λ h. (t, e, ground arith), λ h. ground (arith, h.1, h.2))

abbrev IsArmed : ℕ → Blade → Type 0
IsArmed now b =
    (b.install_state ≡ pending)
    ⊎ ((b.install_state ≡ wiping) ⊎ ((t : ℕ) × (b.probe ≡ some t) × (now < t + probe_for)))

bootnet_cases : (now : ℕ) (b : Blade) → (bootnet now b ≡ true) ↔ IsArmed now b
unfolding bootnet
bootnet_cases now b = elim (Bool-cases (probe_armed now b)) [
  | inl on ↦ (λ h. inr (inr ((probe_armed_iff now b b.probe refl).0 on)), λ h. ground arith)
  | inr off ↦ (
    λ h. elim (armed_cases b.install_state (ground arith)) [ inl p ↦ inl p | inr w ↦ inr (inl w) ],
    λ h. elim h [
      | inl p ↦ ground arith
      | inr m ↦ elim m [
        | inl w ↦ ground arith
        | inr t ↦ absurd (ground (arith, (probe_armed_iff now b b.probe refl).1 t))
      ]
    ],
  )
]
  where
    armed_cases : (i : InstallState) → armed_state i ≡ true → (i ≡ pending) ⊎ (i ≡ wiping)
    armed_cases i h = ground arith

-- A blade's reservation carries the netboot tag exactly where an installation or an erase is
-- requested for it, or a firmware read that is less than half an hour old.
pub bootnet_iff :
    (now : ℕ) (fl : Fleet) (b : Blade) (r : Reservation)
    → reservation_for now fl b ≡ some r
    → (r.bootnet ≡ true) ↔ (
        (b.install_state ≡ pending)
        ⊎ ((b.install_state ≡ wiping) ⊎ ((t : ℕ) × (b.probe ≡ some t) × (now < t + probe_for))))
bootnet_iff now fl b r h =
    let same = reservation_bootnet now fl b r h in
    (λ on. (bootnet_cases now b).0 (sym same ∙ on), λ a. same ∙ (bootnet_cases now b).1 a)

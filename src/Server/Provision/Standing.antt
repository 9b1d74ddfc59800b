-- ===== src/Server/Provision/Standing.antt =====
-- The order of a blade stands through the reports that end nothing, and through the arrival of a mini OS.
use sheath.Prelude.{
  ℕ, ◌≡◌, refl, ap, ◌∙◌, inl, inr, arith, Bool, true, false, not, ◌&&◌, [], ◌∷◌, some, none, Text,
  codes, text_eq, is_empty, is_some, find_first, find_first-update, if◌then◌else◌, Bool-cases,
  Object,
}
use sheath.Server.Fleet.{
  Blade, Fleet, InstallState, Image, installer_note, is, get_blade, set_blade, log_event,
}
use sheath.Server.Reservations.{sync_dhcp, write_hosts, Sync, synced, stopped, finish_sync}
use sheath.Server.Placement.Slots.{sync_dhcp-blades}
use sheath.Server.Lifecycle.{clear_probe}
use sheath.Server.Facts.{merge_facts}
use sheath.Server.Targets.{get_image}
use sheath.Server.Provision.{
  Desk, Arrival, Report, arrive, known_blade, take_hardware, link_session, follow, log_report,
  provision_status, broken,
}
use sheath.Server.Provision.Reports.{ends}

-- What a blade is armed for, and as whom.
abbrev pub order : Blade → InstallState × Text × Text × Text
order b = (b.install_state, b.image, b.token, b.hostname)

sync_dhcp-images : (now : ℕ) (fl : Fleet) → (sync_dhcp now fl).images ≡ fl.images
unfolding sync_dhcp
sync_dhcp-images now fl = either fl.local_dhcp (write_hosts now fl fl.blades fl.hosts [])
  where
    either : (here : Bool) (w : Sync) → (if here then finish_sync fl w else fl).images ≡ fl.images
    either true (synced hosts want) = refl
    either true (stopped hosts) = refl
    either false w = refl

module _ (serial : Text) (b : Blade) (img : Image) (has_one : is_empty b.image ≡ false) where
  -- The blade is there with its order, and its image is in the catalogue.
  abbrev pub Stands : Fleet → Type 0
  Stands fl =
      ((c : Blade) × (get_blade serial fl ≡ some c) × (order c ≡ order b))
      × (get_image b.image fl ≡ some img)

  same-Stands :
      (fl gl : Fleet) → gl.blades ≡ fl.blades → gl.images ≡ fl.images → Stands fl → Stands gl
  unfolding get_blade get_image
  same-Stands fl gl bs ims ((c, found, o), i) =
      ((c, ap (find_first (is serial)) bs ∙ found, o), ap (find_first _) ims ∙ i)

  set_blade-Stands :
      (f : Blade → Blade) (fl : Fleet)
      → ((q : Blade) → (f q).serial ≡ q.serial)
      → ((q : Blade) → is_empty q.image ≡ false → order (f q) ≡ order q)
      → Stands fl
      → Stands (set_blade serial f fl)
  unfolding get_blade get_image set_blade
  set_blade-Stands f fl keeps same ((c, found, o), i) =
      let named : is_empty c.image ≡ false =
        ap (λ (r : InstallState × Text × Text × Text). is_empty r.1) o ∙ has_one in
      (
        (
          f c,
          find_first-update (is serial) f fl.blades (λ q. ap (λ s. text_eq s serial) (keeps q)) c
              found,
          same c named ∙ o,
        ),
        i,
      )

  known_blade-Stands : (tok : Text) (fl : Fleet) → Stands fl → Stands (known_blade serial tok fl)
  unfolding known_blade
  known_blade-Stands tok fl ((c, found, o), i) = rw (known_blade, found) ((c, found, o), i)

  clear_probe-Stands : (now : ℕ) (fl : Fleet) → Stands fl → Stands (clear_probe now serial fl)
  unfolding clear_probe
  clear_probe-Stands now fl h =
      let cleared =
        set_blade-Stands (λ (q : Blade). record q { probe = none; probe_sent = none }) fl
          (λ q. refl) (λ q e. refl) h in
      same-Stands
        (set_blade serial (λ (q : Blade). record q { probe = none; probe_sent = none }) fl)
        (clear_probe now serial fl) (sync_dhcp-blades now _) (sync_dhcp-images now _) cleared

  take_hardware-Stands :
      (now : ℕ) (hw : Object) (fl : Fleet) → Stands fl → Stands (take_hardware now serial hw fl)
  unfolding take_hardware log_event
  take_hardware-Stands now [] fl h = h
  take_hardware-Stands now (x ∷ hw) fl h = elim (Bool-cases (is_some merged_Stands.0.0.probe)) [
    | inr f ↦ rw (merged_Stands.0.1, take_hardware, f) merged_Stands
    | inl t ↦
        rw (merged_Stands.0.1, take_hardware, t)
          (same-Stands (clear_probe now serial merged) _ refl refl
            (clear_probe-Stands now merged merged_Stands))
  ]
    where
      merged : Fleet
      merged =
          set_blade serial (λ (b : Blade). record b { facts = merge_facts b.facts (x ∷ hw) }) fl

      merged_Stands : Stands merged
      merged_Stands = set_blade-Stands _ fl (λ q. refl) (λ q e. refl) h

  link_session-Stands :
      (now : ℕ) (mac : Text) (d : Desk)
      → Stands d.fleet
      → Stands (link_session now serial mac d).fleet
  unfolding link_session
  link_session-Stands now [] d h = h
  link_session-Stands now (m ∷ mac) d h =
      set_blade-Stands _ d.fleet (λ q. refl) (λ q e. rw e refl) h

  pub arrive-Stands :
      (tok : Text) (now : ℕ) (in_ : Arrival) (d : Desk)
      → Stands d.fleet
      → Stands (arrive tok now serial in_ d).fleet
  unfolding arrive
  arrive-Stands tok now in_ d h =
      link_session-Stands now in_.mac _
        (take_hardware-Stands now in_.hardware _ (known_blade-Stands tok d.fleet h))

  follow-Stands :
      (now : ℕ) (in_ : Report) (d : Desk)
      → (not (is_empty in_.note) && is_empty in_.error) ≡ false
      → ends in_ ≡ false
      → Stands d.fleet
      → Stands (follow now serial in_ d).fleet
  unfolding follow
  follow-Stands now in_ d no_note e h = elim (Bool-cases (is_empty in_.error)) [
    | inr failed ↦
        let it : (follow now serial in_ d).fleet ≡ set_blade serial broken d.fleet =
          rw (failed, follow) refl in
        moved (set_blade serial broken d.fleet) it
          (set_blade-Stands broken d.fleet (λ q. refl) (λ q n. refl) h)
    | inl fine ↦
        let not_wiped : text_eq in_.phase (codes "wiped") ≡ false = ground (arith, fine) in
        let not_done : text_eq in_.phase (codes "done") ≡ false = ground (arith, fine) in
        let it : (follow now serial in_ d).fleet ≡ d.fleet =
          rw (fine, follow, not_wiped, not_done) refl in
        moved d.fleet it h
  ]
    where
      moved :
          (fl : Fleet)
          → (follow now serial in_ d).fleet ≡ fl
          → Stands fl
          → Stands (follow now serial in_ d).fleet
      moved fl it k =
          same-Stands fl _ (ap (λ (x : Fleet). x.blades) it) (ap (λ (x : Fleet). x.images) it) k

  log_report-Stands :
      (in_ : Report) (d : Desk) → Stands d.fleet → Stands (log_report serial in_ d).fleet
  unfolding log_report log_event
  log_report-Stands in_ d h = same-Stands d.fleet _ (ground arith) (ground arith) h

  pub status-Stands :
      (now : ℕ) (in_ : Report) (d : Desk)
      → ends in_ ≡ false
      → Stands d.fleet
      → Stands (provision_status now serial in_ d).fleet
  unfolding provision_status log_event
  status-Stands now in_ d e h = elim (Bool-cases (not (is_empty in_.note) && is_empty in_.error)) [
    | inl note ↦
        let it : (provision_status now serial in_ d).fleet
            ≡ log_event serial (installer_note in_.note) d.fleet =
          rw (provision_status, note) refl in
        moved (log_event serial (installer_note in_.note) d.fleet) it
          (same-Stands d.fleet _ refl refl h)
    | inr report ↦
        let it : (provision_status now serial in_ d).fleet
            ≡ (log_report serial in_ (follow now serial in_ d)).fleet =
          rw (provision_status, report) refl in
        moved _ it
          (log_report-Stands in_ (follow now serial in_ d) (follow-Stands now in_ d report e h))
  ]
    where
      moved :
          (fl : Fleet)
          → (provision_status now serial in_ d).fleet ≡ fl
          → Stands fl
          → Stands (provision_status now serial in_ d).fleet
      moved fl it k =
          same-Stands fl _ (ap (λ (x : Fleet). x.blades) it) (ap (λ (x : Fleet). x.images) it) k

-- ===== src/Server/Racks.antt =====
-- server/db.go, server/ipam.go, server/api.go and server/ui.go: sites and BladeRunners are created,
-- changed, moved and removed. An `INSERT` or `UPDATE` fails only where the tables' constraints refuse
-- it, which are on the names and on the block of a rack in its site.
pub mod Inside
pub mod Renaming
pub mod Untouched
pub mod Room
pub mod History
mod Examples
use sheath.Prelude.{
  ℕ, ◌+◌, Bool, true, false, not, ◌&&◌, ◌||◌, List, [], ◌∷◌, ◌++◌, Option, none, some, ltb, leb,
  ◌==◌, if◌then◌else◌, Text, codes, text_eq, is_empty, is_digit, length, any, select, find_first,
  update_where,
}
use sheath.Server.Fleet.{
  Site, Rack, Blade, Fleet, is, has_id, site_is, get_rack, get_site, set_blade, log_event,
  rack_created, rack_changed, site_created, site_changed, site_removed, name_derived,
}
use sheath.Server.Addressing.{
  valid_size, valid_net_base, valid_host_prefix, next_rack_offset, blade_hostname, auto_host,
}
use sheath.Server.Reservations.{Place, decorate, sync_dhcp, host_prefix_of}

pub data RackError : Type 0 where
  no_name bad_size no_site no_block refused no_rack still_holds : RackError
  shrink : ℕ → ℕ → RackError

-- The fleet after a call, and the error that it returned.
abbrev pub Reply : Type 0
Reply = Fleet × Option RackError

-- What follows a call that returned no error.
unfoldable pub on_success : {E : Type 0} → (Fleet → Fleet) → Fleet × Option E → Fleet × Option E
on_success f (fl, none) = (f fl, none)
on_success f (fl, some e) = (fl, some e)

-- The order of `listRacks`: by site, then by block.
abbrev pub comes_after : Rack → Rack → Bool
comes_after r q =
    ltb q.site_id r.site_id || ((q.site_id == r.site_id) && ltb q.ip_offset r.ip_offset)

unfoldable pub insert_rack : Rack → List Rack → List Rack
insert_rack r [] = r ∷ []
insert_rack r (q ∷ rs) = if comes_after r q then q ∷ insert_rack r rs else r ∷ q ∷ rs

-- The table's UNIQUE (site_id, ip_offset), and UNIQUE on the name, against another rack.
abbrev pub same_block : Rack → Rack → Bool
same_block r q = (q.site_id == r.site_id) && (q.ip_offset == r.ip_offset)

abbrev pub clashes : Rack → Rack → Bool
clashes r q = not (q.id == r.id) && (text_eq q.name r.name || same_block r q)

-- `defaultSite`
unfoldable pub default_site : Fleet → Option Site
default_site fl = elim (find_first (λ (st : Site). st.local) fl.sites) [
  | some st ↦ some st
  | none ↦ elim fl.sites [ [] ↦ none | st ∷ _ ↦ some st ]
]

-- `nextRackOffset`: a site that is not there is an error, as is one with no free block.
unfoldable pub free_block : ℕ → Fleet → Option ℕ
free_block site_id fl = elim (get_site site_id fl) [
  | none ↦ none
  | some st ↦ elim (next_rack_offset st fl.racks) [ none ↦ none | some o ↦ o ]
]

-- The body of a POST; 0 stands for what is absent.
pub record NewRack : Type 0 where
  pub name : Text
  pub size : ℕ
  pub location : Text
  pub ip_offset : ℕ
  pub site_id : ℕ

abbrev pub site_for : ℕ → Fleet → Option ℕ
site_for site_id fl =
    if site_id == 0
    then elim (default_site fl) [ none ↦ none | some st ↦ some st.id ]
    else some site_id

abbrev pub block_for : ℕ → ℕ → Fleet → Option ℕ
block_for off site_id fl = if off == 0 then free_block site_id fl else some off

-- The `INSERT`; `id` is the key that the table gives.
unfoldable pub add_rack : Rack → Fleet → Reply
add_rack r fl = if any (clashes r) fl.racks then (fl, some refused) else (
  log_event [] (rack_created r.name (r.ip_offset + 1) (r.ip_offset + r.size))
      (record fl { racks = insert_rack r fl.racks }),
  none,
)

-- `hRacksCreate`, for a body that decodes.
unfoldable pub create_rack : ℕ → NewRack → Fleet → Reply
create_rack id in_ fl =
    if is_empty in_.name
    then (fl, some no_name)
    else if not (valid_size in_.size)
    then (fl, some bad_size)
    else elim (site_for in_.site_id fl) [
      | none ↦ (fl, some no_site)
      | some site_id ↦ elim (block_for in_.ip_offset site_id fl) [
        | none ↦ (fl, some no_block)
        | some off ↦
            add_rack
              (record {
                id = id;
                site_id = site_id;
                name = in_.name;
                size = in_.size;
                ip_offset = off;
                location = in_.location;
              })
              fl
      ]
    ]

abbrev pub stands_in : ℕ → Blade → Bool
stands_in id b = elim b.rack_id [ none ↦ false | some r ↦ r == id ]

-- `maxOccupiedSlot`: 0 where no blade has a slot.
unfoldable pub max_slot : ℕ → List Blade → ℕ
max_slot id [] = 0
max_slot id (b ∷ bs) =
    let rest = max_slot id bs in
    if stands_in id b
    then elim b.slot [ none ↦ rest | some s ↦ if ltb rest s then s else rest ]
    else rest

abbrev pub resized : Text → Text → ℕ → Rack → Rack
resized name location size r = record r { name = name; location = location; size = size }

-- The `UPDATE` of `updateRack`
unfoldable pub put_rack : Rack → Fleet → Reply
put_rack r fl = if any (clashes r) fl.racks then (fl, some refused) else (
  record fl { racks = update_where (has_id r.id) (resized r.name r.location r.size) fl.racks },
  none,
)

-- `updateRack`: an empty name or a size of 0 keeps what there is.
unfoldable pub update_rack : ℕ → Text → Text → ℕ → Fleet → Reply
update_rack id name location size fl = elim (get_rack id fl) [
  | none ↦ (fl, some no_rack)
  | some rk ↦
      let new_size = if size == 0 then rk.size else size in
      let new_name = if is_empty name then rk.name else name in
      if not (valid_size new_size)
      then (fl, some bad_size)
      else if ltb new_size rk.size && ltb new_size (max_slot id fl.blades)
      then (fl, some (shrink new_size (max_slot id fl.blades)))
      else put_rack (resized new_name location new_size rk) fl
]

abbrev pub moved_to : ℕ → ℕ → Rack → Rack
moved_to site_id off r = record r { site_id = site_id; ip_offset = off }

-- The `UPDATE` of `moveRack`, and the order afterwards.
unfoldable pub refile : ℕ → Rack → Fleet → Fleet
refile id r fl = record fl { racks = insert_rack r (select (λ q. not (has_id id q)) fl.racks) }

-- `moveRack`
unfoldable pub move_rack : ℕ → ℕ → Fleet → Reply
move_rack id site_id fl = elim (get_rack id fl) [
  | none ↦ (fl, some no_rack)
  | some rk ↦ if rk.site_id == site_id then (fl, none) else elim (get_site site_id fl) [
    | none ↦ (fl, some no_site)
    | some _ ↦ elim (free_block site_id fl) [
      | none ↦ (fl, some no_block)
      | some off ↦
          if any (clashes (moved_to site_id off rk)) fl.racks
          then (fl, some refused)
          else (refile id (moved_to site_id off rk) fl, none)
    ]
  ]
]

-- `hRackUpdate`, for a body that decodes.
unfoldable pub change_rack : ℕ → ℕ → Text → Text → ℕ → Fleet → Reply
change_rack now id name location size fl =
    on_success
      (λ gl.
        log_event [] (rack_changed (elim (get_rack id gl) [ none ↦ [] | some rk ↦ rk.name ]))
          (sync_dhcp now gl))
      (update_rack id name location size fl)

-- `hRackDelete`
unfoldable pub delete_rack : ℕ → ℕ → Fleet → Reply
delete_rack now id fl =
    if any (stands_in id) fl.blades
    then (fl, some still_holds)
    else (sync_dhcp now (record fl { racks = select (λ r. not (has_id id r)) fl.racks }), none)

-- The rest of `[0-9]+[smhd]` behind its first digit
unfoldable pub lease_rest : Text → Bool
lease_rest [] = false
lease_rest (c ∷ s) =
    if is_digit c
    then lease_rest s
    else ((c == b's') || ((c == b'm') || ((c == b'h') || (c == b'd')))) && is_empty s

-- `validLease`
unfoldable pub valid_lease : Text → Bool
valid_lease [] = true
valid_lease (c ∷ s) = (is_digit c && lease_rest s) || text_eq (c ∷ s) (codes "infinite")

pub data SiteError : Type 0 where
  bad_name bad_net bad_pool bad_prefix bad_lease refused_name last_site unknown_site : SiteError
  has_racks : SiteError

abbrev pub SiteReply : Type 0
SiteReply = Fleet × Option SiteError

-- `PoolFrom <= 0 || PoolTo <= PoolFrom || PoolTo > 254`
abbrev pub pool_wrong : Site → Bool
pool_wrong st = (st.pool_from == 0) || (leb st.pool_to st.pool_from || ltb 254 st.pool_to)

-- `createSite`: what it does not store keeps the table's default.
unfoldable pub create_site : ℕ → Site → Fleet → SiteReply
create_site id st fl =
    if is_empty st.name
    then (fl, some bad_name)
    else if not (valid_net_base st.net_base)
    then (fl, some bad_net)
    else if pool_wrong st
    then (fl, some bad_pool)
    else if any (λ (q : Site). text_eq q.name st.name) fl.sites
    then (fl, some refused_name)
    else (
      record fl {
        sites =
            fl.sites
            ++ (record st {
              id = id;
              local = false;
              token = [];
              enroll_code = [];
              enroll_until = none;
              host_prefix = [];
              lease = [];
              desired_at = none;
              relay_url = [];
            })
              ∷ [];
      },
      none,
    )

-- What `updateSite` stores.
abbrev pub site_fields : Site → Site → Site
site_fields st q = record q {
  name = st.name;
  location = st.location;
  net_base = st.net_base;
  gateway = st.gateway;
  dns = st.dns;
  domain = st.domain;
  pool_from = st.pool_from;
  pool_to = st.pool_to;
  host_prefix = st.host_prefix;
  lease = st.lease;
}

-- `updateSite`
unfoldable pub update_site : ℕ → Site → Fleet → SiteReply
update_site id st fl =
    if is_empty st.name
    then (fl, some bad_name)
    else if not (valid_net_base st.net_base)
    then (fl, some bad_net)
    else if pool_wrong st
    then (fl, some bad_pool)
    else if not (valid_host_prefix st.host_prefix)
    then (fl, some bad_prefix)
    else if not (valid_lease st.lease)
    then (fl, some bad_lease)
    else if any (site_is id) fl.sites
        && any (λ (q : Site). not (site_is id q) && text_eq q.name st.name) fl.sites
    then (fl, some refused_name)
    else (record fl { sites = update_where (site_is id) (site_fields st) fl.sites }, none)

-- `deleteSite`
unfoldable pub delete_site : ℕ → Fleet → SiteReply
delete_site id fl =
    if any (λ (r : Rack). r.site_id == id) fl.racks
    then (fl, some has_racks)
    else if leb (length fl.sites) 1
    then (fl, some last_site)
    else (record fl { sites = select (λ st. not (site_is id st)) fl.sites }, none)

-- `hSiteCreate`, for a body that decodes, and `hSiteUpdate` and `hSiteDelete`
abbrev pub or_default : ℕ → ℕ → ℕ
or_default d n = if n == 0 then d else n

unfoldable pub post_site : ℕ → Site → Fleet → SiteReply
post_site id st fl = on_success (log_event [] (site_created st.name st.net_base)) (
    create_site id
      (record st {
        offset_base = or_default 100 st.offset_base;
        offset_step = or_default 20 st.offset_step;
      })
      fl)

unfoldable pub put_site : ℕ → ℕ → Site → Fleet → SiteReply
put_site now id st fl =
    on_success (λ gl. log_event [] (site_changed st.name) (sync_dhcp now gl)) (update_site id st fl)

unfoldable pub remove_site : ℕ → Fleet → SiteReply
remove_site id fl = on_success (log_event [] site_removed) (delete_site id fl)

-- The name that a blade of the site should have, where its own is one that was generated, and another.
unfoldable pub new_name : Text → ℕ → Fleet → Blade → Option Text
new_name prefix site_id fl b = elim (decorate fl b) [
  | none ↦ none
  | some p ↦
      let want = blade_hostname prefix p.rack_idx p.slot in
      if not (p.rack.site_id == site_id)
      then none
      else if not (is_empty b.hostname) && not (auto_host b.hostname)
      then none
      else if text_eq want b.hostname
      then none
      else some want
]

-- The loop of `renameSiteBlades` over the blades that were read, and how many names changed.
unfoldable pub rename_each : Text → ℕ → Fleet → List Blade → Fleet → Fleet × ℕ
rename_each prefix site_id fl [] gl = (gl, 0)
rename_each prefix site_id fl (b ∷ bs) gl = elim (new_name prefix site_id fl b) [
  | none ↦ rename_each prefix site_id fl bs gl
  | some want ↦
      let (hl, n) = rename_each prefix site_id fl bs (
        log_event b.serial (name_derived b.hostname want)
          (set_blade b.serial (λ (q : Blade). record q { hostname = want }) gl)) in
      (hl, n + 1)
]

-- `renameSiteBlades`
unfoldable pub rename_site_blades : ℕ → Fleet → Fleet × ℕ
rename_site_blades site_id fl =
    rename_each (host_prefix_of (get_site site_id fl)) site_id fl fl.blades fl

-- The form of a site, its fields trimmed; a pool that is no number is `none`.
pub record SiteForm : Type 0 where
  pub name : Text
  pub location : Text
  pub net_base : Text
  pub host_prefix : Text
  pub lease : Text
  pub pool_from : Option ℕ
  pub pool_to : Option ℕ

abbrev pub form_site : SiteForm → Site → Site
form_site in_ old = record old {
  name = in_.name;
  location = in_.location;
  net_base = in_.net_base;
  host_prefix = in_.host_prefix;
  lease = in_.lease;
  pool_from = elim in_.pool_from [ none ↦ old.pool_from | some v ↦ v ];
  pool_to = elim in_.pool_to [ none ↦ old.pool_to | some v ↦ v ];
}

-- The rest of `hUISiteUpdate`, once the site is stored.
unfoldable pub settle_site : ℕ → Site → Site → Fleet → Fleet
settle_site now old st fl =
    let (gl, renamed) =
      (if not (text_eq st.host_prefix old.host_prefix)
        then rename_site_blades old.id fl
        else (fl, 0)) in
    let hl =
      (if not (text_eq old.net_base st.net_base) || ltb 0 renamed then sync_dhcp now gl else gl) in
    log_event [] (site_changed st.name) hl

-- `hUISiteUpdate`
unfoldable pub save_site : ℕ → ℕ → SiteForm → Fleet → SiteReply
save_site now id in_ fl = elim (get_site id fl) [
  | none ↦ (fl, some unknown_site)
  | some old ↦
      on_success (settle_site now old (form_site in_ old)) (update_site id (form_site in_ old) fl)
]

-- The second half of `hUIRackUpdate`: the site is 0 where none is chosen.
unfoldable pub save_place : ℕ → ℕ → ℕ → Reply → Reply
save_place now id site_id (fl, some e) = (fl, some e)
save_place now id site_id (fl, none) =
    on_success (sync_dhcp now) (if site_id == 0 then (fl, none) else move_rack id site_id fl)

-- `hUIRackUpdate`
unfoldable pub save_rack : ℕ → ℕ → Text → Text → ℕ → ℕ → Fleet → Reply
save_rack now id name location size site_id fl =
    save_place now id site_id (update_rack id name location size fl)

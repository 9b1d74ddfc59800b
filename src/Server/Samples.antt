-- ===== src/Server/Samples.antt =====
-- A small installation that the witnesses run on: one site, one BladeRunner, one blade in it and one
-- that is put aside.
use sheath.Prelude.{[], ◌∷◌, none, some, true, codes}
use sheath.Server.Fleet.{Site, Rack, Blade, Fleet, Image, BladeState, InstallState}

abbrev pub home : Site
home = record {
  id = 1;
  name = codes "home";
  location = [];
  net_base = codes "10.0.0";
  gateway = [];
  dns = [];
  domain = [];
  pool_from = 10;
  pool_to = 99;
  offset_base = 100;
  offset_step = 20;
  local = true;
  token = [];
  enroll_code = [];
  enroll_until = none;
  host_prefix = [];
  lease = [];
  desired_at = none;
  relay_url = [];
}

abbrev pub runner : Rack
runner = record { id = 7; site_id = 1; name = codes "r1"; size = 4; ip_offset = 100; location = [] }

abbrev pub stored_blade : Blade
stored_blade = record {
  serial = codes "aa";
  short_serial = codes "aa";
  rack_id = none;
  slot = none;
  hostname = [];
  mac = [];
  image = [];
  groups = [];
  state = BladeState.new;
  install_state = InstallState.idle;
  installed_at = none;
  config_applied = [];
  facts = [];
  health = [];
  token = [];
  last_seen = none;
  probe = none;
  probe_sent = none;
  halted = none;
  stored = some 5;
}

abbrev pub armed_blade : Blade
armed_blade = record stored_blade {
  serial = codes "bb";
  rack_id = some 7;
  slot = some 2;
  hostname = codes "node";
  mac = codes "dc:a6:32:00:00:01";
  image = codes "deb";
  state = BladeState.online;
  install_state = InstallState.pending;
  last_seen = some 50;
  stored = none;
}

abbrev pub debian : Image
debian = record {
  id = codes "deb";
  url = codes "http://images/deb";
  sha256 = [];
  seed = [];
  local = [];
  min_disk = 0;
  part_table = codes "mbr";
}

abbrev pub fleet : Fleet
fleet = record {
  sites = home ∷ [];
  racks = runner ∷ [];
  blades = stored_blade ∷ armed_blade ∷ [];
  commands = [];
  images = debian ∷ [];
  alerts = codes "bb" ∷ [];
  configs = [];
  events = [];
  hosts = [];
  local_dhcp = true;
}

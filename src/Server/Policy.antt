-- ===== src/Server/Policy.antt =====
-- server/policy.go: the thresholds, and the layers that they come from. Thresholds in degrees and
-- per cent are in thousandths. What `json.Unmarshal` makes of a stored policy is a value of `Stored`.
pub mod Layers
mod Examples
use sheath.Prelude.{ℕ, ◌*◌, Bool, true, false, ◌||◌, ◌==◌, if◌then◌else◌, Option, none, some, milli}

pub record Policy : Type 0 where
  pub soc_warn : ℕ
  pub soc_crit : ℕ
  pub nvme_warn : ℕ
  pub disk_warn : ℕ
  pub disk_crit : ℕ
  pub offline_min : ℕ
  pub no_wipe : Bool
  pub command_ttl_min : ℕ
  pub sample_every_min : ℕ
  pub sample_keep_hrs : ℕ

unfoldable pub default_policy : Policy
default_policy = record {
  soc_warn = milli 70;
  soc_crit = milli 80;
  nvme_warn = milli 70;
  disk_warn = milli 85;
  disk_crit = milli 95;
  offline_min = 5;
  no_wipe = false;
  command_ttl_min = 15;
  sample_every_min = 5;
  sample_keep_hrs = 48;
}

-- Go's zero value.
abbrev pub zero_policy : Policy
zero_policy = record {
  soc_warn = 0;
  soc_crit = 0;
  nvme_warn = 0;
  disk_warn = 0;
  disk_crit = 0;
  offline_min = 0;
  no_wipe = false;
  command_ttl_min = 0;
  sample_every_min = 0;
  sample_keep_hrs = 0;
}

abbrev pub or_else : ℕ → ℕ → ℕ
or_else a b = if a == 0 then b else a

unfoldable pub fill : Policy → Policy → Policy
fill p from = record {
  soc_warn = or_else p.soc_warn from.soc_warn;
  soc_crit = or_else p.soc_crit from.soc_crit;
  nvme_warn = or_else p.nvme_warn from.nvme_warn;
  disk_warn = or_else p.disk_warn from.disk_warn;
  disk_crit = or_else p.disk_crit from.disk_crit;
  offline_min = or_else p.offline_min from.offline_min;
  no_wipe = if p.no_wipe then true else from.no_wipe;
  command_ttl_min = or_else p.command_ttl_min from.command_ttl_min;
  sample_every_min = or_else p.sample_every_min from.sample_every_min;
  sample_keep_hrs = or_else p.sample_keep_hrs from.sample_keep_hrs;
}

-- A stored text: none, one that decodes, or one that does not, with what was decoded before the error.
pub data Stored : Type 0 where
  absent : Stored
  decoded broken : Policy → Stored

unfoldable pub global_policy : Stored → Policy
global_policy absent = fill zero_policy default_policy
global_policy (decoded p) = fill p default_policy
global_policy (broken p) = fill p default_policy

-- The site's row of the database, if there is one, over the installation's policy.
unfoldable pub own_policy : Policy → Option Stored → Policy
own_policy g none = g
own_policy g (some absent) = g
own_policy g (some (broken _)) = g
own_policy g (some (decoded p)) = fill p g

unfoldable pub site_policy : Stored → ℕ → Option Stored → Policy
unfolding own_policy
site_policy global site_id row =
    if site_id == 0 then global_policy global else own_policy (global_policy global) row

-- Durations, in seconds.
unfoldable pub command_ttl : Policy → ℕ
command_ttl p = p.command_ttl_min * 60

unfoldable pub sample_every : Policy → ℕ
sample_every p = p.sample_every_min * 60

unfoldable pub sample_keep : Policy → ℕ
sample_keep p = p.sample_keep_hrs * 3600

unfoldable pub offline_after : Policy → ℕ
offline_after p = p.offline_min * 60

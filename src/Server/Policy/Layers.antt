-- ===== src/Server/Policy/Layers.antt =====
-- How the layers of server/policy.go combine.
use sheath.Prelude.{Bool-cases, inl, inr, ℕ, ◌<◌, ◌≡◌, arith, true, Option, none, some, ◌==◌}
use sheath.Server.Policy.{
  Policy, fill, or_else, Stored, absent, decoded, broken, default_policy, own_policy, global_policy,
  site_policy,
}

or_else_assoc : (a b c : ℕ) → or_else a (or_else b c) ≡ or_else (or_else a b) c
or_else_assoc a b c = ground arith

or_true_assoc : (p q r : Policy) → (fill p (fill q r)).no_wipe ≡ (fill (fill p q) r).no_wipe
unfolding fill
or_true_assoc p q r = ground arith

-- Filling in layers: it does not matter which of the two fallbacks is applied first.
pub fill_assoc : (p q r : Policy) → fill p (fill q r) ≡ fill (fill p q) r
unfolding fill
fill_assoc p q r = λ i. record {
  soc_warn = or_else_assoc p.soc_warn q.soc_warn r.soc_warn i;
  soc_crit = or_else_assoc p.soc_crit q.soc_crit r.soc_crit i;
  nvme_warn = or_else_assoc p.nvme_warn q.nvme_warn r.nvme_warn i;
  disk_warn = or_else_assoc p.disk_warn q.disk_warn r.disk_warn i;
  disk_crit = or_else_assoc p.disk_crit q.disk_crit r.disk_crit i;
  offline_min = or_else_assoc p.offline_min q.offline_min r.offline_min i;
  no_wipe = or_true_assoc p q r i;
  command_ttl_min = or_else_assoc p.command_ttl_min q.command_ttl_min r.command_ttl_min i;
  sample_every_min = or_else_assoc p.sample_every_min q.sample_every_min r.sample_every_min i;
  sample_keep_hrs = or_else_assoc p.sample_keep_hrs q.sample_keep_hrs r.sample_keep_hrs i;
}

-- Every number of the policy is set.
pub record IsComplete (p : Policy) : Type 0 where
  pub soc_warn : 0 < p.soc_warn
  pub soc_crit : 0 < p.soc_crit
  pub nvme_warn : 0 < p.nvme_warn
  pub disk_warn : 0 < p.disk_warn
  pub disk_crit : 0 < p.disk_crit
  pub offline_min : 0 < p.offline_min
  pub command_ttl_min : 0 < p.command_ttl_min
  pub sample_every_min : 0 < p.sample_every_min
  pub sample_keep_hrs : 0 < p.sample_keep_hrs

fill-IsComplete : (p q : Policy) → IsComplete q → IsComplete (fill p q)
unfolding fill
fill-IsComplete p q h = record {
  soc_warn = ground arith;
  soc_crit = ground arith;
  nvme_warn = ground arith;
  disk_warn = ground arith;
  disk_crit = ground arith;
  offline_min = ground arith;
  command_ttl_min = ground arith;
  sample_every_min = ground arith;
  sample_keep_hrs = ground arith;
}

default-IsComplete : IsComplete default_policy
unfolding default_policy
default-IsComplete = omega arith

global-IsComplete : (g : Stored) → IsComplete (global_policy g)
unfolding global_policy
global-IsComplete absent = fill-IsComplete _ default_policy default-IsComplete
global-IsComplete (decoded p) = fill-IsComplete p default_policy default-IsComplete
global-IsComplete (broken p) = fill-IsComplete p default_policy default-IsComplete

own_row-IsComplete :
    (g : Stored) (row : Option Stored) → IsComplete (own_policy (global_policy g) row)
unfolding own_policy
own_row-IsComplete g none = global-IsComplete g
own_row-IsComplete g (some absent) = global-IsComplete g
own_row-IsComplete g (some (broken p)) = global-IsComplete g
own_row-IsComplete g (some (decoded p)) = fill-IsComplete p (global_policy g) (global-IsComplete g)

-- The policy that applies at a site is never a zero: each of its numbers is above 0, whatever is
-- stored for the installation and for the site, unreadable texts included.
pub site_policy-IsComplete :
    (g : Stored) (site_id : ℕ) (row : Option Stored) → IsComplete (site_policy g site_id row)
unfolding site_policy
site_policy-IsComplete g site_id row = elim (Bool-cases (site_id == 0)) [
  | inl e ↦ rw e (global-IsComplete g)
  | inr e ↦ rw e (own_row-IsComplete g row)
]

-- A site cannot lift the installation's ban on erasing disks, whatever it stores.
pub site_policy-no_wipe :
    (g : Stored) (site_id : ℕ) (row : Option Stored)
    → (global_policy g).no_wipe ≡ true
    → (site_policy g site_id row).no_wipe ≡ true
unfolding site_policy fill
site_policy-no_wipe g site_id row h = ground arith

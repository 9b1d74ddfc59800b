-- ===== src/Server/Policy/Examples.antt =====
-- A site with a threshold of its own, and one that would lift the ban.
use sheath.Prelude.{true}
use sheath.Server.Policy.{Policy, zero_policy}

abbrev hot : Policy
hot = record zero_policy { soc_crit = 90000 }

abbrev banned : Policy
banned = record zero_policy { no_wipe = true }

-- ===== src/Server/Health/Examples.antt =====
-- A blade that is hot and short of power.
use sheath.Prelude.{[], ◌∷◌, true, false, codes, milli, num, bool, ◌≡◌}
use sheath.Server.Policy.{default_policy}
use sheath.Server.Health.{Condition, eval_health_with}
use sheath.Server.Health.Judgement.{expected_level, eval_health_with_level}

abbrev hot : Condition
hot = record {
  halted = false;
  stored = false;
  offline = false;
  health = (codes "soc_temp_c", num (milli 75)) ∷ (codes "undervoltage_now", bool true) ∷ [];
}

eval_health_with_level_example :
    (eval_health_with hot default_policy).0 ≡ expected_level hot default_policy
eval_health_with_level_example = eval_health_with_level hot default_policy

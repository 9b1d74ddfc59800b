-- ===== src/Server/Health.antt =====
-- evalHealthWith of server/ipam.go: what a blade's reported values mean under a policy. Values and
-- thresholds are in thousandths.
pub mod Judgement
mod Examples
use sheath.Prelude.{
  ℕ, ◌<◌, Bool, true, false, not, ◌&&◌, ◌||◌, List, [], ◌∷◌, ◌++◌, Option, none, some, ◌≡◌, ltb,
  ◌==◌, if◌then◌else◌, Text, codes, text_eq, is_some, Json, Object, field, as_num, as_str, is_true,
  milli,
}
use sheath.Server.Policy.{Policy}

pub data Level : Type 0 where
  ok warn crit unknown : Level

-- The numbers behind the constants, `hOK` the lowest.
abbrev pub rank : Level → ℕ
rank ok = 0
rank warn = 1
rank crit = 2
rank unknown = 3

pub data Reason : Type 0 where
  no_heartbeat undervolt throttled fan_stopped : Reason
  soc nvme disk : ℕ → Reason

abbrev pub Verdict : Type 0
Verdict = Level × List Reason

-- The closure `raise`.
unfoldable pub raise : Level → Reason → Verdict → Verdict
raise l why (level, reasons) = (if ltb (rank level) (rank l) then l else level, reasons ++ why ∷ [])

unfoldable pub check_soc : Policy → Object → Verdict → Verdict
check_soc p h v = elim (as_num (field (codes "soc_temp_c") h)) [
  | none ↦ v
  | some t ↦
      if ltb p.soc_crit t
      then raise crit (soc t) v
      else if ltb p.soc_warn t
      then raise warn (soc t) v
      else v
]

unfoldable pub check_nvme : Policy → Object → Verdict → Verdict
check_nvme p h v = elim (as_num (field (codes "nvme_temp_c") h)) [
  | none ↦ v
  | some t ↦ if ltb p.nvme_warn t then raise warn (nvme t) v else v
]

unfoldable pub check_disk : Policy → Object → Verdict → Verdict
check_disk p h v = elim (as_num (field (codes "disk_used_pct") h)) [
  | none ↦ v
  | some t ↦
      if ltb p.disk_crit t
      then raise crit (disk t) v
      else if ltb p.disk_warn t
      then raise warn (disk t) v
      else v
]

unfoldable pub check_power : Object → Verdict → Verdict
check_power h v =
    let v' : Verdict =
      if is_true (field (codes "undervoltage_now") h) then raise crit undervolt v else v in
    if is_true (field (codes "throttled_now") h) then raise warn throttled v' else v'

-- `want, _ := num(…)` is 0 where there is no number.
abbrev pub num_or_zero : Option ℕ → ℕ
num_or_zero none = 0
num_or_zero (some n) = n

-- Asked to spin, on a unit that measures, with time to settle, and not spinning.
unfoldable pub fan_stands : Object → Bool
fan_stands h =
    let settled : Bool = elim (as_num (field (codes "uptime_s") h)) [
      | none ↦ true
      | some up ↦ ltb (milli 180) up
    ] in
    elim (as_num (field (codes "fan_rpm") h)) [
      | none ↦ false
      | some rpm ↦
          (rpm == 0)
          && (text_eq (as_str (field (codes "fan_unit") h)) (codes "smart")
              && (ltb 0 (num_or_zero (as_num (field (codes "fan_percent") h))) && settled))
    ]

unfoldable pub check_fan : Object → Verdict → Verdict
check_fan h v = if fan_stands h then raise crit fan_stopped v else v

-- What evalHealthWith reads of a blade: the marks that it is off or put aside, whether its state is
-- "offline", and its decoded health report.
pub record Condition : Type 0 where
  pub halted : Bool
  pub stored : Bool
  pub offline : Bool
  pub health : Object

abbrev pub judge : Policy → Object → Verdict
judge p h = check_fan h (check_power h (check_disk p h (check_nvme p h (check_soc p h (ok, [])))))

unfoldable pub judge_report : Policy → Object → Verdict
judge_report p [] = (unknown, [])
judge_report p (f ∷ fs) = judge p (f ∷ fs)

unfoldable pub eval_health_with : Condition → Policy → Verdict
unfolding judge_report
eval_health_with c p =
    if c.halted || c.stored
    then (unknown, [])
    else if c.offline
    then (crit, no_heartbeat ∷ [])
    else judge_report p c.health

-- The reading of `levelName` in server/notify.go.
unfoldable pub level_name : Level → Text
level_name warn = codes "warn"
level_name crit = codes "crit"
level_name _ = codes "ok"

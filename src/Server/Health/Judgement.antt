-- ===== src/Server/Health/Judgement.antt =====
-- What the level that evalHealthWith returns says about the report.
use sheath.Prelude.{
  inr, inl, Option-cases, ◌⊎◌, ℕ, ◌≡◌, ◌≢◌, ◌↔◌, refl, arith, Bool, true, false, ◌||◌, [], ◌∷◌,
  Option, none, some, ltb, if◌then◌else◌, codes, Object, field, as_num, is_true,
}
use sheath.Server.Policy.{Policy}
use sheath.Server.Health.{
  throttled, soc, fan_stopped, disk, undervolt, nvme, Level, ok, warn, crit, unknown, Reason,
  no_heartbeat, Verdict, raise, check_soc, check_nvme, check_disk, check_power, check_fan,
  fan_stands, Condition, judge, judge_report, eval_health_with,
}

-- Above a threshold; a value that was not reported is above none.
abbrev pub above : ℕ → Option ℕ → Bool
above limit none = false
above limit (some t) = ltb limit t

-- What is critical about a report.
abbrev pub is_critical : Policy → Object → Bool
is_critical p h =
    above p.soc_crit (as_num (field (codes "soc_temp_c") h))
    || (above p.disk_crit (as_num (field (codes "disk_used_pct") h))
        || (is_true (field (codes "undervoltage_now") h) || fan_stands h))

-- What is worth a warning.
abbrev pub is_warning : Policy → Object → Bool
is_warning p h =
    above p.soc_warn (as_num (field (codes "soc_temp_c") h))
    || (above p.nvme_warn (as_num (field (codes "nvme_temp_c") h))
        || (above p.disk_warn (as_num (field (codes "disk_used_pct") h))
            || is_true (field (codes "throttled_now") h)))

-- The worse of a level and of `crit`, where `b` holds.
abbrev or_crit : Bool → Level → Level
or_crit true unknown = unknown
or_crit true _ = crit
or_crit false l = l

abbrev or_warn : Bool → Level → Level
or_warn true ok = warn
or_warn true l = l
or_warn false l = l

soc_level :
    (p : Policy) (h : Object) (v : Verdict)
    → (check_soc p h v).0
      ≡ or_crit
          (above p.soc_crit (as_num (field (codes "soc_temp_c") h)))
          (or_warn (above p.soc_warn (as_num (field (codes "soc_temp_c") h))) v.0)
unfolding check_soc raise
soc_level p h (l, rs) = ground arith

nvme_level :
    (p : Policy) (h : Object) (v : Verdict)
    → (check_nvme p h v).0
      ≡ or_warn (above p.nvme_warn (as_num (field (codes "nvme_temp_c") h))) v.0
unfolding check_nvme raise
nvme_level p h (l, rs) = ground arith

disk_level :
    (p : Policy) (h : Object) (v : Verdict)
    → (check_disk p h v).0
      ≡ or_crit
          (above p.disk_crit (as_num (field (codes "disk_used_pct") h)))
          (or_warn (above p.disk_warn (as_num (field (codes "disk_used_pct") h))) v.0)
unfolding check_disk raise
disk_level p h (l, rs) = ground arith

power_level :
    (h : Object) (v : Verdict)
    → (check_power h v).0
      ≡ or_warn
          (is_true (field (codes "throttled_now") h))
          (or_crit (is_true (field (codes "undervoltage_now") h)) v.0)
unfolding check_power raise
power_level h (l, rs) = ground arith

fan_level : (h : Object) (v : Verdict) → (check_fan h v).0 ≡ or_crit (fan_stands h) v.0
unfolding check_fan raise
fan_level h (l, rs) = ground arith

-- The level of a report, described without the order of the checks.
abbrev pub report_level : Policy → Object → Level
report_level p h = if is_critical p h then crit else if is_warning p h then warn else ok

combine :
    (a b c d e f g i : Bool)
    → or_crit i
        (or_warn g (or_crit f (or_crit d (or_warn e (or_warn c (or_crit a (or_warn b ok)))))))
      ≡ (if a || (d || (f || i)) then crit else if b || (c || (e || g)) then warn else ok)
combine a b c d e f g i = ground arith

judge_level : (p : Policy) (h : Object) → (judge p h).0 ≡ report_level p h
judge_level p h =
    rw (fan_level, power_level, disk_level, nvme_level, soc_level)
      (combine (above p.soc_crit (as_num (field (codes "soc_temp_c") h)))
        (above p.soc_warn (as_num (field (codes "soc_temp_c") h)))
        (above p.nvme_warn (as_num (field (codes "nvme_temp_c") h)))
        (above p.disk_crit (as_num (field (codes "disk_used_pct") h)))
        (above p.disk_warn (as_num (field (codes "disk_used_pct") h)))
        (is_true (field (codes "undervoltage_now") h)) (is_true (field (codes "throttled_now") h))
        (fan_stands h))

-- What evalHealthWith is meant to return.
abbrev pub expected_level : Condition → Policy → Level
expected_level c p =
    if c.halted || c.stored
    then unknown
    else if c.offline
    then crit
    else elim c.health [ [] ↦ unknown | f ∷ fs ↦ report_level p (f ∷ fs) ]

cond_level :
    (a b c : Bool) (v : Verdict) (l : Level)
    → v.0 ≡ l
    → (if a || b then (unknown, []) else if c then (crit, no_heartbeat ∷ []) else v).0
      ≡ (if a || b then unknown else if c then crit else l)
cond_level a b c v l h = ground arith

report_case :
    (p : Policy) (h : Object)
    → (judge_report p h).0
      ≡ elim h as (λ _. Level) [ [] ↦ unknown | f ∷ fs ↦ report_level p (f ∷ fs) ]
unfolding judge_report
report_case p [] = refl
report_case p (f ∷ fs) = judge_level p (f ∷ fs)

-- Whether a verdict gives reasons exactly where its level is not ok.
abbrev IsGiven : Verdict → Type 0
IsGiven v = (v.0 ≢ unknown) × ((v.0 ≡ ok) ↔ (v.1 ≡ []))

raise-IsGiven :
    (l : Level) (why : Reason) (v : Verdict)
    → l ≢ ok
    → l ≢ unknown
    → IsGiven v
    → IsGiven (raise l why v)
unfolding raise
raise-IsGiven l why (k, []) a b h = ground arith
raise-IsGiven l why (k, r ∷ rs) a b h = ground arith

-- The level is the worst that any check finds, in whatever order they are made: critical if and
-- only if something reported is critical, else a warning if something is worth one, else ok. A
-- blade that is switched off, put aside or has no report is unknown, and one that stopped
-- answering is critical.
pub eval_health_with_level :
    (c : Condition) (p : Policy) → (eval_health_with c p).0 ≡ expected_level c p
unfolding eval_health_with
eval_health_with_level c p =
    cond_level c.halted c.stored c.offline (judge_report p c.health) _ (report_case p c.health)

choose-IsGiven : (b : Bool) (v w : Verdict) → IsGiven v → IsGiven w → IsGiven (if b then v else w)
choose-IsGiven true v w hv hw = hv
choose-IsGiven false v w hv hw = hw

crit-IsGiven : (why : Reason) (v : Verdict) → IsGiven v → IsGiven (raise crit why v)
crit-IsGiven why v = raise-IsGiven crit why v (λ e. cc) (λ e. cc)

warn-IsGiven : (why : Reason) (v : Verdict) → IsGiven v → IsGiven (raise warn why v)
warn-IsGiven why v = raise-IsGiven warn why v (λ e. cc) (λ e. cc)

soc-IsGiven : (p : Policy) (h : Object) (v : Verdict) → IsGiven v → IsGiven (check_soc p h v)
unfolding check_soc
soc-IsGiven p h v g = elim (Option-cases (as_num (field (codes "soc_temp_c") h))) [
  | inl e ↦ rw (e, check_soc) g
  | inr (t, e) ↦
      rw (e, check_soc)
        (choose-IsGiven (ltb p.soc_crit t) _ _ (crit-IsGiven (soc t) v g)
          (choose-IsGiven (ltb p.soc_warn t) _ _ (warn-IsGiven (soc t) v g) g))
]

nvme-IsGiven : (p : Policy) (h : Object) (v : Verdict) → IsGiven v → IsGiven (check_nvme p h v)
unfolding check_nvme
nvme-IsGiven p h v g = elim (Option-cases (as_num (field (codes "nvme_temp_c") h))) [
  | inl e ↦ rw (e, check_nvme) g
  | inr (t, e) ↦
      rw (e, check_nvme) (choose-IsGiven (ltb p.nvme_warn t) _ _ (warn-IsGiven (nvme t) v g) g)
]

disk-IsGiven : (p : Policy) (h : Object) (v : Verdict) → IsGiven v → IsGiven (check_disk p h v)
unfolding check_disk
disk-IsGiven p h v g = elim (Option-cases (as_num (field (codes "disk_used_pct") h))) [
  | inl e ↦ rw (e, check_disk) g
  | inr (t, e) ↦
      rw (e, check_disk)
        (choose-IsGiven (ltb p.disk_crit t) _ _ (crit-IsGiven (disk t) v g)
          (choose-IsGiven (ltb p.disk_warn t) _ _ (warn-IsGiven (disk t) v g) g))
]

power-IsGiven : (h : Object) (v : Verdict) → IsGiven v → IsGiven (check_power h v)
unfolding check_power
power-IsGiven h v g =
    let low : IsGiven
        (if is_true (field (codes "undervoltage_now") h) then raise crit undervolt v else v) =
      choose-IsGiven _ _ _ (crit-IsGiven undervolt v g) g in
    choose-IsGiven (is_true (field (codes "throttled_now") h)) _ _ (warn-IsGiven throttled _ low)
      low

fan-IsGiven : (h : Object) (v : Verdict) → IsGiven v → IsGiven (check_fan h v)
unfolding check_fan
fan-IsGiven h v g = choose-IsGiven (fan_stands h) _ _ (crit-IsGiven fan_stopped v g) g

judge-IsGiven : (p : Policy) (h : Object) → IsGiven (judge p h)
judge-IsGiven p h = fan-IsGiven h _ (
    power-IsGiven h _
      (disk-IsGiven p h _ (nvme-IsGiven p h _ (soc-IsGiven p h (ok, []) (ground arith)))))

abbrev IsExplained : Verdict → Type 0
IsExplained v = (v.1 ≡ []) ↔ ((v.0 ≡ ok) ⊎ (v.0 ≡ unknown))

Given-IsExplained : (v : Verdict) → IsGiven v → IsExplained v
Given-IsExplained v g =
    (λ e. inl (g.1.1 e), λ s. elim s [ inl o ↦ g.1.0 o | inr u ↦ absurd (g.0 u) ])

report-IsExplained : (p : Policy) (h : Object) → IsExplained (judge_report p h)
unfolding judge_report
report-IsExplained p [] = ground arith
report-IsExplained p (f ∷ fs) = Given-IsExplained (judge p (f ∷ fs)) (judge-IsGiven p (f ∷ fs))

cond-IsExplained :
    (a b c : Bool) (v : Verdict)
    → IsExplained v
    → IsExplained (if a || b then (unknown, []) else if c then (crit, no_heartbeat ∷ []) else v)
cond-IsExplained true b c v h = ground arith
cond-IsExplained false true c v h = ground arith
cond-IsExplained false false true v h = ground arith
cond-IsExplained false false false v h = h

-- A verdict that is a warning or critical comes with at least one reason, and a verdict that is ok
-- or unknown with none.
pub eval_health_with_reasons :
    (c : Condition) (p : Policy)
    → ((eval_health_with c p).1 ≡ [])
      ↔ (((eval_health_with c p).0 ≡ ok) ⊎ ((eval_health_with c p).0 ≡ unknown))
unfolding eval_health_with
eval_health_with_reasons c p =
    cond-IsExplained c.halted c.stored c.offline (judge_report p c.health)
      (report-IsExplained p c.health)

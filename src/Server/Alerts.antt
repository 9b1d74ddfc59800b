-- ===== src/Server/Alerts.antt =====
-- healthPass and sendAlert of server/notify.go: what is remembered of a blade that is not well, and when
-- somebody is told. `send` says whether a mail goes out when it is tried, and a reason is a list of
-- the causes that joinErr would write out. Rows of the table that belong to no blade are cleared by
-- `sweep_alerts`.
pub mod Told
mod Examples
use sheath.Prelude.{
  ℕ, ◌+◌, ◌-◌, ◌*◌, ◌<◌, Bool, true, false, not, ◌&&◌, ◌||◌, List, [], ◌∷◌, ◌++◌, Option, none,
  some, ltb, leb, if◌then◌else◌, Text, text_eq, is_some, any, select, find_first,
}
use sheath.Server.Health.{Level, ok, warn, crit, unknown, Reason, Verdict}

pub data Grade : Type 0 where
  well poor bad : Grade

abbrev pub rank : Grade → ℕ
rank well = 0
rank poor = 1
rank bad = 2

-- `levelName`
abbrev pub grade : Level → Grade
grade warn = poor
grade crit = bad
grade ok = well
grade unknown = well

abbrev pub same_grade : Grade → Grade → Bool
same_grade well well = true
same_grade poor poor = true
same_grade bad bad = true
same_grade _ _ = false

-- What is remembered between two passes; `notified` is the level that was sent.
pub record Alert : Type 0 where
  pub level : Grade
  pub reason : List Reason
  pub since : ℕ
  pub notified : Option Grade

-- `mailConf`, with what `ready` says.
pub record MailConf : Type 0 where
  pub enabled : Bool
  pub ready : Bool
  -- the floor is crit
  pub only_crit : Bool
  pub hold_min : ℕ

unfoldable pub worth_sending : Grade → Bool → Bool
worth_sending bad only_crit = true
worth_sending poor only_crit = not only_crit
worth_sending well only_crit = false

-- `worse`, against nothing or a level that was sent
abbrev pub worse : Grade → Option Grade → Bool
worse g none = ltb 0 (rank g)
worse g (some h) = ltb (rank h) (rank g)

pub data Line : Type 0 where
  recovered not_sent : Line
  alert : List Reason → Line

-- The row afterwards, if there is one, the lines of the log, and whether a mail went out.
abbrev pub Outcome : Type 0
Outcome = Option Alert × List Line × Bool

abbrev pub mails : MailConf → Grade → Bool
mails conf g = conf.enabled && (conf.ready && (same_grade g well || worth_sending g conf.only_crit))

-- `sendAlert` for a blade that is well again: the caller clears the row.
unfoldable pub send_recovery : MailConf → Bool → List Line × Bool
send_recovery conf send =
    if mails conf well
    then (if send then (recovered ∷ [], true) else (recovered ∷ not_sent ∷ [], false))
    else (recovered ∷ [], false)

-- `sendAlert` for one that is not. A mail that failed leaves the row of the database as it is, `old`.
unfoldable pub send_alert : MailConf → Bool → Grade → List Reason → Alert → Alert → Outcome
send_alert conf send g why old cur =
    let told : Alert = record cur { level = g; reason = why; notified = some g } in
    if mails conf g
    then (if send
        then (some told, alert why ∷ [], true)
        else (some old, alert why ∷ not_sent ∷ [], false))
    else (some told, alert why ∷ [], false)

abbrev pub quiet : Option Alert → Outcome
quiet row = (row, [], false)

abbrev pub is_notified : Alert → Bool
is_notified cur = is_some cur.notified

abbrev pub was_told : Grade → Alert → Bool
was_told g cur = elim cur.notified [ none ↦ false | some h ↦ same_grade h g ]

abbrev pub recover : MailConf → Bool → Alert → Outcome
recover conf send cur =
    if is_notified cur
    then (none, (send_recovery conf send).0, (send_recovery conf send).1)
    else quiet none

-- The `switch`, for a blade that is not well.
unfoldable pub judge_open : MailConf → Bool → ℕ → Grade → List Reason → Option Alert → Outcome
judge_open conf send now g why none =
    quiet (some (record { level = g; reason = why; since = now; notified = none }))
judge_open conf send now g why (some cur) =
    if not (same_grade cur.level g)
    then quiet (
        some (record {
          level = g;
          reason = why;
          since = now;
          notified = if worse g cur.notified then none else cur.notified;
        }))
    else if not (was_told g cur) && leb (conf.hold_min * 60) (now - cur.since)
    then send_alert conf send g why cur (record cur { reason = why })
    else quiet (some (record cur { reason = why }))

-- The loop of `healthPass` for one blade.
unfoldable pub pass_one : MailConf → Bool → ℕ → Verdict → Option Alert → Outcome
unfolding judge_open
pass_one conf send now (unknown, why) row = quiet row
pass_one conf send now (ok, why) none = quiet none
pass_one conf send now (ok, why) (some cur) = recover conf send cur
pass_one conf send now (warn, why) row = judge_open conf send now poor why row
pass_one conf send now (crit, why) row = judge_open conf send now bad why row

-- The passes over one blade, a minute apart or more: `(send, now, verdict)` of each.
unfoldable pub passes :
    MailConf → List (Bool × ℕ × Verdict) → Option Alert → Option Alert × List Line
unfolding pass_one
passes conf [] row = (row, [])
passes conf ((send, now, v) ∷ ps) row =
    let here = pass_one conf send now v row in
    let rest = passes conf ps here.0 in (rest.0, here.1 ++ rest.1)

-- What is left belongs to a blade that no longer exists.
unfoldable pub sweep_alerts : List Text → List (Text × Alert) → List (Text × Alert)
sweep_alerts serials alerts = select (λ a. any (text_eq a.0) serials) alerts

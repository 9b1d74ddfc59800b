-- ===== src/Server/Alerts/Examples.antt =====
-- A blade that has been critical for ten minutes, and goes on.
use sheath.Prelude.{◌*◌, ◌-◌, ◌≤◌, ◌≡◌, refl, [], ◌∷◌, none, some, true, false}
use sheath.Server.Health.{undervolt}
use sheath.Server.Alerts.{
  bad, Alert, MailConf, same_grade, was_told, mails, judge_open, send_alert, worth_sending,
}
use sheath.Server.Alerts.Told.{pass_one_mail}

abbrev conf : MailConf
conf = record { enabled = true; ready = true; only_crit = true; hold_min = 10 }

abbrev open_alert : Alert
open_alert = record { level = bad; reason = []; since = 100; notified = none }

abbrev told_alert : Alert
told_alert = record open_alert { notified = some bad }

pass_one_mail_example :
    (cur : Alert) × (some open_alert ≡ some cur)
    × (same_grade cur.level bad ≡ true)
    × (was_told bad cur ≡ false)
    × (10 * 60 ≤ 800 - cur.since)
    × (mails conf bad ≡ true)
unfolding judge_open send_alert worth_sending
pass_one_mail_example = pass_one_mail conf true 800 bad (undervolt ∷ []) (some open_alert) refl

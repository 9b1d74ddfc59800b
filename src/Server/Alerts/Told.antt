-- ===== src/Server/Alerts/Told.antt =====
-- A blade that stays bad is told of once, and not before it has held.
use sheath.Prelude.{
  ◌≢◌, map, leb, leb→le, ℕ, ◌-◌, ◌*◌, ◌≤◌, ◌≡◌, refl, inl, inr, arith, Bool, true, false, not, ◌&&◌,
  List, [], ◌∷◌, Option, none, some, Bool-cases,
}
use sheath.Server.Health.{ok, warn, crit, Reason, Verdict}
use sheath.Server.Alerts.{
  Grade, well, poor, bad, Alert, MailConf, send_alert, judge_open, pass_one, passes, was_told,
  same_grade, mails,
}

-- A mail about a blade that is not well goes out only if mail is on and the level clears the floor,
-- and if the same level has stood for the hold time and has not been told of.
pub pass_one_mail :
    (conf : MailConf) (send : Bool) (now : ℕ) (g : Grade) (why : List Reason) (row : Option Alert)
    → (judge_open conf send now g why row).2 ≡ true
    → (cur : Alert) × (row ≡ some cur)
      × (same_grade cur.level g ≡ true)
      × (was_told g cur ≡ false)
      × (conf.hold_min * 60 ≤ now - cur.since)
      × (mails conf g ≡ true)
unfolding judge_open send_alert
pass_one_mail conf send now g why none h = absurd (ground arith)
pass_one_mail conf send now g why (some cur) h = elim (Bool-cases (same_grade cur.level g)) [
  | inr other ↦ absurd (ground arith)
  | inl same ↦
      elim (Bool-cases (not (was_told g cur) && leb (conf.hold_min * 60) (now - cur.since))) [
        | inr early ↦ absurd (ground arith)
        | inl due ↦ (
          cur,
          refl,
          same,
          ground (arith, due),
          leb→le (conf.hold_min * 60) (now - cur.since) (ground (arith, due)),
          on same due,
        )
      ]
]
  where
    on :
        same_grade cur.level g ≡ true
        → (not (was_told g cur) && leb (conf.hold_min * 60) (now - cur.since)) ≡ true
        → mails conf g ≡ true
    on same due = elim (Bool-cases (mails conf g)) [
      | inl yes_mail ↦ yes_mail
      | inr off ↦ absurd (ground arith)
    ]

-- A row that was told of `g`.
abbrev pub HasTold : Grade → Option Alert → Type 0
HasTold g none = ⊥
HasTold g (some cur) = (same_grade cur.level g ≡ true) × (was_told g cur ≡ true)

stays_told :
    (conf : MailConf) (send : Bool) (now : ℕ) (g : Grade) (why : List Reason) (row : Option Alert)
    → HasTold g row
    → HasTold g (judge_open conf send now g why row).0
      × ((judge_open conf send now g why row).1 ≡ [])
unfolding judge_open
stays_told conf send now g why none told = absurd told
stays_told conf send now g why (some cur) (same, told) =
    rw (same, judge_open, told) ((same, told), refl)

-- The verdicts of warn and of crit, and the grade of each.
abbrev pub of_grade : Grade → List Reason → Verdict
of_grade well why = (ok, why)
of_grade poor why = (warn, why)
of_grade bad why = (crit, why)

-- While a blade stays at a level, warn or crit, that somebody has been told of, nothing more is
-- logged, however many passes there are, when they come, and whatever the reasons.
pub passes_silent :
    (conf : MailConf) (g : Grade) (ps : List (Bool × ℕ × List Reason)) (row : Option Alert)
    → g ≢ well
    → HasTold g row
    → (passes conf (map (λ p. (p.0, p.1, of_grade g p.2)) ps) row).1 ≡ []
unfolding passes pass_one
passes_silent conf well ps row bad_level told = absurd (bad_level refl)
passes_silent conf poor [] row bad_level told = refl
passes_silent conf poor ((send, now, why) ∷ ps) row bad_level told =
    rw ((stays_told conf send now poor why row told).1)
      (passes_silent conf poor ps _ bad_level (stays_told conf send now poor why row told).0)
passes_silent conf bad [] row bad_level told = refl
passes_silent conf bad ((send, now, why) ∷ ps) row bad_level told =
    rw ((stays_told conf send now bad why row told).1)
      (passes_silent conf bad ps _ bad_level (stays_told conf send now bad why row told).0)

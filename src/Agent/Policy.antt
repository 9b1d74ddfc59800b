-- ===== src/Agent/Policy.antt =====
-- agent/policy.go and maybeRestart of agent/main.go: what a blade may do by itself, and when.
pub mod Restarts
mod Examples
use sheath.Prelude.{
  ℕ, ◌+◌, ◌*◌, Bool, true, false, not, ◌&&◌, ◌||◌, List, [], ◌∷◌, ◌++◌, Option, none, some, ltb,
  leb, ◌==◌, if◌then◌else◌, Text, text_eq, is_empty, trim_space, any, Signed, plus, minus, atoi,
}

-- `agentPolicy`, without the interval and its jitter
pub record AgentPolicy : Type 0 where
  pub allow : List Text
  pub reboot_on_cfg : Bool
  pub window : Text

-- `allows`: an empty list allows everything.
unfoldable pub allows : AgentPolicy → Text → Bool
allows p kind = is_nil p.allow || any (λ a. text_eq a kind) p.allow
  where
    is_nil : List Text → Bool
    is_nil [] = true
    is_nil (_ ∷ _) = false

-- `strings.Cut` at a byte
unfoldable pub cut_byte : ℕ → Text → Option (Text × Text)
cut_byte sep [] = none
cut_byte sep (c ∷ s) =
    let rest : Option (Text × Text) = elim (cut_byte sep s) [
      | none ↦ none
      | some (a, b) ↦ some (c ∷ a, b)
    ] in
    if c == sep then some ([], s) else rest

-- A number that is not below 0.
abbrev pub from_zero : Option Signed → Option ℕ
from_zero none = none
from_zero (some (plus n)) = some n
from_zero (some (minus n)) = if n == 0 then some 0 else none

abbrev pub minutes : Option ℕ → Option ℕ → Option ℕ
minutes (some h) (some m) = if ltb 23 h || ltb 59 m then none else some (h * 60 + m)
minutes _ _ = none

-- `parseHHMM`
unfoldable pub parse_hhmm : Text → Option ℕ
parse_hhmm s = elim (cut_byte b':' s) [
  | none ↦ none
  | some (h, m) ↦ minutes (from_zero (atoi h)) (from_zero (atoi m))
]

abbrev pub both : Option ℕ → Option ℕ → Option (ℕ × ℕ)
both (some a) (some b) = some (a, b)
both _ _ = none

-- `parseWindow`
unfoldable pub parse_window : Text → Option (ℕ × ℕ)
parse_window s = elim (cut_byte b'-' s) [
  | none ↦ none
  | some (a, b) ↦ both (parse_hhmm (trim_space a)) (parse_hhmm (trim_space b))
]

-- A minute of the day between two others; a span that ends before it starts wraps around midnight.
unfoldable pub in_span : ℕ → ℕ → ℕ → Bool
in_span from to mins =
    if leb from to then leb from mins && ltb mins to else leb from mins || ltb mins to

-- `inWindow`: a window that is empty or not understood is no limit.
unfoldable pub in_window : AgentPolicy → ℕ → Bool
in_window p mins =
    if is_empty p.window
    then true
    else elim (parse_window p.window) [ none ↦ true | some (from, to) ↦ in_span from to mins ]

pub data Note : Type 0 where
  waiting : Text → Note
  restarting : Note

-- What `maybeRestart` reads and changes of the agent; `sent` is what it has reported.
pub record Restart : Type 0 where
  pub pol : AgentPolicy
  pub announced : Bool
  pub pending : List Note
  pub sent : List Note
  -- how many restarts it has set going
  pub restarts : ℕ

-- `maybeRestart`, for a report that arrives.
unfoldable pub maybe_restart : Bool → ℕ → Restart → Restart
maybe_restart required mins a =
    if not a.pol.reboot_on_cfg || not required
    then a
    else if not (in_window a.pol mins)
    then (if a.announced
        then a
        else record a { pending = a.pending ++ waiting a.pol.window ∷ []; announced = true })
    else record a {
      pol = record a.pol { reboot_on_cfg = false };
      pending = [];
      sent = a.sent ++ (a.pending ++ restarting ∷ []);
      restarts = a.restarts + 1;
    }

-- Passes that bring no new configuration, each with the minute of the day and whether a restart is due.
unfoldable pub passes : List (Bool × ℕ) → Restart → Restart
passes [] a = a
passes ((required, mins) ∷ ps) a = passes ps (maybe_restart required mins a)

-- ===== src/Server/Enroll.antt =====
-- server/enroll.go: a site signs itself in with a code. The code and the token are what newEnrollCode and
-- newToken returned, and times are seconds; an `UPDATE` succeeds.
pub mod Codes
mod Examples
use sheath.Prelude.{
  ℕ, ◌+◌, ◌-◌, Bool, true, false, not, ◌&&◌, ◌||◌, List, [], ◌∷◌, Option, none, some, ltb, leb,
  ◌==◌, if◌then◌else◌, Text, text_eq, is_empty, is_digit, trim_space, to_upper, map, select,
  find_first, update_where,
}
use sheath.Server.Fleet.{Site, Fleet, site_is, get_site, log_event, code_issued, site_enrolled}

-- `enrollWindow`
abbrev pub enroll_window : ℕ
enroll_window = 3600

abbrev pub code_byte : ℕ → Bool
code_byte c = (leb b'A' c && leb c b'Z') || is_digit c

-- `normaliseCode`, for ASCII
unfoldable pub normalise_code : Text → Text
normalise_code s = select code_byte (map to_upper (trim_space s))

abbrev pub with_code : Text → ℕ → Site → Site
with_code code now st = record st { enroll_code = code; enroll_until = some (now + enroll_window) }

abbrev pub no_code : Site → Site
no_code st = record st { enroll_code = []; enroll_until = none }

abbrev pub with_token : Text → Site → Site
with_token tok st = record st { token = tok; enroll_code = []; enroll_until = none }

abbrev pub set_site : ℕ → (Site → Site) → Fleet → Fleet
set_site id f fl = record fl { sites = update_where (site_is id) f fl.sites }

-- `makeEnrollCode`: whether there is such a site
unfoldable pub make_enroll_code : ℕ → Text → ℕ → Fleet → Fleet × Bool
make_enroll_code id code now fl = elim (get_site id fl) [
  | none ↦ (fl, false)
  | some st ↦ (log_event [] (code_issued id st.name) (set_site id (with_code code now) fl), true)
]

-- The site whose code is the one given, which is normalised and not empty.
abbrev pub has_code : Text → Site → Bool
has_code code st = not (is_empty st.enroll_code) && text_eq (normalise_code st.enroll_code) code

pub data Answer : Type 0 where
  no_code_given expired not_valid : Answer
  -- the site's id, and its token
  enrolled : ℕ → Text → Answer

-- `perr != nil || now.After(until)`
abbrev pub too_late : ℕ → Site → Bool
too_late now st = elim st.enroll_until [ none ↦ true | some t ↦ ltb t now ]

-- The loop over the sites
unfoldable pub spend_code : Text → Text → Text → ℕ → Fleet → Fleet × Answer
spend_code code host tok now fl = elim (find_first (has_code code) fl.sites) [
  | none ↦ (fl, not_valid)
  | some st ↦ if too_late now st then (set_site st.id no_code fl, expired) else (
    log_event [] (site_enrolled st.id st.name host) (set_site st.id (with_token tok) fl),
    enrolled st.id tok,
  )
]

-- `hSiteEnroll`, for a body that decodes; `host` is the name given, or the address it comes from.
unfoldable pub site_enroll : Text → Text → Text → ℕ → Fleet → Fleet × Answer
site_enroll code host tok now fl =
    if is_empty (normalise_code code)
    then (fl, no_code_given)
    else spend_code (normalise_code code) host tok now fl

-- `enrollState`: the code to show, while time is left.
unfoldable pub enroll_state : ℕ → Site → Option (Text × ℕ)
enroll_state now st = if is_empty st.enroll_code then none else elim st.enroll_until [
  | none ↦ none
  | some t ↦ if ltb now t then some (st.enroll_code, t - now) else none
]

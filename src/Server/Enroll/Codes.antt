-- ===== src/Server/Enroll/Codes.antt =====
-- What a code is good for.
use mathlib.Core.Path.{sym, subst}
use sheath.Prelude.{
  ◌==◌, Bool, select, find_first_sound, find_first-update, ◌+◌, ◌∙◌, ==_iff, ltb, if◌then◌else◌,
  sym, text_eq_refl, trim_space, trim_left, Option, ℕ, ◌≡◌, refl, ap, ◌⊎◌, inl, inr, arith, true,
  false, not, ◌&&◌, List, [], ◌∷◌, none, some, Text, text_eq, is_empty, find_first, update_where,
  All, Bool-cases, Option-cases,
}
use sheath.Server.Fleet.{Site, Fleet, site_is, get_site, log_event}
use sheath.Server.Enroll.{
  enroll_window, normalise_code, with_code, no_code, with_token, make_enroll_code, has_code,
  not_valid, expired, enrolled, too_late, spend_code, site_enroll,
}

-- Only the site of an id has a code.
abbrev pub OnlyAt : ℕ → Text → List Site → Type 0
OnlyAt id code sites = All (λ st. (has_code code st ≡ false) ⊎ (site_is id st ≡ true)) sites

spent :
    (id : ℕ) (code : Text) (f : Site → Site) (sites : List Site)
    → ((st : Site) → (f st).enroll_code ≡ [])
    → OnlyAt id code sites
    → find_first (has_code code) (update_where (site_is id) f sites) ≡ none
unfolding find_first update_where
spent id code f [] empty h = refl
spent id code f (st ∷ sites) empty (hs, h) = elim (Bool-cases (site_is id st)) [
  | inl e ↦ rw e (rw (blank st) (spent id code f sites empty h))
  | inr e ↦ rw e (rw (elsewhere hs e) (spent id code f sites empty h))
]
  where
    blank : (q : Site) → has_code code (f q) ≡ false
    blank q = ap (λ t. not (is_empty t) && text_eq (normalise_code t) code) (empty q)

    elsewhere :
        (has_code code st ≡ false) ⊎ (site_is id st ≡ true)
        → site_is id st ≡ false
        → has_code code st ≡ false
    elsewhere (inl h) e = h
    elsewhere (inr y) e = absurd (ground (arith, y, e))

only_found :
    (id : ℕ) (code : Text) (st : Site) (sites : List Site)
    → OnlyAt id code sites
    → find_first (has_code code) sites ≡ some st
    → id ≡ st.id
unfolding find_first
only_found id code st [] h found = absurd (ground (arith, found))
only_found id code st (q ∷ sites) (hq, h) found = elim (Bool-cases (has_code code q)) [
  | inl e ↦
      let it : some q ≡ some st = ground (arith, e, found) in
      let the_id : q.id ≡ st.id =
        ap (λ (o : Option Site). elim o [ none ↦ 0 | some x ↦ x.id ]) it in
      sym ((==_iff q.id id).0 (there e hq)) ∙ the_id
  | inr e ↦ only_found id code st sites h (ground (arith, e, found))
]
  where
    there :
        has_code code q ≡ true
        → (has_code code q ≡ false) ⊎ (site_is id q ≡ true)
        → site_is id q ≡ true
    there e (inl k) = absurd (ground (arith, e, k))
    there e (inr y) = y

-- Once the code is answered, no site has it.
none_left :
    (code host tok : Text) (now id : ℕ) (fl : Fleet)
    → OnlyAt id code fl.sites
    → find_first (has_code code) (spend_code code host tok now fl).0.sites ≡ none
unfolding spend_code log_event
none_left code host tok now id fl only = elim (Option-cases (find_first (has_code code) fl.sites)) [
  | inl e ↦ rw (e, spend_code) e
  | inr (st, e) ↦
      let here : OnlyAt st.id code fl.sites =
        subst (λ n. OnlyAt n code fl.sites) (only_found id code st fl.sites only e) only in
      elim (Bool-cases (too_late now st)) [
        | inl late ↦ rw (e, spend_code, late) (spent st.id code no_code fl.sites (λ q. refl) here)
        | inr good ↦
            rw (e, spend_code, good) (spent st.id code (with_token tok) fl.sites (λ q. refl) here)
      ]
]

spend_code-none :
    (code host tok : Text) (now : ℕ) (fl : Fleet)
    → find_first (has_code code) fl.sites ≡ none
    → (spend_code code host tok now fl).1 ≡ not_valid
unfolding spend_code
spend_code-none code host tok now fl e = rw (e, spend_code) refl

-- A code buys one answer: whatever its first use comes to, every later use of a text that means the same
-- code is told that it is not valid, when no two sites have that code and no new one is made.
pub site_enroll-once :
    (code again host host_again tok tok_again : Text) (now later id : ℕ) (fl : Fleet)
    → is_empty (normalise_code code) ≡ false
    → normalise_code again ≡ normalise_code code
    → OnlyAt id (normalise_code code) fl.sites
    → (site_enroll again host_again tok_again later (site_enroll code host tok now fl).0).1
      ≡ not_valid
unfolding site_enroll
site_enroll-once code again host host_again tok tok_again now later id fl given same only =
    rw (same, given)
      (spend_code-none (normalise_code code) host_again tok_again later
        (spend_code (normalise_code code) host tok now fl).0
        (none_left (normalise_code code) host tok now id fl only))

found_new :
    (id : ℕ) (code c : Text) (now : ℕ) (st : Site) (sites : List Site)
    → find_first (site_is id) sites ≡ some st
    → is_empty code ≡ false
    → text_eq (normalise_code code) c ≡ true
    → OnlyAt id c sites
    → find_first (has_code c) (update_where (site_is id) (with_code code now) sites)
      ≡ some (with_code code now st)
unfolding find_first update_where
found_new id code c now st [] found some_code means only = absurd (ground (arith, found))
found_new id code c now st (q ∷ sites) found some_code means (hq, only) =
    elim (Bool-cases (site_is id q)) [
      | inl e ↦
          let it : some q ≡ some st = ground (arith, e, found) in
          rw e (
            rw (some_code, means)
              (ap
                (λ (o : Option Site). elim o [ none ↦ none | some x ↦ some (with_code code now x) ])
                it))
      | inr e ↦ rw e (
          rw (lacks hq e)
            (found_new id code c now st sites (ground (arith, e, found)) some_code means only))
    ]
  where
    lacks :
        (has_code c q ≡ false) ⊎ (site_is id q ≡ true) → site_is id q ≡ false → has_code c q ≡ false
    lacks (inl h) e = h
    lacks (inr y) e = absurd (ground (arith, y, e))

code_given : (code : Text) → is_empty (normalise_code code) ≡ false → is_empty code ≡ false
unfolding normalise_code select trim_space trim_left
code_given [] h = h
code_given (c ∷ code) h = refl

made-sites :
    (id made : ℕ) (code : Text) (st : Site) (fl : Fleet)
    → get_site id fl ≡ some st
    → (make_enroll_code id code made fl).0.sites
      ≡ update_where (site_is id) (with_code code made) fl.sites
unfolding make_enroll_code log_event
made-sites id made code st fl there = rw (there, make_enroll_code) refl

spend_code-found :
    (code host tok : Text) (now : ℕ) (st : Site) (fl : Fleet)
    → find_first (has_code code) fl.sites ≡ some st
    → (spend_code code host tok now fl).1
      ≡ (if too_late now st then expired else enrolled st.id tok)
unfolding spend_code
spend_code-found code host tok now st fl e = elim (Bool-cases (too_late now st)) [
  | inl late ↦ rw (e, spend_code, late) refl
  | inr good ↦ rw (e, spend_code, good) refl
]

spend_code-sites :
    (code host tok : Text) (now : ℕ) (st : Site) (fl : Fleet)
    → find_first (has_code code) fl.sites ≡ some st
    → (spend_code code host tok now fl).0.sites
      ≡ update_where (site_is st.id) (if too_late now st then no_code else with_token tok) fl.sites
unfolding spend_code log_event
spend_code-sites code host tok now st fl e = elim (Bool-cases (too_late now st)) [
  | inl late ↦ rw (e, spend_code, late) refl
  | inr good ↦ rw (e, spend_code, good) refl
]

-- What is left in the row of a site, in time and too late.
abbrev pub row_after : Bool → Text → Site → Site
row_after late tok st = record st {
  token = if late then st.token else tok;
  enroll_code = [];
  enroll_until = none;
}

-- What the row is changed by.
abbrev spent_row : Bool → Text → Site → Site
spent_row late tok = if late then no_code else with_token tok

spent_row_keeps : (late : Bool) (tok : Text) (st : Site) → (spent_row late tok st).id ≡ st.id
spent_row_keeps true tok st = refl
spent_row_keeps false tok st = refl

spent_row-with_code :
    (late : Bool) (tok code : Text) (made : ℕ) (st : Site)
    → spent_row late tok (with_code code made st) ≡ row_after late tok st
spent_row-with_code true tok code made st = refl
spent_row-with_code false tok code made st = refl

-- The first use of a code that has been made for a site, in any spelling that means the same code, when no
-- other site has that code. Within an hour it is answered with the site and the token, and the site's row
-- has that token and no code any more; after the hour the answer is that it has expired, and the row loses
-- the code and keeps the token it had. Nothing else of the row changes.
pub make_enroll_code-site_enroll :
    (id made now : ℕ) (code typed host tok : Text) (st : Site) (fl : Fleet)
    → get_site id fl ≡ some st
    → is_empty (normalise_code code) ≡ false
    → normalise_code typed ≡ normalise_code code
    → OnlyAt id (normalise_code code) fl.sites
    → ((site_enroll typed host tok now (make_enroll_code id code made fl).0).1
        ≡ (if ltb (made + enroll_window) now then expired else enrolled id tok))
      × (get_site id (site_enroll typed host tok now (make_enroll_code id code made fl).0).0
          ≡ some (row_after (ltb (made + enroll_window) now) tok st))
unfolding site_enroll get_site
make_enroll_code-site_enroll id made now code typed host tok st fl there given same only = (
  rw (same, given)
      (spend_code-found (normalise_code code) host tok now (with_code code made st) gl found
        ∙ ap (λ n. if ltb (made + enroll_window) now then expired else enrolled n tok) here),
  rw (same, given) row,
)
  where
    gl : Fleet
    gl = (make_enroll_code id code made fl).0

    here : st.id ≡ id
    here = (==_iff st.id id).0 (find_first_sound (site_is id) fl.sites st there)

    found : find_first (has_code (normalise_code code)) gl.sites ≡ some (with_code code made st)
    found =
        ap (find_first (has_code (normalise_code code))) (made-sites id made code st fl there)
        ∙ found_new id code (normalise_code code) made st fl.sites there (code_given code given)
            (text_eq_refl (normalise_code code)) only

    late : Bool
    late = ltb (made + enroll_window) now

    in_row : find_first (site_is id) gl.sites ≡ some (with_code code made st)
    in_row =
        ap (find_first (site_is id)) (made-sites id made code st fl there)
        ∙ find_first-update (site_is id) (with_code code made) fl.sites (λ q. refl) st there

    row :
        find_first (site_is id) (spend_code (normalise_code code) host tok now gl).0.sites
        ≡ some (row_after late tok st)
    row =
        ap (find_first (site_is id))
          (spend_code-sites (normalise_code code) host tok now (with_code code made st) gl found)
        ∙ (ap
              (λ n.
                find_first (site_is id) (update_where (site_is n) (spent_row late tok) gl.sites))
              here
            ∙ (find_first-update (site_is id) (spent_row late tok) gl.sites
                  (λ q. ap (λ n. n == id) (spent_row_keeps late tok q)) (with_code code made st)
                  in_row
                ∙ ap some (spent_row-with_code late tok code made st)))

-- ===== src/Server/Sessions/Store.antt =====
-- How long a session lasts.
use sheath.Prelude.{
  ℕ, ◌+◌, ◌≤◌, ◌≡◌, refl, sym, ap, ◌∙◌, inl, inr, arith, Bool, true, false, not, ◌&&◌, List, [],
  ◌∷◌, Option, none, some, ltb, if◌then◌else◌, Text, text_eq, text_eq_iff, text_eq_refl, is_empty,
  Bool-cases, Option-cases,
}
use sheath.Server.Accounts.{Role}
use sheath.Server.Sessions.{Who, Store, session_ttl, put, find, drop, expired, create, lookup, reap}

find-put_same : (id : Text) (w : Who) (s : Store) → find id (put id w s) ≡ some w
unfolding find put
find-put_same id w [] = rw (text_eq_refl id) refl
find-put_same id w ((j, v) ∷ s) = elim (Bool-cases (text_eq j id)) [
  | inl e ↦ rw e (rw (text_eq_refl id) refl)
  | inr e ↦ rw e (rw e (find-put_same id w s))
]

apart_from : (i j k : Text) → text_eq j k ≡ true → text_eq k i ≡ false → text_eq j i ≡ false
apart_from i j k e h = ground (arith, text_eq_iff j k, text_eq_iff k i, text_eq_iff j i, e, h)

find-put_other :
    (i id : Text) (w : Who) (s : Store) → text_eq id i ≡ false → find i (put id w s) ≡ find i s
unfolding find put
find-put_other i id w [] h = rw h refl
find-put_other i id w ((j, v) ∷ s) h = elim (Bool-cases (text_eq j id)) [
  | inl e ↦ rw (e, h) (rw (apart_from i j id e h) refl)
  | inr e ↦ elim (Bool-cases (text_eq j i)) [
    | inl f ↦ rw (e, f) refl
    | inr f ↦ rw (e, f) (find-put_other i id w s h)
  ]
]

find-drop_other : (i id : Text) (s : Store) → text_eq id i ≡ false → find i (drop id s) ≡ find i s
unfolding find drop
find-drop_other i id [] h = refl
find-drop_other i id ((j, v) ∷ s) h = elim (Bool-cases (text_eq j id)) [
  | inl e ↦ rw (e, apart_from i j id e h) (find-drop_other i id s h)
  | inr e ↦ elim (Bool-cases (text_eq j i)) [
    | inl f ↦ rw (e, f) refl
    | inr f ↦ rw (e, f) (find-drop_other i id s h)
  ]
]

find-drop_same : (id : Text) (s : Store) → find id (drop id s) ≡ none
unfolding find drop
find-drop_same id [] = refl
find-drop_same id ((j, v) ∷ s) = elim (Bool-cases (text_eq j id)) [
  | inl e ↦ rw e (find-drop_same id s)
  | inr e ↦ rw e (rw e (find-drop_same id s))
]

-- No id stands twice.
abbrev pub Unique : Store → Type 0
Unique [] = Unit
Unique ((j, v) ∷ s) = (find j s ≡ none) × Unique s

find-drop-none : (i id : Text) (s : Store) → find i s ≡ none → find i (drop id s) ≡ none
find-drop-none i id s h = elim (Bool-cases (text_eq id i)) [
  | inl e ↦ ap (λ k. find i (drop k s)) ((text_eq_iff id i).0 e) ∙ find-drop_same i s
  | inr e ↦ find-drop_other i id s e ∙ h
]

put-Unique : (id : Text) (w : Who) (s : Store) → Unique s → Unique (put id w s)
unfolding put find
put-Unique id w [] h = (refl, tt)
put-Unique id w ((j, v) ∷ s) (hj, hs) = elim (Bool-cases (text_eq j id)) [
  | inl e ↦ rw e (ap (λ k. find k s) (sym ((text_eq_iff j id).0 e)) ∙ hj, hs)
  | inr e ↦
      let other : text_eq id j ≡ false = ground (arith, text_eq_iff j id, text_eq_iff id j, e) in
      rw e (find-put_other j id w s other ∙ hj, put-Unique id w s hs)
]

drop-Unique : (id : Text) (s : Store) → Unique s → Unique (drop id s)
unfolding drop
drop-Unique id [] h = tt
drop-Unique id ((j, v) ∷ s) (hj, hs) = elim (Bool-cases (text_eq j id)) [
  | inl e ↦ rw e (drop-Unique id s hs)
  | inr e ↦ rw e (find-drop-none j id s hj, drop-Unique id s hs)
]

find-reap-none : (i : Text) (now : ℕ) (s : Store) → find i s ≡ none → find i (reap now s) ≡ none
unfolding find reap
find-reap-none i now [] h = refl
find-reap-none i now ((j, v) ∷ s) h = elim (Bool-cases (text_eq j i)) [
  | inl e ↦ absurd (ground (arith, e, h))
  | inr e ↦ elim (Bool-cases (expired now v)) [
    | inl f ↦ rw f (find-reap-none i now s (ground (arith, e, h)))
    | inr f ↦ rw f (rw e (find-reap-none i now s (ground (arith, e, h))))
  ]
]

reap-Unique : (now : ℕ) (s : Store) → Unique s → Unique (reap now s)
unfolding reap
reap-Unique now [] h = tt
reap-Unique now ((j, v) ∷ s) (hj, hs) = elim (Bool-cases (expired now v)) [
  | inl e ↦ rw e (reap-Unique now s hs)
  | inr e ↦ rw e (find-reap-none j now s hj, reap-Unique now s hs)
]

lookup-Unique : (id : Text) (now : ℕ) (s : Store) → Unique s → Unique (lookup id now s).1
unfolding lookup
lookup-Unique id now s h = elim (Bool-cases (is_empty id)) [
  | inl e ↦ rw e h
  | inr e ↦ elim (Option-cases (find id s)) [
    | inl f ↦ rw (e, lookup, f) (drop-Unique id s h)
    | inr (w, f) ↦ elim (Bool-cases (expired now w)) [
      | inl g ↦ rw (e, lookup, f, g) (drop-Unique id s h)
      | inr g ↦ rw (e, lookup, f, g) h
    ]
  ]
]

-- The session of an id that is still good at a time.
abbrev pub good : Text → ℕ → Store → Option Who
good id now s = elim (find id s) [ none ↦ none | some w ↦ if expired now w then none else some w ]

lookup-good :
    (id : Text) (now : ℕ) (s : Store) → is_empty id ≡ false → (lookup id now s).0 ≡ good id now s
unfolding lookup
lookup-good id now s h = ground (arith, h)

-- What else the server does to its sessions.
pub data Event : Type 0 where
  created : Text → Text → Role → Event
  looked_up dropped : Text → Event
  reaped : Event

abbrev pub happen : ℕ → Event → Store → Store
happen now (created id name role) s = create id name role now s
happen now (looked_up id) s = (lookup id now s).1
happen now (dropped id) s = drop id s
happen now reaped s = reap now s

abbrev pub happen_all : List (ℕ × Event) → Store → Store
happen_all [] s = s
happen_all ((now, e) ∷ es) s = happen_all es (happen now e s)

-- An event that neither signs the session out nor takes its id.
abbrev pub spares : Text → Event → Bool
spares id (created j name role) = not (text_eq j id)
spares id (dropped j) = not (text_eq j id)
spares id (looked_up j) = true
spares id reaped = true

abbrev pub all_spare : Text → ℕ → List (ℕ × Event) → Bool
all_spare id until [] = true
all_spare id until ((now, e) ∷ es) = not (ltb until now) && (spares id e && all_spare id until es)

happen-Unique : (now : ℕ) (e : Event) (s : Store) → Unique s → Unique (happen now e s)
unfolding create
happen-Unique now (created id name role) s h = put-Unique id _ s h
happen-Unique now (looked_up id) s h = lookup-Unique id now s h
happen-Unique now (dropped id) s h = drop-Unique id s h
happen-Unique now reaped s h = reap-Unique now s h

good-find :
    (id : Text) (until : ℕ) (s t : Store)
    → find id s ≡ find id t
    → good id until s ≡ good id until t
good-find id until s t h = ground (arith, h)

good-reap :
    (id : Text) (until now : ℕ) (s : Store)
    → Unique s
    → now ≤ until
    → good id until (reap now s) ≡ good id until s
unfolding reap find
good-reap id until now [] h le = refl
good-reap id until now ((j, v) ∷ s) (hj, hs) le = elim (Bool-cases (expired now v)) [
  | inl e ↦ elim (Bool-cases (text_eq j id)) [
    | inl f ↦
        let gone : find id (reap now s) ≡ none =
          find-reap-none id now s (ap (λ k. find k s) (sym ((text_eq_iff j id).0 f)) ∙ hj) in
        ground (arith, e, f, gone, le)
    | inr f ↦ rw (e, good, f) ((good-reap id until now s hs le))
  ]
  | inr e ↦ elim (Bool-cases (text_eq j id)) [
    | inl f ↦ rw (e, good, f) refl
    | inr f ↦ rw (e, good, f) ((good-reap id until now s hs le))
  ]
]

good-drop-expired :
    (id j : Text) (until now : ℕ) (s : Store) (w : Who)
    → now ≤ until
    → find j s ≡ some w
    → expired now w ≡ true
    → good id until (drop j s) ≡ good id until s
good-drop-expired id j until now s w le f g = elim (Bool-cases (text_eq j id)) [
  | inr e ↦ good-find id until (drop j s) s (find-drop_other id j s e)
  | inl e ↦
      let same : j ≡ id = (text_eq_iff j id).0 e in
      let gone : find id (drop j s) ≡ none =
        ap (λ k. find id (drop k s)) same ∙ find-drop_same id s in
      let was : find id s ≡ some w = ap (λ k. find k s) (sym same) ∙ f in
      ground (arith, gone, was, g, le)
]

good-drop_absent :
    (id j : Text) (until : ℕ) (s : Store)
    → find j s ≡ none
    → good id until (drop j s) ≡ good id until s
good-drop_absent id j until s f = elim (Bool-cases (text_eq j id)) [
  | inr e ↦ good-find id until (drop j s) s (find-drop_other id j s e)
  | inl e ↦
      let same : j ≡ id = (text_eq_iff j id).0 e in
      good-find id until (drop j s) s (
        ap (λ k. find id (drop k s)) same
        ∙ (find-drop_same id s ∙ (sym f ∙ ap (λ k. find k s) same)))
]

good-lookup :
    (id j : Text) (until now : ℕ) (s : Store)
    → now ≤ until
    → good id until (lookup j now s).1 ≡ good id until s
unfolding lookup
good-lookup id j until now s le = elim (Bool-cases (is_empty j)) [
  | inl e ↦ rw e refl
  | inr e ↦ elim (Option-cases (find j s)) [
    | inl f ↦ rw (e, lookup, f) (good-drop_absent id j until s f)
    | inr (w, f) ↦ elim (Bool-cases (expired now w)) [
      | inl g ↦ rw (e, lookup, f, g) (good-drop-expired id j until now s w le f g)
      | inr g ↦ rw (e, lookup, f, g) refl
    ]
  ]
]

good-happen :
    (id : Text) (until now : ℕ) (e : Event) (s : Store)
    → Unique s
    → now ≤ until
    → spares id e ≡ true
    → good id until (happen now e s) ≡ good id until s
unfolding create
good-happen id until now (created j name role) s h le other =
    good-find id until (create j name role now s) s
      (find-put_other id j _ s (ground (arith, other)))
good-happen id until now (looked_up j) s h le other = good-lookup id j until now s le
good-happen id until now (dropped j) s h le other =
    good-find id until (drop j s) s (find-drop_other id j s (ground (arith, other)))
good-happen id until now reaped s h le other = good-reap id until now s h le

good-happen_all :
    (id : Text) (until : ℕ) (es : List (ℕ × Event)) (s : Store)
    → Unique s
    → all_spare id until es ≡ true
    → good id until (happen_all es s) ≡ good id until s
good-happen_all id until [] s h other = refl
good-happen_all id until ((now, e) ∷ es) s h other =
    good-happen_all id until es (happen now e s) (happen-Unique now e s h) (ground (arith, other))
    ∙ good-happen id until now e s h (ground (arith, other)) (ground (arith, other))

-- Who signed in is found by the id of the session, with the name and role of then, for twelve hours and not
-- after, whatever other sessions are made, looked up, dropped or reaped until the lookup.
pub lookup-created :
    (id name : Text) (role : Role) (now until : ℕ) (es : List (ℕ × Event)) (s : Store)
    → Unique s
    → is_empty id ≡ false
    → all_spare id until es ≡ true
    → (lookup id until (happen_all es (create id name role now s))).0 ≡ (
        if ltb (now + session_ttl) until
        then none
        else some (record { name = name; role = role; exp = now + session_ttl }))
unfolding create
lookup-created id name role now until es s h named other =
    lookup-good id until (happen_all es (put id w s)) named
    ∙ (good-happen_all id until es (put id w s) (put-Unique id w s h) other
        ∙ ap (λ o. elim o [ none ↦ none | some v ↦ if expired until v then none else some v ])
            (find-put_same id w s))
  where
    w : Who
    w = record { name = name; role = role; exp = now + session_ttl }

-- ===== src/Agent/Commands/Batch.antt =====
-- The batch of commands that a blade carries out.
use sheath.Prelude.{
  ℕ, ◌≤◌, ◌≡◌, refl, sym, ap, ◌∙◌, inl, inr, arith, true, false, not, ◌&&◌, ◌||◌, List, [], ◌∷◌,
  Option, none, some, ltb, if◌then◌else◌, Text, text_eq, text_eq_iff, find_first, any, All,
  Bool-cases,
}
use sheath.Agent.Commands.{
  Command, stale, of_kind, keep_newest, newest, rank, insert_ranked, sort_ranked, batch,
}

-- The last command of a kind that is not stale, and what was kept where there is none.
unfoldable pub last_fresh : ℕ → Text → List Command → Option Command → Option Command
last_fresh now k [] found = found
last_fresh now k (c ∷ cs) found =
    last_fresh now k cs (if not (stale now c) && of_kind k c then some c else found)

-- No kind stands twice.
abbrev pub OnePerKind : List Command → Type 0
OnePerKind [] = Unit
OnePerKind (c ∷ cs) = (any (of_kind c.kind) cs ≡ false) × OnePerKind cs

-- By rank.
abbrev pub Ranked : List Command → Type 0
Ranked [] = Unit
Ranked (c ∷ cs) = All (λ d. rank c.kind ≤ rank d.kind) cs × Ranked cs

kind_swap : (c d : Command) → of_kind c.kind d ≡ of_kind d.kind c
kind_swap c d = ground (arith, text_eq_iff d.kind c.kind, text_eq_iff c.kind d.kind)

-- A command of another kind than `d` is not of kind `k`, where `d` is.
other_kind :
    (k : Text) (c d : Command) → of_kind c.kind d ≡ false → of_kind k d ≡ true → of_kind k c ≡ false
other_kind k c d e f =
    ground (arith, text_eq_iff d.kind c.kind, text_eq_iff d.kind k, text_eq_iff c.kind k, e, f)

same_kind : (k : Text) (c d : Command) → of_kind c.kind d ≡ true → of_kind k d ≡ of_kind k c
same_kind k c d e = ap (λ t. text_eq t k) ((text_eq_iff d.kind c.kind).0 e)

find-keep_newest :
    (k : Text) (c : Command) (ds : List Command)
    → find_first (of_kind k) (keep_newest c ds)
      ≡ (if of_kind k c then some c else find_first (of_kind k) ds)
unfolding find_first keep_newest
find-keep_newest k c [] = refl
find-keep_newest k c (d ∷ ds) = elim (Bool-cases (of_kind c.kind d)) [
  | inl e ↦ elim (Bool-cases (of_kind k c)) [
    | inl f ↦ rw (e, f) refl
    | inr f ↦ rw (e, f) (rw (same_kind k c d e ∙ f) refl)
  ]
  | inr e ↦ elim (Bool-cases (of_kind k d)) [
    | inl f ↦ rw (e, f) (rw (other_kind k c d e f) refl)
    | inr f ↦ rw (e, f) (find-keep_newest k c ds)
  ]
]

any-keep_newest :
    (k : Text) (c : Command) (ds : List Command)
    → any (of_kind k) (keep_newest c ds) ≡ (of_kind k c || any (of_kind k) ds)
unfolding any keep_newest
any-keep_newest k c [] = refl
any-keep_newest k c (d ∷ ds) = elim (Bool-cases (of_kind c.kind d)) [
  | inl e ↦ rw e (ground (arith, same_kind k c d e))
  | inr e ↦ rw e (ground (arith, any-keep_newest k c ds))
]

keep_newest-OnePerKind :
    (c : Command) (ds : List Command) → OnePerKind ds → OnePerKind (keep_newest c ds)
unfolding keep_newest any
keep_newest-OnePerKind c [] h = (refl, tt)
keep_newest-OnePerKind c (d ∷ ds) (hd, hds) = elim (Bool-cases (of_kind c.kind d)) [
  | inl e ↦ rw e (ap (λ t. any (of_kind t) ds) (sym ((text_eq_iff d.kind c.kind).0 e)) ∙ hd, hds)
  | inr e ↦ rw e (
    any-keep_newest d.kind c ds ∙ ground (arith, kind_swap c d, e, hd),
    keep_newest-OnePerKind c ds hds,
  )
]

newest-OnePerKind :
    (now : ℕ) (cs kept : List Command) → OnePerKind kept → OnePerKind (newest now cs kept)
unfolding newest
newest-OnePerKind now [] kept h = h
newest-OnePerKind now (c ∷ cs) kept h = elim (Bool-cases (stale now c)) [
  | inl e ↦ rw e (newest-OnePerKind now cs kept h)
  | inr e ↦ rw e (newest-OnePerKind now cs (keep_newest c kept) (keep_newest-OnePerKind c kept h))
]

find-newest :
    (now : ℕ) (k : Text) (cs kept : List Command)
    → find_first (of_kind k) (newest now cs kept)
      ≡ last_fresh now k cs (find_first (of_kind k) kept)
unfolding newest last_fresh
find-newest now k [] kept = refl
find-newest now k (c ∷ cs) kept = elim (Bool-cases (stale now c)) [
  | inl e ↦ rw e (find-newest now k cs kept)
  | inr e ↦ rw e (
      find-newest now k cs (keep_newest c kept)
      ∙ ap (last_fresh now k cs) (find-keep_newest k c kept))
]

-- Sorting moves commands and loses none.
find-insert_ranked :
    (k : Text) (c : Command) (ds : List Command)
    → any (of_kind c.kind) ds ≡ false
    → find_first (of_kind k) (insert_ranked c ds)
      ≡ (if of_kind k c then some c else find_first (of_kind k) ds)
unfolding find_first insert_ranked any
find-insert_ranked k c [] h = refl
find-insert_ranked k c (d ∷ ds) h = elim (Bool-cases (ltb (rank d.kind) (rank c.kind))) [
  | inr e ↦ rw e refl
  | inl e ↦ elim (Bool-cases (of_kind k d)) [
    | inl f ↦
        let other : of_kind k c ≡ false = other_kind k c d (ground (arith, h)) f in
        rw e (rw f (rw other refl))
    | inr f ↦ rw e (rw f (find-insert_ranked k c ds (ground (arith, h))))
  ]
]

any-insert_ranked :
    (k : Text) (c : Command) (ds : List Command)
    → any (of_kind k) (insert_ranked c ds) ≡ (of_kind k c || any (of_kind k) ds)
unfolding any insert_ranked
any-insert_ranked k c [] = refl
any-insert_ranked k c (d ∷ ds) = ground (arith, any-insert_ranked k c ds)

any-sort_ranked :
    (k : Text) (cs : List Command) → any (of_kind k) (sort_ranked cs) ≡ any (of_kind k) cs
unfolding any sort_ranked
any-sort_ranked k [] = refl
any-sort_ranked k (c ∷ cs) =
    any-insert_ranked k c (sort_ranked cs) ∙ ap (λ b. of_kind k c || b) (any-sort_ranked k cs)

find-sort_ranked :
    (k : Text) (cs : List Command)
    → OnePerKind cs
    → find_first (of_kind k) (sort_ranked cs) ≡ find_first (of_kind k) cs
unfolding find_first sort_ranked
find-sort_ranked k [] h = refl
find-sort_ranked k (c ∷ cs) (hc, hcs) =
    find-insert_ranked k c (sort_ranked cs) (any-sort_ranked c.kind cs ∙ hc)
    ∙ ap (λ o. if of_kind k c then some c else o) (find-sort_ranked k cs hcs)

insert_ranked-OnePerKind :
    (c : Command) (ds : List Command)
    → any (of_kind c.kind) ds ≡ false
    → OnePerKind ds
    → OnePerKind (insert_ranked c ds)
unfolding insert_ranked any
insert_ranked-OnePerKind c [] h hs = (refl, tt)
insert_ranked-OnePerKind c (d ∷ ds) h (hd, hds) =
    elim (Bool-cases (ltb (rank d.kind) (rank c.kind))) [
      | inr e ↦ rw e (h, (hd, hds))
      | inl e ↦ rw e (
        any-insert_ranked d.kind c ds ∙ ground (arith, kind_swap c d, h, hd),
        insert_ranked-OnePerKind c ds (ground (arith, h)) hds,
      )
    ]

sort_ranked-OnePerKind : (cs : List Command) → OnePerKind cs → OnePerKind (sort_ranked cs)
unfolding sort_ranked
sort_ranked-OnePerKind [] h = tt
sort_ranked-OnePerKind (c ∷ cs) (hc, hcs) =
    insert_ranked-OnePerKind c (sort_ranked cs) (any-sort_ranked c.kind cs ∙ hc)
      (sort_ranked-OnePerKind cs hcs)

weaken :
    (m n : ℕ) (ds : List Command)
    → m ≤ n
    → All (λ d. n ≤ rank d.kind) ds
    → All (λ d. m ≤ rank d.kind) ds
weaken m n [] le h = tt
weaken m n (d ∷ ds) le (hd, hds) = (omega (arith, le, hd), weaken m n ds le hds)

insert_ranked-above :
    (n : ℕ) (c : Command) (ds : List Command)
    → n ≤ rank c.kind
    → All (λ d. n ≤ rank d.kind) ds
    → All (λ d. n ≤ rank d.kind) (insert_ranked c ds)
unfolding insert_ranked
insert_ranked-above n c [] hc h = (hc, tt)
insert_ranked-above n c (d ∷ ds) hc (hd, hds) =
    elim (Bool-cases (ltb (rank d.kind) (rank c.kind))) [
      | inr e ↦ rw e (hc, (hd, hds))
      | inl e ↦ rw e (hd, insert_ranked-above n c ds hc hds)
    ]

insert_ranked-Ranked : (c : Command) (ds : List Command) → Ranked ds → Ranked (insert_ranked c ds)
unfolding insert_ranked
insert_ranked-Ranked c [] h = (tt, tt)
insert_ranked-Ranked c (d ∷ ds) (hd, hds) = elim (Bool-cases (ltb (rank d.kind) (rank c.kind))) [
  | inl e ↦
      rw e (
        insert_ranked-above (rank d.kind) c ds (ground (arith, e)) hd,
        insert_ranked-Ranked c ds hds,
      )
  | inr e ↦
      let low : rank c.kind ≤ rank d.kind = ground (arith, e) in
      rw e ((low, weaken (rank c.kind) (rank d.kind) ds low hd), (hd, hds))
]

sort_ranked-Ranked : (cs : List Command) → Ranked (sort_ranked cs)
unfolding sort_ranked
sort_ranked-Ranked [] = tt
sort_ranked-Ranked (c ∷ cs) = insert_ranked-Ranked c (sort_ranked cs) (sort_ranked-Ranked cs)

-- Of each kind a blade carries out at most one command, the last of those that are not stale, and none
-- where all are; they come by rank, so that after a restart or a halt only others of those follow.
pub batch_lem :
    (now : ℕ) (cmds : List Command)
    → ((k : Text) → find_first (of_kind k) (batch now cmds) ≡ last_fresh now k cmds none)
      × OnePerKind (batch now cmds)
      × Ranked (batch now cmds)
unfolding batch find_first
batch_lem now cmds = (
  λ k. find-sort_ranked k (newest now cmds []) one ∙ find-newest now k cmds [],
  sort_ranked-OnePerKind (newest now cmds []) one,
  sort_ranked-Ranked (newest now cmds []),
)
  where
    one : OnePerKind (newest now cmds [])
    one = newest-OnePerKind now cmds [] tt

-- ===== src/Agent/BootConfig/Cutting.antt =====
-- Finding a marker in a text that is put together from lines.
use sheath.Prelude.{
  nl, ◌&&◌, Bool, ℕ, ◌≡◌, refl, ap, ◌∙◌, inl, inr, arith, true, false, [], ◌∷◌, ◌++◌, Option, none,
  some, ◌==◌, ==_refl, not, Text, has_prefix, length, drop, Bool-cases,
}
use sheath.Agent.BootConfig.{Bool, prepend, cut_at}

-- A marker: not empty, and without a line feed.
abbrev pub no_feed : Text → Bool
no_feed [] = true
no_feed (c ∷ p) = not (c == nl) && no_feed p

pub has_prefix-feed :
    (p a b : Text) → no_feed p ≡ true → has_prefix (a ++ nl ∷ b) p ≡ has_prefix a p
unfolding has_prefix
has_prefix-feed [] a b h = refl
has_prefix-feed (c ∷ p) [] b h = ground (arith, h)
has_prefix-feed (c ∷ p) (d ∷ a) b h = rw (has_prefix-feed p a b (ground (arith, h))) refl

drop-feed :
    (p a b : Text) → has_prefix a p ≡ true → drop (length p) (a ++ b) ≡ drop (length p) a ++ b
unfolding has_prefix
drop-feed [] a b h = refl
drop-feed (c ∷ p) [] b h = absurd (ground arith)
drop-feed (c ∷ p) (d ∷ a) b h = drop-feed p a b (ground arith)

-- A marker behind a line feed, with what stands before it.
abbrev pub after_line : Text → Option (Text × Text) → Option (Text × Text)
after_line a none = none
after_line a (some (x, y)) = some (a ++ nl ∷ x, y)

abbrev pub with_rest : Text → Option (Text × Text) → Option (Text × Text) → Option (Text × Text)
with_rest b none other = other
with_rest b (some (x, y)) other = some (x, y ++ b)

prepend-with_rest :
    (c : ℕ) (a b : Text) (o other : Option (Text × Text))
    → prepend c (with_rest b o (after_line a other))
      ≡ with_rest b (prepend c o) (after_line (c ∷ a) other)
prepend-with_rest c a b none none = refl
prepend-with_rest c a b none (some (x, y)) = refl
prepend-with_rest c a b (some (x, y)) other = refl

prepend-feed : (o : Option (Text × Text)) → prepend nl o ≡ after_line [] o
prepend-feed none = refl
prepend-feed (some (x, y)) = refl

has_prefix-short : (q : ℕ) (p : Text) → has_prefix [] (q ∷ p) ≡ false
unfolding has_prefix
has_prefix-short q p = refl

pub cut_at-append :
    (q : ℕ) (p a b : Text)
    → no_feed (q ∷ p) ≡ true
    → cut_at (q ∷ p) (a ++ nl ∷ b)
      ≡ with_rest (nl ∷ b) (cut_at (q ∷ p) a) (after_line a (cut_at (q ∷ p) b))
unfolding cut_at
cut_at-append q p [] b h =
    let other : has_prefix (nl ∷ b) (q ∷ p) ≡ false =
      has_prefix-feed (q ∷ p) [] b h ∙ has_prefix-short q p in
    rw other (prepend-feed (cut_at (q ∷ p) b))
cut_at-append q p (c ∷ a) b h = elim (Bool-cases (has_prefix (c ∷ a) (q ∷ p))) [
  | inl e ↦
      let here : has_prefix (c ∷ (a ++ nl ∷ b)) (q ∷ p) ≡ true =
        has_prefix-feed (q ∷ p) (c ∷ a) b h ∙ e in
      rw (e, here) (ap (λ y. some ([], y)) (drop-feed (q ∷ p) (c ∷ a) (nl ∷ b) e))
  | inr e ↦
      let past : has_prefix (c ∷ (a ++ nl ∷ b)) (q ∷ p) ≡ false =
        has_prefix-feed (q ∷ p) (c ∷ a) b h ∙ e in
      rw (e, past)
        (ap (prepend c) (cut_at-append q p a b h)
          ∙ prepend-with_rest c a (nl ∷ b) (cut_at (q ∷ p) a) (cut_at (q ∷ p) b))
]

has_prefix_self : (s t : Text) → has_prefix (s ++ t) s ≡ true
unfolding has_prefix
has_prefix_self [] [] = refl
has_prefix_self [] (c ∷ t) = refl
has_prefix_self (c ∷ s) t = rw (==_refl c) (has_prefix_self s t)

drop_self : (s t : Text) → drop (length s) (s ++ t) ≡ t
drop_self [] t = refl
drop_self (c ∷ s) t = drop_self s t

-- Where the marker stands first, and where it stands first behind a text without it.
cut_at-first : (q : ℕ) (p b : Text) → cut_at (q ∷ p) ((q ∷ p) ++ b) ≡ some ([], b)
unfolding cut_at
cut_at-first q p b =
    let here : has_prefix (q ∷ (p ++ b)) (q ∷ p) ≡ true = has_prefix_self (q ∷ p) b in
    rw here (ap (λ y. some ([], y)) (drop_self (q ∷ p) b))

pub cut_at-later :
    (q : ℕ) (p a b : Text)
    → no_feed (q ∷ p) ≡ true
    → cut_at (q ∷ p) a ≡ none
    → cut_at (q ∷ p) (a ++ nl ∷ ((q ∷ p) ++ b)) ≡ some (a ++ nl ∷ [], b)
cut_at-later q p a b h absent =
    cut_at-append q p a ((q ∷ p) ++ b) h
    ∙ (ap (λ o. with_rest (nl ∷ ((q ∷ p) ++ b)) o (after_line a (cut_at (q ∷ p) ((q ∷ p) ++ b))))
          absent
        ∙ ap (after_line a) (cut_at-first q p b))

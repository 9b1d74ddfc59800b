-- ===== src/Agent/BootConfig/Lines.antt =====
-- Line feeds at the end of a text hide no setting.
use mathlib.Core.List.{append-nil}
use sheath.Prelude.{
  nl, trim_newlines, ℕ, zero, suc, ◌≡◌, refl, sym, ap, ◌∙◌, inl, inr, arith, Bool, true, false,
  ◌&&◌, ◌||◌, List, [], ◌∷◌, ◌++◌, ◌==◌, Text, is_empty, trim_space, trim_left, split_on, replicate,
  any, Bool-cases,
}
use sheath.Agent.BootConfig.{says, has_line}

pub feeds_none : (n : ℕ) → trim_newlines (replicate n nl) ≡ []
unfolding trim_newlines
feeds_none zero = refl
feeds_none (suc n) = rw (feeds_none n) refl

pub trim_newlines-feeds : (s : Text) (n : ℕ) → trim_newlines (s ++ replicate n nl) ≡ trim_newlines s
unfolding trim_newlines
trim_newlines-feeds [] n = feeds_none n
trim_newlines-feeds (c ∷ s) n = rw (trim_newlines-feeds s n) refl

-- What trimming takes off is line feeds.
pub trim_newlines-split : (s : Text) → (n : ℕ) × (s ≡ trim_newlines s ++ replicate n nl)
unfolding trim_newlines
trim_newlines-split [] = (0, refl)
trim_newlines-split (c ∷ s) = elim (Bool-cases ((c == nl) && is_empty (trim_newlines s))) [
  | inr e ↦ ((trim_newlines-split s).0, rw e (ap (λ t. c ∷ t) (trim_newlines-split s).1))
  | inl e ↦
      let here : c ≡ nl = ground (arith, e) in
      let bare : trim_newlines s ≡ [] = ground (arith, e) in
      (
        suc (trim_newlines-split s).0,
        rw e (
            ap (λ d. d ∷ s) here
            ∙ ap (λ t. nl ∷ t)
                ((trim_newlines-split s).1
                  ∙ ap (λ t. t ++ replicate (trim_newlines-split s).0 nl) bare)),
      )
]

pub trim_newlines-again : (s : Text) → trim_newlines (trim_newlines s) ≡ trim_newlines s
trim_newlines-again s =
    let (n, e) = trim_newlines-split s in
    sym (trim_newlines-feeds (trim_newlines s) n) ∙ ap trim_newlines (sym e)

pub split_on-append :
    (s t cur : Text) → split_on nl (s ++ nl ∷ t) cur ≡ split_on nl s cur ++ split_on nl t []
unfolding split_on
split_on-append [] t cur = refl
split_on-append (c ∷ s) t cur = elim (Bool-cases (c == nl)) [
  | inl e ↦ rw (e, split_on) (ap (λ r. cur ∷ r) (split_on-append s t []))
  | inr e ↦ rw (e, split_on) (split_on-append s t (cur ++ c ∷ []))
]

any-append : (p : Text → Bool) (xs ys : List Text) → any p (xs ++ ys) ≡ (any p xs || any p ys)
unfolding any
any-append p [] ys = refl
any-append p (x ∷ xs) ys = ground (arith, any-append p xs ys)

says-empty : (want : Text) → says want [] ≡ false
unfolding trim_space trim_left
says-empty want = refl

any-feeds : (want : Text) (n : ℕ) → any (says want) (split_on nl (replicate n nl) []) ≡ false
unfolding any split_on
any-feeds want zero = rw (says-empty want) refl
any-feeds want (suc n) = rw (says-empty want, any-feeds want n) refl

or_none : (a : Bool) {b : Bool} → b ≡ false → (a || b) ≡ a
or_none true h = refl
or_none false h = h

pub has_line-feeds : (s l : Text) (n : ℕ) → has_line (s ++ replicate n nl) l ≡ has_line s l
unfolding has_line
has_line-feeds s l zero = ap (λ t. has_line t l) (append-nil s)
has_line-feeds s l (suc n) =
    ap (any (says (trim_space l))) (split_on-append s (replicate n nl) [])
    ∙ (any-append (says (trim_space l)) (split_on nl s []) (split_on nl (replicate n nl) [])
        ∙ or_none (any (says (trim_space l)) (split_on nl s [])) (any-feeds (trim_space l) n))

pub has_line-trim : (s l : Text) → has_line (trim_newlines s) l ≡ has_line s l
has_line-trim s l =
    let (n, e) = trim_newlines-split s in
    sym (has_line-feeds (trim_newlines s) l n) ∙ ap (λ t. has_line t l) (sym e)

pub has_line-append : (s t l : Text) → has_line (s ++ nl ∷ t) l ≡ (has_line s l || has_line t l)
unfolding has_line
has_line-append s t l =
    ap (any (says (trim_space l))) (split_on-append s t [])
    ∙ any-append (says (trim_space l)) (split_on nl s []) (split_on nl t [])

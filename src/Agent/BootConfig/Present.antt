-- ===== src/Agent/BootConfig/Present.antt =====
-- Every setting that is asked for is a line of the file afterwards.
use mathlib.Core.List.{append_assoc, append-nil}
use sheath.Prelude.{
  nl, trim_newlines, if◌then◌else◌, none, Option-cases, ◌⊎◌, ◌≡◌, refl, sym, ap, ◌∙◌, inl, inr,
  arith, Bool, true, false, not, ◌&&◌, ◌||◌, List, [], ◌∷◌, ◌++◌, ◌==◌, Text, codes, text_eq,
  text_eq_refl, text_eq_iff, is_empty, has_prefix, trim_space, split_on, any, all, select,
  Bool-cases,
}
use sheath.Agent.BootConfig.{
  none, updated, apply_text, cut_at, block_start, block_end, strip_block, replace_block, has_line,
  is_header, only_sections, join_lines, missing_lines, unreadable, unchanged, written, block_of,
}
use sheath.Agent.BootConfig.Cutting.{no_feed}
use sheath.Agent.BootConfig.Lines.{has_line-append, has_line-trim}

-- One line that is a setting: not blank, no comment and no header.
pub record IsSetting (l : Text) : Type 0 where
  pub one_line : no_feed l ≡ true
  pub not_blank : is_empty (trim_space l) ≡ false
  pub not_comment : has_prefix (trim_space l) (codes "#") ≡ false
  pub not_header : is_header l ≡ false

-- `l` is one of the lines.
abbrev pub is_in : Text → List Text → Bool
is_in l ls = any (λ m. text_eq m l) ls

pub one_part : (l cur : Text) → no_feed l ≡ true → split_on nl l cur ≡ (cur ++ l) ∷ []
unfolding split_on
one_part [] cur h = ap (λ t. t ∷ []) (sym (append-nil cur))
one_part (c ∷ l) cur h =
    let other : (c == nl) ≡ false = ground (arith, h) in
    rw (other, split_on)
      (one_part l (cur ++ c ∷ []) (ground (arith, h))
        ∙ ap (λ t. t ∷ []) (append_assoc cur (c ∷ []) l))

or_true : (a : Bool) {b : Bool} → b ≡ true → (a || b) ≡ true
or_true true h = refl
or_true false h = h

and_false : (a : Bool) {b : Bool} → b ≡ false → (a && b) ≡ false
and_false true h = h
and_false false h = refl

has_line_self : (l : Text) → IsSetting l → has_line l l ≡ true
unfolding has_line any
has_line_self l is =
    rw (one_part l [] is.one_line, is.not_blank, is.not_comment, text_eq_refl (trim_space l)) refl

has_line-same : (l m : Text) → IsSetting l → text_eq m l ≡ true → has_line m l ≡ true
has_line-same l m is e = rw ((text_eq_iff m l).0 e) (has_line_self l is)

has_line-join :
    (l : Text) (ls : List Text)
    → IsSetting l
    → is_in l ls ≡ true
    → has_line (join_lines ls) l ≡ true
unfolding join_lines any
has_line-join l [] is h = absurd (ground (arith, h))
has_line-join l (m ∷ []) is h = has_line-same l m is (ground (arith, h))
has_line-join l (m ∷ k ∷ ls) is h = elim (Bool-cases (text_eq m l)) [
  | inl e ↦
      has_line-append m (join_lines (k ∷ ls)) l
      ∙ ap (λ b. b || has_line (join_lines (k ∷ ls)) l) (has_line-same l m is e)
  | inr e ↦
      has_line-append m (join_lines (k ∷ ls)) l
      ∙ or_true (has_line m l) (has_line-join l (k ∷ ls) is (ground (arith, e, h)))
]

is_in-select :
    (l : Text) (p : Text → Bool) (ls : List Text)
    → is_in l ls ≡ true
    → p l ≡ true
    → is_in l (select p ls) ≡ true
unfolding any select
is_in-select l p [] h hp = h
is_in-select l p (m ∷ ls) h hp = elim (Bool-cases (text_eq m l)) [
  | inl e ↦ let kept : p m ≡ true = ap p ((text_eq_iff m l).0 e) ∙ hp in rw kept (rw e refl)
  | inr e ↦ elim (Bool-cases (p m)) [
    | inl k ↦ rw k (rw e (is_in-select l p ls (ground (arith, e, h)) hp))
    | inr k ↦ rw k (is_in-select l p ls (ground (arith, e, h)) hp)
  ]
]

not_only_sections :
    (l : Text) (ls : List Text) → IsSetting l → is_in l ls ≡ true → only_sections ls ≡ false
unfolding only_sections any all
not_only_sections l [] is h = absurd (ground (arith, h))
not_only_sections l (m ∷ ls) is h = elim (Bool-cases (text_eq m l)) [
  | inl e ↦
      let tested : (is_empty (trim_space m) || is_header m) ≡ false =
        ap (λ t. is_empty (trim_space t) || is_header t) ((text_eq_iff m l).0 e)
        ∙ ground (arith, is.not_blank, is.not_header) in
      rw tested refl
  | inr e ↦
      and_false (is_empty (trim_space m) || is_header m)
        (not_only_sections l ls is (ground (arith, e, h)))
]

-- The setting stands in the block, or it stood in the file already.
in_missing :
    (l : Text) (lines : List Text) (old : Text)
    → IsSetting l
    → is_in l lines ≡ true
    → has_line (strip_block old) l ≡ false
    → is_in l (missing_lines lines old) ≡ true
unfolding missing_lines
in_missing l lines old is h absent =
    let kept : is_in l (select (λ m. is_header m || not (has_line (strip_block old) m)) lines)
        ≡ true =
      is_in-select l (λ m. is_header m || not (has_line (strip_block old) m)) lines h
        (ground (arith, is.not_header, absent)) in
    rw
      (not_only_sections l (select (λ m. is_header m || not (has_line (strip_block old) m)) lines)
        is kept)
      kept

-- What a file says stays said when a block goes behind it.
replaced-keeps :
    (l old block : Text)
    → has_line (strip_block old) l ≡ true
    → has_line (replace_block old block) l ≡ true
unfolding replace_block
replaced-keeps l old block h =
    let before : has_line (trim_newlines (strip_block old)) l ≡ true =
      has_line-trim (strip_block old) l ∙ h in
    elim (Bool-cases (is_empty block)) [
      | inl e ↦ rw e (
          has_line-append (trim_newlines (strip_block old)) [] l
          ∙ ap (λ b. b || has_line [] l) before)
      | inr e ↦ rw e (
          has_line-append (trim_newlines (strip_block old)) (nl ∷ (block ++ nl ∷ [])) l
          ∙ ap (λ b. b || has_line (nl ∷ (block ++ nl ∷ [])) l) before)
    ]

in_block :
    (l : Text) (ms : List Text) → IsSetting l → is_in l ms ≡ true → has_line (block_of ms) l ≡ true
in_block l ms is h =
    has_line-append block_start (join_lines ms ++ nl ∷ block_end) l
    ∙ or_true (has_line block_start l) (
        has_line-append (join_lines ms) block_end l
        ∙ ap (λ b. b || has_line block_end l) (has_line-join l ms is h))

in_replaced :
    (l old block : Text)
    → has_line block l ≡ true
    → is_empty block ≡ false
    → has_line (replace_block old block) l ≡ true
unfolding replace_block
in_replaced l old block h some_block = rw some_block (
    has_line-append (trim_newlines (strip_block old)) (nl ∷ (block ++ nl ∷ [])) l
    ∙ or_true (has_line (trim_newlines (strip_block old)) l) (
        has_line-append [] (block ++ nl ∷ []) l
        ∙ or_true (has_line [] l) (has_line-append block [] l ∙ ap (λ b. b || has_line [] l) h)))

stripped_nothing : (old : Text) → cut_at block_start old ≡ none → strip_block old ≡ old
unfolding strip_block
stripped_nothing old h = rw (h, strip_block) refl

updated-says :
    (l : Text) (ms : List Text) (old : Text)
    → IsSetting l
    → (has_line (strip_block old) l ≡ true) ⊎ (is_in l ms ≡ true)
    → has_line (updated ms old) l ≡ true
unfolding updated any
updated-says l [] old is (inr h) = absurd (ground (arith, h))
updated-says l [] old is (inl h) = elim (Option-cases (cut_at block_start old)) [
  | inl e ↦ rw e (ap (λ t. has_line t l) (sym (stripped_nothing old e)) ∙ h)
  | inr (xy, e) ↦ rw e (replaced-keeps l old [] h)
]
updated-says l (m ∷ ms) old is (inl h) = replaced-keeps l old (block_of (m ∷ ms)) h
updated-says l (m ∷ ms) old is (inr h) =
    in_replaced l old (block_of (m ∷ ms)) (in_block l (m ∷ ms) is h) refl

-- The file after a call.
abbrev pub text_after : List Text → Text → Text
text_after lines old = elim (apply_text lines old) [
  | unreadable ↦ old
  | unchanged ↦ old
  | written new ↦ new
]

outcome_of :
    (new old : Text)
    → (elim (if text_eq new old then unchanged else written new) [
      | unreadable ↦ old
      | unchanged ↦ old
      | written n ↦ n
    ])
      ≡ new
outcome_of new old = elim (Bool-cases (text_eq new old)) [
  | inl e ↦ rw e (sym ((text_eq_iff new old).0 e))
  | inr e ↦ rw e refl
]

after-updated :
    (lines : List Text) (old : Text) → text_after lines old ≡ updated (missing_lines lines old) old
unfolding apply_text
after-updated lines old = outcome_of (updated (missing_lines lines old) old) old

-- A setting that is asked for, on a line of its own, is a line of the file afterwards, in the block or
-- where it stood before, whether the file was written or was as it should be.
pub apply_text-says :
    (lines : List Text) (old l : Text)
    → IsSetting l
    → is_in l lines ≡ true
    → has_line (text_after lines old) l ≡ true
apply_text-says lines old l is asked =
    ap (λ t. has_line t l) (after-updated lines old)
    ∙ updated-says l (missing_lines lines old) old is
        (somewhere (Bool-cases (has_line (strip_block old) l)))
  where
    somewhere :
        (has_line (strip_block old) l ≡ true) ⊎ (has_line (strip_block old) l ≡ false)
        → (has_line (strip_block old) l ≡ true) ⊎ (is_in l (missing_lines lines old) ≡ true)
    somewhere (inl h) = inl h
    somewhere (inr h) = inr (in_missing l lines old is asked h)

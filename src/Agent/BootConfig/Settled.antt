-- ===== src/Agent/BootConfig/Settled.antt =====
-- Applying a block a second time, and what it leaves of the file.
use mathlib.Core.List.{append-nil, append_assoc}
use sheath.Prelude.{
  nl, trim_newlines, ℕ, zero, suc, ◌≡◌, refl, sym, ap, ◌∙◌, inl, inr, arith, not, ◌||◌, List, [],
  ◌∷◌, ◌++◌, none, some, Text, text_eq_refl, has_prefix, replicate, select, Option-cases,
}
use sheath.Agent.BootConfig.{
  block_start, block_end, cut_at, behind_end, strip_block, replace_block, has_line, is_header,
  join_lines, missing_lines, block_of, updated, unchanged, written, apply_text,
}
use sheath.Agent.BootConfig.Cutting.{with_rest, after_line, cut_at-append, cut_at-later}
use sheath.Agent.BootConfig.Lines.{
  trim_newlines-feeds, trim_newlines-split, trim_newlines-again, has_line-feeds, has_line-trim,
}

-- A text without the marker has none before its last line feeds.
absent_before : (a b : Text) → cut_at block_start (a ++ nl ∷ b) ≡ none → cut_at block_start a ≡ none
absent_before a b h = elim (Option-cases (cut_at block_start a)) [
  | inl e ↦ e
  | inr (xy, e) ↦
      let found : some (xy.0, xy.1 ++ nl ∷ b) ≡ none =
        sym (
          cut_at-append _ _ a b refl
          ∙ ap (λ o. with_rest (nl ∷ b) o (after_line a (cut_at block_start b))) e)
        ∙ h in
      absurd (ground (arith, found))
]

absent_trim : (s : Text) → cut_at block_start s ≡ none → cut_at block_start (trim_newlines s) ≡ none
absent_trim s h =
    by_feeds (trim_newlines-split s).0 (ap (cut_at block_start) (sym (trim_newlines-split s).1) ∙ h)
  where
    by_feeds :
        (n : ℕ)
        → cut_at block_start (trim_newlines s ++ replicate n nl) ≡ none
        → cut_at block_start (trim_newlines s) ≡ none
    by_feeds zero k = ap (cut_at block_start) (sym (append-nil (trim_newlines s))) ∙ k
    by_feeds (suc n) k = absent_before (trim_newlines s) (replicate n nl) k

absent_feed : (a : Text) → cut_at block_start a ≡ none → cut_at block_start (a ++ nl ∷ []) ≡ none
unfolding cut_at
absent_feed a h =
    cut_at-append _ _ a [] refl ∙ ap (λ o. with_rest (nl ∷ []) o (after_line a none)) h

-- The text without its block: what was there, and one or three line feeds.
strip_block-absent : (s : Text) → cut_at block_start s ≡ none → strip_block s ≡ s
unfolding strip_block
strip_block-absent s h = rw (h, strip_block) refl

no_end_in_start : cut_at block_end block_start ≡ none
unfolding cut_at has_prefix
no_end_in_start = refl

-- The block is where it was put, when no line of it looks like its end.
strip_block-put :
    (a body : Text)
    → cut_at block_start a ≡ none
    → cut_at block_end body ≡ none
    → strip_block (a ++ nl ∷ (block_start ++ nl ∷ (body ++ nl ∷ (block_end ++ nl ∷ []))))
      ≡ a ++ nl ∷ (nl ∷ [])
unfolding strip_block
strip_block-put a body no_start no_end =
    ap
      (λ o. elim o [
        | none ↦ a ++ nl ∷ (block_start ++ nl ∷ (body ++ nl ∷ (block_end ++ nl ∷ [])))
        | some (x, y) ↦ x ++ behind_end (cut_at block_end (block_start ++ y))
      ])
      starts
    ∙ (ap (λ o. (a ++ nl ∷ []) ++ behind_end o) ends ∙ append_assoc a (nl ∷ []) (nl ∷ []))
  where
    starts :
        cut_at block_start (a ++ nl ∷ (block_start ++ nl ∷ (body ++ nl ∷ (block_end ++ nl ∷ []))))
        ≡ some (a ++ nl ∷ [], nl ∷ (body ++ nl ∷ (block_end ++ nl ∷ [])))
    starts = cut_at-later _ _ a (nl ∷ (body ++ nl ∷ (block_end ++ nl ∷ []))) refl no_start

    ends :
        cut_at block_end (block_start ++ nl ∷ (body ++ nl ∷ (block_end ++ nl ∷ [])))
        ≡ some (block_start ++ nl ∷ (body ++ nl ∷ []), nl ∷ [])
    ends =
        cut_at-append _ _ block_start (body ++ nl ∷ (block_end ++ nl ∷ [])) refl
        ∙ (ap
              (λ o.
                with_rest (nl ∷ (body ++ nl ∷ (block_end ++ nl ∷ []))) o
                  (after_line block_start (cut_at block_end (body ++ nl ∷ (block_end ++ nl ∷ [])))))
              no_end_in_start
            ∙ ap (after_line block_start) (cut_at-later _ _ body (nl ∷ []) refl no_end))

-- The file with a block, written as `strip_block-put` has it.
put_form :
    (l : Text) (ms : List Text) (old : Text)
    → updated (l ∷ ms) old
      ≡ (trim_newlines (strip_block old) ++ nl ∷ [])
        ++ nl ∷ (block_start ++ nl ∷ (join_lines (l ∷ ms) ++ nl ∷ (block_end ++ nl ∷ [])))
unfolding updated replace_block
put_form l ms old =
    ap (λ t. trim_newlines (strip_block old) ++ nl ∷ (nl ∷ (block_start ++ nl ∷ t)))
      (append_assoc (join_lines (l ∷ ms)) (nl ∷ block_end) (nl ∷ []))
    ∙ sym (
        append_assoc (trim_newlines (strip_block old)) (nl ∷ [])
          (nl ∷ (block_start ++ nl ∷ (join_lines (l ∷ ms) ++ nl ∷ (block_end ++ nl ∷ [])))))

-- Nothing else in the file looks like a block, and no line of the block like its end.
pub record IsClean (lines : List Text) (old : Text) : Type 0 where
  pub no_start : cut_at block_start (strip_block old) ≡ none
  pub no_end : cut_at block_end (join_lines (missing_lines lines old)) ≡ none

pub strip_block-updated :
    (ms : List Text) (old : Text)
    → cut_at block_start (strip_block old) ≡ none
    → cut_at block_end (join_lines ms) ≡ none
    → (n : ℕ) × (strip_block (updated ms old) ≡ trim_newlines (strip_block old) ++ replicate n nl)
unfolding updated replace_block
strip_block-updated [] old no_start no_end = elim (Option-cases (cut_at block_start old)) [
  | inl e ↦
      ((trim_newlines-split (strip_block old)).0, rw e (trim_newlines-split (strip_block old)).1)
  | inr (xy, e) ↦ (
    1,
    rw e (
        strip_block-absent (trim_newlines (strip_block old) ++ nl ∷ [])
          (absent_feed (trim_newlines (strip_block old)) (absent_trim (strip_block old) no_start))),
  )
]
strip_block-updated (l ∷ ms) old no_start no_end = (
  3,
  ap strip_block (put_form l ms old)
      ∙ (strip_block-put (trim_newlines (strip_block old) ++ nl ∷ []) (join_lines (l ∷ ms))
            (absent_feed (trim_newlines (strip_block old)) (absent_trim (strip_block old) no_start))
            no_end
          ∙ append_assoc (trim_newlines (strip_block old)) (nl ∷ []) (nl ∷ (nl ∷ []))),
)

-- A file whose text without the block differs in line feeds at its end only.
module _ (old new : Text) (n : ℕ)
    (alike : strip_block new ≡ trim_newlines (strip_block old) ++ replicate n nl) where
  same_lines : (l : Text) → has_line (strip_block new) l ≡ has_line (strip_block old) l
  same_lines l =
      ap (λ t. has_line t l) alike
      ∙ (has_line-feeds (trim_newlines (strip_block old)) l n ∙ has_line-trim (strip_block old) l)

  same_select :
      (ls : List Text)
      → select (λ l. is_header l || not (has_line (strip_block new) l)) ls
        ≡ select (λ l. is_header l || not (has_line (strip_block old) l)) ls
  unfolding select
  same_select [] = refl
  same_select (l ∷ ls) = rw (same_lines l, same_select ls) refl

  same_missing : (ls : List Text) → missing_lines ls new ≡ missing_lines ls old
  unfolding missing_lines
  same_missing ls = rw (same_select ls) refl

  same_text : trim_newlines (strip_block new) ≡ trim_newlines (strip_block old)
  same_text =
      ap trim_newlines alike
      ∙ (trim_newlines-feeds (trim_newlines (strip_block old)) n
          ∙ trim_newlines-again (strip_block old))

  same_block : (block : Text) → replace_block new block ≡ replace_block old block
  unfolding replace_block
  same_block block = rw (same_text) refl

emptied-absent :
    (old : Text)
    → cut_at block_start (strip_block old) ≡ none
    → cut_at block_start (replace_block old []) ≡ none
unfolding replace_block
emptied-absent old no_start =
    absent_feed (trim_newlines (strip_block old)) (absent_trim (strip_block old) no_start)

updated-again :
    (ms : List Text) (old : Text)
    → cut_at block_start (strip_block old) ≡ none
    → cut_at block_end (join_lines ms) ≡ none
    → updated ms (updated ms old) ≡ updated ms old
unfolding updated
updated-again [] old no_start no_end = elim (Option-cases (cut_at block_start old)) [
  | inl e ↦ rw e (rw e refl)
  | inr (xy, e) ↦ rw e (rw (emptied-absent old no_start) refl)
]
updated-again (l ∷ ms) old no_start no_end =
    let (n, alike) = strip_block-updated (l ∷ ms) old no_start no_end in
    same_block old (updated (l ∷ ms) old) n alike (block_of (l ∷ ms))

written-updated :
    (lines : List Text) (old new : Text)
    → apply_text lines old ≡ written new
    → updated (missing_lines lines old) old ≡ new
unfolding apply_text
written-updated lines old new h = ground (arith, h)

-- Applying the same lines to the file that was written changes nothing more, when outside of the block
-- nothing looks like one and no line of it holds the marker of its end.
pub apply_text-again :
    (lines : List Text) (old new : Text)
    → IsClean lines old
    → apply_text lines old ≡ written new
    → apply_text lines new ≡ unchanged
unfolding apply_text
apply_text-again lines old new clean h =
    let made : updated (missing_lines lines old) old ≡ new = written-updated lines old new h in
    let (n, alike) =
      strip_block-updated (missing_lines lines old) old clean.no_start clean.no_end in
    let alike_new : strip_block new ≡ trim_newlines (strip_block old) ++ replicate n nl =
      ap strip_block (sym made) ∙ alike in
    let settled : updated (missing_lines lines new) new ≡ new =
      ap (λ ms. updated ms new) (same_missing old new n alike_new lines)
      ∙ (ap (updated (missing_lines lines old)) (sym made)
          ∙ (updated-again (missing_lines lines old) old clean.no_start clean.no_end ∙ made)) in
    rw settled (rw (text_eq_refl new) refl)

-- A file that is written keeps its text outside of the block but for line feeds at its end, and so every
-- setting there, when outside of the block nothing looks like one and no line of it holds the marker of
-- its end.
pub apply_text-outside :
    (lines : List Text) (old new : Text)
    → IsClean lines old
    → apply_text lines old ≡ written new
    → (trim_newlines (strip_block new) ≡ trim_newlines (strip_block old))
      × ((l : Text) → has_line (strip_block new) l ≡ has_line (strip_block old) l)
apply_text-outside lines old new clean h =
    let (n, alike) =
      strip_block-updated (missing_lines lines old) old clean.no_start clean.no_end in
    let alike_new : strip_block new ≡ trim_newlines (strip_block old) ++ replicate n nl =
      ap strip_block (sym (written-updated lines old new h)) ∙ alike in
    (same_text old new n alike_new, same_lines old new n alike_new)

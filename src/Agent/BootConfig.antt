-- ===== src/Agent/BootConfig.antt =====
-- The marked block that agent/apply.go keeps in config.txt. A file is its text, or `none` where there is
-- none; writing it, and renaming it into its place, succeeds.
pub mod Cutting
pub mod Lines
pub mod Settled
pub mod Present
mod Examples
use sheath.Prelude.{
  nl, trim_newlines, ℕ, ◌+◌, Bool, true, false, not, ◌&&◌, ◌||◌, List, [], ◌∷◌, ◌++◌, Option, none,
  some, ◌==◌, if◌then◌else◌, Text, codes, text_eq, is_empty, is_some, has_prefix, trim_space,
  split_on, length, drop, any, all, select,
}

-- `bootConfigStart` and `bootConfigEnd`
abbrev pub block_start : Text
block_start = codes "# >>> sheath managed >>>"

abbrev pub block_end : Text
block_end = codes "# <<< sheath managed <<<"

abbrev pub prepend : ℕ → Option (Text × Text) → Option (Text × Text)
prepend c none = none
prepend c (some (a, b)) = some (c ∷ a, b)

-- `strings.Index(s, p)`, for a `p` that is not empty: the text before `p`, and the text behind it.
unfoldable pub cut_at : Text → Text → Option (Text × Text)
cut_at p [] = none
cut_at p (c ∷ s) =
    let rest = prepend c (cut_at p s) in
    if has_prefix (c ∷ s) p then some ([], drop (length p) (c ∷ s)) else rest

-- What `stripBlock` keeps behind the block: nothing where its end is missing.
abbrev pub behind_end : Option (Text × Text) → Text
behind_end none = []
behind_end (some (_, b)) = b

unfoldable pub strip_block : Text → Text
strip_block s = elim (cut_at block_start s) [
  | none ↦ s
  | some (a, b) ↦ a ++ behind_end (cut_at block_end (block_start ++ b))
]

unfoldable pub replace_block : Text → Text → Text
replace_block s block =
    let rest = trim_newlines (strip_block s) in
    if is_empty block then rest ++ nl ∷ [] else rest ++ nl ∷ (nl ∷ (block ++ nl ∷ []))

-- A line that says the setting `want`, which is trimmed.
abbrev pub says : Text → Text → Bool
says want line =
    let l = trim_space line in not (is_empty l || has_prefix l (codes "#")) && text_eq l want

unfoldable pub has_line : Text → Text → Bool
has_line body want = any (says (trim_space want)) (split_on nl body [])

abbrev pub is_header : Text → Bool
is_header l = has_prefix (trim_space l) (codes "[")

unfoldable pub only_sections : List Text → Bool
only_sections lines = all (λ l. is_empty (trim_space l) || is_header l) lines

-- `strings.Join(lines, "\n")`
unfoldable pub join_lines : List Text → Text
join_lines [] = []
join_lines (l ∷ []) = l
join_lines (l ∷ m ∷ ls) = l ++ nl ∷ join_lines (m ∷ ls)

unfoldable pub missing_lines : List Text → Text → List Text
missing_lines lines old =
    let missing = select (λ l. is_header l || not (has_line (strip_block old) l)) lines in
    if only_sections missing then [] else missing

abbrev pub block_of : List Text → Text
block_of missing = block_start ++ nl ∷ (join_lines missing ++ nl ∷ block_end)

-- The text that the file should have.
unfoldable pub updated : List Text → Text → Text
updated [] old = if not (is_some (cut_at block_start old)) then old else replace_block old []
updated (l ∷ missing) old = replace_block old (block_of (l ∷ missing))

pub data Outcome : Type 0 where
  unreadable unchanged : Outcome
  written : Text → Outcome

-- `applyBlockTo`
unfoldable pub apply_text : List Text → Text → Outcome
apply_text lines old =
    let new = updated (missing_lines lines old) old in
    if text_eq new old then unchanged else written new

unfoldable pub apply_block : Bool → List Text → Option Text → Outcome
apply_block create lines (some old) = apply_text lines old
apply_block create lines none = if create then apply_text lines [] else unreadable

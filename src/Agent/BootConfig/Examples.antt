-- ===== src/Agent/BootConfig/Examples.antt =====
-- A file with one setting is given two.
use sheath.Prelude.{
  nl, trim_newlines, ◌≡◌, refl, [], ◌∷◌, ◌++◌, List, Text, codes, true, has_prefix, text_eq,
  trim_space, trim_left, is_space, split_on, any, all, select,
}
use sheath.Agent.BootConfig.{
  cut_at, strip_block, replace_block, has_line, only_sections, join_lines, missing_lines, block_of,
  updated, unchanged, written, apply_text,
}
use sheath.Agent.BootConfig.Settled.{IsClean, apply_text-again, apply_text-outside}
use sheath.Agent.BootConfig.Present.{text_after, apply_text-says}

abbrev asked : List Text
asked = codes "dtoverlay=uart5" ∷ codes "arm_64bit=1" ∷ []

abbrev before : Text
before = codes "arm_64bit=1" ++ nl ∷ []

abbrev after : Text
after = codes "arm_64bit=1" ++ nl ∷ (nl ∷ (block_of (codes "dtoverlay=uart5" ∷ []) ++ nl ∷ []))

clean : IsClean asked before
unfolding cut_at strip_block has_prefix missing_lines has_line trim_space trim_left is_space
    split_on any all select only_sections join_lines text_eq
clean = record { no_start = refl; no_end = refl }

applied : apply_text asked before ≡ written after
unfolding apply_text updated replace_block trim_newlines cut_at strip_block has_prefix missing_lines
    has_line trim_space trim_left is_space split_on any all select only_sections join_lines text_eq
applied = refl

apply_text-again_example : apply_text asked after ≡ unchanged
apply_text-again_example = apply_text-again asked before after clean applied

apply_text-outside_example :
    (trim_newlines (strip_block after) ≡ trim_newlines (strip_block before))
    × ((l : Text) → has_line (strip_block after) l ≡ has_line (strip_block before) l)
apply_text-outside_example = apply_text-outside asked before after clean applied

apply_text-says_example : has_line (text_after asked before) (codes "dtoverlay=uart5") ≡ true
unfolding any text_eq trim_space trim_left is_space has_prefix
apply_text-says_example =
    apply_text-says asked before (codes "dtoverlay=uart5")
      (record { one_line = refl; not_blank = refl; not_comment = refl; not_header = refl }) refl

-- ===== src/Site/Fat/Examples.antt =====
-- An image of four sectors: the header, the table, the directory, and one cluster that holds cmdline.txt.
use sheath.Prelude.{◌≡◌, refl, some, [], ◌∷◌, Text, codes, arith, replicate, to_upper, text_eq}
use sheath.Site.Fat.{
  set_byte, put_bytes, slice, open_fat16, Fat16, find, find_entry, fat83, pad, cut_dot, overwrite,
  read_file, replace, patch_file, replace_at, ok,
}
use sheath.Site.Fat.Replace.{IsLike}
use sheath.Site.Fat.RoundTrip.{patch_file-read_file, patch_file-IsLike}

abbrev image : Text
unfolding put_bytes set_byte
image = put_bytes 11 (0 ∷ 2 ∷ 1 ∷ 1 ∷ 0 ∷ 1 ∷ 16 ∷ []) (
    set_byte 22 1 (
      put_bytes 1024 (codes "CMDLINE TXT")
        (set_byte 1050 2 (put_bytes 1536 (codes "console=tty1") (replicate 2048 0)))))

abbrev layout : Fat16
layout = record {
  bytes_per_sec = 512;
  sec_per_clus = 1;
  root_off = 1024;
  root_entries = 16;
  data_off = 1536;
}

opens : open_fat16 image ≡ some layout
unfolding open_fat16 put_bytes set_byte
opens = refl

found : find layout (codes "cmdline.txt") image ≡ some 1024
unfolding find find_entry slice put_bytes set_byte fat83 pad cut_dot to_upper text_eq
found = refl

patched :
    patch_file (codes "cmdline.txt") (codes "quiet") image
    ≡ ok (overwrite layout 1024 1536 (codes "quiet") image)
unfolding patch_file replace replace_at put_bytes set_byte
patched = rw (opens, patch_file, replace, found) refl

patch_file-read_file_example :
    read_file (codes "cmdline.txt") (overwrite layout 1024 1536 (codes "quiet") image)
    ≡ ok (codes "quiet")
patch_file-read_file_example =
    patch_file-read_file (codes "cmdline.txt") (codes "quiet") image
      (overwrite layout 1024 1536 (codes "quiet") image) layout opens (omega arith) (omega arith)
      patched

patch_file-IsLike_example :
    IsLike layout 1024 1536 image (overwrite layout 1024 1536 (codes "quiet") image)
unfolding put_bytes set_byte
patch_file-IsLike_example =
    patch_file-IsLike (codes "cmdline.txt") (codes "quiet") image
      (overwrite layout 1024 1536 (codes "quiet") image) layout 1024 opens found patched

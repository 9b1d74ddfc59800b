-- ===== src/Agent/Seed/Kept.antt =====
-- What another address of the server leaves in the seed.
use sheath.Prelude.{
  nl, ◌≡◌, refl, ap, ◌∙◌, inl, inr, arith, Bool, true, false, List, [], ◌∷◌, ◌++◌, map, ◌==◌,
  if◌then◌else◌, Text, trim_space, trim_left, split_on, any, all, Bool-cases, some,
}
use sheath.Agent.BootConfig.{join_lines}
use sheath.Agent.BootConfig.Cutting.{no_feed}
use sheath.Agent.BootConfig.Lines.{split_on-append}
use sheath.Agent.BootConfig.Present.{one_part}
use sheath.Agent.Seed.{
  Config, read_line, read_lines, server_key, is_server_line, put_line, ends_in_feed,
  replace_env_value, read_env_file,
}
use sheath.Agent.Seed.Alike.{IsLike, read_put, read_key, put_is_key}

read_lines-put :
    (value : Text) (ls : List Text) (c d : Config)
    → IsLike c d
    → IsLike (read_lines (map (put_line value) ls) c) (read_lines ls d)
unfolding read_lines
read_lines-put value [] c d h = h
read_lines-put value (l ∷ ls) c d h =
    read_lines-put value ls (read_line (put_line value l) c) (read_line l d)
      (read_put value l c d h)

read_lines-append :
    (xs ys : List Text) (c : Config) → read_lines (xs ++ ys) c ≡ read_lines ys (read_lines xs c)
unfolding read_lines
read_lines-append [] ys c = refl
read_lines-append (x ∷ xs) ys c = read_lines-append xs ys (read_line x c)

-- Lines that are joined and split are the lines.
split_on-join :
    (l : Text) (ls : List Text)
    → all no_feed (l ∷ ls) ≡ true
    → split_on nl (join_lines (l ∷ ls)) [] ≡ l ∷ ls
unfolding join_lines all
split_on-join l [] h = one_part l [] (ground (arith, h))
split_on-join l (m ∷ ls) h =
    split_on-append l (join_lines (m ∷ ls)) []
    ∙ (ap (λ t. t ++ split_on nl (join_lines (m ∷ ls)) []) (one_part l [] (ground (arith, h)))
        ∙ ap (λ t. l ∷ t) (split_on-join m ls (ground (arith, h))))

no_feed-append : (a b : Text) → no_feed a ≡ true → no_feed b ≡ true → no_feed (a ++ b) ≡ true
no_feed-append [] b h k = k
no_feed-append (c ∷ a) b h k = ground (arith, h, no_feed-append a b (ground (arith, h)) k)

split_on-no_feed : (s cur : Text) → no_feed cur ≡ true → all no_feed (split_on nl s cur) ≡ true
unfolding split_on all
split_on-no_feed [] cur h = rw h refl
split_on-no_feed (c ∷ s) cur h = elim (Bool-cases (c == nl)) [
  | inl e ↦ rw (split_on, e, h, split_on-no_feed s [] refl) refl
  | inr e ↦
      rw (split_on, e)
        (split_on-no_feed s (cur ++ c ∷ []) (no_feed-append cur (c ∷ []) h (rw e refl)))
]

put-no_feed :
    (value : Text) (ls : List Text)
    → no_feed value ≡ true
    → all no_feed ls ≡ true
    → all no_feed (map (put_line value) ls) ≡ true
unfolding all
put-no_feed value [] h k = refl
put-no_feed value (l ∷ ls) h k = elim (Bool-cases (is_server_line l)) [
  | inl e ↦ rw (e, h) (put-no_feed value ls h (ground (arith, k)))
  | inr e ↦ rw e (ground (arith, k, put-no_feed value ls h (ground (arith, k))))
]

like : (c : Config) → IsLike c c
like c = record { same_serial = refl; same_token = refl }

-- A line feed at the end of the text is one more line, which is empty.
read_feed :
    (s : Text) (c : Config)
    → read_lines (split_on nl (s ++ nl ∷ []) []) c ≡ read_lines (split_on nl s []) c
unfolding read_lines read_line split_on trim_space trim_left
read_feed s c =
    ap (λ ls. read_lines ls c) (split_on-append s [] [])
    ∙ read_lines-append (split_on nl s []) ([] ∷ []) c

closed_text :
    (s : Text) (c : Config)
    → read_lines (split_on nl (if ends_in_feed s then s else s ++ nl ∷ []) []) c
      ≡ read_lines (split_on nl s []) c
closed_text s c = elim (Bool-cases (ends_in_feed s)) [
  | inl e ↦ rw e refl
  | inr e ↦ rw e (read_feed s c)
]

read_join :
    (ls : List Text) (c : Config)
    → all no_feed ls ≡ true
    → read_lines (split_on nl (join_lines ls) []) c ≡ read_lines ls c
unfolding read_lines read_line split_on trim_space trim_left join_lines
read_join [] c h = refl
read_join (l ∷ ls) c h = ap (λ ms. read_lines ms c) (split_on-join l ls h)

no_feed_more :
    (value : Text) (ls : List Text)
    → no_feed value ≡ true
    → all no_feed ls ≡ true
    → all no_feed (ls ++ (server_key ++ value) ∷ []) ≡ true
unfolding all
no_feed_more value [] h k = rw h refl
no_feed_more value (l ∷ ls) h k = ground (arith, k, no_feed_more value ls h (ground (arith, k)))

-- The lines that are written, whether or not there was one of the server.
abbrev put_all : Bool → Text → List Text → List Text
put_all found value ls =
    if found then map (put_line value) ls else map (put_line value) ls ++ (server_key ++ value) ∷ []

put_all-no_feed :
    (found : Bool) (value : Text) (ls : List Text)
    → no_feed value ≡ true
    → all no_feed ls ≡ true
    → all no_feed (put_all found value ls) ≡ true
put_all-no_feed true value ls h k = put-no_feed value ls h k
put_all-no_feed false value ls h k =
    no_feed_more value (map (put_line value) ls) h (put-no_feed value ls h k)

read_all :
    (found : Bool) (value : Text) (ls : List Text) (c : Config)
    → IsLike (read_lines (put_all found value ls) c) (read_lines ls c)
unfolding read_lines
read_all true value ls c = read_lines-put value ls c c (like c)
read_all false value ls c =
    rw (read_lines-append (map (put_line value) ls) ((server_key ++ value) ∷ []) c) (
      read_key (server_key ++ value) (read_lines (map (put_line value) ls) c) (read_lines ls c)
        (put_is_key value) (read_lines-put value ls c c (like c)))

-- Where an address of one line is written into a seed, the serial and the
-- token that the next start reads from the seed are those it read from the old
-- one, whatever the seed says and whatever was known before it is read.
pub read_env_file-replaced :
    (value file : Text) (c : Config)
    → no_feed value ≡ true
    → IsLike (read_env_file (some (replace_env_value value file)) c) (read_env_file (some file) c)
unfolding read_env_file replace_env_value
read_env_file-replaced value file c h =
    let ls = split_on nl file [] in
    let found = any is_server_line ls in
    let same =
      closed_text (join_lines (put_all found value ls)) c
      ∙ read_join (put_all found value ls) c
          (put_all-no_feed found value ls h (split_on-no_feed file [] refl)) in
    rw same (read_all found value ls c)

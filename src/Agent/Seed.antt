-- ===== src/Agent/Seed.antt =====
-- The seed of a blade: readEnvFile and loadConfig of agent/main.go, and agent/server.go. A file is its
-- text, or `none` where it cannot be read.
pub mod Alike
pub mod Kept
mod Examples
use mathlib.Core.List.{reverse}
use sheath.Prelude.{
  nl, ℕ, Bool, true, false, not, ◌&&◌, ◌||◌, List, [], ◌∷◌, ◌++◌, map, Option, none, some, ◌==◌,
  if◌then◌else◌, Text, codes, text_eq, is_empty, has_prefix, trim_prefix, trim_space, split_on, any,
}
use sheath.Agent.BootConfig.{join_lines}

pub record Config : Type 0 where
  server : Text
  serial : Text
  token : Text

-- `strings.Cut(s, sep)` at a byte, `none` where it is not there.
unfoldable pub cut_once : ℕ → Text → Option (Text × Text)
cut_once sep [] = none
cut_once sep (c ∷ s) =
    let rest = cut_once sep s in
    if c == sep then some ([], s) else elim rest [ none ↦ none | some (k, v) ↦ some (c ∷ k, v) ]

-- `strings.TrimLeft` of the bytes that pass a test
unfoldable pub drop_where : (ℕ → Bool) → Text → Text
drop_where p [] = []
drop_where p (c ∷ s) = if p c then drop_where p s else c ∷ s

unfoldable pub trim_right : (ℕ → Bool) → Text → Text
trim_right p s = reverse (drop_where p (reverse s))

abbrev pub is_quote : ℕ → Bool
is_quote c = (c == 34) || (c == 39)

abbrev pub is_slash : ℕ → Bool
is_slash c = c == 47

-- The old and the new spelling of a name are one.
abbrev pub plain_name : Text → Text
plain_name k = trim_prefix (trim_prefix (trim_space k) (codes "BLADEMASTER_")) (codes "SHEATH_")

unfoldable pub fill : Text → Text → Config → Config
fill k v c =
    if text_eq k (codes "SERVER")
    then if is_empty c.server then record c { server = v } else c
    else if text_eq k (codes "SERIAL")
    then if is_empty c.serial then record c { serial = v } else c
    else if text_eq k (codes "TOKEN")
    then if is_empty c.token then record c { token = v } else c
    else c

unfoldable pub read_line : Text → Config → Config
read_line l c =
    let t = trim_space l in
    if is_empty t || has_prefix t (codes "#") then c else elim (cut_once 61 t) [
      | none ↦ c
      | some (k, v) ↦
          fill (plain_name k) (trim_right is_quote (drop_where is_quote (trim_space v))) c
    ]

unfoldable pub read_lines : List Text → Config → Config
read_lines [] c = c
read_lines (l ∷ ls) c = read_lines ls (read_line l c)

-- `readEnvFile`
unfoldable pub read_env_file : Option Text → Config → Config
read_env_file none c = c
read_env_file (some file) c = read_lines (split_on nl file []) c

unfoldable pub read_env_files : List (Option Text) → Config → Config
read_env_files [] c = c
read_env_files (f ∷ fs) c = read_env_files fs (read_env_file f c)

-- `loadConfig`: `env` is what the environment says, `hardware` the serial that the machine says, and
-- the files are the one that was asked for and the old ones. The Boolean says that it is complete.
unfoldable pub load_config : Config → List (Option Text) → Text → Config × Bool
load_config env files hardware =
    let c = read_env_files files env in
    let d = (if is_empty c.serial then record c { serial = hardware } else c) in
    if is_empty d.server || is_empty d.serial || is_empty d.token
    then (d, false)
    else (record d { server = trim_right is_slash d.server }, true)

abbrev pub server_key : Text
server_key = codes "SHEATH_SERVER="

abbrev pub is_server_line : Text → Bool
is_server_line l = has_prefix (trim_space l) server_key

abbrev pub put_line : Text → Text → Text
put_line value l = if is_server_line l then server_key ++ value else l

abbrev pub ends_in_feed : Text → Bool
ends_in_feed s = has_prefix (reverse s) (nl ∷ [])

-- `replaceEnvValue` with the key of the server, on a file that can be read
unfoldable pub replace_env_value : Text → Text → Text
replace_env_value value file =
    let lines = split_on nl file [] in
    let put = map (put_line value) lines in
    let out =
      join_lines (if any is_server_line lines then put else put ++ (server_key ++ value) ∷ []) in
    if ends_in_feed out then out else out ++ nl ∷ []

-- `adoptServer`: the agent's settings, its seed, and whether it has moved. `answers` says which
-- addresses answer.
unfoldable pub adopt_server :
    (Text → Bool) → Option Text → Config → Option Text → Config × (Option Text × Bool)
adopt_server answers server_url c none = (c, (none, false))
adopt_server answers none c (some file) = (c, (some file, false))
adopt_server answers (some url) c (some file) =
    let want = trim_right is_slash (trim_space url) in
    if is_empty want || text_eq want c.server || not (answers want)
    then (c, (some file, false))
    else (record c { server = want }, (some (replace_env_value want file), true))

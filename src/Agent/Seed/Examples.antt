-- ===== src/Agent/Seed/Examples.antt =====
-- The seed of a blade that moves to another site.
use sheath.Prelude.{
  ◌≡◌, refl, [], some, true, Text, codes, text_eq, has_prefix, trim_prefix, trim_space, trim_left,
  is_space, split_on, any,
}
use sheath.Agent.BootConfig.{join_lines}
use sheath.Agent.Seed.{
  Config, cut_once, drop_where, trim_right, fill, read_line, read_lines, read_env_file,
  replace_env_value, adopt_server,
}
use sheath.Agent.Seed.Alike.{IsLike}
use sheath.Agent.Seed.Kept.{read_env_file-replaced}

abbrev seed : Text
seed = codes "# placed\nSHEATH_SERVER=http://a\nSHEATH_TOKEN=secret\n"

abbrev moved : Text
moved = codes "# placed\nSHEATH_SERVER=http://b\nSHEATH_TOKEN=secret\n"

abbrev at_a : Config
at_a = record { server = codes "http://a"; serial = codes "1"; token = codes "secret" }

abbrev nothing : Config
nothing = record { server = []; serial = []; token = [] }

moves :
    adopt_server (λ _. true) (some (codes " http://b/")) at_a (some seed)
    ≡ (record at_a { server = codes "http://b" }, (some moved, true))
unfolding adopt_server replace_env_value trim_right drop_where trim_space trim_left is_space text_eq
    split_on join_lines has_prefix any
moves = refl

-- In the old spelling the first line wins, and it is the old address.
stays :
    read_env_file
      (some (replace_env_value (codes "http://b") (codes "BLADEMASTER_SERVER=http://a\n")))
      nothing
    ≡ record nothing { server = codes "http://a" }
unfolding read_env_file read_lines read_line fill cut_once replace_env_value trim_right drop_where
    trim_space trim_left is_space text_eq split_on join_lines has_prefix trim_prefix any
stays = refl

read_env_file-replaced_example :
    IsLike
      (read_env_file (some (replace_env_value (codes "http://b") seed)) nothing)
      (read_env_file (some seed) nothing)
read_env_file-replaced_example = read_env_file-replaced (codes "http://b") seed nothing refl

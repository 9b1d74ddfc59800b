-- ===== src/Server/Config/Layers.antt =====
-- Which of a blade's configurations a setting comes from.
use sheath.Prelude.{
  ◌≡◌, refl, ap, ◌∙◌, inl, inr, true, false, List, [], ◌∷◌, ◌++◌, Option, some, if◌then◌else◌, Text,
  codes, text_eq, is_empty, Bool-cases, All,
}
use sheath.Server.Fleet.{Blade, Fleet}
use sheath.Server.Reservations.{decorate}
use sheath.Server.Config.{
  Value, plain, Fields, empty, get, fields_of, merge_into, Configs, config_for, scopes,
  merge_scopes, relay_url_of, ip_of, put_text, merged_config,
}
use sheath.Server.Config.Members.{get-put_same, get-put_other}
use sheath.Server.Config.Overlay.{IsMap, leaf, setting, speaks, merge_into-setting}

-- Every stored configuration is a decoded object.
abbrev pub AllMaps : Configs → Type 0
AllMaps cs = All (λ (c : Text × Fields). IsMap c.1) cs

config_for-IsMap : (scope : Text) (cs : Configs) → AllMaps cs → IsMap (config_for scope cs)
unfolding config_for IsMap
config_for-IsMap scope [] h = tt
config_for-IsMap scope ((s, m) ∷ cs) (hm, hs) = elim (Bool-cases (text_eq s scope)) [
  | inl e ↦ rw e hm
  | inr e ↦ rw e (config_for-IsMap scope cs hs)
]

-- No scope of a list says anything of a path.
abbrev pub Silent : Configs → Text → List Text → List Text → Type 0
Silent cs k ks ss = All (λ s. speaks k ks (config_for s cs) ≡ false) ss

merge_scopes-Silent :
    (cs : Configs) (k : Text) (ks ss : List Text) (out : Fields)
    → AllMaps cs
    → Silent cs k ks ss
    → setting k ks (merge_scopes cs ss out) ≡ setting k ks out
unfolding merge_scopes
merge_scopes-Silent cs k ks [] out maps h = refl
merge_scopes-Silent cs k ks (s ∷ ss) out maps (hs, h) =
    merge_scopes-Silent cs k ks ss (merge_into out (config_for s cs)) maps h
    ∙ (merge_into-setting k ks out (config_for s cs) (config_for-IsMap s cs maps)
        ∙ ap (λ b. if b then setting k ks (config_for s cs) else setting k ks out) hs)

merge_scopes-last :
    (cs : Configs) (k : Text) (ks lower upper : List Text) (s : Text) (out : Fields)
    → AllMaps cs
    → speaks k ks (config_for s cs) ≡ true
    → Silent cs k ks upper
    → setting k ks (merge_scopes cs (lower ++ s ∷ upper) out) ≡ setting k ks (config_for s cs)
unfolding merge_scopes
merge_scopes-last cs k ks [] upper s out maps says h =
    merge_scopes-Silent cs k ks upper (merge_into out (config_for s cs)) maps h
    ∙ (merge_into-setting k ks out (config_for s cs) (config_for-IsMap s cs maps)
        ∙ ap (λ b. if b then setting k ks (config_for s cs) else setting k ks out) says)
merge_scopes-last cs k ks (l ∷ lower) upper s out maps says h =
    merge_scopes-last cs k ks lower upper s (merge_into out (config_for l cs)) maps says h

-- A name that is not one of those that the position gives.
pub record IsOwn (k : Text) : Type 0 where
  pub no_url : text_eq (codes "server_url") k ≡ false
  pub no_host : text_eq (codes "hostname") k ≡ false
  pub no_ip : text_eq (codes "expected_ip") k ≡ false

get-put_text : (i k s : Text) (m : Fields) → text_eq k i ≡ false → get i (put_text k s m) ≡ get i m
get-put_text i k [] m h = refl
get-put_text i k (c ∷ s) m h = get-put_other i k (plain (c ∷ s)) m h

setting-get :
    (k : Text) (ks : List Text) (m n : Fields) → get k m ≡ get k n → setting k ks m ≡ setting k ks n
unfolding setting
setting-get k [] m n e = ap leaf e
setting-get k (j ∷ ks) m n e = ap (λ o. setting j ks (fields_of o)) e

merged_config-get :
    (cs : Configs) (fl : Fleet) (b : Blade) (k : Text)
    → IsOwn k
    → get k (merged_config cs fl b) ≡ get k (merge_scopes cs (scopes b) empty)
unfolding merged_config
merged_config-get cs fl b k own =
    get-put_text k (codes "expected_ip") (ip_of (decorate fl b)) _ own.no_ip
    ∙ (get-put_text k (codes "hostname") b.hostname _ own.no_host
        ∙ get-put_text k (codes "server_url") (relay_url_of fl (decorate fl b))
            (merge_scopes cs (scopes b) empty) own.no_url)

merged_config-setting :
    (cs : Configs) (fl : Fleet) (b : Blade) (k : Text) (ks : List Text)
    → IsOwn k
    → setting k ks (merged_config cs fl b) ≡ setting k ks (merge_scopes cs (scopes b) empty)
merged_config-setting cs fl b k ks own =
    setting-get k ks (merged_config cs fl b) (merge_scopes cs (scopes b) empty)
      (merged_config-get cs fl b k own)

-- A setting that the position does not give comes from the last of the blade's scopes that says anything
-- of it: its own, then its groups from the last in order, then the global one.
pub merged_config-last :
    (cs : Configs) (fl : Fleet) (b : Blade) (k : Text) (ks lower upper : List Text) (s : Text)
    → AllMaps cs
    → IsOwn k
    → scopes b ≡ lower ++ s ∷ upper
    → speaks k ks (config_for s cs) ≡ true
    → Silent cs k ks upper
    → setting k ks (merged_config cs fl b) ≡ setting k ks (config_for s cs)
merged_config-last cs fl b k ks lower upper s maps own split says silent =
    merged_config-setting cs fl b k ks own
    ∙ (ap (λ ss. setting k ks (merge_scopes cs ss empty)) split
        ∙ merge_scopes-last cs k ks lower upper s empty maps says silent)

-- What a blade is told of its name, address and relay, given one that may be empty.
abbrev pub given : Text → Text → Configs → Blade → Option Value
given k s cs b = if is_empty s then get k (merge_scopes cs (scopes b) empty) else some (plain s)

get-put_text_same :
    (k s : Text) (m : Fields)
    → get k (put_text k s m) ≡ (if is_empty s then get k m else some (plain s))
get-put_text_same k [] m = refl
get-put_text_same k (c ∷ s) m = get-put_same k (plain (c ∷ s)) m

-- The name of a blade, its address and the relay of its site, where it has them, are in its configuration
-- whatever its scopes say, and only where one is empty the scopes decide.
pub merged_config-position :
    (cs : Configs) (fl : Fleet) (b : Blade)
    → (get (codes "hostname") (merged_config cs fl b) ≡ given (codes "hostname") b.hostname cs b)
      × (get (codes "expected_ip") (merged_config cs fl b)
          ≡ given (codes "expected_ip") (ip_of (decorate fl b)) cs b)
      × (get (codes "server_url") (merged_config cs fl b)
          ≡ given (codes "server_url") (relay_url_of fl (decorate fl b)) cs b)
unfolding merged_config text_eq
merged_config-position cs fl b = (
  get-put_text (codes "hostname") (codes "expected_ip") (ip_of (decorate fl b)) hosted refl
      ∙ (get-put_text_same (codes "hostname") b.hostname relayed
          ∙ ap (λ o. if is_empty b.hostname then o else some (plain b.hostname))
              (get-put_text (codes "hostname") (codes "server_url")
                (relay_url_of fl (decorate fl b)) base refl)),
  get-put_text_same (codes "expected_ip") (ip_of (decorate fl b)) hosted
      ∙ ap
          (λ o.
            if is_empty (ip_of (decorate fl b)) then o else some (plain (ip_of (decorate fl b))))
          (get-put_text (codes "expected_ip") (codes "hostname") b.hostname relayed refl
            ∙ get-put_text (codes "expected_ip") (codes "server_url")
                (relay_url_of fl (decorate fl b)) base refl),
  get-put_text (codes "server_url") (codes "expected_ip") (ip_of (decorate fl b)) hosted refl
      ∙ (get-put_text (codes "server_url") (codes "hostname") b.hostname relayed refl
          ∙ get-put_text_same (codes "server_url") (relay_url_of fl (decorate fl b)) base),
)
  where
    base : Fields
    base = merge_scopes cs (scopes b) empty

    relayed : Fields
    relayed = put_text (codes "server_url") (relay_url_of fl (decorate fl b)) base

    hosted : Fields
    hosted = put_text (codes "hostname") b.hostname relayed

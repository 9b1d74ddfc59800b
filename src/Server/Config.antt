-- ===== src/Server/Config.antt =====
-- The configuration of server/api.go: what is set globally, for a group and for a blade is merged into
-- what a blade is told. A JSON object is a list of its members; a value that is no object and not null
-- is its text. The hash of the result is not modelled.
pub mod Members
pub mod Overlay
pub mod Layers
pub mod Patching
mod Examples
use sheath.Prelude.{
  ℕ, Bool, true, false, not, ◌&&◌, ◌||◌, List, [], ◌∷◌, ◌++◌, Option, none, some, ltb, ◌==◌,
  if◌then◌else◌, Text, codes, text_eq, is_empty, map,
}
use sheath.Server.Fleet.{Blade, Fleet, Site, get_site, log_event, config_changed}
use sheath.Server.Reservations.{Place, decorate}

mutual
  pub data Value : Type 0 where
    null : Value
    plain : Text → Value
    object : Fields → Value

  pub data Fields : Type 0 where
    empty : Fields
    member : Text → Value → Fields → Fields

-- `m[k]`
unfoldable pub get : Text → Fields → Option Value
get k empty = none
get k (member j v m) = if text_eq j k then some v else get k m

-- `m[k] = v`
unfoldable pub put : Text → Value → Fields → Fields
put k v empty = member k v empty
put k v (member j w m) = if text_eq j k then member k v m else member j w (put k v m)

-- `delete(m, k)`
unfoldable pub delete : Text → Fields → Fields
delete k empty = empty
delete k (member j v m) = let rest = delete k m in if text_eq j k then rest else member j v rest

-- `dst[k].(map[string]any)`, or a new map
abbrev pub fields_of : Option Value → Fields
fields_of (some (object m)) = m
fields_of _ = empty

-- `mergeInto`: what `dst` is afterwards. A member of `dst` that is an object is merged into, and any
-- other gives way to a copy.
unfoldable mutual
  pub merge_into : Fields → Fields → Fields
  merge_into dst empty = dst
  merge_into dst (member k v src) = merge_into (put k (merge_value (get k dst) v) dst) src

  pub merge_value : Option Value → Value → Value
  merge_value old null = null
  merge_value old (plain s) = plain s
  merge_value old (object src) = object (merge_into (fields_of old) src)

-- The table `configs`, by scope
abbrev pub Configs : Type 0
Configs = List (Text × Fields)

-- `configFor`
unfoldable pub config_for : Text → Configs → Fields
config_for scope [] = empty
config_for scope ((s, m) ∷ cs) = if text_eq s scope then m else config_for scope cs

-- `s < t` of Go strings
unfoldable pub text_lt : Text → Text → Bool
text_lt s [] = false
text_lt [] (b ∷ t) = true
text_lt (a ∷ s) (b ∷ t) = ltb a b || ((a == b) && text_lt s t)

-- `sort.Strings`
unfoldable pub insert_text : Text → List Text → List Text
insert_text s [] = s ∷ []
insert_text s (t ∷ ts) = if text_lt t s then t ∷ insert_text s ts else s ∷ t ∷ ts

unfoldable pub sort_texts : List Text → List Text
sort_texts [] = []
sort_texts (t ∷ ts) = insert_text t (sort_texts ts)

-- The scopes of a blade, the later ones over the earlier.
abbrev pub scopes : Blade → List Text
scopes b =
    codes "global"
    ∷ (map (λ g. codes "group:" ++ g) (sort_texts b.groups) ++ (codes "blade:" ++ b.serial) ∷ [])

unfoldable pub merge_scopes : Configs → List Text → Fields → Fields
merge_scopes configs [] out = out
merge_scopes configs (s ∷ ss) out = merge_scopes configs ss (merge_into out (config_for s configs))

-- `siteRelayURL`, for the blade's site
abbrev pub relay_url_of : Fleet → Option Place → Text
relay_url_of fl none = []
relay_url_of fl (some p) = elim (get_site p.rack.site_id fl) [ none ↦ [] | some st ↦ st.relay_url ]

abbrev pub ip_of : Option Place → Text
ip_of none = []
ip_of (some p) = p.ip

-- What is not set leaves the member alone.
abbrev pub put_text : Text → Text → Fields → Fields
put_text k s m = if is_empty s then m else put k (plain s) m

-- `mergedConfig`
unfoldable pub merged_config : Configs → Fleet → Blade → Fields
merged_config configs fl b = put_text (codes "expected_ip") (ip_of (decorate fl b)) (
    put_text (codes "hostname") b.hostname (
      put_text (codes "server_url") (relay_url_of fl (decorate fl b))
        (merge_scopes configs (scopes b) empty)))

-- The inner loop of `hConfigPatch`: a null deletes.
unfoldable pub set_member : Text → Value → Fields → Fields
set_member k null old = delete k old
set_member k (plain s) old = put k (plain s) old
set_member k (object m) old = put k (object m) old

unfoldable pub patch_section : Fields → Fields → Fields
patch_section empty old = old
patch_section (member k v m) old = patch_section m (set_member k v old)

-- An object is patched member by member where there is one already, and replaces anything else.
unfoldable pub patch_object : Fields → Option Value → Value
patch_object sub none = object sub
patch_object sub (some null) = object sub
patch_object sub (some (plain s)) = object sub
patch_object sub (some (object old)) = object (patch_section sub old)

-- The outer loop
unfoldable pub patch_member : Text → Value → Fields → Fields
patch_member k null cur = delete k cur
patch_member k (plain s) cur = put k (plain s) cur
patch_member k (object sub) cur = put k (patch_object sub (get k cur)) cur

unfoldable pub patch_fields : Fields → Fields → Fields
patch_fields empty cur = cur
patch_fields (member k v m) cur = patch_fields m (patch_member k v cur)

-- `INSERT … ON CONFLICT(scope) DO UPDATE`
unfoldable pub store_config : Text → Fields → Configs → Configs
store_config scope body [] = (scope, body) ∷ []
store_config scope body ((s, m) ∷ cs) =
    if text_eq s scope then (s, body) ∷ cs else (s, m) ∷ store_config scope body cs

-- `hConfigPatch` and `hConfigPut`, for a body that decodes
unfoldable pub patch_config : Text → Fields → Configs × Fleet → Configs × Fleet
patch_config scope in_ (configs, fl) = (
  store_config scope (patch_fields in_ (config_for scope configs)) configs,
  log_event [] (config_changed scope) fl,
)

unfoldable pub put_config : Text → Fields → Configs × Fleet → Configs × Fleet
put_config scope body (configs, fl) =
    (store_config scope body configs, log_event [] (config_changed scope) fl)

-- ===== src/Server/Netboot.antt =====
-- server/netboot.go: the stages of a netboot session, and how a session is tied to a blade. Sessions
-- are the rows of the table `netboot`, with what is read of them here.
use sheath.Prelude.{
  ℕ, Bool, true, false, List, [], ◌∷◌, Option, none, some, ltb, leb, if◌then◌else◌, Text, text_eq,
  map, to_lower, find_first, update_where,
}

pub data Stage : Type 0 where
  nothing dhcp tftp ramdisk installer writing done error : Stage

-- `stageRank`, 0 where there is no entry
abbrev pub rank : Stage → ℕ
rank nothing = 0
rank dhcp = 1
rank tftp = 2
rank ramdisk = 3
rank installer = 4
rank writing = 5
rank done = 6
rank error = 7

pub record Session : Type 0 where
  pub mac : Text
  pub serial : Text
  pub stage : Stage
  pub image : Text
  pub note : Text
  pub last_seen : ℕ

abbrev pub of_mac : Text → Session → Bool
of_mac mac s = text_eq s.mac mac

abbrev pub of_serial : Text → Session → Bool
of_serial serial s = text_eq s.serial serial

-- `raiseStage` on the sessions; its line of the log for `ramdisk` is not modelled.
unfoldable pub raise_stage : Text → Stage → List Session → List Session
raise_stage mac nothing ss = ss
raise_stage mac stage ss = elim (find_first (of_mac mac) ss) [
  | none ↦ ss
  | some s ↦
      if leb (rank stage) (rank s.stage)
      then ss
      else update_where (of_mac mac) (λ (q : Session). record q { stage = stage }) ss
]

-- `linkNetboot`: the sessions, and the image that was chosen there.
unfoldable pub link_netboot : ℕ → Text → Text → List Session → List Session × Text
link_netboot now serial mac ss =
    let key = map to_lower mac in
    let linked = raise_stage key installer (
      update_where (of_mac key) (λ (s : Session). record s { serial = serial; last_seen = now })
        ss) in
    (linked, elim (find_first (of_mac key) linked) [ none ↦ [] | some s ↦ s.image ])

-- `resetStage`
unfoldable pub reset_stage : ℕ → Text → Stage → Text → List Session → List Session
reset_stage now [] stage note ss = ss
reset_stage now (c ∷ serial) stage note ss =
    update_where (of_serial (c ∷ serial))
      (λ (s : Session). record s { stage = stage; note = note; last_seen = now }) ss

-- The session of a blade that was seen last.
unfoldable pub latest : Text → List Session → Option Session
latest serial [] = none
latest serial (s ∷ ss) = elim (of_serial serial s) [
  | false ↦ latest serial ss
  | true ↦ elim (latest serial ss) [
    | none ↦ some s
    | some t ↦ some (if ltb s.last_seen t.last_seen then t else s)
  ]
]

-- `netbootStage`
unfoldable pub netboot_stage : ℕ → Text → Stage → Text → List Session → List Session
unfolding latest raise_stage
netboot_stage now [] stage note ss = ss
netboot_stage now (c ∷ serial) stage note ss = elim (latest (c ∷ serial) ss) [
  | none ↦ ss
  | some s ↦
      raise_stage s.mac stage (
        update_where (of_mac s.mac) (λ (q : Session). record q { note = note; last_seen = now }) ss)
]

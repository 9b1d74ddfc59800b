-- ===== src/Site/Relay.antt =====
-- site/relay.go: what a site answers while the centre is away, and the reports that it keeps until the
-- centre is back. What the centre does with a request is an argument. The spool on disk is not
-- modelled.
pub mod Queue
pub mod Offline
mod Examples
use sheath.Prelude.{
  ℕ, ◌+◌, ◌-◌, ◌/◌, ◌*◌, Bool, true, false, not, ◌&&◌, ◌||◌, List, [], ◌∷◌, ◌++◌, Option, none,
  some, ltb, leb, if◌then◌else◌, Text, codes, text_eq, is_empty, length, drop, find_first,
}

-- `queued`, without the time.
pub record Queued : Type 0 where
  pub method : Text
  pub path : Text
  pub body : Text
  pub auth : Text

abbrev pub max_pending : ℕ
max_pending = 5000

abbrev pub max_queued_body : ℕ
max_queued_body = 256 * 1024

pub data Reply : Type 0 where
  -- what the centre said
  relayed : Text → Reply
  too_large : Reply
  -- how many wait
  accepted : ℕ → Reply

-- Room is made by giving up the older half.
unfoldable pub make_room : List Queued → List Queued
make_room pending =
    if leb max_pending (length pending)
    then drop (length pending - max_pending / 2) pending
    else pending

-- `forwardOrQueue`; `centre` is its answer, if it answers.
unfoldable pub forward_or_queue : Option Text → Queued → List Queued → List Queued × Reply
unfolding make_room
forward_or_queue (some answer) q pending = (pending, relayed answer)
forward_or_queue none q pending =
    if ltb max_queued_body (length q.body)
    then (pending, too_large)
    else let kept = make_room pending ++ q ∷ [] in (kept, accepted (length kept))

-- What becomes of one report: it makes no request, the centre does not answer, or it does.
pub data Delivery : Type 0 where
  malformed away answered : Delivery

-- The loop of `drain` from the `i`-th report on: what was sent, and what is left.
unfoldable pub deliver_all : (ℕ → Queued → Delivery) → ℕ → List Queued → List Queued × List Queued
deliver_all deliver i [] = ([], [])
deliver_all deliver i (q ∷ qs) =
    let rest = deliver_all deliver (i + 1) qs in
    elim (deliver i q) [ malformed ↦ rest | away ↦ ([], q ∷ qs) | answered ↦ (q ∷ rest.0, rest.1) ]

-- `drain`: what was sent, and the queue; `arrived` came while it ran.
unfoldable pub drain :
    (ℕ → Queued → Delivery) → List Queued → List Queued → List Queued × List Queued
unfolding deliver_all
drain deliver pending arrived = let out = deliver_all deliver 0 pending in (out.0, out.1 ++ arrived)

-- What a site holds of a blade and of an image.
pub record CachedBlade : Type 0 where
  pub serial : Text
  pub image : Text
  pub install_state : Text
  pub netboot : Bool
  pub token : Text

pub record CachedImage : Type 0 where
  pub id : Text
  pub url : Text
  pub sha256 : Text
  pub local : Text

pub record Cache : Type 0 where
  pub blades : List CachedBlade
  pub images : List CachedImage
  -- the files of the images directory
  pub files : List Text

pub data Waiting : Type 0 where
  unknown_blade no_image not_arrived : Waiting

pub data Answer : Type 0 where
  waiting : Waiting → Answer
  -- the token
  wipe : Text → Answer
  idle : Text → Answer
  -- the image, the name of its file, and the token
  go : CachedImage → Text → Text → Answer

abbrev pub blade_is : Text → CachedBlade → Bool
blade_is serial b = text_eq b.serial serial

abbrev pub image_is : Text → CachedImage → Bool
image_is id im = text_eq im.id id

unfoldable pub has_file : Text → List Text → Bool
has_file name [] = false
has_file name (f ∷ files) = text_eq f name || has_file name files

-- The name of an image's file; `base` is `filepath.Base`.
abbrev pub file_of : (Text → Text) → CachedImage → Text
file_of base im = if is_empty im.local then base im.url else im.local

unfoldable pub answer_image : (Text → Text) → CachedBlade → Cache → Answer
unfolding has_file
answer_image base b c = elim (find_first (image_is b.image) c.images) [
  | none ↦ waiting no_image
  | some im ↦
      if has_file (file_of base im) c.files
      then go im (file_of base im) b.token
      else waiting not_arrived
]

unfoldable pub answer_blade : (Text → Text) → CachedBlade → Cache → Answer
unfolding answer_image
answer_blade base b c =
    if text_eq b.install_state (codes "wipe")
    then wipe b.token
    else if is_empty b.image || not b.netboot
    then idle b.image
    else answer_image base b c

-- `provision`, while the centre is away.
unfoldable pub answer_offline : (Text → Text) → Text → Cache → Answer
unfolding answer_blade
answer_offline base serial c = elim (find_first (blade_is serial) c.blades) [
  | none ↦ waiting unknown_blade
  | some b ↦ answer_blade base b c
]

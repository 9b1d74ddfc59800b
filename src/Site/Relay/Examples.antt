-- ===== src/Site/Relay/Examples.antt =====
-- A site that is cut off, with two reports waiting.
use sheath.Prelude.{
  ℕ, ◌==◌, ◌≤◌, ◌≡◌, refl, arith, [], ◌∷◌, ◌++◌, none, true, codes, length, text_eq, find_first,
  if◌then◌else◌,
}
use sheath.Site.Relay.{
  Queued, Delivery, answered, away, max_pending, forward_or_queue, drain, Cache, CachedBlade,
  CachedImage, answer_offline,
}
use sheath.Site.Relay.Queue.{drain-append, forward_or_queue-length}
use sheath.Site.Relay.Offline.{Decided, answer_offline-Decided}

abbrev report : Queued
report = record { method = codes "POST"; path = codes "/status"; body = []; auth = [] }

abbrev once : ℕ → Queued → Delivery
once i q = if i == 0 then answered else away

drain-append_example :
    (drain once (report ∷ report ∷ []) (report ∷ [])).0
      ++ (drain once (report ∷ report ∷ []) (report ∷ [])).1
    ≡ (report ∷ report ∷ []) ++ report ∷ []
drain-append_example = drain-append once (report ∷ report ∷ []) (report ∷ []) (λ i q. ground arith)

forward_or_queue-length_example :
    length (forward_or_queue none report (report ∷ [])).0 ≤ max_pending
forward_or_queue-length_example = forward_or_queue-length none report (report ∷ []) (omega arith)

abbrev cached : CachedBlade
cached = record {
  serial = codes "bb";
  image = codes "deb";
  install_state = codes "pending";
  netboot = true;
  token = codes "t";
}

abbrev image : CachedImage
image = record {
  id = codes "deb";
  url = codes "http://c/deb";
  sha256 = [];
  local = codes "deb.img";
}

abbrev cache : Cache
cache = record { blades = cached ∷ []; images = image ∷ []; files = codes "deb.img" ∷ [] }

answer_offline-Decided_example :
    Decided (λ s. s) cached cache (answer_offline (λ s. s) (codes "bb") cache)
unfolding find_first text_eq
answer_offline-Decided_example = answer_offline-Decided (λ s. s) (codes "bb") cached cache refl

-- ===== src/Server/Accounts/Password.antt =====
-- encodeHash and passwordMatches of server/users.go. PBKDF2 and base64 are parameters: what is
-- asked of base64 is that decoding undoes encoding and that its text holds no dollar sign.
use mathlib.Core.List.{append-nil, append_assoc}
use sheath.Prelude.{
  split_on, text_eq_refl, inr, itoa-All, inl, ap, Option-cases, ◌^◌, ◌∙◌, ◌≤◌, arith, ◌<◌, ℕ, ◌≡◌,
  ◌≢◌, Bool, true, false, List, [], ◌∷◌, ◌++◌, Option, none, some, ◌==◌, if◌then◌else◌, Text, codes,
  text_eq, itoa, atoi-itoa, itoa-All, atoi, Signed, plus, All,
}

pub record Crypto : Type 0 where
  -- `pbkdf2.Key(sha256.New, pw, salt, iter, 32)`; `none` is its error
  pub key : Text → Text → ℕ → Option Text
  -- `base64.RawStdEncoding`
  pub encode : Text → Text
  pub decode : Text → Option Text

-- What the code relies on.
pub record IsBase64 (c : Crypto) : Type 0 where
  pub decode_encode : (s : Text) → c.decode (c.encode s) ≡ some s
  pub no_dollar : (s : Text) → All (λ b. b ≢ b'$') (c.encode s)

abbrev scheme : Text
scheme = codes "pbkdf2-sha256"

module _ (c : Crypto) where
  -- `encodeHash`
  unfoldable pub encode_hash : Text → Text → ℕ → Option Text
  encode_hash pw salt iter = elim (c.key pw salt iter) [
    | none ↦ none
    | some k ↦ some (scheme ++ b'$' ∷ (itoa iter ++ b'$' ∷ (c.encode salt ++ b'$' ∷ c.encode k)))
  ]

  -- The comparison with the hash made again.
  unfoldable pub compare_again : Text → Text → ℕ → Option Text → Bool
  compare_again stored pw iter none = false
  compare_again stored pw iter (some salt) = elim (encode_hash pw salt iter) [
    | none ↦ false
    | some again ↦ text_eq again stored
  ]

  unfoldable pub match_iter : Text → Text → Text → Option Signed → Bool
  unfolding compare_again
  match_iter stored pw salt (some (plus iter)) =
      if iter == 0 then false else compare_again stored pw iter (c.decode salt)
  match_iter stored pw salt _ = false

  -- Four parts, the first of them the scheme.
  unfoldable pub match_parts : Text → Text → List Text → Bool
  unfolding match_iter
  match_parts stored pw (head ∷ iter ∷ salt ∷ key ∷ []) =
      if text_eq head scheme then match_iter stored pw salt (atoi iter) else false
  match_parts stored pw _ = false

  -- `passwordMatches`
  unfoldable pub password_matches : Text → Text → Bool
  unfolding match_parts split_on
  password_matches stored pw = match_parts stored pw (split_on b'$' stored [])

split_on-cons :
    (sep : ℕ) (p s cur : Text)
    → All (λ b. b ≢ sep) p
    → split_on sep (p ++ sep ∷ s) cur ≡ (cur ++ p) ∷ split_on sep s []
unfolding split_on
split_on-cons sep [] s cur h = ground (arith, append-nil cur)
split_on-cons sep (b ∷ p) s cur (hb, hp) =
    ground (arith, split_on-cons sep p s (cur ++ b ∷ []) hp, append_assoc cur (b ∷ []) p)

split_on_end :
    (sep : ℕ) (p cur : Text) → All (λ b. b ≢ sep) p → split_on sep p cur ≡ (cur ++ p) ∷ []
unfolding split_on
split_on_end sep [] cur h = ground (arith, append-nil cur)
split_on_end sep (b ∷ p) cur (hb, hp) =
    ground (arith, split_on_end sep p (cur ++ b ∷ []) hp, append_assoc cur (b ∷ []) p)

digits_no_dollar : (s : Text) → All (λ c. (b'0' ≤ c) × (c ≤ b'9')) s → All (λ b. b ≢ b'$') s
digits_no_dollar [] h = tt
digits_no_dollar (c ∷ s) (hc, hs) = (ground arith, digits_no_dollar s hs)

-- The stored form falls apart into its four parts.
split_stored :
    (c : Crypto)
    → IsBase64 c
    → (iter : ℕ) (salt k : Text)
    → split_on b'$' (scheme ++ b'$' ∷ (itoa iter ++ b'$' ∷ (c.encode salt ++ b'$' ∷ c.encode k))) []
      ≡ scheme ∷ itoa iter ∷ c.encode salt ∷ c.encode k ∷ []
split_stored c ok iter salt k =
    split_on-cons b'$' scheme _ [] (ground arith)
    ∙ ap (λ u. scheme ∷ u)
        (split_on-cons b'$' (itoa iter) _ [] (digits_no_dollar _ (itoa-All iter)))
    ∙ ap (λ u. scheme ∷ itoa iter ∷ u) (split_on-cons b'$' (c.encode salt) _ [] (ok.no_dollar salt))
    ∙ ap (λ u. scheme ∷ itoa iter ∷ c.encode salt ∷ u)
        (split_on_end b'$' (c.encode k) [] (ok.no_dollar k))

stored_matches :
    (c : Crypto)
    → IsBase64 c
    → (pw salt k : Text) (iter : ℕ) → 0 < iter
    → iter < 2 ^ 63
    → c.key pw salt iter ≡ some k
    → password_matches c
        (scheme ++ b'$' ∷ (itoa iter ++ b'$' ∷ (c.encode salt ++ b'$' ∷ c.encode k)))
        pw
      ≡ true
unfolding password_matches encode_hash
stored_matches c ok pw salt k iter pos fits made =
    let stored : Text =
      scheme ++ b'$' ∷ (itoa iter ++ b'$' ∷ (c.encode salt ++ b'$' ∷ c.encode k)) in
    rw (split_stored c ok iter salt k, text_eq_refl scheme, atoi-itoa iter fits)
      (ground (arith, ok.decode_encode salt, made, text_eq_refl stored))

-- A hash that was made with a cost from 1 to 2^63 - 1 verifies with the password it was made
-- from: the cost and the salt are read back from the stored text.
pub password_matches-encode_hash :
    (c : Crypto)
    → IsBase64 c
    → (pw salt : Text) (iter : ℕ) {stored : Text} → 0 < iter
    → iter < 2 ^ 63
    → encode_hash c pw salt iter ≡ some stored
    → password_matches c stored pw ≡ true
unfolding encode_hash
password_matches-encode_hash c ok pw salt iter pos fits h =
    elim (Option-cases (c.key pw salt iter)) [
      | inl e ↦ absurd (ground arith)
      | inr (k, e) ↦ ground (arith, stored_matches c ok pw salt k iter pos fits e)
    ]

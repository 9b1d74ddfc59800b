-- ===== src/Server/Accounts/Examples.antt =====
-- The last admin, and a password that is checked again.
use sheath.Prelude.{
  itoa, print_digits, ap, ◌+◌, ◌-◌, ◌≡◌, ◌≢◌, refl, arith, [], ◌∷◌, ◌++◌, none, some, true, false,
  Text, codes, map, any, All,
}
use sheath.Server.Accounts.{admin, operator, Account}
use sheath.Server.Accounts.Lockout.{HasAdmin, delete, set_role, apply_all, apply_all-HasAdmin}
use sheath.Server.Accounts.Password.{
  encode_hash, Crypto, IsBase64, password_matches, password_matches-encode_hash,
}

abbrev ann : Account
ann = record {
  name = codes "ann";
  pass = [];
  role = admin;
  created = 0;
  last_login = none;
  disabled = false;
}

apply_all-HasAdmin_example :
    HasAdmin (apply_all (delete (codes "ann") ∷ set_role (codes "ann") operator ∷ []) (ann ∷ []))
unfolding any
apply_all-HasAdmin_example =
    apply_all-HasAdmin (delete (codes "ann") ∷ set_role (codes "ann") operator ∷ []) (ann ∷ []) refl

-- A toy: the key is the password and the salt, and each byte is moved past the dollar sign.
abbrev toy : Crypto
toy = record {
  key = λ pw salt _. some (pw ++ salt);
  encode = map (λ b. b + 37);
  decode = λ s. some (map (λ b. b - 37) s);
}

toy_decode : (s : Text) → map (λ b. b - 37) (map (λ b. b + 37) s) ≡ s
toy_decode [] = refl
toy_decode (b ∷ s) = rw (toy_decode s) (ground arith)

toy_no_dollar : (s : Text) → All (λ b. b ≢ b'$') (map (λ b. b + 37) s)
toy_no_dollar [] = tt
toy_no_dollar (b ∷ s) = (ground arith, toy_no_dollar s)

abbrev toy_base64 : IsBase64 toy
toy_base64 = record { decode_encode = λ s. ap some (toy_decode s); no_dollar = toy_no_dollar }

abbrev stored : Text
stored =
    codes "pbkdf2-sha256$1000$"
    ++ (map (λ b. b + 37) (codes "salt") ++ b'$' ∷ map (λ b. b + 37) (codes "hunter22salt"))

password_matches-encode_hash_example : password_matches toy stored (codes "hunter22") ≡ true
unfolding encode_hash itoa print_digits
password_matches-encode_hash_example =
    password_matches-encode_hash toy toy_base64 (codes "hunter22") (codes "salt") 1000 (omega arith)
      (omega arith) refl

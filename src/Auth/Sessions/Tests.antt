-- ===== src/Auth/Sessions/Tests.antt =====
-- The sessions at inputs that meet the hypotheses of their theorems.
use uitgo_monorepo.Base.{◌≡◌, refl, false, true, none, some, [], ◌∷◌}
use uitgo_monorepo.Base.Int.{pos}
use uitgo_monorepo.Base.Text.{trim_space}
use uitgo_monorepo.Base.Action.{ok}
use uitgo_monorepo.Base.Action.Ensures.{Ensures}
use uitgo_monorepo.Security.{hash_token, encrypt_token, decrypt_token}
use uitgo_monorepo.Security.Sealing.{encrypt_token-decrypt_token}
use uitgo_monorepo.Auth.Users.{UserModel}
use uitgo_monorepo.Auth.Tokens.{RefreshTokenModel}
use uitgo_monorepo.Auth.Handlers.{LoginRequest, login, refresh}
use uitgo_monorepo.Auth.Sessions.{Same}
use uitgo_monorepo.Auth.Sessions.Login.{LoggedIn, login-LoggedIn}
use uitgo_monorepo.Auth.Sessions.Rotation.{Exchanged, Refused, refresh-Exchanged}
use uitgo_monorepo.Auth.Sessions.Disabled.{marked, refresh-marked}
use uitgo_monorepo.Auth.Sessions.Memory.{
  Memory, tables, runtime, store, crypto, handler, crypto-IsCrypto, store-IsSessionStore,
}

abbrev rider : UserModel
rider = record {
  id = "u";
  name = "An";
  email = "An@example.com";
  phone = some "1";
  password_hash = "old";
  role = "rider";
  created_at = 1;
  disabled = false;
}

abbrev stored : RefreshTokenModel
stored = record {
  id = "k";
  user_id = "u";
  token_hash = "old";
  token_ciphertext = 7 ∷ 7 ∷ 1 ∷ [];
  created_at = 1;
  expires_at = pos 100;
  revoked_at = none;
}

abbrev signed_up : Memory
signed_up = record { tokens = stored ∷ []; users = rider ∷ []; clock = 9 }

abbrev credentials : LoginRequest
credentials = record { email = " An@Example.com "; password = "old" }

encrypt_token-decrypt_token_example :
    Ensures
      (λ payload w'. decrypt_token crypto (5 ∷ []) payload ≡ ok "old")
      (λ e w'. Unit {0})
      (encrypt_token crypto (5 ∷ []) "old" signed_up)
unfolding crypto
encrypt_token-decrypt_token_example =
    encrypt_token-decrypt_token crypto-IsCrypto (5 ∷ []) "old" signed_up refl

login-LoggedIn_example :
    Ensures
      (λ a w'. LoggedIn tables handler (ok credentials) a signed_up w')
      (λ e w'. Same tables signed_up w')
      (login handler (ok credentials) signed_up)
login-LoggedIn_example = login-LoggedIn store-IsSessionStore (ok credentials) signed_up

refresh-Exchanged_example :
    Ensures
      (λ a w'. Exchanged tables runtime store handler (trim_space " old") a signed_up w')
      (λ _ w'. Refused tables runtime store (hash_token crypto (trim_space " old")) signed_up w')
      (refresh handler (ok " old") signed_up)
refresh-Exchanged_example = refresh-Exchanged store-IsSessionStore " old" signed_up

refresh-marked_example :
    refresh (marked true handler) (ok "old") signed_up ≡ refresh handler (ok "old") signed_up
refresh-marked_example = refresh-marked true handler (ok "old") signed_up

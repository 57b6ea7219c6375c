-- ===== src/Auth/Sessions.antt =====
-- What the sessions of backend/internal/http/handlers/auth.go rely on: the rows of the refresh tokens
-- and the accounts, and what the statements, the clock and the source of random bytes do to them.
pub mod Accounts
pub mod Issuing
pub mod Login
pub mod Rotation
pub mod Disabled
pub mod Memory
mod Tests
use uitgo_monorepo.Base.{ℕ, String, ◌≡◌, refl, sym, ◌∙◌, ap, Option, none, some, Bool, true, put}
use uitgo_monorepo.Errors.{Error}
use uitgo_monorepo.Base.Action.{ok, Action}
use uitgo_monorepo.Base.Action.Ensures.{Ensures}
use uitgo_monorepo.Trip.Store.{Runtime}
use uitgo_monorepo.Auth.Users.{UserModel, UserStore, user_repository}
use uitgo_monorepo.Auth.Tokens.{RefreshTokenModel, RefreshTokenStore, refresh_token_repository}
use uitgo_monorepo.Auth.Handlers.{AuthHandler}

-- The rows of the tokens by their ids; the rows of the accounts by their ids and by their lower-cased
-- addresses; `NOW()`. An id is in its canonical form.
pub record SessionTables (W : Type 0) : Type 0 where
  pub row : W → String → Option RefreshTokenModel
  pub account : W → String → Option UserModel
  pub named : W → String → Option UserModel
  pub time : W → ℕ

-- The canonical form of an id: `uuid.Parse` gives it back. A value of the type `uuid.UUID` is one.
abbrev pub IsKey : {W : Type 0} → Runtime W → String → Type 0
IsKey r id = r.parse_id id ≡ ok id

module _ {W : Type 0} (t : SessionTables W) where
  pub record Same (w w' : W) : Type 0 where
    pub rows : t.row w' ≡ t.row w
    pub accounts : t.account w' ≡ t.account w
    pub names : t.named w' ≡ t.named w

  abbrev pub Keeps : {A : Type 0} → Action W A → W → Type 0
  Keeps m w = Ensures (λ _ w'. Same w w') (λ _ w'. Same w w') (m w)

  -- A new row, whose time of creation is the database's.
  pub record Inserted (m m' : RefreshTokenModel) (w w' : W) : Type 0 where
    pub fresh : t.row w m.id ≡ none
    pub rows : t.row w' ≡ put (t.row w) m.id m'
    pub accounts : t.account w' ≡ t.account w
    pub is : m' ≡ record m { created_at = m'.created_at }

  pub data TokenUpdated (id : String) (f : RefreshTokenModel → RefreshTokenModel) (w w' : W)
      : ℕ → Type 0 where
    token_hit :
        (m : RefreshTokenModel)
        → t.row w id ≡ some m
        → t.row w' ≡ put (t.row w) id (f m)
        → t.account w' ≡ t.account w
        → TokenUpdated id f w w' 1
    token_missed : Same w w' → TokenUpdated id f w w' 0

  -- A row that the query found, at the time that the database had. Its ids are in canonical form.
  pub data FoundActive (r : Runtime W) (p : ℕ → RefreshTokenModel → Bool) (w : W)
      : Option RefreshTokenModel → Type 0 where
    found_active :
        {m : RefreshTokenModel}
        → t.row w m.id ≡ some m
        → p (t.time w) m ≡ true
        → IsKey r m.id
        → IsKey r m.user_id
        → FoundActive r p w (some m)
    found_nothing : FoundActive r p w none

  -- Documented behaviour of what the sessions use: a query writes nothing, a statement that fails
  -- changes nothing, a new row has a key that no other row has, and the id of a row is a
  -- `uuid.UUID`. The users and the tokens are those of the two repositories over their tables.
  pub record IsSessionStore (r : Runtime W) (s : RefreshTokenStore W) (us : UserStore W)
      (h : AuthHandler W) : Type 0 where
    pub wired_law : h.refresh_tokens ≡ some (refresh_token_repository r s)
    pub users_law : h.users ≡ user_repository r us
    pub parse_law : (id key : String) → r.parse_id id ≡ ok key → IsKey r key
    pub handler_now_law : (w : W) → Same w (h.now w).1
    pub now_law : (w : W) → Same w (r.now w).1
    pub new_id_law : (w : W) → Same w (r.new_id w).1 × IsKey r (r.new_id w).0
    pub random_law : (n : ℕ) (w : W) → Keeps (h.crypto.read_random n) w
    pub read_by_email_law :
        (email : String) (w : W)
        → Ensures
            (λ o w'.
              (o ≡ t.named w email) × ((m : UserModel) → o ≡ some m → IsKey r m.id) × Same w w')
            (λ _ w'. Same w w')
            (us.read_by_email email w)
    pub read_by_id_law :
        (key : String) (w : W)
        → IsKey r key
        → Ensures
            (λ o w'.
              (o ≡ t.account w key) × ((m : UserModel) → o ≡ some m → m.id ≡ key) × Same w w')
            (λ _ w'. Same w w')
            (us.read_by_id key w)
    pub create_token_law :
        (m : RefreshTokenModel) (w : W)
        → IsKey r m.id
        → IsKey r m.user_id
        → Ensures (λ m' w'. Inserted m m' w w') (λ _ w'. Same w w') (s.create_token m w)
    pub read_active_law :
        (p : ℕ → RefreshTokenModel → Bool) (w : W)
        → Ensures (λ o w'. FoundActive r p w o × Same w w') (λ _ w'. Same w w') (s.read_active p w)
    pub update_token_law :
        (id : String) (f : RefreshTokenModel → RefreshTokenModel) (w : W)
        → IsKey r id
        → ((m : RefreshTokenModel) → (f m).id ≡ m.id)
        → Ensures (λ n w'. TokenUpdated id f w w' n) (λ _ w'. Same w w') (s.update_token id f w)

  pub Same-refl : (w : W) → Same w w
  Same-refl w = record { rows = refl; accounts = refl; names = refl }

  pub Same-trans : {u v w : W} → Same u v → Same v w → Same u w
  Same-trans a b = record {
    rows = b.rows ∙ a.rows;
    accounts = b.accounts ∙ a.accounts;
    names = b.names ∙ a.names;
  }

  -- A session was given to the user `user_id`: one new row, which is not revoked and is found under the
  -- hash of the token; no other row and no account differs.
  pub record Issued (user_id hash : String) (w w' : W) : Type 0 where
    pub model : RefreshTokenModel
    pub fresh : t.row w model.id ≡ none
    pub rows : t.row w' ≡ put (t.row w) model.id model
    pub accounts : t.account w' ≡ t.account w
    pub owner : model.user_id ≡ user_id
    pub hashed : model.token_hash ≡ hash
    pub open_ended : model.revoked_at ≡ none

  pub Issued-after :
      {user_id hash : String} {u v w : W}
      → Same u v
      → Issued user_id hash v w
      → Issued user_id hash u w
  Issued-after same i = record {
    model = i.model;
    fresh = ap (λ f. f i.model.id) (sym same.rows) ∙ i.fresh;
    rows = i.rows ∙ ap (λ f. put f i.model.id i.model) same.rows;
    accounts = i.accounts ∙ same.accounts;
    owner = i.owner;
    hashed = i.hashed;
    open_ended = i.open_ended;
  }

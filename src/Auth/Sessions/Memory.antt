-- ===== src/Auth/Sessions/Memory.antt =====
-- Sessions in memory: they show that the laws of Auth/Sessions can hold.
use mathlib.Core.Path.{subst}
use uitgo_monorepo.Base.{
  ℕ, zero, suc, length, eqb, String, ◌≡◌, refl, sym, ap, ◌∙◌, ◌+◌, Bool, true, not, ◌&&◌, ◌==◌,
  eq_iff, Option, none, some, List, [], ◌∷◌, put, inl, inr, Bool-cases, Option-cases, if◌then◌else◌,
  arith,
}
use uitgo_monorepo.Base.Int.{pos}
use uitgo_monorepo.Base.Text.{to_lower}
use uitgo_monorepo.Errors.{duplicated_key}
use uitgo_monorepo.Base.Action.{ok, err, Action, raise, pure}
use uitgo_monorepo.Base.Action.Ensures.{Ensures, returned, raised}
use uitgo_monorepo.Trip.Store.{Runtime}
use uitgo_monorepo.Security.{Gcm, Crypto}
use uitgo_monorepo.Security.Sealing.{IsCrypto}
use uitgo_monorepo.Auth.Users.{UserModel, UserStore, user_repository}
use uitgo_monorepo.Auth.Tokens.{RefreshTokenModel, RefreshTokenStore, refresh_token_repository}
use uitgo_monorepo.Auth.Handlers.{AuthHandler}
use uitgo_monorepo.Auth.Sessions.{
  SessionTables, Same, Inserted, TokenUpdated, token_hit, token_missed, FoundActive, found_active,
  found_nothing, IsSessionStore, Same-refl,
}

pub record Memory : Type 0 where
  pub tokens : List RefreshTokenModel
  pub users : List UserModel
  pub clock : ℕ

unfoldable pub row_of : List RefreshTokenModel → String → Option RefreshTokenModel
row_of [] k = none
row_of (m ∷ rows) k = if m.id == k then some m else row_of rows k

unfoldable pub account_of : List UserModel → String → Option UserModel
account_of [] k = none
account_of (u ∷ users) k = if u.id == k then some u else account_of users k

-- The ids are texts without a capital `U`, which `parse_id` also takes for the small one.
abbrev pub spelt : String → String
spelt id = if id == "U" then "u" else id

abbrev is_key : String → Bool
is_key id = not (id == "U")

unfoldable pub named_of : List UserModel → String → Option UserModel
named_of [] k = none
named_of (u ∷ users) k =
    let rest = named_of users k in
    if to_lower u.email == k then (if is_key u.id then some u else rest) else rest

abbrev pub tables : SessionTables Memory
tables = record {
  row = λ w. row_of w.tokens;
  account = λ w. account_of w.users;
  named = λ w. named_of w.users;
  time = λ w. w.clock;
}

row_of-id :
    (rows : List RefreshTokenModel) (k : String) (m : RefreshTokenModel)
    → row_of rows k ≡ some m
    → m.id ≡ k
unfolding row_of
row_of-id [] k m h = cc
row_of-id (x ∷ rows) k m h = ground (arith, eq_iff x.id k, row_of-id rows k m)

account_of-id :
    (users : List UserModel) (k : String) (u : UserModel) → account_of users k ≡ some u → u.id ≡ k
unfolding account_of
account_of-id [] k u h = cc
account_of-id (x ∷ users) k u h = ground (arith, eq_iff x.id k, account_of-id users k u)

abbrev pub runtime : Runtime Memory
runtime = record {
  parse_id = λ id. ok (spelt id);
  new_id = λ w. ("6ba7b810-9dad-11d1-80b4-00c04fd430c8", w);
  now = λ w. (w.clock + 1, record w { clock = w.clock + 1 });
}

spelt-key : (id : String) → is_key id ≡ true → spelt id ≡ id
spelt-key id h = ground arith

spelt-IsKey : (id : String) → is_key (spelt id) ≡ true
spelt-IsKey id = elim (Bool-cases (id == "U")) [
  | inl is ↦ rw is refl
  | inr other ↦ rw other (rw other refl)
]

named_of-key :
    (users : List UserModel) (k : String) (u : UserModel)
    → named_of users k ≡ some u
    → is_key u.id ≡ true
unfolding named_of
named_of-key [] k u h = cc
named_of-key (x ∷ users) k u h = ground (arith, named_of-key users k u)

-- The first of the rows that passes the test, read again by its key.
pick :
    (RefreshTokenModel → Bool)
    → Option RefreshTokenModel
    → Option RefreshTokenModel
    → Option RefreshTokenModel
pick p none rest = rest
pick p (some m) rest = if p m && (is_key m.id && is_key m.user_id) then some m else rest

first_row :
    (RefreshTokenModel → Bool)
    → List RefreshTokenModel
    → List RefreshTokenModel
    → Option RefreshTokenModel
unfolding pick
first_row p rows [] = none
first_row p rows (x ∷ xs) = let rest = first_row p rows xs in pick p (row_of rows x.id) rest

both : (a b : Bool) → a && b ≡ true → (a ≡ true) × (b ≡ true)
both a b h = (ground arith, ground arith)

pick-FoundActive :
    (p : ℕ → RefreshTokenModel → Bool) (w : Memory) (k : String) (rest : Option RefreshTokenModel)
    → FoundActive tables runtime p w rest
    → FoundActive tables runtime p w (pick (p w.clock) (row_of w.tokens k) rest)
unfolding pick
pick-FoundActive p w k rest h = elim (Option-cases (row_of w.tokens k)) [
  | inl missing ↦ rw missing h
  | inr (m, is) ↦ rw is (elim (Bool-cases (p w.clock m && (is_key m.id && is_key m.user_id))) [
    | inl good ↦
        let (passes, keys) = both (p w.clock m) (is_key m.id && is_key m.user_id) good in
        let (key, owner_key) = both (is_key m.id) (is_key m.user_id) keys in
        rw good (
          found_active (ap (row_of w.tokens) (row_of-id w.tokens k m is) ∙ is) passes
            (ap ok (spelt-key m.id key)) (ap ok (spelt-key m.user_id owner_key)))
    | inr bad ↦ rw bad h
  ])
]

first_row-FoundActive :
    (p : ℕ → RefreshTokenModel → Bool) (w : Memory) (xs : List RefreshTokenModel)
    → FoundActive tables runtime p w (first_row (p w.clock) w.tokens xs)
unfolding first_row
first_row-FoundActive p w [] = found_nothing
first_row-FoundActive p w (x ∷ xs) =
    pick-FoundActive p w x.id (first_row (p w.clock) w.tokens xs) (first_row-FoundActive p w xs)

insert : Option RefreshTokenModel → RefreshTokenModel → Action Memory RefreshTokenModel
insert none m w = (ok m, record w { tokens = m ∷ w.tokens })
insert (some old) m w = (err duplicated_key, w)

update_row : (RefreshTokenModel → RefreshTokenModel) → Option RefreshTokenModel → Action Memory ℕ
update_row f none w = (ok 0, w)
update_row f (some m) w = (ok 1, record w { tokens = f m ∷ w.tokens })

unfoldable pub store : RefreshTokenStore Memory
unfolding insert update_row first_row
store = record {
  create_token = λ m w. insert (row_of w.tokens m.id) m w;
  read_active = λ p w. (ok (first_row (p w.clock) w.tokens w.tokens), w);
  update_token = λ id f w. update_row f (row_of w.tokens id) w;
  update_tokens_of = λ u f w. (ok tt, w);
}

abbrev pub user_store : UserStore Memory
user_store = record {
  create_user = λ m. raise duplicated_key;
  read_by_email = λ email w. (ok (named_of w.users email), w);
  read_by_id = λ id w. (ok (account_of w.users id), w);
  update_user = λ id f. pure 0;
  read_count = λ filter. pure (pos 0);
  read_users = λ filter limit offset. pure [];
}

replicate : ℕ → ℕ → List ℕ
replicate zero b = []
replicate (suc n) b = b ∷ replicate n b

-- A cipher that hides nothing; the bytes of the one token are 1 and 2.
abbrev plain_gcm : Gcm
plain_gcm = record {
  nonce_size = 2;
  seal = λ nonce plain. plain;
  unseal = λ nonce sealed. ok sealed;
}

abbrev fresh_token : String
fresh_token = "new"

bytes : String → List ℕ
bytes s = if s == "old" then 1 ∷ [] else if s == fresh_token then 2 ∷ [] else 3 ∷ []

text : List ℕ → String
text [] = ""
text (n ∷ ns) = if eqb n 1 then "old" else if eqb n 2 then fresh_token else "hash"

unfoldable pub crypto : Crypto Memory
unfolding replicate bytes text
crypto = record {
  sha256 = λ bs. bs;
  new_gcm = λ key. ok plain_gcm;
  read_random = λ n w. (ok (replicate n 7), w);
  bytes = bytes;
  text = text;
  hex = text;
  base64_url = λ bs. fresh_token;
  hash_password = λ bs. pure bs;
  same_password = λ hash password. true;
}

abbrev pub handler : AuthHandler Memory
handler = record {
  users = user_repository runtime user_store;
  jwt_secret = "secret";
  notifications = none;
  driver_service = none;
  refresh_tokens = some (refresh_token_repository runtime store);
  access_ttl = pos 900000000000;
  refresh_ttl = pos 2592000000000000;
  refresh_key = 5 ∷ [];
  now = runtime.now;
  crypto = crypto;
  sign = λ secret claims. ok claims.sub;
}

length-replicate : (n b : ℕ) → length (replicate n b) ≡ n
unfolding replicate
length-replicate zero b = refl
length-replicate (suc n) b = ap suc (length-replicate n b)

pub crypto-IsCrypto : IsCrypto crypto
unfolding crypto
crypto-IsCrypto = record {
  unseal_law = λ key gcm nonce plain is size. plain_unseal gcm is nonce plain;
  random_law = λ n w. returned (length-replicate n 7);
}
  where
    plain_unseal :
        (gcm : Gcm)
        → ok plain_gcm ≡ ok gcm
        → (nonce plain : List ℕ) → gcm.unseal nonce (gcm.seal nonce plain) ≡ ok plain
    plain_unseal gcm is nonce plain =
        let same : plain_gcm ≡ gcm = cc in
        subst (λ g. g.unseal nonce (g.seal nonce plain) ≡ ok plain) same refl

untouched : (w w' : Memory) → w.tokens ≡ w'.tokens → w.users ≡ w'.users → Same tables w w'
untouched w w' tokens users = record {
  rows = ap row_of (sym tokens);
  accounts = ap account_of (sym users);
  names = ap named_of (sym users);
}

insert-Inserted :
    (o : Option RefreshTokenModel) (m : RefreshTokenModel) (w : Memory)
    → row_of w.tokens m.id ≡ o
    → Ensures (λ m' w'. Inserted tables m m' w w') (λ _ w'. Same tables w w') (insert o m w)
unfolding insert row_of
insert-Inserted none m w fresh =
    returned (record { fresh = fresh; rows = refl; accounts = refl; is = refl })
insert-Inserted (some old) m w there = raised (Same-refl tables w)

update_row-Updated :
    (id : String) (f : RefreshTokenModel → RefreshTokenModel) (o : Option RefreshTokenModel)
    (w : Memory)
    → ((m : RefreshTokenModel) → (f m).id ≡ m.id)
    → row_of w.tokens id ≡ o
    → Ensures
        (λ n w'. TokenUpdated tables id f w w' n)
        (λ _ w'. Same tables w w')
        (update_row f o w)
unfolding update_row row_of
update_row-Updated id f none w keeps there = returned (token_missed (Same-refl tables w))
update_row-Updated id f (some m) w keeps there = returned (
    token_hit m there
      (ap (λ x. put (row_of w.tokens) x (f m)) (keeps m ∙ row_of-id w.tokens id m there)) refl)

pub store-IsSessionStore : IsSessionStore tables runtime store user_store handler
unfolding store crypto
store-IsSessionStore = record {
  wired_law = refl;
  users_law = refl;
  parse_law = λ id key is.
      let same : spelt id ≡ key = cc in
      ap ok (spelt-key key (ap is_key (sym same) ∙ spelt-IsKey id));
  handler_now_law = λ w. untouched _ _ refl refl;
  now_law = λ w. untouched _ _ refl refl;
  new_id_law = λ w. (Same-refl tables w, refl);
  random_law = λ n w. returned (Same-refl tables w);
  read_by_email_law = λ email w.
      returned (
        refl,
        λ m is. ap ok (spelt-key m.id (named_of-key w.users email m is)),
        Same-refl tables w,
      );
  read_by_id_law =
      λ key w is. returned (refl, λ m found. account_of-id w.users key m found, Same-refl tables w);
  create_token_law = λ m w key owner_key. insert-Inserted (row_of w.tokens m.id) m w refl;
  read_active_law = λ p w. returned (first_row-FoundActive p w w.tokens, Same-refl tables w);
  update_token_law = λ id f w key keeps. update_row-Updated id f (row_of w.tokens id) w keeps refl;
}

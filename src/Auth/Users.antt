-- ===== src/Auth/Users.antt =====
-- The repository of users in backend/internal/domain/user_repo.go over the statements that it runs.
use uitgo_monorepo.Base.{ℕ, String, Bool, ◌||◌, Option, none, some, List, map, if◌then◌else◌, eqb}
use uitgo_monorepo.Base.Int.{ℤ, pos, leb_ℤ, ltb_ℤ}
use uitgo_monorepo.Base.Text.{is_empty, trim_space, to_lower, concat}
use uitgo_monorepo.Errors.{record_not_found}
use uitgo_monorepo.Base.Action.{Action, pure, raise, always, raise_if, ◌>>=◌, ◌>>◌}
use uitgo_monorepo.Http.{refused}
use uitgo_monorepo.Trip.Store.{Runtime}
use uitgo_monorepo.Base.Action.{checked}
use uitgo_monorepo.Auth.{User, UserRepository}

-- `userModel`, a row of `users`; NULL is `none`
pub record UserModel : Type 0 where
  pub id : String
  pub name : String
  pub email : String
  pub phone : Option String
  pub password_hash : String
  pub role : String
  pub created_at : ℕ
  pub disabled : Bool

-- The conditions that a list adds to its query; `like` is a pattern of SQL.
pub record UserFilter : Type 0 where
  pub role : Option String
  pub disabled : Option Bool
  pub like : Option String

-- `read_by_email` compares the lower-cased column with its text. `none` of a `First` is
-- `gorm.ErrRecordNotFound`; an update gives the number of rows that it changed.
pub record UserStore (W : Type 0) : Type 0 where
  pub create_user : UserModel → Action W UserModel
  pub read_by_email : String → Action W (Option UserModel)
  pub read_by_id : String → Action W (Option UserModel)
  pub update_user : String → (UserModel → UserModel) → Action W ℕ
  pub read_count : UserFilter → Action W ℤ
  pub read_users : UserFilter → ℤ → ℤ → Action W (List UserModel)

-- A NULL is read as the zero value of the field.
abbrev pub text_or_empty : Option String → String
text_or_empty none = ""
text_or_empty (some s) = s

-- The literal `&User{...}` of a row.
abbrev pub to_user : UserModel → User
to_user m = record {
  id = m.id;
  name = m.name;
  email = m.email;
  phone = text_or_empty m.phone;
  password_hash = m.password_hash;
  role = m.role;
  created_at = m.created_at;
  disabled = m.disabled;
}

-- A blank role is that of a rider.
unfoldable pub role_or_rider : String → String
role_or_rider role =
    let trimmed = trim_space (to_lower role) in if is_empty trimmed then "rider" else trimmed

-- `updates["name"]`, which a blank name does not set.
unfoldable pub renamed : Option String → Option String
renamed none = none
renamed (some name) = if is_empty (trim_space name) then none else some (trim_space name)

-- `updates["phone"]`: a blank phone sets NULL.
unfoldable pub rephoned : Option String → Option (Option String)
rephoned none = none
rephoned (some phone) = some (if is_empty (trim_space phone) then none else some (trim_space phone))

abbrev pub set_or : {A : Type 0} → Option A → A → A
set_or none old = old
set_or (some new) old = new

-- `len(updates) > 0`
abbrev pub is_set : {A : Type 0} → Option A → Bool
is_set none = Bool.false
is_set (some a) = Bool.true

unfoldable pub patched : Option String → Option (Option String) → UserModel → UserModel
patched name phone m = record m { name = set_or name m.name; phone = set_or phone m.phone }

unfoldable pub reassigned : Option String → Option Bool → UserModel → UserModel
reassigned role disabled m = record m {
  role = set_or role m.role;
  disabled = set_or disabled m.disabled;
}

-- The normalised role of `UpdateRoleAndStatus`, which may be blank.
unfoldable pub normalized_role : Option String → Option String
normalized_role none = none
normalized_role (some role) = some (trim_space (to_lower role))

unfoldable pub user_filter : String → Option Bool → String → UserFilter
user_filter role disabled q =
    let r = trim_space (to_lower role) in
    let t = trim_space (to_lower q) in
    record {
      role = if is_empty r then none else some r;
      disabled = disabled;
      like = if is_empty t then none else some (concat "%" (concat t "%"));
    }

module _ {W : Type 0} (r : Runtime W) (s : UserStore W) where
  unfoldable pub found_user : Option UserModel → Action W User
  found_user none = raise record_not_found
  found_user (some m) = pure (to_user m)

  -- An id that does not parse is an id of nobody.
  parsed : String → Action W String
  parsed id = checked (refused (λ e. record_not_found) (r.parse_id id))

  unfoldable pub create : User → Action W User
  create user = do
    id ← always r.new_id
    now ← always r.now
    model ← s.create_user (record {
      id = id;
      name = user.name;
      email = to_lower user.email;
      phone = some user.phone;
      password_hash = user.password_hash;
      role = role_or_rider user.role;
      created_at = now;
      disabled = user.disabled;
    })
    pure (record user {
      id = model.id;
      created_at = model.created_at;
      role = model.role;
      disabled = model.disabled;
    })

  unfoldable pub find_by_email : String → Action W User
  unfolding found_user
  find_by_email email = do found ← s.read_by_email (to_lower email); found_user found

  unfoldable pub find_by_id : String → Action W User
  unfolding found_user parsed
  find_by_id id = do uid ← parsed id; found ← s.read_by_id uid; found_user found

  -- `Updates` of one row, which must be there; with nothing to set no statement runs.
  unfoldable pub updated_user : Bool → String → (UserModel → UserModel) → Action W (Unit {0})
  updated_user needed uid f =
      if needed
      then (do changed ← s.update_user uid f; raise_if (eqb changed 0) record_not_found)
      else pure tt

  unfoldable pub update_profile : String → Option String → Option String → Action W User
  unfolding parsed updated_user
  update_profile id name phone = do
    uid ← parsed id
    updated_user (is_set (renamed name) || is_set (rephoned phone)) uid
        (patched (renamed name) (rephoned phone))
    find_by_id id

  unfoldable pub list : String → Option Bool → String → ℤ → ℤ → Action W (List User × ℤ)
  list role disabled q limit offset = do
    let filter = user_filter role disabled q
    total ← s.read_count filter
    rows ←
        s.read_users filter (if leb_ℤ limit (pos 0) || ltb_ℤ (pos 200) limit then pos 50 else limit)
          (if ltb_ℤ offset (pos 0) then pos 0 else offset)
    pure (map to_user rows, total)

  unfoldable pub update_role_and_status : String → Option String → Option Bool → Action W User
  unfolding parsed updated_user
  update_role_and_status id role disabled = do
    uid ← parsed id
    updated_user (is_set role || is_set disabled) uid (reassigned (normalized_role role) disabled)
    find_by_id id

  unfoldable pub user_repository : UserRepository W
  user_repository = record {
    create = create;
    find_by_email = find_by_email;
    find_by_id = find_by_id;
    update_profile = update_profile;
    list = list;
    update_role_and_status = update_role_and_status;
  }

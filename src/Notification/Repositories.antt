-- ===== src/Notification/Repositories.antt =====
-- The repositories of backend/internal/db/notification_repository.go and device_token_repository.go over
-- the statements that they run.
use uitgo_monorepo.Base.{
  ℕ, String, Bool, ◌||◌, Option, none, some, List, [], ◌∷◌, map, eqb, if◌then◌else◌,
}
use uitgo_monorepo.Base.Int.{ℤ, pos, leb_ℤ, ltb_ℤ}
use uitgo_monorepo.Base.Text.{is_empty, trim_space, to_lower}
use uitgo_monorepo.Errors.{notification_not_found}
use uitgo_monorepo.Base.Action.{
  Result, ok, err, Action, pure, always, raise_if, checked, ◌>>=◌, ◌>>◌,
}
use uitgo_monorepo.Http.{or_refuse}
use uitgo_monorepo.Trip.Store.{Runtime}
use uitgo_monorepo.Notification.{
  Notification, DeviceToken, NotificationRepository, DeviceTokenRepository,
}

-- `notificationModel`, a row of `notifications`
pub record NotificationModel : Type 0 where
  pub id : String
  pub user_id : String
  pub title : String
  pub body : String
  pub kind : String
  pub trip_id : Option String
  pub created_at : ℕ
  pub read_at : Option ℕ

-- `deviceTokenModel`, a row of `device_tokens`
pub record DeviceTokenModel : Type 0 where
  pub id : String
  pub user_id : String
  pub platform : String
  pub token : String
  pub created_at : ℕ

-- `find` and `count` look at the notifications of a user, or at those that were not read; an update gives
-- the number of rows; a zero time of a new row is filled in. The transaction of `Register` is rolled
-- back where its body fails.
pub record NotificationStore (W : Type 0) : Type 0 where
  pub create : NotificationModel → Action W NotificationModel
  pub create_all : List NotificationModel → Action W (Unit {0})
  pub count : String → Bool → Action W ℤ
  pub find : String → Bool → ℤ → ℤ → Action W (List NotificationModel)
  pub set_read : String → String → ℕ → Action W ℕ
  pub delete_token : String → Action W (Unit {0})
  pub create_token : DeviceTokenModel → Action W DeviceTokenModel
  pub find_tokens : List String → Action W (List DeviceTokenModel)
  pub transaction : Action W DeviceTokenModel → Action W DeviceTokenModel

abbrev pub to_notification : NotificationModel → Notification
to_notification m = record {
  id = m.id;
  user_id = m.user_id;
  title = m.title;
  body = m.body;
  kind = m.kind;
  trip_id = m.trip_id;
  created_at = m.created_at;
  read_at = m.read_at;
}

abbrev pub to_device_token : DeviceTokenModel → DeviceToken
to_device_token m = record {
  id = m.id;
  user_id = m.user_id;
  platform = m.platform;
  token = m.token;
  created_at = m.created_at;
}

abbrev pub ok_or_none : Result String → Option String
ok_or_none (ok id) = some id
ok_or_none (err e) = none

module _ {W : Type 0} (r : Runtime W) (s : NotificationStore W) where
  id_or_new : String → Action W String
  id_or_new id = if is_empty id then always r.new_id else checked (r.parse_id id)

  -- A trip whose id does not parse is left out.
  unfoldable pub trip_column : Option String → Option String
  trip_column none = none
  trip_column (some id) = if is_empty id then none else ok_or_none (r.parse_id id)

  unfoldable pub to_notification_model : Notification → Action W NotificationModel
  unfolding id_or_new
  to_notification_model n = do
    id ← id_or_new n.id
    pure (record {
      id = id;
      user_id = n.user_id;
      title = n.title;
      body = n.body;
      kind = n.kind;
      trip_id = trip_column n.trip_id;
      created_at = n.created_at;
      read_at = n.read_at;
    })

  unfoldable pub create : Notification → Action W (Unit {0})
  create n = do model ← to_notification_model n; created ← s.create model; pure tt

  -- The first notification that is no row ends the loop before anything is inserted.
  unfoldable pub to_models : List Notification → Action W (List NotificationModel)
  to_models [] = pure []
  to_models (n ∷ ns) = do
    model ← to_notification_model n
    models ← to_models ns
    pure (model ∷ models)

  unfoldable pub create_many : List Notification → Action W (Unit {0})
  create_many [] = pure tt
  create_many (n ∷ ns) = do models ← to_models (n ∷ ns); s.create_all models

  unfoldable pub list : String → Bool → ℤ → ℤ → Action W (List Notification × ℤ)
  list user_id unread_only limit offset = do
    total ← s.count user_id unread_only
    rows ←
        s.find user_id unread_only
          (if leb_ℤ limit (pos 0) || ltb_ℤ (pos 100) limit then pos 20 else limit)
          (if ltb_ℤ offset (pos 0) then pos 0 else offset)
    pure (map to_notification rows, total)

  unfoldable pub mark_as_read : String → String → Action W (Unit {0})
  mark_as_read id user_id = do
    uid ← or_refuse (λ e. notification_not_found) (checked (r.parse_id id))
    now ← always r.now
    updated ← s.set_read uid user_id now
    raise_if (eqb updated 0) notification_not_found

  unfoldable pub platform_or_unknown : String → String
  platform_or_unknown platform =
      let normalized = trim_space (to_lower platform) in
      if is_empty normalized then "unknown" else normalized

  -- A token belongs to the user who registered it last.
  unfoldable pub register : String → String → String → Action W DeviceToken
  register user_id platform token = do
    created ← s.transaction (do
      s.delete_token (trim_space token)
      id ← always r.new_id
      s.create_token (record {
        id = id;
        user_id = user_id;
        platform = platform_or_unknown platform;
        token = trim_space token;
        created_at = 0;
      }))
    pure (to_device_token created)

  unfoldable pub list_by_users : List String → Action W (List DeviceToken)
  list_by_users [] = pure []
  list_by_users (u ∷ us) = do rows ← s.find_tokens (u ∷ us); pure (map to_device_token rows)

  unfoldable pub notification_repository : NotificationRepository W
  notification_repository = record {
    create = create;
    create_many = create_many;
    list = list;
    mark_as_read = mark_as_read;
  }

  unfoldable pub device_token_repository : DeviceTokenRepository W
  device_token_repository = record { register = register; list_by_users = list_by_users }

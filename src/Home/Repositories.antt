-- ===== src/Home/Repositories.antt =====
-- The repositories of backend/internal/db/home_repository.go over the statements that they run.
use uitgo_monorepo.Base.{ℕ, String, Bool, true, ◌||◌, Option, List, map, eqb, if◌then◌else◌}
use uitgo_monorepo.Base.Int.{ℤ, pos, leb_ℤ, ltb_ℤ}
use uitgo_monorepo.Base.Text.{is_empty}
use uitgo_monorepo.Errors.{record_not_found, saved_place_not_found}
use uitgo_monorepo.Base.Action.{Action, pure, always, raise_if, checked, ◌>>=◌}
use uitgo_monorepo.Http.{or_refuse}
use uitgo_monorepo.Trip.{Float64}
use uitgo_monorepo.Trip.Store.{Runtime}
use uitgo_monorepo.Home.{
  SavedPlace, Promotion, NewsItem, SavedPlaceRepository, PromotionRepository, NewsRepository,
}

-- `savedPlaceModel`, a row of `saved_places`
pub record SavedPlaceModel : Type 0 where
  pub id : String
  pub user_id : String
  pub name : String
  pub address : String
  pub latitude : Float64
  pub longitude : Float64
  pub created_at : ℕ
  pub updated_at : ℕ

-- `promotionModel`, a row of `promotions`
pub record PromotionModel : Type 0 where
  pub id : String
  pub title : String
  pub description : String
  pub code : String
  pub image_url : Option String
  pub gradient_start : String
  pub gradient_end : String
  pub expires_at : Option ℕ
  pub priority : ℤ
  pub is_active : Bool
  pub created_at : ℕ

-- `newsModel`, a row of `news_items`
pub record NewsModel : Type 0 where
  pub id : String
  pub title : String
  pub body : String
  pub category : String
  pub icon : String
  pub published_at : ℕ

-- The lists are in the order of their queries; an update and a deletion give the number of rows. A zero
-- time of a new row is filled in.
pub record HomeStore (W : Type 0) : Type 0 where
  pub find_places : String → Action W (List SavedPlaceModel)
  pub create_place : SavedPlaceModel → Action W SavedPlaceModel
  pub delete_place : String → String → Action W ℕ
  pub find_active_promotions : Action W (List PromotionModel)
  pub find_promotions : Action W (List PromotionModel)
  pub create_promotion : PromotionModel → Action W PromotionModel
  pub set_inactive : String → Action W ℕ
  pub find_news : ℤ → Action W (List NewsModel)

abbrev pub to_saved_place : SavedPlaceModel → SavedPlace
to_saved_place m = record {
  id = m.id;
  user_id = m.user_id;
  name = m.name;
  address = m.address;
  latitude = m.latitude;
  longitude = m.longitude;
  created_at = m.created_at;
  updated_at = m.updated_at;
}

abbrev pub to_promotion : PromotionModel → Promotion
to_promotion m = record {
  id = m.id;
  title = m.title;
  description = m.description;
  code = m.code;
  image_url = m.image_url;
  gradient_start = m.gradient_start;
  gradient_end = m.gradient_end;
  expires_at = m.expires_at;
  priority = m.priority;
  is_active = m.is_active;
}

abbrev pub to_news_item : NewsModel → NewsItem
to_news_item m = record {
  id = m.id;
  title = m.title;
  body = m.body;
  category = m.category;
  icon = m.icon;
  published_at = m.published_at;
}

module _ {W : Type 0} (r : Runtime W) (s : HomeStore W) where
  unfoldable pub list_places : String → Action W (List SavedPlace)
  list_places user_id = do rows ← s.find_places user_id; pure (map to_saved_place rows)

  unfoldable pub place_id : String → Action W String
  place_id id = if is_empty id then always r.new_id else checked (r.parse_id id)

  unfoldable pub create_place : SavedPlace → Action W SavedPlace
  create_place place = do
    id ← place_id place.id
    model ← s.create_place (record {
      id = id;
      user_id = place.user_id;
      name = place.name;
      address = place.address;
      latitude = place.latitude;
      longitude = place.longitude;
      created_at = place.created_at;
      updated_at = place.updated_at;
    })
    pure (record place {
      id = model.id;
      created_at = model.created_at;
      updated_at = model.updated_at;
    })

  unfoldable pub delete_place : String → String → Action W (Unit {0})
  delete_place user_id id = do
    uid ← or_refuse (λ e. saved_place_not_found) (checked (r.parse_id id))
    deleted ← s.delete_place uid user_id
    raise_if (eqb deleted 0) saved_place_not_found

  unfoldable pub list_active : Action W (List Promotion)
  list_active = do rows ← s.find_active_promotions; pure (map to_promotion rows)

  unfoldable pub list_all : Action W (List Promotion)
  list_all = do rows ← s.find_promotions; pure (map to_promotion rows)

  -- The row is active whatever was given; the promotion comes back with its id alone changed.
  unfoldable pub create_promotion : Promotion → Action W Promotion
  create_promotion promo = do
    id ← always r.new_id
    model ← s.create_promotion (record {
      id = id;
      title = promo.title;
      description = promo.description;
      code = promo.code;
      image_url = promo.image_url;
      gradient_start = promo.gradient_start;
      gradient_end = promo.gradient_end;
      expires_at = promo.expires_at;
      priority = promo.priority;
      is_active = true;
      created_at = 0;
    })
    pure (record promo { id = model.id })

  unfoldable pub deactivate : String → Action W (Unit {0})
  deactivate id = do
    uid ← or_refuse (λ e. record_not_found) (checked (r.parse_id id))
    updated ← s.set_inactive uid
    raise_if (eqb updated 0) record_not_found

  unfoldable pub list_latest : ℤ → Action W (List NewsItem)
  list_latest limit = do
    rows ← s.find_news (if leb_ℤ limit (pos 0) || ltb_ℤ (pos 50) limit then pos 10 else limit)
    pure (map to_news_item rows)

  unfoldable pub saved_place_repository : SavedPlaceRepository W
  saved_place_repository = record {
    list = list_places;
    create = create_place;
    delete = delete_place;
  }

  unfoldable pub promotion_repository : PromotionRepository W
  promotion_repository = record {
    list_active = list_active;
    list_all = list_all;
    create = create_promotion;
    deactivate = deactivate;
  }

  unfoldable pub news_repository : NewsRepository W
  news_repository = record { list_latest = list_latest }

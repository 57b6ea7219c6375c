-- ===== src/Home.antt =====
-- The home content: backend/internal/domain/home.go.
pub mod Cache
pub mod Coherence
pub mod Repositories
mod Tests
use uitgo_monorepo.Base.{ℕ, String, Bool, ◌||◌, Option, none, some, List}
use uitgo_monorepo.Base.Int.{ℤ}
use uitgo_monorepo.Base.Text.{is_empty}
use uitgo_monorepo.Errors.{message}
use uitgo_monorepo.Base.Action.{Action, pure, raise, always, raise_if, ◌>>=◌, ◌>>◌}
use uitgo_monorepo.Trip.{Float64}
use uitgo_monorepo.Wallet.{WalletSummary, WalletRepository}

pub record SavedPlace : Type 0 where
  pub id : String
  pub user_id : String
  pub name : String
  pub address : String
  pub latitude : Float64
  pub longitude : Float64
  pub created_at : ℕ
  pub updated_at : ℕ

pub record Promotion : Type 0 where
  pub id : String
  pub title : String
  pub description : String
  pub code : String
  pub image_url : Option String
  pub gradient_start : String
  pub gradient_end : String
  pub expires_at : Option ℕ
  pub priority : ℤ
  pub is_active : Bool

pub record NewsItem : Type 0 where
  pub id : String
  pub title : String
  pub body : String
  pub category : String
  pub icon : String
  pub published_at : ℕ

-- `Create` writes through its pointer: the place comes back.
pub record SavedPlaceRepository (W : Type 0) : Type 0 where
  pub list : String → Action W (List SavedPlace)
  pub create : SavedPlace → Action W SavedPlace
  pub delete : String → String → Action W (Unit {0})

pub record PromotionRepository (W : Type 0) : Type 0 where
  pub list_active : Action W (List Promotion)
  pub list_all : Action W (List Promotion)
  pub create : Promotion → Action W Promotion
  pub deactivate : String → Action W (Unit {0})

pub record NewsRepository (W : Type 0) : Type 0 where
  pub list_latest : ℤ → Action W (List NewsItem)

-- The struct, with the clock that its methods read.
pub record HomeService (W : Type 0) : Type 0 where
  pub wallets : WalletRepository W
  pub saved : SavedPlaceRepository W
  pub promotions : PromotionRepository W
  pub news : NewsRepository W
  pub now : W → ℕ × W

module _ {W : Type 0} (s : HomeService W) where
  unfoldable pub wallet : String → Action W WalletSummary
  wallet user_id = do
    raise_if (is_empty user_id) (message "user id required")
    s.wallets.get user_id

  unfoldable pub saved_places : String → Action W (List SavedPlace)
  saved_places user_id = do
    raise_if (is_empty user_id) (message "user id required")
    s.saved.list user_id

  unfoldable pub create_saved_place : String → Option SavedPlace → Action W SavedPlace
  create_saved_place user_id none = do
    raise_if (is_empty user_id) (message "user id required")
    raise (message "place required")
  create_saved_place user_id (some place) = do
    raise_if (is_empty user_id) (message "user id required")
    now ← always s.now
    s.saved.create (record place { user_id = user_id; created_at = now; updated_at = now })

  unfoldable pub delete_saved_place : String → String → Action W (Unit {0})
  delete_saved_place user_id id = do
    raise_if (is_empty user_id || is_empty id) (message "user id and saved place id required")
    s.saved.delete user_id id

  unfoldable pub promotions : Action W (List Promotion)
  promotions = s.promotions.list_active

  unfoldable pub news : ℤ → Action W (List NewsItem)
  news limit = s.news.list_latest limit

-- ===== src/Home/Cache.antt =====
-- The Redis cache of the promotions, backend/internal/cache/home_cache.go. The client and the JSON form
-- of a list are parameters.
use uitgo_monorepo.Base.{String, Bool, Option, none, some, List, if◌then◌else◌}
use uitgo_monorepo.Base.Int.{ℤ, pos, ltb_ℤ}
use uitgo_monorepo.Base.Action.{Result, ok, err, Action, pure, raise, attempt, ◌>>=◌, ◌>>◌}
use uitgo_monorepo.Home.{Promotion, PromotionRepository}

-- `none` of a `Get` is `redis.Nil`.
pub record RedisClient (W : Type 0) : Type 0 where
  pub get : String → Action W (Option String)
  pub set : String → String → ℤ → Action W (Unit {0})
  pub del : String → Action W (Unit {0})

-- A cache that is not nil, with the JSON form of what it holds.
pub record HomeCache (W A : Type 0) : Type 0 where
  pub client : RedisClient W
  pub ttl : ℤ
  pub encode : A → Result String
  pub decode : String → Result A

-- A value, or the error that a function without effects returned.
unfoldable pub returned : {W A : Type 0} → Result A → Action W A
returned (ok a) = pure a
returned (err e) = raise e

module _ {W A : Type 0} (c : HomeCache W A) where
  abbrev pub enabled : Bool
  enabled = ltb_ℤ (pos 0) c.ttl

  unfoldable pub decoded : Option String → Action W (Option A)
  unfolding returned
  decoded none = pure none
  decoded (some payload) = do value ← returned (c.decode payload); pure (some value)

  -- `none` is a value that is not there.
  unfoldable pub get : String → Action W (Option A)
  get key = if enabled then (do payload ← c.client.get key; decoded payload) else pure none

  unfoldable pub set : String → A → Action W (Unit {0})
  unfolding returned
  set key value =
      if enabled
      then (do payload ← returned (c.encode value); c.client.set key payload c.ttl)
      else pure tt

abbrev pub promotions_key : String
promotions_key = "home:promotions"

-- `cachedPromotionRepository`: what the cache fails with is logged and goes no further.
module _ {W : Type 0} (primary : PromotionRepository W) (cache : HomeCache W (List Promotion)) where
  -- What the cache gave, and else the list of the primary, which is put into the cache.
  unfoldable pub listed : Result (Option (List Promotion)) → Action W (List Promotion)
  listed (ok (some cached)) = pure cached
  listed _ = do
    items ← primary.list_active
    kept ← attempt (set cache promotions_key items)
    pure items

  unfoldable pub list_active : Action W (List Promotion)
  list_active = do found ← attempt (get cache promotions_key); listed found

  unfoldable pub create : Promotion → Action W Promotion
  create promo = do
    result ← primary.create promo
    dropped ← attempt (cache.client.del promotions_key)
    pure result

  unfoldable pub deactivate : String → Action W (Unit {0})
  deactivate id = do
    primary.deactivate id
    dropped ← attempt (cache.client.del promotions_key)
    pure tt

  unfoldable pub cached_promotion_repository : PromotionRepository W
  cached_promotion_repository = record {
    list_active = list_active;
    list_all = primary.list_all;
    create = create;
    deactivate = deactivate;
  }

-- `NewCachedPromotionRepository` of a repository and a cache that are there.
unfoldable pub new_cached_promotion_repository :
    {W : Type 0} → PromotionRepository W → HomeCache W (List Promotion) → PromotionRepository W
new_cached_promotion_repository repo cache =
    if enabled cache then cached_promotion_repository repo cache else repo

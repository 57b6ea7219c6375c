-- ===== src/Home/Tests.antt =====
-- The theorems on the cache at a database and a Redis in memory.
use uitgo_monorepo.Base.{
  String, ◌≡◌, refl, Bool, true, false, Option, none, some, List, [], ◌∷◌, ◌⊎◌, inl, inr,
  if◌then◌else◌,
}
use uitgo_monorepo.Base.Int.{pos}
use uitgo_monorepo.Errors.{message}
use uitgo_monorepo.Base.Action.{Result, ok, err, Action, raise}
use uitgo_monorepo.Base.Action.Ensures.{Ensures, returned, raised, Ensures-if}
use uitgo_monorepo.Home.{Promotion, PromotionRepository}
use uitgo_monorepo.Home.Cache.{HomeCache, RedisClient, list_active, create, deactivate}
use uitgo_monorepo.Home.Coherence.{
  PromotionView, Coherent, empty, same, IsCached, Dropped, list_active-Coherent, create-Coherent,
}

-- The active promotions, the entry of the cache, and whether Redis fails.
pub record Shop : Type 0 where
  pub active : List Promotion
  pub entry : Option String
  pub redis_down : Bool

abbrev tet : Promotion
tet = record {
  id = "1";
  title = "Tet";
  description = "";
  code = "TET";
  image_url = none;
  gradient_start = "";
  gradient_end = "";
  expires_at = none;
  priority = pos 1;
  is_active = true;
}

abbrev cleared : Action Shop (Unit {0})
cleared w = (ok tt, record w { entry = none })

abbrev client : RedisClient Shop
client = record {
  get = λ key w. (ok w.entry, w);
  set = λ key p ttl w. (ok tt, record w { entry = some p });
  del = λ key w. (if w.redis_down then raise (message "connection refused") else cleared) w;
}

encode : List Promotion → Result String
encode [] = ok ""
encode xs = err (message "too long")

abbrev cache : HomeCache Shop (List Promotion)
cache = record { client = client; ttl = pos 60; encode = encode; decode = λ s. ok [] }

abbrev repo : PromotionRepository Shop
repo = record {
  list_active = λ w. (ok w.active, w);
  list_all = λ w. (ok w.active, w);
  create = λ promo w. (ok promo, record w { active = promo ∷ w.active });
  deactivate = λ id w. (ok tt, record w { active = [] });
}

abbrev view : PromotionView Shop
view = record { active = λ w. w.active; entry = λ w. w.entry }

encoded : (xs : List Promotion) (p : String) → encode xs ≡ ok p → cache.decode p ≡ ok xs
unfolding encode
encoded [] p h = refl
encoded (x ∷ xs) p h = cc

deleted :
    (w : Shop)
    → Ensures
        (λ u w'. view.entry w' ≡ none)
        (λ e w'. (view.entry w' ≡ view.entry w) ⊎ (view.entry w' ≡ none))
        (client.del "home:promotions" w)
deleted w = Ensures-if w.redis_down _ _ w (λ _. raised (inl refl)) (λ _. returned refl)

laws : IsCached view cache repo
laws = record {
  encode_law = encoded;
  get_law = λ w. returned (inr refl, record { active = refl; entry = inl refl });
  set_law = λ p w. returned (record { active = refl; entry = inr refl });
  del_law = deleted;
  list_law = λ w. returned (refl, record { active = refl; entry = inl refl });
  create_law = λ promo w. returned tt;
  deactivate_law = λ id w. returned tt;
}

abbrev shop : Shop
shop = record { active = tet ∷ []; entry = none; redis_down = false }

-- The cache holds that there are no promotions.
abbrev bare_shop : Shop
bare_shop = record { active = []; entry = some ""; redis_down = false }

list_active-Coherent_example :
    Ensures
      (λ xs w'. (xs ≡ tet ∷ []) × Coherent view cache w')
      (λ e w'. Coherent view cache w')
      (list_active repo cache shop)
list_active-Coherent_example = list_active-Coherent laws shop (empty refl)

create-Coherent_example :
    Ensures
      (λ p w'. Dropped view cache (repo.create tet) bare_shop w')
      (λ e w'. Coherent view cache w')
      (create repo cache tet bare_shop)
    × Ensures
        (λ u w'. Dropped view cache (repo.deactivate "1") bare_shop w')
        (λ e w'. Coherent view cache w')
        (deactivate repo cache "1" bare_shop)
create-Coherent_example = create-Coherent laws tet "1" bare_shop (same "" refl refl)

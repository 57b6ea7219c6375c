-- ===== src/Home/Coherence.antt =====
-- What the cache of the promotions (backend/internal/cache/home_cache.go) serves.
use mathlib.Core.Path.{subst}
use uitgo_monorepo.Base.{String, ◌≡◌, refl, sym, ap, ◌∙◌, Option, none, some, List, ◌⊎◌, inl, inr}
use uitgo_monorepo.Errors.{Error}
use uitgo_monorepo.Base.Action.{Result, ok, err, Action, pure, attempt, ◌>>=◌}
use uitgo_monorepo.Base.Action.Ensures.{
  Ensures, returned, raised, Ensures-mono, Ensures-if, Ensures-bind, Ensures-attempt, Ensures-known,
}
use uitgo_monorepo.Home.{Promotion, PromotionRepository}
use uitgo_monorepo.Home.Cache.{
  RedisClient, HomeCache, enabled, decoded, get, set, promotions_key, listed, list_active, create,
  deactivate,
}
use uitgo_monorepo.Home.Cache

-- The active promotions of the database, and the entry of the cache.
pub record PromotionView (W : Type 0) : Type 0 where
  pub active : W → List Promotion
  pub entry : W → Option String

module _ {W : Type 0} (v : PromotionView W) (cache : HomeCache W (List Promotion)) where
  -- The cache holds nothing, or the active promotions.
  pub data Coherent (w : W) : Type 0 where
    empty : v.entry w ≡ none → Coherent w
    same : (p : String) → v.entry w ≡ some p → cache.decode p ≡ ok (v.active w) → Coherent w

  -- The promotions are the same, and the entry too, unless its time was over.
  pub record Kept (w w' : W) : Type 0 where
    pub active : v.active w' ≡ v.active w
    pub entry : (v.entry w' ≡ v.entry w) ⊎ (v.entry w' ≡ none)

  -- The entry may have become `p`.
  pub record Stored (p : String) (w w' : W) : Type 0 where
    pub active : v.active w' ≡ v.active w
    pub entry : ((v.entry w' ≡ v.entry w) ⊎ (v.entry w' ≡ none)) ⊎ (v.entry w' ≡ some p)

  -- What the code relies on: Redis gives what it holds or nothing, a failed `Set` may have been done, a
  -- `Del` that returns is done and one that fails may be or not, a query changes no promotion, a failed write of the database changes nothing, and
  -- the JSON form of a list reads back as the list.
  pub record IsCached (primary : PromotionRepository W) : Type 0 where
    pub encode_law :
        (xs : List Promotion) (p : String) → cache.encode xs ≡ ok p → cache.decode p ≡ ok xs
    pub get_law :
        (w : W)
        → Ensures
            (λ o w'. ((o ≡ none) ⊎ (o ≡ v.entry w)) × Kept w w')
            (λ e w'. Kept w w')
            (cache.client.get promotions_key w)
    pub set_law :
        (p : String) (w : W)
        → Ensures
            (λ u w'. Stored p w w')
            (λ e w'. Stored p w w')
            (cache.client.set promotions_key p cache.ttl w)
    pub del_law :
        (w : W)
        → Ensures
            (λ u w'. v.entry w' ≡ none)
            (λ e w'. (v.entry w' ≡ v.entry w) ⊎ (v.entry w' ≡ none))
            (cache.client.del promotions_key w)
    pub list_law :
        (w : W)
        → Ensures
            (λ xs w'. (xs ≡ v.active w) × Kept w w')
            (λ e w'. Kept w w')
            (primary.list_active w)
    pub create_law :
        (promo : Promotion) (w : W)
        → Ensures (λ p w'. Unit {0}) (λ e w'. Kept w w') (primary.create promo w)
    pub deactivate_law :
        (id : String) (w : W)
        → Ensures (λ u w'. Unit {0}) (λ e w'. Kept w w') (primary.deactivate id w)

  -- The cache is coherent at `w'`, or the database did its write from `w`, and Redis then failed to
  -- delete the entry, which is as it was after the write, or gone.
  pub data Dropped {A : Type 0} (write : Action W A) (w w' : W) : Type 0 where
    coherent : Coherent w' → Dropped write w w'
    undropped :
        (a : A) (u : W) (e : Error)
        → write w ≡ (ok a, u)
        → cache.client.del promotions_key u ≡ (err e, w')
        → (v.entry w' ≡ v.entry u) ⊎ (v.entry w' ≡ none)
        → Dropped write w w'

  Kept-refl : (w : W) → Kept w w
  Kept-refl w = record { active = refl; entry = inl refl }

  entry-Coherent :
      {w w' : W}
      → v.active w' ≡ v.active w
      → (v.entry w' ≡ v.entry w) ⊎ (v.entry w' ≡ none)
      → Coherent w
      → Coherent w'
  entry-Coherent active (inr gone) h = empty gone
  entry-Coherent active (inl kept) (empty none_there) = empty (kept ∙ none_there)
  entry-Coherent active (inl kept) (same p there reads) =
      same p (kept ∙ there) (reads ∙ ap ok (sym active))

  Kept-Coherent : {w w' : W} → Kept w w' → Coherent w → Coherent w'
  Kept-Coherent k h = entry-Coherent k.active k.entry h

  Stored-Coherent :
      {w w' : W} (p : String)
      → cache.decode p ≡ ok (v.active w)
      → Stored p w w'
      → Coherent w
      → Coherent w'
  Stored-Coherent p reads k h = stored_by p reads k.active k.entry h
    where
      stored_by :
          {w w' : W} (p : String)
          → cache.decode p ≡ ok (v.active w)
          → v.active w' ≡ v.active w
          → ((v.entry w' ≡ v.entry w) ⊎ (v.entry w' ≡ none)) ⊎ (v.entry w' ≡ some p)
          → Coherent w
          → Coherent w'
      stored_by p reads active (inl kept) h = entry-Coherent active kept h
      stored_by p reads active (inr now) h = same p now (reads ∙ ap ok (sym active))

module _ {W : Type 0} {v : PromotionView W} {cache : HomeCache W (List Promotion)}
    {primary : PromotionRepository W} (laws : IsCached v cache primary) where
  -- What is found in the cache: nothing, or the active promotions.
  abbrev Found : W → Option (List Promotion) → W → Type 0
  Found w o w' = ((o ≡ none) ⊎ (o ≡ some (v.active w))) × Kept v cache w w'

  decoded_some :
      (p : String) (r : Result (List Promotion)) (w w1 : W)
      → r ≡ ok (v.active w)
      → Kept v cache w w1
      → Ensures
          (Found w)
          (λ e w'. Kept v cache w w')
          ((Cache.returned r >>= λ value. pure (some value)) w1)
  unfolding Cache.returned
  decoded_some p (ok xs) w w1 is kept =
      let exs : xs ≡ v.active w = cc in returned (inr (ap some exs), kept)
  decoded_some p (err e) w w1 is kept = cc

  decoded-Found :
      (o : Option String) (w w1 : W)
      → (o ≡ none) ⊎ (o ≡ v.entry w)
      → Coherent v cache w
      → Kept v cache w w1
      → Ensures (Found w) (λ e w'. Kept v cache w w') (decoded cache o w1)
  unfolding decoded
  decoded-Found none w w1 from h kept = returned (inl refl, kept)
  decoded-Found (some p) w w1 (inl none_found) h kept = cc
  decoded-Found (some p) w w1 (inr there) (empty nothing) kept = cc
  decoded-Found (some p) w w1 (inr there) (same q there_q reads) kept =
      let eq : q ≡ p = cc in
      decoded_some p (cache.decode p) w w1 (subst (λ x. cache.decode x ≡ ok (v.active w)) eq reads)
        kept

  get-Found :
      (w : W)
      → Coherent v cache w
      → Ensures (Found w) (λ e w'. Kept v cache w w') (get cache promotions_key w)
  unfolding get
  get-Found w h =
      Ensures-if (enabled cache) _ _ w
        (λ on.
          Ensures-bind (cache.client.get promotions_key) _ w (laws.get_law w)
            (λ o w1 (from, kept). decoded-Found o w w1 from h kept) (λ e w1 kept. kept))
        (λ off. returned (inl refl, Kept-refl v cache w))

  set_encoded :
      (xs : List Promotion) (r : Result String) (w : W)
      → cache.encode xs ≡ r
      → xs ≡ v.active w
      → Coherent v cache w
      → Ensures
          (λ u w'. Coherent v cache w' × (v.active w' ≡ v.active w))
          (λ e w'. Coherent v cache w' × (v.active w' ≡ v.active w))
          ((Cache.returned r >>= λ p. cache.client.set promotions_key p cache.ttl) w)
  unfolding Cache.returned
  set_encoded xs (err e) w is fresh h = raised (h, refl)
  set_encoded xs (ok p) w is fresh h =
      let reads = laws.encode_law xs p is ∙ ap ok fresh in
      Ensures-mono (laws.set_law p w) (λ u w' k. (Stored-Coherent v cache p reads k h, k.active))
        (λ e w' k. (Stored-Coherent v cache p reads k h, k.active))

  set-Coherent :
      (xs : List Promotion) (w : W)
      → xs ≡ v.active w
      → Coherent v cache w
      → Ensures
          (λ u w'. Coherent v cache w' × (v.active w' ≡ v.active w))
          (λ e w'. Coherent v cache w' × (v.active w' ≡ v.active w))
          (set cache promotions_key xs w)
  unfolding set
  set-Coherent xs w fresh h =
      Ensures-if (enabled cache) _ _ w (λ on. set_encoded xs (cache.encode xs) w refl fresh h)
        (λ off. returned (h, refl))

  abbrev Fresh : W → Action W (List Promotion) → W → Type 0
  Fresh w0 m w =
      Ensures (λ xs w'. (xs ≡ v.active w0) × Coherent v cache w') (λ e w'. Coherent v cache w')
        (m w)

  read_through :
      (w0 w : W)
      → Kept v cache w0 w
      → Coherent v cache w0
      → Fresh w0
          (primary.list_active >>= λ items.
            attempt (set cache promotions_key items) >>= λ kept. pure items)
          w
  read_through w0 w kept h =
      let h1 = Kept-Coherent v cache kept h in
      Ensures-bind primary.list_active _ w (laws.list_law w)
        (λ xs w1 (are, kept1).
          Ensures-attempt (set cache promotions_key xs) (λ kept. pure xs) w1
            (set-Coherent xs w1 (are ∙ sym kept1.active) (Kept-Coherent v cache kept1 h1))
            (λ u w2 (h2, _). returned (are ∙ kept.active, h2))
            (λ e w2 (h2, _). returned (are ∙ kept.active, h2)))
        (λ e w1 kept1. Kept-Coherent v cache kept1 h1)

  listed-Fresh :
      (w : W) (r : Result (Option (List Promotion))) (w1 : W)
      → Ensures (Found w) (λ e w'. Kept v cache w w') (r, w1)
      → Coherent v cache w
      → Fresh w (listed primary cache r) w1
  unfolding listed
  listed-Fresh w (ok none) w1 (returned (from, kept)) h = read_through w w1 kept h
  listed-Fresh w (ok (some xs)) w1 (returned (inl no_value, kept)) h = cc
  listed-Fresh w (ok (some xs)) w1 (returned (inr is, kept)) h =
      let exs : xs ≡ v.active w = cc in returned (exs, Kept-Coherent v cache kept h)
  listed-Fresh w (err e) w1 (raised kept) h = read_through w w1 kept h

  -- A list of promotions that the cached repository returns is the list of the active ones in the
  -- database, from a state in which the cache holds nothing or just them; and so it is again after the
  -- call, also where it fails.
  pub list_active-Coherent :
      (w : W)
      → Coherent v cache w
      → Ensures
          (λ xs w'. (xs ≡ v.active w) × Coherent v cache w')
          (λ e w'. Coherent v cache w')
          (list_active primary cache w)
  unfolding list_active
  list_active-Coherent w h =
      listed-Fresh w (get cache promotions_key w).0 (get cache promotions_key w).1 (get-Found w h) h

  -- The `Del` after a write, whose error is logged.
  dropped :
      {A B : Type 0} (write : Action W A) (w : W) (a : A) (b : B) (w1 : W)
      → write w ≡ (ok a, w1)
      → Ensures
          (λ p w'. Dropped v cache write w w')
          (λ e w'. Coherent v cache w')
          ((attempt (cache.client.del promotions_key) >>= λ done. pure b) w1)
  dropped write w a b w1 wrote =
      Ensures-attempt (cache.client.del promotions_key) (λ done. pure b) w1
        (Ensures-known (laws.del_law w1)) (λ u w2 (gone, _). returned (coherent (empty gone)))
        (λ e w2 (left, failed). returned (undropped a w1 e wrote failed left))

  -- From a state in which the cache holds nothing or the active promotions: after a promotion was
  -- created or deactivated it does so again, unless Redis failed to delete the entry after the write
  -- of the database, and then the entry is as that write left it, or gone; where creating or
  -- deactivating fails, the cache holds nothing or the active promotions again.
  pub create-Coherent :
      (promo : Promotion) (id : String) (w : W)
      → Coherent v cache w
      → Ensures
          (λ p w'. Dropped v cache (primary.create promo) w w')
          (λ e w'. Coherent v cache w')
          (create primary cache promo w)
        × Ensures
            (λ u w'. Dropped v cache (primary.deactivate id) w w')
            (λ e w'. Coherent v cache w')
            (deactivate primary cache id w)
  unfolding create deactivate
  create-Coherent promo id w h = (
    Ensures-bind (primary.create promo) _ w (Ensures-known (laws.create_law promo w))
        (λ p w1 (_, wrote). dropped (primary.create promo) w p p w1 wrote)
        (λ e w1 (kept, _). Kept-Coherent v cache kept h),
    Ensures-bind (primary.deactivate id) _ w (Ensures-known (laws.deactivate_law id w))
        (λ u w1 (_, wrote). dropped (primary.deactivate id) w u tt w1 wrote)
        (λ e w1 (kept, _). Kept-Coherent v cache kept h),
  )

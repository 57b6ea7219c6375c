-- ===== src/Http/Drivers/Own.antt =====
-- Whose availability `updateStatus` of backend/internal/http/handlers/drivers.go changes.
use uitgo_monorepo.Base.{String, ◌≡◌, refl, Bool, true, false, not, ◌==◌, eq_iff, ◌⊎◌, inl, inr}
use uitgo_monorepo.Base.Text.{is_empty}
use uitgo_monorepo.Base.Action.{Result, ok}
use uitgo_monorepo.Base.Action.Ensures.{
  Ensures, Ensures-bind, Ensures-raise_if, Ensures-known, Ensures-mono, Ensures-any,
}
use uitgo_monorepo.Http.{Context, or_refuse, Ensures-or_refuse}
use uitgo_monorepo.Driver.{Driver}
use uitgo_monorepo.Driver.Service.{me}
use uitgo_monorepo.Http.Drivers.{update_status, status_changed}
use uitgo_monorepo.Http.Drivers.Data.{DriverHandler, not_found_or_failed}

-- The profile of the caller, as it was read, is that of the driver.
pub record IsOwn {W : Type 0} (h : DriverHandler W) (c : Context) (driver_id : String) (w : W)
    : Type 0 where
  pub driver : Driver
  pub read : W
  pub found : me h.service c.user_id w ≡ (ok driver, read)
  pub same : driver.id ≡ driver_id

not_differs : (b : Bool) → not b ≡ false → b ≡ true
not_differs true h = refl
not_differs false h = cc

module _ {W : Type 0} (h : DriverHandler W) (P : W → Type 0)
    (me_law : (user_id : String) (w : W)
      → P w
      → Ensures (λ _ w'. P w') (λ _ w'. P w') (me h.service user_id w)) where
  -- The availability of a driver is changed only for the user whose profile is that of the driver; a
  -- request of anyone else is refused, and keeps what reading a profile keeps.
  pub update_status-IsOwn :
      (c : Context) (driver_id : String) (body : Result String) (w : W)
      → P w
      → Ensures
          (λ a w'. IsOwn h c driver_id w)
          (λ e w'. P w' ⊎ IsOwn h c driver_id w)
          (update_status h c driver_id body w)
  unfolding update_status
  update_status-IsOwn c driver_id body w p =
      Ensures-raise_if (is_empty driver_id) _ _ w (λ _. inl p)
        (λ _.
          Ensures-raise_if (is_empty c.user_id) _ _ w (λ _. inl p)
            (λ _.
              Ensures-bind (or_refuse not_found_or_failed (me h.service c.user_id)) _ w
                (Ensures-or_refuse not_found_or_failed (me h.service c.user_id) w
                  (Ensures-known (me_law c.user_id w p)) (λ e w1 (p1, _). p1))
                (λ driver w1 (p1, found).
                  Ensures-raise_if (not (driver.id == driver_id)) _ _ w1 (λ _. inl p1)
                    (λ granted.
                      let own : IsOwn h c driver_id w = record {
                        driver = driver;
                        read = w1;
                        found = found;
                        same = (eq_iff driver.id driver_id).0 (not_differs _ granted);
                      } in
                      Ensures-mono (Ensures-any (status_changed h driver_id body w1))
                        (λ a w2 _. own) (λ e w2 _. inr own)))
                (λ e w1 p1. inl p1)))

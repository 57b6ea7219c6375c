-- ===== src/Trip/Memory/Tests.antt =====
-- The place of a trip that was reported last, at a trip with an earlier report.
use uitgo_monorepo.Base.{◌≡◌, some, [], ◌∷◌, arith}
use uitgo_monorepo.Base.Action.Ensures.{Ensures}
use uitgo_monorepo.Trip.Repository.{save_location, get_latest_location}
use uitgo_monorepo.Trip.Location.{save_location-latest}
use uitgo_monorepo.Trip.Memory.{Memory, stop, runtime, store, store-IsEventStore}

abbrev on_the_way : Memory
on_the_way = record {
  events =
      record { id = "e"; trip_id = "t"; kind = "location"; payload = "start"; created_at = 5 } ∷ [];
  clock = 20;
}

save_location-latest_example :
    Ensures
      (λ _ w1.
        Ensures
          (λ o w'. (o ≡ some stop) × (w'.events ≡ w1.events))
          (λ c w'. ⊥ × (w'.events ≡ w1.events))
          (get_latest_location runtime store "t" w1))
      (λ _ w1. w1.events ≡ on_the_way.events)
      (save_location runtime store "t" stop on_the_way)
save_location-latest_example =
    save_location-latest store-IsEventStore "t" stop on_the_way (λ _. omega arith, tt)

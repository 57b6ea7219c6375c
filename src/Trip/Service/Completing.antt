-- ===== src/Trip/Service/Completing.antt =====
-- What completing a trip does to the rider's wallet: the end of `UpdateStatus` of
-- backend/internal/domain/service.go, over `WalletService` and its repository.
use mathlib.Core.Path.{subst}
use uitgo_monorepo.Base.{
  eq_iff, String, ◌≡◌, refl, ap, ◌∙◌, true, false, some, ◌==◌, inl, inr, Bool-cases, if◌then◌else◌,
}
use uitgo_monorepo.Base.Int.{ℤ, pos, ◌+ℤ◌, ◌-ℤ◌, ◌≤ℤ◌, leb_ℤ, int64}
use uitgo_monorepo.Base.Text.{is_empty}
use uitgo_monorepo.Errors.{Error}
use uitgo_monorepo.Base.Action.{Result}
use uitgo_monorepo.Base.Action.Ensures.{Ensures, returned, raised, Ensures-mono, Ensures-bind}
use uitgo_monorepo.Trip.{Trip}
use uitgo_monorepo.Wallet.{WalletSummary, WalletTransaction, deduction, reward}
use uitgo_monorepo.Wallet.Store.{WalletStore, WalletTables, Same, IsWalletStore}
use uitgo_monorepo.Wallet.Repository.{wallet_repository}
use uitgo_monorepo.Wallet.Config.{WalletServiceConfig, fare_for_service}
use uitgo_monorepo.Wallet.Effect.{balance_of, points_of, Reads, Same-Reads, Applied}
use uitgo_monorepo.Wallet.Effect.Rows.{get-Reads}
use uitgo_monorepo.Wallet.Effect.Apply.{apply_transaction-Applied}
use uitgo_monorepo.Wallet.Service.{
  request, apply_transaction, charged, deduct_trip_fare, reward_trip_completion, wallet_service,
}
use uitgo_monorepo.Wallet.Service.Gate.{apply_transaction_gate}
use uitgo_monorepo.Trip.Service.{is_completed, without_amount, settle}

-- The points after the reward of one trip: a configured reward that is not positive gives none.
abbrev pub rewarded : WalletServiceConfig → ℤ → ℤ
rewarded cfg p =
    if leb_ℤ cfg.reward_points_per_trip (pos 0) then p else int64 (p +ℤ cfg.reward_points_per_trip)

module _ {W : Type 0} (t : WalletTables W) (cfg : WalletServiceConfig) where
  -- The points of the rider are the rewarded ones, every balance is as it was and so are the points of
  -- anyone else.
  record Granted (u : String) (w w' : W) : Type 0 where
    balances : (x : String) → balance_of (t.wallet w' x) ≡ balance_of (t.wallet w x)
    points : points_of (t.wallet w' u) ≡ rewarded cfg (points_of (t.wallet w u))
    others : (x : String) → (u == x) ≡ false → points_of (t.wallet w' x) ≡ points_of (t.wallet w x)

  -- The rider paid the fare, which the balance covered, and has the points of one more trip; no other
  -- balance and no other points differ.
  pub record Paid (rider service : String) (w w' : W) : Type 0 where
    pub covered : fare_for_service cfg service ≤ℤ balance_of (t.wallet w rider)
    pub positive : pos 0 ≤ℤ fare_for_service cfg service
    pub balance :
        balance_of (t.wallet w' rider)
        ≡ int64 (balance_of (t.wallet w rider) -ℤ fare_for_service cfg service)
    pub points : points_of (t.wallet w' rider) ≡ rewarded cfg (points_of (t.wallet w rider))
    pub others :
        (x : String)
        → (rider == x) ≡ false
        → (balance_of (t.wallet w' x) ≡ balance_of (t.wallet w x))
          × (points_of (t.wallet w' x) ≡ points_of (t.wallet w x))

  -- A payment that failed: no row of the wallets or the ledger differs, or the fare was charged, which
  -- the balance covered, and no points and no other balance differ.
  pub data HalfPaid (rider service : String) (w w' : W) : Type 0 where
    unpaid : Same t w w' → HalfPaid rider service w w'
    unrewarded :
        fare_for_service cfg service ≤ℤ balance_of (t.wallet w rider)
        → balance_of (t.wallet w' rider)
          ≡ int64 (balance_of (t.wallet w rider) -ℤ fare_for_service cfg service)
        → ((x : String)
            → (rider == x) ≡ false
            → balance_of (t.wallet w' x) ≡ balance_of (t.wallet w x))
        → ((x : String) → points_of (t.wallet w' x) ≡ points_of (t.wallet w x))
        → HalfPaid rider service w w'

module _ {W : Type 0} {t : WalletTables W} {s : WalletStore W} {Fault : Error → Type 0}
    (laws : IsWalletStore t s Fault) (cfg : WalletServiceConfig) where
  Same-refl : (w : W) → Same t w w
  Same-refl w = record { wallets = refl; ledgers = refl }

  -- A transaction of the service was applied, or nothing was written.
  applied :
      (tx : WalletTransaction) (w : W)
      → Ensures
          (λ a w'. Applied t tx w a w')
          (λ e w'. Same t w w')
          (apply_transaction (wallet_repository s) cfg (some tx) w)
  unfolding wallet_repository
  applied tx w = elim (apply_transaction_gate (wallet_repository s) cfg tx w) [
    | inl (_, is) ↦
        rw is (
          Ensures-mono (apply_transaction-Applied laws tx w) (λ a w' h. h) (λ e w' (_, same). same))
    | inr (_, (e, is)) ↦ rw is (raised (Same-refl w))
  ]

  charged-Ensures :
      {P : WalletSummary × WalletTransaction → W → Type 0} {Q : Error → W → Type 0} (amount : ℤ)
      (x : Result (WalletSummary × WalletTransaction) × W) (w : W)
      → Ensures P Q x
      → Ensures
          (λ found w'. (a : WalletSummary × WalletTransaction) × P a w')
          Q
          (without_amount (λ w. charged (wallet_repository s) cfg amount x) w)
  unfolding charged
  charged-Ensures amount x w (returned {a = a} p) = returned (a, p)
  charged-Ensures amount x w (raised q) = raised q

  deducted :
      (u service : String) (w : W)
      → Ensures
          (λ found w'.
            (a : WalletSummary × WalletTransaction) × Applied t
              (request u (fare_for_service cfg service) deduction)
              w
              a
              w')
          (λ e w'. Same t w w')
          (without_amount (deduct_trip_fare (wallet_repository s) cfg u service) w)
  unfolding deduct_trip_fare
  deducted u service w = elim (Bool-cases (is_empty u)) [
    | inl anon ↦ rw anon (raised (Same-refl w))
    | inr user ↦ rw user (
        charged-Ensures (fare_for_service cfg service) _ w
          (applied (request u (fare_for_service cfg service) deduction) w))
  ]

  balance_kept :
      {u : String} {amount : ℤ} {w w' : W} {a : WalletSummary × WalletTransaction}
      → Applied t (request u amount reward) w a w'
      → (x : String) → balance_of (t.wallet w' x) ≡ balance_of (t.wallet w x)
  balance_kept {u} {w} {w'} h x = elim (Bool-cases (u == x)) [
    | inl is ↦
        let eu : u ≡ x = (eq_iff u x).0 is in
        subst (λ y. balance_of (t.wallet w' y) ≡ balance_of (t.wallet w y)) eu
          (ap balance_of h.stored ∙ h.balance)
    | inr ne ↦ ap balance_of (h.others x ne)
  ]

  points_kept :
      {u : String} {amount : ℤ} {w w' : W} {a : WalletSummary × WalletTransaction}
      → Applied t (request u amount deduction) w a w'
      → (x : String) → points_of (t.wallet w' x) ≡ points_of (t.wallet w x)
  points_kept {u} {w} {w'} h x = elim (Bool-cases (u == x)) [
    | inl is ↦
        let eu : u ≡ x = (eq_iff u x).0 is in
        subst (λ y. points_of (t.wallet w' y) ≡ points_of (t.wallet w y)) eu
          (ap points_of h.stored ∙ h.points)
    | inr ne ↦ ap points_of (h.others x ne)
  ]

  seen :
      (u : String) (w : W)
      → is_empty u ≡ false
      → Ensures (λ found w'. Reads t w w') (λ e w'. Reads t w w') ((wallet_repository s).get u w)
  unfolding wallet_repository
  seen u w user =
      Ensures-mono (get-Reads laws u w user) (λ a w' (_, _, read). read) (λ e w' (_, read). read)

  granted :
      (u : String) (w : W)
      → Ensures
          (λ found w'. Granted t cfg u w w')
          (λ e w'. Reads t w w')
          (without_amount (reward_trip_completion (wallet_repository s) cfg u) w)
  unfolding reward_trip_completion
  granted u w = elim (Bool-cases (is_empty u)) [
    | inl anon ↦ rw anon (raised (Same-Reads t (Same-refl w)))
    | inr user ↦ rw user (elim (Bool-cases (leb_ℤ cfg.reward_points_per_trip (pos 0))) [
      | inl none_due ↦ rw none_due (
          Ensures-mono (seen u w user)
            (λ found w' read. record {
              balances = read.balances;
              points = rw none_due (read.points u);
              others = λ x ne. read.points x;
            })
            (λ e w' read. read))
      | inr due ↦ rw due (
          Ensures-mono
            (charged-Ensures cfg.reward_points_per_trip _ w
              (applied (request u cfg.reward_points_per_trip reward) w))
            (λ found w' (a, h). record {
              balances = balance_kept h;
              points = rw due (ap points_of h.stored ∙ h.points);
              others = λ x ne. ap points_of (h.others x ne);
            })
            (λ e w' same. Same-Reads t same))
    ])
  ]

  -- The payment that UpdateStatus makes after it has written the status, for a trip that was not
  -- completed before: where it returns, the rider was charged the fare of the service, which the
  -- balance covered, and has the points of one trip, and no other balance and no other points differ.
  -- Where it fails, no row of the wallets or of the ledger differs, or the covered fare was charged
  -- and the points were not given: no points and no other balance differ.
  pub settle-Paid :
      (trip : Trip) (w : W)
      → is_completed trip.status ≡ false
      → Ensures
          (λ u w'. Paid t cfg trip.rider_id trip.service_id w w')
          (λ e w'. HalfPaid t cfg trip.rider_id trip.service_id w w')
          (settle true (some (wallet_service (wallet_repository s) cfg)) (some trip) w)
  unfolding settle wallet_service
  settle-Paid trip w open_trip = rw open_trip (
      Ensures-bind
        (without_amount (deduct_trip_fare (wallet_repository s) cfg trip.rider_id trip.service_id))
        _ w (deducted trip.rider_id trip.service_id w)
        (λ found w1 (a, h).
          Ensures-bind
            (without_amount (reward_trip_completion (wallet_repository s) cfg trip.rider_id)) _ w1
            (granted trip.rider_id w1)
            (λ found2 w2 g. returned (record {
              covered = h.allowed;
              positive = h.nonneg;
              balance = g.balances trip.rider_id ∙ ap balance_of h.stored ∙ h.balance;
              points = g.points ∙ ap (rewarded cfg) (ap points_of h.stored ∙ h.points);
              others = λ x ne. (
                g.balances x ∙ ap balance_of (h.others x ne),
                g.others x ne ∙ ap points_of (h.others x ne),
              );
            }))
            (λ e w2 read.
              unrewarded h.allowed
                (read.balances trip.rider_id ∙ ap balance_of h.stored ∙ h.balance)
                (λ x ne. read.balances x ∙ ap balance_of (h.others x ne))
                (λ x. read.points x ∙ points_kept h x)))
        (λ e w1 same. unpaid same))

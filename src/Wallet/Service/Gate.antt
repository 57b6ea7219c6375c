-- ===== src/Wallet/Service/Gate.antt =====
-- What `WalletService` of backend/internal/domain/wallet_service.go lets through to its repository.
use uitgo_monorepo.Base.{String, ◌≡◌, refl, true, false, some, arith, ◌⊎◌, inl, inr, Bool-cases}
use uitgo_monorepo.Base.Int.{ℤ, pos, ◌≤ℤ◌, leb_ℤ}
use uitgo_monorepo.Base.Text.{is_empty}
use uitgo_monorepo.Errors.{Error, message, wallet_invalid_amount}
use uitgo_monorepo.Base.Action.{err}
use uitgo_monorepo.Wallet.{
  TransactionType, top_up, reward, deduction, other, WalletTransaction, WalletRepository,
}
use uitgo_monorepo.Wallet.Config.{
  WalletServiceConfig, default_wallet_config, fare_for_service, fare_of,
}
use uitgo_monorepo.Wallet.Service.{bad_kind, apply_transaction, deduct_trip_fare, charged}

-- The amounts that each type allows.
abbrev pub InBounds : WalletServiceConfig → TransactionType → ℤ → Type 0
InBounds cfg top_up x = (cfg.min_top_up_amount ≤ℤ x) × (x ≤ℤ cfg.max_top_up_amount)
InBounds cfg deduction x = Unit
InBounds cfg reward x = Unit
InBounds cfg (other t) x = ⊥

pub record IsAccepted (cfg : WalletServiceConfig) (tx : WalletTransaction) : Type 0 where
  pub has_user : is_empty tx.user_id ≡ false
  pub positive : pos 1 ≤ℤ tx.amount
  pub bounded : InBounds cfg tx.kind tx.amount

bad_kind-InBounds :
    (cfg : WalletServiceConfig) (k : TransactionType) (x : ℤ)
    → ((bad_kind cfg k x ≡ false) × InBounds cfg k x)
      ⊎ ((bad_kind cfg k x ≡ true) × (¬ InBounds cfg k x))
unfolding bad_kind
bad_kind-InBounds cfg top_up x = ground arith
bad_kind-InBounds cfg deduction x = inl (refl, tt)
bad_kind-InBounds cfg reward x = inl (refl, tt)
bad_kind-InBounds cfg (other t) x = inr (refl, λ b. b)

module _ {W : Type 0} (repo : WalletRepository W) (cfg : WalletServiceConfig) where
  -- An accepted transaction is handed to the repository as it is; any other is refused with an error, and neither the
  -- repository nor the state is touched.
  pub apply_transaction_gate :
      (tx : WalletTransaction) (w : W)
      → (IsAccepted cfg tx
          × (apply_transaction repo cfg (some tx) w ≡ repo.apply_transaction (some tx) w))
        ⊎ ((¬ IsAccepted cfg tx)
            × ((e : Error) × (apply_transaction repo cfg (some tx) w ≡ (err e, w))))
  unfolding apply_transaction
  apply_transaction_gate tx w = elim (Bool-cases (is_empty tx.user_id)) [
    | inl anon ↦ inr (λ a. cc (a.has_user), (message "user id required", rw anon))
    | inr user ↦ rw user (elim (Bool-cases (leb_ℤ tx.amount (pos 0))) [
      | inl small ↦ inr (
        λ a. let p : pos 1 ≤ℤ tx.amount = a.positive in ground arith,
        (wallet_invalid_amount, rw small),
      )
      | inr big ↦ rw big (elim (bad_kind-InBounds cfg tx.kind tx.amount) [
        | inl (fine, within) ↦
            inl (record { has_user = user; positive = ground arith; bounded = within }, rw fine)
        | inr (bad, beyond) ↦ inr (λ a. beyond a.bounded, (wallet_invalid_amount, rw bad))
      ])
    ])
  ]

  -- A fare of zero cannot be charged: the call fails for every user, and no state changes.
  deduct_trip_fare-zero :
      (u service : String) (w : W)
      → is_empty u ≡ false
      → fare_for_service cfg service ≡ pos 0
      → deduct_trip_fare repo cfg u service w ≡ ((err wallet_invalid_amount, pos 0), w)
  unfolding deduct_trip_fare charged apply_transaction
  deduct_trip_fare-zero u service w user free = rw (user, free) (rw free)

-- Every service is free under the default configuration.
fare_for_service-default :
    (service : String) → fare_for_service default_wallet_config service ≡ pos 0
unfolding fare_for_service fare_of
fare_for_service-default service = ground arith

-- Under the default configuration the fare of a finished trip is never charged: the deduction
-- fails with `ErrWalletInvalidAmount` for every user, service and repository.
pub deduct_trip_fare-default :
    {W : Type 0} (repo : WalletRepository W) (u service : String) (w : W)
    → is_empty u ≡ false
    → deduct_trip_fare repo default_wallet_config u service w
      ≡ ((err wallet_invalid_amount, pos 0), w)
deduct_trip_fare-default repo u service w user =
    deduct_trip_fare-zero repo default_wallet_config u service w user
      (fare_for_service-default service)

-- ===== src/Http/Wallets.antt =====
-- The handlers of wallets in backend/internal/http/handlers/wallet.go and wallet_internal.go.
use uitgo_monorepo.Base.{ℕ, String, ◌==◌, Option, none, some, List, map, if◌then◌else◌}
use uitgo_monorepo.Base.Int.{ℤ, pos, leb_ℤ}
use uitgo_monorepo.Base.Text.{is_empty, trim_space, to_lower}
use uitgo_monorepo.Errors.{
  Error, message, response, wallet_invalid_amount, wallet_insufficient_funds,
}
use uitgo_monorepo.Base.Action.{Result, ok, err, Action, pure, raise_if, ◌>>=◌, ◌>>◌}
use uitgo_monorepo.Http.{Context, refuse, or_refuse, bound}
use uitgo_monorepo.Http.Params.{sanitize_int}
use uitgo_monorepo.Wallet.{TransactionType, WalletSummary, WalletTransaction, WalletRepository}
use uitgo_monorepo.Wallet.Config.{WalletServiceConfig}
use uitgo_monorepo.Wallet.Service.{summary, transactions, top_up_wallet, apply_transaction}

-- The service, by its repository and its configuration, with what the handlers use of Go's library:
-- the text of a time in RFC 3339, and the time of a text.
pub record WalletHandler (W : Type 0) : Type 0 where
  pub repo : WalletRepository W
  pub cfg : WalletServiceConfig
  pub rfc3339 : ℕ → String
  pub parse_time : String → Option ℕ

pub record WalletResponse : Type 0 where
  pub balance : ℤ
  pub reward_points : ℤ
  pub updated_at : String

pub record WalletTransactionResponse : Type 0 where
  pub id : String
  pub kind : String
  pub amount : ℤ
  pub created_at : String

pub record WalletTransactionListResponse : Type 0 where
  pub items : List WalletTransactionResponse
  pub total : ℤ
  pub limit : ℤ
  pub offset : ℤ

pub record WalletTransactionRequest : Type 0 where
  pub user_id : String
  pub amount : ℤ
  pub kind : String
  pub created_at : String

-- `string(tx.Type)`
abbrev pub type_text : TransactionType → String
type_text TransactionType.top_up = "topup"
type_text TransactionType.reward = "reward"
type_text TransactionType.deduction = "deduction"
type_text (TransactionType.other t) = t

-- `domain.WalletTransactionType(text)`
unfoldable pub to_type : String → TransactionType
to_type s =
    if s == "topup"
    then TransactionType.top_up
    else if s == "reward"
    then TransactionType.reward
    else if s == "deduction"
    then TransactionType.deduction
    else TransactionType.other s

unfoldable pub not_topped_up : Error → Error
not_topped_up wallet_invalid_amount = response 400 wallet_invalid_amount
not_topped_up e = response 500 e

unfoldable pub not_applied : Error → Error
not_applied wallet_insufficient_funds = response 402 wallet_insufficient_funds
not_applied wallet_invalid_amount = response 400 wallet_invalid_amount
not_applied e = response 500 e

module _ {W : Type 0} (h : WalletHandler W) where
  abbrev pub to_wallet_response : WalletSummary → WalletResponse
  to_wallet_response s = record {
    balance = s.balance;
    reward_points = s.reward_points;
    updated_at = h.rfc3339 s.updated_at;
  }

  abbrev pub to_transaction_response : WalletTransaction → WalletTransactionResponse
  to_transaction_response tx = record {
    id = tx.id;
    kind = type_text tx.kind;
    amount = tx.amount;
    created_at = h.rfc3339 tx.created_at;
  }

  unfoldable pub show_summary : Context → Action W (ℕ × WalletResponse)
  show_summary c = do
    raise_if (is_empty c.user_id) (response 401 (message "missing user context"))
    found ←
        or_refuse (λ e. response 500 (message "failed to load wallet"))
          (summary h.repo h.cfg c.user_id)
    pure (200, to_wallet_response found)

  unfoldable pub show_transactions :
      Context → String → String → Action W (ℕ × WalletTransactionListResponse)
  show_transactions c limit_text offset_text = do
    raise_if (is_empty c.user_id) (response 401 (message "missing user context"))
    let limit = sanitize_int limit_text (pos 20) (pos 100)
    let offset = sanitize_int offset_text (pos 0) (pos 1000)
    (items, total) ←
        or_refuse (λ e. response 500 (message "failed to list transactions"))
          (transactions h.repo h.cfg c.user_id limit offset)
    pure (
      200,
      record {
        items = map to_transaction_response items;
        total = total;
        limit = limit;
        offset = offset;
      },
    )

  -- Whatever does not bind, the reply is the same.
  amount_of : Result ℤ → Action W ℤ
  amount_of (ok amount) = pure amount
  amount_of (err e) = refuse 400 (message "amount is required")

  unfoldable pub top_up : Context → Result ℤ → Action W (ℕ × WalletResponse)
  unfolding amount_of
  top_up c body = do
    raise_if (is_empty c.user_id) (response 401 (message "missing user context"))
    amount ← amount_of body
    raise_if (leb_ℤ amount (pos 0)) (response 400 (message "amount must be positive"))
    after ← or_refuse not_topped_up (top_up_wallet h.repo h.cfg c.user_id amount)
    pure (201, to_wallet_response after)

  -- A time that is missing or does not parse is left to the repository.
  time_or_zero : Option ℕ → ℕ
  time_or_zero none = 0
  time_or_zero (some at) = at

  unfoldable pub given_time : String → ℕ
  unfolding time_or_zero
  given_time text = if is_empty text then 0 else time_or_zero (h.parse_time text)

  unfoldable pub apply_internal : Result WalletTransactionRequest → Action W (ℕ × WalletResponse)
  apply_internal body = do
    req ← bound body
    let tx : WalletTransaction = record {
      id = "";
      user_id = req.user_id;
      amount = req.amount;
      kind = to_type (to_lower (trim_space req.kind));
      created_at = given_time req.created_at;
    }
    (after, applied) ← or_refuse not_applied (apply_transaction h.repo h.cfg (some tx))
    pure (201, to_wallet_response after)

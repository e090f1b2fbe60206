-- ===== src/Managers/Economy.antt =====
-- src/core/economy_manager.cpp. A balance is an integer; the one place where int64_t arithmetic can
-- overflow, which C++ leaves undefined, gives `none`.
pub mod Money
pub mod Moves
use mcx.Prelude.{
  ◌+◌, ◌-◌, ◌^◌, Bool, true, false, ◌&&◌, Option, none, some, [], if◌then◌else◌, Eq, nat_eq,
  text_key,
}
use mcx.Prelude.Do.{◌>>=◌}
use mcx.Prelude.Text.{Text, codes}
use mcx.Prelude.Int.{ℤ, pos, negsuc, ◌+ℤ◌, ◌-ℤ◌, ltb_ℤ, leb_ℤ}
use mcx.Maps.{Map, lookup, insert, erase}

-- A computation that is undefined in C++ where it gives `none`.
abbrev pub Defined : Type 0 → Type 0
Defined A = Option A

abbrev pub i64_min : ℤ
i64_min = negsuc (2 ^ 63 - 1)

abbrev pub i64_max : ℤ
i64_max = pos (2 ^ 63 - 1)

-- The result of an int64_t operation, from its value in the integers.
abbrev pub checked_i64 : ℤ → Defined ℤ
checked_i64 z = if leb_ℤ i64_min z && leb_ℤ z i64_max then some z else none

pub record Account : Type 0 where
  pub player_id : Text
  pub balance : ℤ

pub record EconomyManager : Type 0 where
  pub accounts : Map Text Account
  pub currency_name : Text
  pub starting_balance : ℤ

-- The members' default initializers.
unfoldable pub initial : EconomyManager
initial = record { accounts = []; currency_name = codes "Coins"; starting_balance = pos 100 }

unfoldable pub create_account : Text → ℤ → EconomyManager → EconomyManager
create_account player_id initial_balance e = record e {
  accounts =
      insert player_id (record { player_id = player_id; balance = initial_balance }) e.accounts;
}

unfoldable pub delete_account : Text → EconomyManager → EconomyManager
delete_account player_id e = record e { accounts = erase player_id e.accounts }

unfoldable pub get_balance : Text → EconomyManager → ℤ
get_balance player_id e = elim (lookup player_id e.accounts) [ none ↦ pos 0 | some a ↦ a.balance ]

-- `it->second.balance = b`
abbrev pub set_balance : Text → Account → ℤ → EconomyManager → EconomyManager
set_balance player_id a b e = record e {
  accounts = insert player_id (record a { balance = b }) e.accounts;
}

unfoldable pub deposit : Text → ℤ → EconomyManager → Defined (Bool × EconomyManager)
unfolding create_account
deposit player_id amount e =
    if leb_ℤ amount (pos 0) then some (false, e) else elim (lookup player_id e.accounts) [
      | none ↦ some (true, create_account player_id amount e)
      | some a ↦ do b ← checked_i64 (a.balance +ℤ amount); some (true, set_balance player_id a b e)
    ]

unfoldable pub withdraw : Text → ℤ → EconomyManager → Defined (Bool × EconomyManager)
withdraw player_id amount e =
    if leb_ℤ amount (pos 0) then some (false, e) else elim (lookup player_id e.accounts) [
      | none ↦ some (false, e)
      | some a ↦
          if ltb_ℤ a.balance amount
          then some (false, e)
          else do b ← checked_i64 (a.balance -ℤ amount); some (true, set_balance player_id a b e)
    ]

-- The rest of `Transfer`, after `Withdraw`. The result of `Deposit` is dropped, as in the source.
unfoldable pub pay_out : Text → ℤ → Bool × EconomyManager → Defined (Bool × EconomyManager)
pay_out to_id amount (false, e) = some (false, e)
pay_out to_id amount (true, e) = do (given, e') ← deposit to_id amount e; some (true, e')

unfoldable pub transfer : Text → Text → ℤ → EconomyManager → Defined (Bool × EconomyManager)
transfer from_id to_id amount e = do taken ← withdraw from_id amount e; pay_out to_id amount taken

unfoldable pub set_currency_name : Text → EconomyManager → EconomyManager
set_currency_name name e = record e { currency_name = name }

unfoldable pub set_starting_balance : ℤ → EconomyManager → EconomyManager
set_starting_balance amount e = record e { starting_balance = amount }

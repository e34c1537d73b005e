-- ===== src/State/Accounts.antt =====
-- The accounts of test/state/account.hpp, and class State of test/state/state.hpp.
use zvmone.Prelude.{
  ℕ, ◌-◌, ◌^◌, Bool, true, false, ◌&&◌, Option, none, some, List, [], length, replicate, ◌==◌,
}
use zvmone.Uint256.{Uint256, of_uint64}
use zvmone.Zvmc.{AccessStatus, cold, Address, Bytes32}
use zvmone.Platform.{Intx}
use zvmone.State.Maps.{Map, lookup, update}

abbrev pub zero_bytes32 : Bytes32
zero_bytes32 = replicate 32 0

pub record StorageValue : Type 0 where
  pub current : Bytes32
  pub original : Bytes32
  pub access_status : AccessStatus

abbrev pub new_storage_value : StorageValue
new_storage_value = record { current = zero_bytes32; original = zero_bytes32; access_status = cold }

-- `Account::NonceMax`
abbrev pub nonce_max : ℕ
nonce_max = 2 ^ 64 - 1

pub record Account : Type 0 where
  pub nonce : ℕ
  pub balance : Uint256
  pub storage : Map StorageValue
  pub code : List ℕ
  pub destructed : Bool
  pub erasable : Bool
  pub account_access : AccessStatus

abbrev pub new_account : Account
new_account = record {
  nonce = 0;
  balance = of_uint64 0;
  storage = [];
  code = [];
  destructed = false;
  erasable = false;
  account_access = cold;
}

abbrev pub is_empty : Intx → Account → Bool
is_empty intx a = (length a.code == 0) && (a.nonce == 0) && intx.equal a.balance (of_uint64 0)

abbrev pub Accounts : Type 0
Accounts = Map Account

-- `State::find` is `lookup`. `State::get` of an account that does not exist is undefined, `none`.
-- The account, and the accounts with it.
abbrev pub or_insert : Option Account → Address → Account → Accounts → Account × Accounts
or_insert none addr account accounts = (account, update addr account accounts)
or_insert (some a) addr account accounts = (a, accounts)

abbrev pub get_or_insert : Address → Account → Accounts → Account × Accounts
get_or_insert addr account accounts = or_insert (lookup addr accounts) addr account accounts

abbrev pub touch : Address → Accounts → Accounts
touch addr accounts =
    let (a, accounts') = get_or_insert addr new_account accounts in
    update addr (record a { erasable = true }) accounts'

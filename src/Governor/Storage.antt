-- ===== src/Governor/Storage.antt =====
-- contracts/governor/src/storage.rs, errors.rs and ttl.rs: the stored data, and the state of a call.
use conduit_contracts.Base.{
  ℕ, ◌==◌, Bool, true, false, ◌&&◌, ◌||◌, if◌then◌else◌, Option, none, List, [], ◌∷◌, ℤ, Action,
}
use conduit_contracts.Host.{Address}

pub data Role : Type 0 where
  admin fee_manager rate_manager : Role

pub data Error : Type 0 where
  not_authorized invalid_param already_initialized last_admin not_initialized : Error

pub record RoleKey : Type 0 where
  pub role : Role
  pub account : Address

abbrev pub same_role : Role → Role → Bool
same_role admin admin = true
same_role fee_manager fee_manager = true
same_role rate_manager rate_manager = true
same_role r s = false

abbrev pub same_key : RoleKey → RoleKey → Bool
same_key j k = same_role j.role k.role && (j.account == k.account)

-- Instance storage, with a field for each `DataKey`; `none` is a key that was never set. The
-- `Role` keys carry no value of their own, so `roles` lists those that are present.
pub record Store : Type 0 where
  pub fee_bps : Option ℕ
  pub fee_recipient : Option Address
  pub min_duration_seconds : Option ℕ
  pub max_rate_per_second : Option ℤ
  pub max_duration_seconds : Option ℕ
  pub factory_address : Option Address
  pub roles : List RoleKey
  pub admin_count : Option ℕ

abbrev pub empty_store : Store
empty_store = record {
  fee_bps = none;
  fee_recipient = none;
  min_duration_seconds = none;
  max_rate_per_second = none;
  max_duration_seconds = none;
  factory_address = none;
  roles = [];
  admin_count = none;
}

-- What a call sees: who authorized it, the storage, and the storage's time to live.
pub record Env : Type 0 where
  pub auth : Address → Bool
  pub store : Store
  pub ttl : ℕ

abbrev pub Call : Type 0 → Type 0
Call A = Action Env Error A

-- The presence of a role key, and its insertion and removal.
abbrev pub has_key : RoleKey → List RoleKey → Bool
has_key k [] = false
has_key k (j ∷ js) = same_key k j || has_key k js

abbrev pub insert_key : RoleKey → List RoleKey → List RoleKey
insert_key k js = if has_key k js then js else k ∷ js

abbrev pub remove_key : RoleKey → List RoleKey → List RoleKey
remove_key k [] = []
remove_key k (j ∷ js) = let rest = remove_key k js in if same_key k j then rest else j ∷ rest

abbrev pub ttl_threshold : ℕ
ttl_threshold = 100_000

abbrev pub ttl_extend_to : ℕ
ttl_extend_to = 200_000

-- ===== src/Access/Keys.antt =====
-- apps/api/src/lib/device-keys.ts: the one place where a device's key is minted. The plugin that
-- creates keys is the parameter `create`: from a request and the table of keys to a key and the table
-- with it, or nothing where it throws.
use homeparentcontrol.Prelude.{
  ℕ, ◌≡◌, ◌≢◌, String, Bool, true, false, List, [], ◌∷◌, Option, none, some, All,
}
use homeparentcontrol.Access.{ApiKey}

pub record KeyRequest : Type 0 where
  pub name : String
  pub prefix : String
  pub user_id : ℕ
  pub rate_limit_enabled : Bool
  pub device_id : ℕ
  pub household_id : ℕ
  pub permissions : List String

pub record MintedDeviceKey : Type 0 where
  pub token : String
  pub key_id : ℕ

abbrev pub CreateApiKey : Type 0
CreateApiKey = KeyRequest → List ApiKey → Option (MintedDeviceKey × List ApiKey)

-- DEVICE_PERMISSIONS.
abbrev pub device_permissions : List String
device_permissions = "sync" ∷ "policy:read" ∷ "events:write" ∷ []

unfoldable pub mint_device_key :
    CreateApiKey → ℕ → ℕ → ℕ → String → List ApiKey → Option (MintedDeviceKey × List ApiKey)
mint_device_key create service_user_id device_id household_id label keys =
    create
      (record {
        name = label;
        prefix = "hpc_dk_";
        user_id = service_user_id;
        rate_limit_enabled = false;
        device_id = device_id;
        household_id = household_id;
        permissions = device_permissions;
      })
      keys

-- The row of a key that was asked for.
abbrev pub key_row : KeyRequest → ℕ → ApiKey
key_row r id = record {
  id = id;
  user_id = r.user_id;
  enabled = true;
  rate_limit_enabled = r.rate_limit_enabled;
  last_request = none;
  expires_at = none;
  permissions = some r.permissions;
  device_id = r.device_id;
  household_id = r.household_id;
}

-- What the plugin documents: a key gets a row of its own, as asked for, under an id that no other has.
pub record Creates (create : CreateApiKey) : Type 0 where
  pub row :
      (r : KeyRequest) (keys : List ApiKey) (m : MintedDeviceKey) (after : List ApiKey)
      → create r keys ≡ some (m, after)
      → after ≡ key_row r m.key_id ∷ keys
  pub fresh :
      (r : KeyRequest) (keys : List ApiKey) (m : MintedDeviceKey) (after : List ApiKey)
      → create r keys ≡ some (m, after)
      → All (λ k. k.id ≢ m.key_id) keys

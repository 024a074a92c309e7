-- ===== src/E2ee/Keys.antt =====
-- src/keys.rs: the key pair of the proxy instance. The random private key is an argument.
use venice_e2ee_proxy.Base.{Bool, true, false, Option, none, some}
use venice_e2ee_proxy.Text.{Text}
use venice_e2ee_proxy.E2ee.{CryptoLib}

module _ (lib : CryptoLib) where
  pub record ProxyInstanceKey : Type 0 where
    pub private_key : lib.SecretKey
    pub public_key_hex : Text

  -- `ProxyInstancePrivateKey::public_key_hex`.
  unfoldable pub public_key_hex : lib.SecretKey → Text
  public_key_hex private_key = lib.hex_encode (lib.to_encoded_point (lib.public_key private_key))

  unfoldable pub from_private_key : lib.SecretKey → ProxyInstanceKey
  from_private_key private_key = record {
    private_key = private_key;
    public_key_hex = public_key_hex private_key;
  }

  -- With the configured `generate_proxy_instance_key_on_startup`.
  unfoldable pub generate_from_config : Bool → lib.SecretKey → Option ProxyInstanceKey
  generate_from_config true fresh = some (from_private_key fresh)
  generate_from_config false fresh = none

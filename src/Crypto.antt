-- ===== src/Crypto.antt =====
-- The hash and the text encodings that the provider takes from Go's standard library
-- (crypto/sha256, encoding/base64), as an interface. `CryptoLaws` is their documented behaviour.
use openbao_kubernetes_kms.Base.{◌≡◌, Option, some, Text, length}

pub record Crypto : Type 0 where
  -- sha256.Sum256
  pub sha256 : Text → Text
  -- base64.RawURLEncoding
  pub raw_url_encode : Text → Text
  pub raw_url_decode : Text → Option Text
  -- base64.RawURLEncoding.Strict()
  pub raw_url_decode_strict : Text → Option Text
  -- base64.StdEncoding
  pub std_encode : Text → Text

-- A digest has 32 bytes; 32 bytes are 43 characters of raw base64; decoding undoes encoding.
pub record CryptoLaws (c : Crypto) : Type 0 where
  pub sha256_size : (x : Text) → length (c.sha256 x) ≡ 32
  pub encode_size : (x : Text) → length x ≡ 32 → length (c.raw_url_encode x) ≡ 43
  pub decode_encode : (x : Text) → c.raw_url_decode (c.raw_url_encode x) ≡ some x

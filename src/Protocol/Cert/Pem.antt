-- ===== src/Protocol/Cert/Pem.antt =====
-- nebula-protocol/src/cert/pem.rs: PEM blocks and their banners, over the crate pem.
use nebula_rs.Prelude.{◌≡◌, not, String, string_eq, ◌==◌, if◌then◌else◌}
use nebula_rs.Prelude.Bytes.{Bytes}
use nebula_rs.Prelude.Result.{Result, ok, err, ◌>>=◌}
use nebula_rs.Protocol.Error.{Error, pem}

-- `pem::parse` gives the tag and the contents of a block; `pem::encode` is the bytes of its text. What is
-- encoded parses again.
pub record PemCrate : Type 0 where
  pub parse : Bytes → Result Error (String × Bytes)
  pub encode : String → Bytes → Bytes
  pub parse_encode :
      (tag : String) (contents : Bytes) → parse (encode tag contents) ≡ ok (tag, contents)

abbrev pub certificate_v2_banner : String
certificate_v2_banner = "NEBULA CERTIFICATE V2"

abbrev pub x25519_private_key_banner : String
x25519_private_key_banner = "NEBULA X25519 PRIVATE KEY"

module _ ⦃crate : PemCrate⦄ where
  unfoldable pub pem_decode : Bytes → String → Result Error Bytes
  pem_decode input expected_tag =
      crate.parse input >>= λ block. if not (block.0 == expected_tag) then err pem else ok block.1

  unfoldable pub pem_encode : String → Bytes → Bytes
  pem_encode tag contents = crate.encode tag contents

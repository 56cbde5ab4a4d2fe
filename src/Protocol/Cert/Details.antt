-- ===== src/Protocol/Cert/Details.antt =====
-- nebula-protocol/src/cert/der.rs: the details of a certificate.
pub mod Items
pub mod RoundTrip
use nebula_rs.Prelude.{
  ℕ, zero, suc, Bool, true, false, not, Option, none, some, List, [], ◌∷◌, ◌++◌, length, is_empty,
  if◌then◌else◌,
}
use nebula_rs.Prelude.Int.{ℤ}
use nebula_rs.Prelude.Bytes.{Bytes}
use nebula_rs.Prelude.Map.{unwrap_or}
use nebula_rs.Prelude.Result.{Result, ok, err, ◌>>=◌}
use nebula_rs.Protocol.Error.{Error, der}
use nebula_rs.Protocol.Cert.Der.{tlv, read_tlv, read_tlv_opt}
use nebula_rs.Protocol.Cert.Values.{
  Network, encode_network, decode_network, encode_der_int, decode_der_int, from_utf8,
}

pub record Details : Type 0 where
  pub name : Bytes
  pub networks : List Network
  pub unsafe_networks : List Network
  pub groups : List Bytes
  pub is_ca : Bool
  pub not_before : ℤ
  pub not_after : ℤ
  pub issuer : Bytes

-- A TLV that is written only if `b`.
unfoldable pub tlv_if : Bool → ℕ → Bytes → Bytes
tlv_if b tag content = if b then tlv tag content else []

module _ {A : Type 0} where
  -- One TLV for each element.
  unfoldable pub write_items : ℕ → (A → Bytes) → List A → Bytes
  write_items tag encode [] = []
  write_items tag encode (x ∷ xs) = tlv tag (encode x) ++ write_items tag encode xs

  -- `while !r.is_empty()`: each round reads two bytes at least, so the bytes are rounds enough.
  unfoldable pub read_items : ℕ → ℕ → (Bytes → Result Error A) → Bytes → Result Error (List A)
  read_items fuel tag decode [] = ok []
  read_items zero tag decode (b ∷ bs) = err der
  read_items (suc fuel) tag decode (b ∷ bs) = read_tlv tag (b ∷ bs) >>= λ item.
      decode item.0 >>= λ x. read_items fuel tag decode item.1 >>= λ xs. ok (x ∷ xs)

  -- The list in an optional TLV.
  unfoldable pub read_group :
      ℕ → ℕ → (Bytes → Result Error A) → Bytes → Result Error (List A × Bytes)
  read_group tag item_tag decode input = read_tlv_opt tag input >>= λ group.
      (elim group.0 [ none ↦ ok [] | some items ↦ read_items (length items) item_tag decode items ])
      >>= λ xs. ok (xs, group.1)

unfoldable pub details_body : Details → Bytes
details_body d =
    tlv 0x80 d.name
    ++ (tlv_if (not (is_empty d.networks)) 0xa1 (write_items 0x04 encode_network d.networks)
        ++ (tlv_if (not (is_empty d.unsafe_networks)) 0xa2
              (write_items 0x04 encode_network d.unsafe_networks)
            ++ (tlv_if (not (is_empty d.groups)) 0xa3 (write_items 0x0c (λ g. g) d.groups)
                ++ (tlv_if d.is_ca 0x84 (0xff ∷ [])
                    ++ (tlv 0x85 (encode_der_int d.not_before)
                        ++ (tlv 0x86 (encode_der_int d.not_after)
                            ++ tlv_if (not (is_empty d.issuer)) 0x87 d.issuer))))))

unfoldable pub encode_details : Details → Bytes
encode_details d = tlv 0xa0 (details_body d)

unfoldable pub decode_details : Bytes → Result Error Details
decode_details raw_tlv = read_tlv 0xa0 raw_tlv >>= λ outer. read_tlv 0x80 outer.0 >>= λ name_tlv.
    from_utf8 name_tlv.0 >>= λ name. read_group 0xa1 0x04 decode_network name_tlv.1 >>= λ networks.
    read_group 0xa2 0x04 decode_network networks.1 >>= λ unsafe_networks.
    read_group 0xa3 0x0c from_utf8 unsafe_networks.1 >>= λ groups.
    read_tlv_opt 0x84 groups.1 >>= λ ca. read_tlv 0x85 ca.1 >>= λ before.
    decode_der_int before.0 >>= λ not_before. read_tlv 0x86 before.1 >>= λ after.
    decode_der_int after.0 >>= λ not_after. read_tlv_opt 0x87 after.1 >>= λ issuer. ok (record {
      name = name;
      networks = networks.0;
      unsafe_networks = unsafe_networks.0;
      groups = groups.0;
      is_ca = elim ca.0 [ none ↦ false | some b ↦ true ];
      not_before = not_before;
      not_after = not_after;
      issuer = unwrap_or issuer.0 [];
    })

-- ===== src/Protocol/Cert/Details/RoundTrip.antt =====
-- The details of a certificate are read back as they were written.
use mathlib.Core.List.{append-nil}
use nebula_rs.Prelude.{
  ℕ, ◌+◌, ◌^◌, ◌<◌, ◌≤◌, ◌≡◌, refl, sym, ap, ◌∙◌, Bool, true, false, not, none, some, List, [], ◌∷◌,
  ◌++◌, arith, length, length-append, is_empty, All, nat_eq, ◌==◌, if◌then◌else◌,
}
use nebula_rs.Prelude.Bytes.{Bytes}
use nebula_rs.Prelude.Map.{unwrap_or}
use nebula_rs.Prelude.Result.{ok}
use nebula_rs.Protocol.Cert.Der.{tlv, read_tlv, read_tlv_opt}
use nebula_rs.Protocol.Cert.Der.Tlv.{read_tlv-tlv}
use nebula_rs.Protocol.Cert.Values.{
  Network, encode_network, decode_network, encode_der_int, utf8_from, from_utf8,
}
use nebula_rs.Protocol.Cert.Values.RoundTrip.{
  IsI64, decode_der_int-encode_der_int, IsNetwork, decode_network-encode_network,
}
use nebula_rs.Protocol.Cert.Details.{
  Details, tlv_if, write_items, read_group, details_body, encode_details, decode_details,
}
use nebula_rs.Protocol.Cert.Details.Items.{
  starts_other, starts_other-tlv_if, read_tlv_opt-tlv_if, length-tlv-ge, Readable,
  read_group-tlv_if,
}

abbrev pub IsText : Bytes → Type 0
IsText b = utf8_from 0 0x80 0xbf b ≡ true

-- What the Rust types guarantee, and a size that 64 bits can hold.
pub record IsDetails (d : Details) : Type 0 where
  pub name_text : IsText d.name
  pub group_texts : All IsText d.groups
  pub networks_valid : All IsNetwork d.networks
  pub unsafe_valid : All IsNetwork d.unsafe_networks
  pub before_i64 : IsI64 d.not_before
  pub after_i64 : IsI64 d.not_after
  pub fits : length (details_body d) < 2 ^ 64

networks-Readable :
    (ns : List Network) → All IsNetwork ns → Readable 0x04 encode_network decode_network ns
networks-Readable [] v = tt
networks-Readable (n ∷ ns) (x, v) = (decode_network-encode_network n x, networks-Readable ns v)

from_utf8_text : (b : Bytes) → IsText b → from_utf8 b ≡ ok b
unfolding from_utf8
from_utf8_text b h = rw h refl

texts-Readable : (gs : List Bytes) → All IsText gs → Readable 0x0c (λ g. g) from_utf8 gs
texts-Readable [] v = tt
texts-Readable (g ∷ gs) (x, v) = (from_utf8_text g x, texts-Readable gs v)

group_fits :
    {A : Type 0} (tag item_tag : ℕ) (encode : A → Bytes) (xs : List A)
    → length (write_items item_tag encode xs)
      ≤ length (tlv_if (not (is_empty xs)) tag (write_items item_tag encode xs))
unfolding write_items tlv_if
group_fits tag item_tag encode [] = omega arith
group_fits tag item_tag encode (x ∷ xs) =
    omega (arith, length-tlv-ge tag (write_items item_tag encode (x ∷ xs)))

issuer_fits : (b : Bytes) → length b ≤ length (tlv_if (not (is_empty b)) 0x87 b)
unfolding tlv_if
issuer_fits [] = omega arith
issuer_fits (x ∷ b) = omega (arith, length-tlv-ge 0x87 (x ∷ b))

flag_back :
    (b : Bool) (c : Bytes) → elim (if b then some c else none) [ none ↦ false | some x ↦ true ] ≡ b
flag_back true c = refl
flag_back false c = refl

issuer_back : (b : Bytes) → unwrap_or (if not (is_empty b) then some b else none) [] ≡ b
issuer_back [] = refl
issuer_back (x ∷ b) = refl

module _ (d : Details) (v : IsDetails d) where
  abbrev issuer_on : Bytes
  issuer_on = tlv_if (not (is_empty d.issuer)) 0x87 d.issuer

  abbrev after_on : Bytes
  after_on = tlv 0x86 (encode_der_int d.not_after) ++ issuer_on

  abbrev before_on : Bytes
  before_on = tlv 0x85 (encode_der_int d.not_before) ++ after_on

  abbrev ca_on : Bytes
  ca_on = tlv_if d.is_ca 0x84 (0xff ∷ []) ++ before_on

  abbrev group_items : Bytes
  group_items = write_items 0x0c (λ g. g) d.groups

  abbrev groups_on : Bytes
  groups_on = tlv_if (not (is_empty d.groups)) 0xa3 group_items ++ ca_on

  abbrev unsafe_items : Bytes
  unsafe_items = write_items 0x04 encode_network d.unsafe_networks

  abbrev unsafe_on : Bytes
  unsafe_on = tlv_if (not (is_empty d.unsafe_networks)) 0xa2 unsafe_items ++ groups_on

  abbrev network_items : Bytes
  network_items = write_items 0x04 encode_network d.networks

  abbrev networks_on : Bytes
  networks_on = tlv_if (not (is_empty d.networks)) 0xa1 network_items ++ unsafe_on

  sizes :
      (length (details_body d) ≡ length (tlv 0x80 d.name) + length networks_on)
      × (length networks_on
          ≡ length (tlv_if (not (is_empty d.networks)) 0xa1 network_items) + length unsafe_on)
      × (length unsafe_on
          ≡ length (tlv_if (not (is_empty d.unsafe_networks)) 0xa2 unsafe_items) + length groups_on)
      × (length groups_on
          ≡ length (tlv_if (not (is_empty d.groups)) 0xa3 group_items) + length ca_on)
      × (length ca_on ≡ length (tlv_if d.is_ca 0x84 (0xff ∷ [])) + length before_on)
      × (length before_on ≡ length (tlv 0x85 (encode_der_int d.not_before)) + length after_on)
      × (length after_on ≡ length (tlv 0x86 (encode_der_int d.not_after)) + length issuer_on)
  unfolding details_body
  sizes = (
    length-append (tlv 0x80 d.name) networks_on,
    length-append (tlv_if (not (is_empty d.networks)) 0xa1 network_items) unsafe_on,
    length-append (tlv_if (not (is_empty d.unsafe_networks)) 0xa2 unsafe_items) groups_on,
    length-append (tlv_if (not (is_empty d.groups)) 0xa3 group_items) ca_on,
    length-append (tlv_if d.is_ca 0x84 (0xff ∷ [])) before_on,
    length-append (tlv 0x85 (encode_der_int d.not_before)) after_on,
    length-append (tlv 0x86 (encode_der_int d.not_after)) issuer_on,
  )

  before_other : (tag : ℕ) → 0x85 == tag ≡ false → starts_other tag before_on ≡ true
  unfolding tlv
  before_other tag ne = ap not ne

  ca_other : (tag : ℕ) → 0x84 == tag ≡ false → 0x85 == tag ≡ false → starts_other tag ca_on ≡ true
  ca_other tag ne ne' =
      starts_other-tlv_if tag 0x84 d.is_ca (0xff ∷ []) before_on ne (before_other tag ne')

  groups_other :
      (tag : ℕ)
      → 0xa3 == tag ≡ false
      → starts_other tag ca_on ≡ true
      → starts_other tag groups_on ≡ true
  groups_other tag ne h = starts_other-tlv_if tag 0xa3 _ group_items ca_on ne h

  read_networks : read_group 0xa1 0x04 decode_network networks_on ≡ ok (d.networks, unsafe_on)
  read_networks =
      read_group-tlv_if 0x04 encode_network decode_network 0xa1 d.networks unsafe_on
        (networks-Readable d.networks v.networks_valid)
        (omega (arith, v.fits, sizes, group_fits 0xa1 0x04 encode_network d.networks))
        (starts_other-tlv_if 0xa1 0xa2 _ unsafe_items groups_on refl
          (groups_other 0xa1 refl (ca_other 0xa1 refl refl)))

  read_unsafe : read_group 0xa2 0x04 decode_network unsafe_on ≡ ok (d.unsafe_networks, groups_on)
  read_unsafe =
      read_group-tlv_if 0x04 encode_network decode_network 0xa2 d.unsafe_networks groups_on
        (networks-Readable d.unsafe_networks v.unsafe_valid)
        (omega (arith, v.fits, sizes, group_fits 0xa2 0x04 encode_network d.unsafe_networks))
        (groups_other 0xa2 refl (ca_other 0xa2 refl refl))

  read_groups : read_group 0xa3 0x0c from_utf8 groups_on ≡ ok (d.groups, ca_on)
  read_groups =
      read_group-tlv_if 0x0c (λ g. g) from_utf8 0xa3 d.groups ca_on
        (texts-Readable d.groups v.group_texts)
        (omega (arith, v.fits, sizes, group_fits 0xa3 0x0c (λ g. g) d.groups))
        (ca_other 0xa3 refl refl)

  read_ca : read_tlv_opt 0x84 ca_on ≡ ok (if d.is_ca then some (0xff ∷ []) else none, before_on)
  read_ca =
      read_tlv_opt-tlv_if d.is_ca 0x84 (0xff ∷ []) before_on (omega arith) (before_other 0x84 refl)

  read_issuer :
      read_tlv_opt 0x87 issuer_on ≡ ok (if not (is_empty d.issuer) then some d.issuer else none, [])
  read_issuer =
      ap (read_tlv_opt 0x87) (sym (append-nil issuer_on))
      ∙ read_tlv_opt-tlv_if (not (is_empty d.issuer)) 0x87 d.issuer []
          (omega (arith, v.fits, sizes, issuer_fits d.issuer)) refl

  read_before : read_tlv 0x85 before_on ≡ ok (encode_der_int d.not_before, after_on)
  read_before =
      read_tlv-tlv 0x85 (encode_der_int d.not_before) after_on
        (omega (arith, v.fits, sizes, length-tlv-ge 0x85 (encode_der_int d.not_before)))

  read_after : read_tlv 0x86 after_on ≡ ok (encode_der_int d.not_after, issuer_on)
  read_after =
      read_tlv-tlv 0x86 (encode_der_int d.not_after) issuer_on
        (omega (arith, v.fits, sizes, length-tlv-ge 0x86 (encode_der_int d.not_after)))

  read_body : read_tlv 0xa0 (encode_details d) ≡ ok (details_body d, [])
  unfolding encode_details
  read_body =
      ap (read_tlv 0xa0) (sym (append-nil (tlv 0xa0 (details_body d))))
      ∙ read_tlv-tlv 0xa0 (details_body d) [] v.fits

  read_name : read_tlv 0x80 (details_body d) ≡ ok (d.name, networks_on)
  unfolding details_body
  read_name =
      read_tlv-tlv 0x80 d.name networks_on (omega (arith, v.fits, sizes, length-tlv-ge 0x80 d.name))

  -- Details with valid UTF-8 texts, addresses and times in the range of their types, and an
  -- encoding shorter than 2^64 bytes are read back from their encoding.
  pub decode_details-encode_details : decode_details (encode_details d) ≡ ok d
  unfolding decode_details
  decode_details-encode_details =
      rw
        (
          read_body,
          read_name,
          from_utf8_text d.name v.name_text,
          read_networks,
          read_unsafe,
          read_groups,
          read_ca,
          read_before,
          decode_der_int-encode_der_int d.not_before v.before_i64,
          read_after,
          decode_der_int-encode_der_int d.not_after v.after_i64,
          read_issuer,
          flag_back d.is_ca (0xff ∷ []),
          issuer_back d.issuer,
        )
        refl

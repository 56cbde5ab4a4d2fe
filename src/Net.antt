-- ===== src/Net.antt =====
-- `std::net::IpAddr`, and the `ipnet` crate as an interface: the operations that nebula-firewall and
-- nebula-listener call, with their documented laws.
use nebula_rs.Prelude.{
  ℕ, ◌≤◌, ◌<◌, ◌/◌, ◌^◌, ◌-◌, ◌≡◌, refl, ◌↔◌, Bool, true, false, ◌&&◌, Option, none, some, arith,
  PartialEq, nat_eq, nat_beq, leb, if◌then◌else◌, ◌==◌,
}

-- An address is its value: 32 bits for `V4`, 128 bits for `V6`.
pub data IpAddr : Type 0 where
  v4 : ℕ → IpAddr
  v6 : ℕ → IpAddr

abbrev pub addr_beq : IpAddr → IpAddr → Bool
addr_beq (v4 a) (v4 b) = nat_beq a b
addr_beq (v4 a) (v6 b) = false
addr_beq (v6 a) (v4 b) = false
addr_beq (v6 a) (v6 b) = nat_beq a b

pub addr_beq_iff : (a b : IpAddr) → (addr_beq a b ≡ true) ↔ (a ≡ b)
addr_beq_iff (v4 a) (v4 b) = ground arith
addr_beq_iff (v4 a) (v6 b) = ground arith
addr_beq_iff (v6 a) (v4 b) = ground arith
addr_beq_iff (v6 a) (v6 b) = ground arith

instance abbrev pub addr_eq : PartialEq IpAddr
addr_eq = record { test = addr_beq; test_iff = addr_beq_iff }

abbrev pub addr_bits : IpAddr → ℕ
addr_bits (v4 a) = 32
addr_bits (v6 a) = 128

-- `ipnet::IpNet`: `N` is the type of networks. `new` fails on a prefix longer than the address, and
-- keeps the address as it is given; a full-length prefix contains its own address and no other.
pub record IpNet (N : Type 0) : Type 0 where
  pub new : IpAddr → ℕ → Option N
  pub addr : N → IpAddr
  pub max_prefix_len : N → ℕ
  pub contains : N → IpAddr → Bool
  pub beq : N → N → Bool
  pub beq_iff : (n m : N) → (beq n m ≡ true) ↔ (n ≡ m)
  pub max_prefix_len_lem : (n : N) → max_prefix_len n ≡ addr_bits (addr n)
  pub new_total : (a : IpAddr) (len : ℕ) → len ≤ addr_bits a → (n : N) × (new a len ≡ some n)
  pub new_invalid : (a : IpAddr) (len : ℕ) → addr_bits a < len → new a len ≡ none
  pub contains_host : (a b : IpAddr) (n : N) → new a (addr_bits a) ≡ some n → contains n b ≡ a == b

-- A concrete network, which shows that the laws can be met.
pub record Prefix : Type 0 where
  pub base : IpAddr
  pub len : ℕ

abbrev pub prefix_new : IpAddr → ℕ → Option Prefix
prefix_new a len = if leb len (addr_bits a) then some (record { base = a; len = len }) else none

abbrev pub same_network : IpAddr → ℕ → IpAddr → Bool
same_network (v4 a) len (v4 b) = nat_beq (a / 2 ^ (32 - len)) (b / 2 ^ (32 - len))
same_network (v4 a) len (v6 b) = false
same_network (v6 a) len (v4 b) = false
same_network (v6 a) len (v6 b) = nat_beq (a / 2 ^ (128 - len)) (b / 2 ^ (128 - len))

abbrev pub prefix_beq : Prefix → Prefix → Bool
prefix_beq n m = n.base == m.base && n.len == m.len

pub prefix_beq_iff : (n m : Prefix) → (prefix_beq n m ≡ true) ↔ (n ≡ m)
prefix_beq_iff n m = ground (arith, addr_beq_iff n.base m.base)

pub prefix_new_total :
    (a : IpAddr) (len : ℕ) → len ≤ addr_bits a → (n : Prefix) × (prefix_new a len ≡ some n)
prefix_new_total a len h = (record { base = a; len = len }, ground arith)

pub prefix_new_invalid : (a : IpAddr) (len : ℕ) → addr_bits a < len → prefix_new a len ≡ none
prefix_new_invalid a len h = ground arith

same_network_host : (a b : IpAddr) → same_network a (addr_bits a) b ≡ a == b
same_network_host (v4 a) (v4 b) = ground arith
same_network_host (v4 a) (v6 b) = refl
same_network_host (v6 a) (v4 b) = refl
same_network_host (v6 a) (v6 b) = ground arith

pub prefix_contains_host :
    (a b : IpAddr) (n : Prefix)
    → prefix_new a (addr_bits a) ≡ some n
    → same_network n.base n.len b ≡ a == b
prefix_contains_host a b n e = ground (arith, same_network_host a b)

instance abbrev pub prefix_net : IpNet Prefix
prefix_net = record {
  new = prefix_new;
  addr = λ n. n.base;
  max_prefix_len = λ n. addr_bits n.base;
  contains = λ n b. same_network n.base n.len b;
  beq = prefix_beq;
  beq_iff = prefix_beq_iff;
  max_prefix_len_lem = λ n. refl;
  new_total = prefix_new_total;
  new_invalid = prefix_new_invalid;
  contains_host = prefix_contains_host;
}

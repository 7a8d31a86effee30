-- ===== src/Discovery/Address.antt =====
-- crates/openplay-discovery/src/address.rs: the order of the addresses of a receiver.
pub mod Order
mod Examples
use openplay.Prelude.{[], if◌then◌else◌, List, Bool, ℕ, ltb, ◌/◌, ◌==◌, ◌∷◌, ◌||◌, ◌^◌, ◌&&◌, leb}
use Prim.Native.Nat.{bit_and}

-- An address as the number its bytes make, the first byte highest: 32 bits or 128.
pub data IpAddr : Type 0 where
  v4 v6 : (bits : ℕ) → IpAddr

-- The tests of `std::net` on the first bits: 127.0.0.0/8 and ::1, 169.254.0.0/16 and fe80::/10.
unfoldable pub is_loopback : IpAddr → Bool
is_loopback (v4 bits) = bits / 2 ^ 24 == 127
is_loopback (v6 bits) = bits == 1

unfoldable pub is_link_local : IpAddr → Bool
is_link_local (v4 bits) = bits / 2 ^ 16 == 0xa9fe
is_link_local (v6 bits) = bit_and (bits / 2 ^ 112) 0xffc0 == 0xfe80

unfoldable pub is_unspecified : IpAddr → Bool
is_unspecified (v4 bits) = bits == 0
is_unspecified (v6 bits) = bits == 0

unfoldable pub family : IpAddr → ℕ
family (v4 bits) = 0
family (v6 bits) = 1

unfoldable pub value : IpAddr → ℕ
value (v4 bits) = bits
value (v6 bits) = bits

unfoldable pub rank : IpAddr → ℕ
rank ip =
    if is_unspecified ip
    then 4
    else if is_link_local ip
    then 3
    else if is_loopback ip
    then 2
    else family ip

-- `<=` on the key `(rank(ip), *ip)`; the derived order has V4 before V6, then the value.
unfoldable pub before : IpAddr → IpAddr → Bool
before a b =
    ltb (rank a) (rank b)
    || (rank a == rank b
        && (ltb (family a) (family b) || (family a == family b && leb (value a) (value b))))

unfoldable pub insert_sorted : IpAddr → List IpAddr → List IpAddr
insert_sorted a [] = a ∷ []
insert_sorted a (b ∷ bs) =
    let rest = insert_sorted a bs in if before a b then a ∷ b ∷ bs else b ∷ rest

-- `sort_by_key`. Two addresses with one key are the same, so every sort gives this list.
unfoldable pub sort_by_connectability : List IpAddr → List IpAddr
unfolding insert_sorted
sort_by_connectability [] = []
sort_by_connectability (a ∷ as') = insert_sorted a (sort_by_connectability as')

-- ===== src/Discovery/Address/Examples.antt =====
-- Runs of the sort, and its theorems at concrete inputs.
use openplay.Prelude.{refl, [], ◌∷◌, ◌*◌, ◌≡◌, ◌^◌, ◌+◌}
use mathlib.Core.List.{Permᴰ}
use openplay.Discovery.Address.{
  IpAddr, v4, v6, sort_by_connectability, insert_sorted, before, rank, is_unspecified,
  is_link_local, is_loopback, family, value,
}
use openplay.Discovery.Address.Order.{
  IsSorted, sort_by_connectability-Perm, sort_by_connectability_lem,
}

-- 127.0.0.1
abbrev localhost : IpAddr
localhost = v4 0x7f000001

-- fe80::1
abbrev link_local : IpAddr
link_local = v6 (0xfe80 * 2 ^ 112 + 1)

-- 192.168.1.5
abbrev home : IpAddr
home = v4 0xc0a80105

-- 2001:db8::1
abbrev global : IpAddr
global = v6 (0x20010db8 * 2 ^ 96 + 1)

-- 169.254.0.1
abbrev self_assigned : IpAddr
self_assigned = v4 0xa9fe0001

sorted-sample :
    sort_by_connectability (localhost ∷ link_local ∷ home ∷ global ∷ self_assigned ∷ [])
    ≡ home ∷ global ∷ localhost ∷ self_assigned ∷ link_local ∷ []
unfolding sort_by_connectability insert_sorted before rank is_unspecified is_link_local is_loopback
    family value
sorted-sample = refl

sort_by_connectability-Perm_sample :
    sort_by_connectability (localhost ∷ home ∷ []) ≡ sort_by_connectability (home ∷ localhost ∷ [])
sort_by_connectability-Perm_sample = sort_by_connectability-Perm (Permᴰ.swap refl refl)

sort_by_connectability_lem_sample :
    IsSorted (sort_by_connectability (localhost ∷ home ∷ []))
    × Permᴰ (sort_by_connectability (localhost ∷ home ∷ [])) (localhost ∷ home ∷ [])
sort_by_connectability_lem_sample = sort_by_connectability_lem (localhost ∷ home ∷ [])

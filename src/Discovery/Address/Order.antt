-- ===== src/Discovery/Address/Order.antt =====
-- The sorted addresses do not depend on the order they arrive in.
use openplay.Prelude.{inl, inr, refl}
use mathlib.Core.List.{Permᴰ}
use openplay.Prelude.{true, false, [], List, ◌≡◌, arith, ◌∷◌, All, Bool-cases, ◌∙◌, All-mono}
use openplay.Discovery.Address.{
  IpAddr, v4, v6, before, insert_sorted, family, value, sort_by_connectability,
}

same_address : (a b : IpAddr) → family a ≡ family b → value a ≡ value b → a ≡ b
unfolding family value
same_address (v4 x) (v4 y) f v = ground (arith, v)
same_address (v6 x) (v6 y) f v = ground (arith, v)
same_address (v4 x) (v6 y) f v = absurd (omega arith)
same_address (v6 x) (v4 y) f v = absurd (omega arith)

before_antisym : (a b : IpAddr) → before a b ≡ true → before b a ≡ true → a ≡ b
unfolding before
before_antisym a b h k = same_address a b (ground arith) (ground arith)

before_total : (a b : IpAddr) → before a b ≡ false → before b a ≡ true
unfolding before
before_total a b h = ground arith

before_trans : (a b c : IpAddr) → before a b ≡ true → before b c ≡ true → before a c ≡ true
unfolding before
before_trans a b c h k = ground arith

insert_sorted_comm :
    (a b : IpAddr) (l : List IpAddr)
    → insert_sorted a (insert_sorted b l) ≡ insert_sorted b (insert_sorted a l)
unfolding insert_sorted
insert_sorted_comm a b [] = ground (arith, before_antisym a b, before_total a b, before_total b a)
insert_sorted_comm a b (c ∷ l) = ground (
  arith,
  before_antisym a b,
  before_total a b,
  before_total b a,
  before_trans a b c,
  before_trans b a c,
  insert_sorted_comm a b l,
)

-- Whatever order the addresses arrive in, the sorted list is the same.
pub sort_by_connectability-Perm :
    {l m : List IpAddr} → Permᴰ l m → sort_by_connectability l ≡ sort_by_connectability m
unfolding sort_by_connectability
sort_by_connectability-Perm Permᴰ.nil = refl
sort_by_connectability-Perm (Permᴰ.cons e d) = cc (e, sort_by_connectability-Perm d)
sort_by_connectability-Perm (Permᴰ.swap {a} {b} {l = l} e f) =
    insert_sorted_comm a b (sort_by_connectability l) ∙ cc (e, f)
sort_by_connectability-Perm (Permᴰ.trans d e) =
    sort_by_connectability-Perm d ∙ sort_by_connectability-Perm e

insert_sorted-All :
    (P : IpAddr → Type 0) (a : IpAddr) (l : List IpAddr) → P a → All P l → All P (insert_sorted a l)
unfolding insert_sorted
insert_sorted-All P a [] h k = (h, tt)
insert_sorted-All P a (b ∷ l) h k = ground (arith, h, k, insert_sorted-All P a l h k.1)

-- Each address is before all that follow it.
abbrev pub IsSorted : List IpAddr → Type 0
IsSorted [] = Unit {0}
IsSorted (a ∷ l) = All (λ b. before a b ≡ true) l × IsSorted l

insert_sorted-IsSorted : (a : IpAddr) (l : List IpAddr) → IsSorted l → IsSorted (insert_sorted a l)
unfolding insert_sorted
insert_sorted-IsSorted a [] s = (tt, tt)
insert_sorted-IsSorted a (b ∷ l) s = elim (Bool-cases (before a b)) [
  | inl first ↦
      let behind =
        All-mono (λ c. before b c ≡ true) (λ c. before a c ≡ true) l
          (λ c h. before_trans a b c first h) s.0 in
      ground (arith, behind)
  | inr later ↦
      let ahead = insert_sorted-All (λ c. before b c ≡ true) a l (before_total a b later) s.0 in
      let rest = insert_sorted-IsSorted a l s.1 in ground (arith, ahead, rest)
]

sort_by_connectability-IsSorted : (l : List IpAddr) → IsSorted (sort_by_connectability l)
unfolding sort_by_connectability
sort_by_connectability-IsSorted [] = tt
sort_by_connectability-IsSorted (a ∷ l) =
    insert_sorted-IsSorted a (sort_by_connectability l) (sort_by_connectability-IsSorted l)

insert_sorted-Perm : (a : IpAddr) (l : List IpAddr) → Permᴰ (insert_sorted a l) (a ∷ l)
unfolding insert_sorted
insert_sorted-Perm a [] = Permᴰ.cons refl Permᴰ.nil
insert_sorted-Perm a (b ∷ l) = elim (Bool-cases (before a b)) [
  | inl first ↦ rw (insert_sorted, first) (same (a ∷ b ∷ l))
  | inr later ↦
      rw (insert_sorted, later)
        (Permᴰ.trans (Permᴰ.cons refl (insert_sorted-Perm a l)) (Permᴰ.swap refl refl))
]
  where
    same : (m : List IpAddr) → Permᴰ m m
    same [] = Permᴰ.nil
    same (x ∷ m) = Permᴰ.cons refl (same m)

-- The sorted list holds the same addresses, each as often, and each stands before all that are
-- less connectable: those of a higher rank, or of the same rank and a later value. So the first
-- address is the most connectable one.
pub sort_by_connectability_lem :
    (l : List IpAddr) → IsSorted (sort_by_connectability l) × Permᴰ (sort_by_connectability l) l
unfolding sort_by_connectability
sort_by_connectability_lem [] = (tt, Permᴰ.nil)
sort_by_connectability_lem (a ∷ l) =
    let rest = sort_by_connectability_lem l in
    (
      sort_by_connectability-IsSorted (a ∷ l),
      Permᴰ.trans (insert_sorted-Perm a (sort_by_connectability l)) (Permᴰ.cons refl rest.1),
    )

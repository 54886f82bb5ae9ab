-- ===== src/Jmap/Guard.antt =====
-- The address guard of src/jmap.rs against the address blocks of its comments and of the IANA
-- registries, in CIDR notation.
use Prim.Native.Nat.{bit_and}
use jmap2telegram.Prelude.{
  if◌then◌else◌, ℕ, zero, suc, ◌+◌, ◌-◌, ◌*◌, ◌/◌, ◌^◌, ◌<◌, ◌≡◌, refl, sym, Bool, true, false,
  ◌&&◌, ◌||◌, List, [], ◌∷◌, arith, leb, ◌==◌, nat_eq, any,
}
use jmap2telegram.Jmap.{Ipv4Addr, is_unspecified, is_broadcast, is_shared, is_disallowed_v4}

pub record AreOctets (a : Ipv4Addr) : Type 0 where
  pub b0 : a.o0 < 256
  pub b1 : a.o1 < 256
  pub b2 : a.o2 < 256
  pub b3 : a.o3 < 256

-- The 32 bits of an address.
abbrev pub bits : Ipv4Addr → ℕ
bits a = a.o0 * 2 ^ 24 + a.o1 * 2 ^ 16 + a.o2 * 2 ^ 8 + a.o3

-- `a.b.c.d/len`: the first `len` bits agree.
pub record Block : Type 0 where
  pub base : Ipv4Addr
  pub len : ℕ

abbrev pub contains : Block → Ipv4Addr → Bool
contains k a = bits a / 2 ^ (32 - k.len) == bits k.base / 2 ^ (32 - k.len)

abbrev pub block : ℕ → ℕ → ℕ → ℕ → ℕ → Block
block o0 o1 o2 o3 len = record { base = record { o0 = o0; o1 = o1; o2 = o2; o3 = o3 }; len = len }

-- Private use, loopback, link-local (with the metadata address), unspecified, multicast, limited
-- broadcast, documentation, and the shared address space of RFC 6598.
abbrev pub blocked : List Block
blocked =
    block 10 0 0 0 8
    ∷ block 172 16 0 0 12
    ∷ block 192 168 0 0 16
    ∷ block 127 0 0 0 8
    ∷ block 169 254 0 0 16
    ∷ block 0 0 0 0 32
    ∷ block 224 0 0 0 4
    ∷ block 255 255 255 255 32
    ∷ block 192 0 2 0 24
    ∷ block 198 51 100 0 24
    ∷ block 203 0 113 0 24
    ∷ block 100 64 0 0 10
    ∷ []

-- A test of every octet, by counting down.
holds_under : (ℕ → Bool) → ℕ → Bool
holds_under test zero = true
holds_under test (suc bound) =
    let rest = holds_under test bound in if test bound then rest else false

test-holds_under :
    (test : ℕ → Bool) (bound octet : ℕ)
    → octet < bound
    → holds_under test bound ≡ true
    → test octet ≡ true
unfolding holds_under
test-holds_under test zero octet small table = absurd (omega arith)
test-holds_under test (suc bound) octet small table =
    ground (arith, test-holds_under test bound octet)

-- The mask of RFC 6598's second octet, value by value.
abbrev mask_agrees : ℕ → Bool
mask_agrees x = elim (leb 64 x && leb x 127) [
  | true ↦ bit_and x 0b1100_0000 == 0b0100_0000
  | false ↦ elim (bit_and x 0b1100_0000 == 0b0100_0000) [ true ↦ false | false ↦ true ]
]

mask_table : holds_under mask_agrees 256 ≡ true
unfolding holds_under
mask_table = refl

mask_lem : (x : ℕ) → x < 256 → (bit_and x 0b1100_0000 == 0b0100_0000) ≡ (leb 64 x && leb x 127)
mask_lem x h = ground (arith, test-holds_under mask_agrees 256 x h mask_table)

module _ (a : Ipv4Addr) (octets : AreOctets a) where
  contains_10 : contains (block 10 0 0 0 8) a ≡ (a.o0 == 10)
  contains_10 = ground arith

  contains_172 : contains (block 172 16 0 0 12) a ≡ (a.o0 == 172 && (leb 16 a.o1 && leb a.o1 31))
  contains_172 = ground arith

  contains_shared : contains (block 100 64 0 0 10) a ≡ is_shared a
  unfolding is_shared
  contains_shared = rw (mask_lem a.o1 octets.b1) (ground arith)

  contains_32 : contains (block 255 255 255 255 32) a ≡ is_broadcast a
  unfolding is_broadcast
  contains_32 = ground arith

  contains_192_168 : contains (block 192 168 0 0 16) a ≡ (a.o0 == 192 && a.o1 == 168)
  contains_192_168 = ground arith

  contains_127 : contains (block 127 0 0 0 8) a ≡ (a.o0 == 127)
  contains_127 = ground arith

  contains_169_254 : contains (block 169 254 0 0 16) a ≡ (a.o0 == 169 && a.o1 == 254)
  contains_169_254 = ground arith

  contains_0 : contains (block 0 0 0 0 32) a ≡ is_unspecified a
  unfolding is_unspecified
  contains_0 = ground arith

  contains_224 : contains (block 224 0 0 0 4) a ≡ (leb 224 a.o0 && leb a.o0 239)
  contains_224 = ground arith

  contains_192_0_2 : contains (block 192 0 2 0 24) a ≡ (a.o0 == 192 && (a.o1 == 0 && a.o2 == 2))
  contains_192_0_2 = ground arith

  contains_198_51_100 :
      contains (block 198 51 100 0 24) a ≡ (a.o0 == 198 && (a.o1 == 51 && a.o2 == 100))
  contains_198_51_100 = ground arith

  contains_203_0_113 :
      contains (block 203 0 113 0 24) a ≡ (a.o0 == 203 && (a.o1 == 0 && a.o2 == 113))
  contains_203_0_113 = ground arith

-- Twelve tests joined to the right are those tests joined as the source joins them.
regroup :
    (p q r s t u v w x y z o : Bool)
    → (p || (q || (r || (s || (t || (u || (v || (w || (x || (y || (z || (o || false))))))))))))
      ≡ (p || q || r || s || t || u || v || w || (x || y || z) || o)
regroup true q r s t u v w x y z o = refl
regroup false true r s t u v w x y z o = refl
regroup false false true s t u v w x y z o = refl
regroup false false false true t u v w x y z o = refl
regroup false false false false true u v w x y z o = refl
regroup false false false false false true v w x y z o = refl
regroup false false false false false false true w x y z o = refl
regroup false false false false false false false true x y z o = refl
regroup false false false false false false false false true y z o = refl
regroup false false false false false false false false false true z o = refl
regroup false false false false false false false false false false true o = refl
regroup false false false false false false false false false false false true = refl
regroup false false false false false false false false false false false false = refl

-- `is_disallowed_v4` refuses exactly the addresses of the twelve blocks, for every address whose
-- parts are octets.
pub is_disallowed_v4-blocked :
    (a : Ipv4Addr) → AreOctets a → is_disallowed_v4 a ≡ any (λ k. contains k a) blocked
unfolding is_disallowed_v4 any
is_disallowed_v4-blocked a octets = sym (
    simp
      (
        contains_10 a octets,
        contains_172 a octets,
        contains_192_168 a octets,
        contains_127 a octets,
        contains_169_254 a octets,
        contains_0 a octets,
        contains_224 a octets,
        contains_32 a octets,
        contains_192_0_2 a octets,
        contains_198_51_100 a octets,
        contains_203_0_113 a octets,
        contains_shared a octets,
      )
      (regroup (a.o0 == 10) (a.o0 == 172 && (leb 16 a.o1 && leb a.o1 31))
        (a.o0 == 192 && a.o1 == 168) (a.o0 == 127) (a.o0 == 169 && a.o1 == 254) (is_unspecified a)
        (leb 224 a.o0 && leb a.o0 239) (is_broadcast a) (a.o0 == 192 && (a.o1 == 0 && a.o2 == 2))
        (a.o0 == 198 && (a.o1 == 51 && a.o2 == 100)) (a.o0 == 203 && (a.o1 == 0 && a.o2 == 113))
        (is_shared a)))

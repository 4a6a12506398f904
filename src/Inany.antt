-- ===== src/Inany.antt =====
-- inany.h: addresses that are IPv4 or IPv6, and socket addresses.
use passt.Base.{
  ℕ, ◌*◌, ◌/◌, ◌%◌, ◌^◌, ◌==◌, Bool, true, false, not, ◌&&◌, ◌||◌, Option, none, some, Run, done,
  aborted, ntohs, if◌then◌else◌,
}

-- `union inany_addr`, by its member `u32[4]` as a little-endian host reads it
pub record InanyAddr : Type 0 where
  pub u32_0 : ℕ
  pub u32_1 : ℕ
  pub u32_2 : ℕ
  pub u32_3 : ℕ

-- `sa_family_t`; `af_other` is any value but AF_INET and AF_INET6
pub data AddrFamily : Type 0 where
  af_inet af_inet6 af_other : AddrFamily

-- `union sockaddr_inany`: the address, and the port in network order
pub data SockaddrInany : Type 0 where
  sa4 : ℕ → ℕ → SockaddrInany
  sa6 : InanyAddr → ℕ → SockaddrInany
  sa_other : SockaddrInany

abbrev pub inany_any6 : InanyAddr
inany_any6 = record { u32_0 = 0; u32_1 = 0; u32_2 = 0; u32_3 = 0 }

-- inany_from_v4()
unfoldable pub inany_from_v4 : ℕ → InanyAddr
inany_from_v4 a4 = record { u32_0 = 0; u32_1 = 0; u32_2 = 0xffff * 2 ^ 16; u32_3 = a4 }

-- the bytes ::ffff:0.0.0.0
abbrev pub inany_any4 : InanyAddr
inany_any4 = record { u32_0 = 0; u32_1 = 0; u32_2 = 0xffff0000; u32_3 = 0 }

-- IN6_IS_ADDR_V4MAPPED, and the embedded address
unfoldable pub inany_v4 : InanyAddr → Option ℕ
inany_v4 a = if a.u32_0 == 0 && a.u32_1 == 0 && a.u32_2 == 0xffff0000 then some a.u32_3 else none

unfoldable pub inany_equals : InanyAddr → InanyAddr → Bool
inany_equals a b =
    a.u32_0 == b.u32_0 && a.u32_1 == b.u32_1 && a.u32_2 == b.u32_2 && a.u32_3 == b.u32_3

-- The memory at `addr` is read by words: an `in_addr` is the first of them.
unfoldable pub inany_from_af : AddrFamily → InanyAddr → Run InanyAddr
unfolding inany_from_v4
inany_from_af af_inet6 addr = done addr
inany_from_af af_inet addr = done (inany_from_v4 addr.u32_0)
inany_from_af af_other addr = aborted

-- `none` is the -1 of an address of another family
unfoldable pub inany_from_sockaddr : SockaddrInany → Option (InanyAddr × ℕ)
unfolding inany_from_v4
inany_from_sockaddr (sa6 a port) = some (a, ntohs port)
inany_from_sockaddr (sa4 a4 port) = some (inany_from_v4 a4, ntohs port)
inany_from_sockaddr sa_other = none

-- The macros of ip.h and of the C library on IPv4 addresses in network order, as a little-endian
-- host reads them: the first byte is the lowest.
abbrev pub is_loopback4 : ℕ → Bool
is_loopback4 a = a % 2 ^ 8 == 127

abbrev pub is_multicast4 : ℕ → Bool
is_multicast4 a = a % 2 ^ 8 / 2 ^ 4 == 14

abbrev pub is_broadcast4 : ℕ → Bool
is_broadcast4 a = a == 0xffffffff

-- inany_loopback4, inany_loopback6
abbrev pub inany_loopback4 : InanyAddr
inany_loopback4 = record { u32_0 = 0; u32_1 = 0; u32_2 = 0xffff0000; u32_3 = 0x0100007f }

abbrev pub inany_loopback6 : InanyAddr
inany_loopback6 = record { u32_0 = 0; u32_1 = 0; u32_2 = 0; u32_3 = 0x01000000 }

-- A test of the IPv4 address, if there is one.
abbrev pub any4 : (ℕ → Bool) → Option ℕ → Bool
any4 test none = false
any4 test (some a4) = test a4

-- inany_equals4(); the other address is an `in_addr`
unfoldable pub inany_equals4 : InanyAddr → ℕ → Bool
unfolding inany_v4
inany_equals4 a b = any4 (λ a4. a4 == b) (inany_v4 a)

-- inany_equals6(); the other address is an `in6_addr`
unfoldable pub inany_equals6 : InanyAddr → InanyAddr → Bool
unfolding inany_equals
inany_equals6 a b = inany_equals a b

unfoldable pub inany_is_loopback4 : InanyAddr → Bool
unfolding inany_v4
inany_is_loopback4 a = any4 is_loopback4 (inany_v4 a)

unfoldable pub inany_is_loopback6 : InanyAddr → Bool
unfolding inany_equals
inany_is_loopback6 a = inany_equals a inany_loopback6

unfoldable pub inany_is_loopback : InanyAddr → Bool
unfolding inany_is_loopback4 inany_is_loopback6
inany_is_loopback a = inany_is_loopback4 a || inany_is_loopback6 a

unfoldable pub inany_is_unspecified4 : InanyAddr → Bool
unfolding inany_v4
inany_is_unspecified4 a = any4 (λ a4. a4 == 0) (inany_v4 a)

unfoldable pub inany_is_unspecified6 : InanyAddr → Bool
unfolding inany_equals
inany_is_unspecified6 a = inany_equals a inany_any6

unfoldable pub inany_is_unspecified : InanyAddr → Bool
unfolding inany_is_unspecified4 inany_is_unspecified6
inany_is_unspecified a = inany_is_unspecified4 a || inany_is_unspecified6 a

-- fe80::/10
unfoldable pub inany_is_linklocal6 : InanyAddr → Bool
inany_is_linklocal6 a = a.u32_0 % 2 ^ 8 == 0xfe && a.u32_0 / 2 ^ 8 % 2 ^ 8 / 2 ^ 6 == 2

-- ff00::/8, and IPv4 multicast and broadcast
unfoldable pub inany_is_multicast : InanyAddr → Bool
unfolding inany_v4
inany_is_multicast a =
    a.u32_0 % 2 ^ 8 == 0xff || any4 (λ a4. is_multicast4 a4 || is_broadcast4 a4) (inany_v4 a)

unfoldable pub inany_is_unicast : InanyAddr → Bool
unfolding inany_is_unspecified inany_is_multicast
inany_is_unicast a = not (inany_is_unspecified a) && not (inany_is_multicast a)

abbrev pub is_some : Option ℕ → Bool
is_some none = false
is_some (some a) = true

abbrev pub same_test : Bool → Bool → Bool
same_test true b = b
same_test false b = not b

-- inany_matches(); `none` is a null pointer
unfoldable pub inany_matches : Option InanyAddr → Option InanyAddr → Bool
unfolding inany_is_unspecified inany_v4 inany_equals
inany_matches none b = true
inany_matches (some a) none = true
inany_matches (some a) (some b) =
    if inany_is_unspecified a || inany_is_unspecified b
    then same_test (is_some (inany_v4 a)) (is_some (inany_v4 b))
    else inany_equals a b

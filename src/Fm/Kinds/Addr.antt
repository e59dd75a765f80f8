-- ===== src/Fm/Kinds/Addr.antt =====
-- net/netip.Addr as far as the registries read it: the zero value, an IPv4 address, or an IPv6
-- address with its zone.
use dash_fabric.Base.{
  ℕ, [], Bool, true, false, ◌&&◌, Bytes, nat_beq, bytes_beq, Option, fail_if, ◌>>◌, not,
}

pub data Addr : Type 0 where
  zero_addr : Addr
  v4 : ℕ → Addr
  v6 : ℕ → Bytes → Addr

abbrev pub is_valid : Addr → Bool
is_valid zero_addr = false
is_valid _ = true

-- 0.0.0.0, or :: without a zone
abbrev pub is_unspecified : Addr → Bool
is_unspecified zero_addr = false
is_unspecified (v4 a) = nat_beq a 0
is_unspecified (v6 a zone) = nat_beq a 0 && bytes_beq zone []

pub data AddrError : Type 0 where
  unset unspecified : AddrError

-- The two checks that the registries make of each address.
abbrev pub check_addr : Addr → Option AddrError
check_addr a = do fail_if (not (is_valid a)) unset; fail_if (is_unspecified a) unspecified

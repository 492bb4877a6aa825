-- ===== src/SocketPosix/Address.antt =====
-- Socket addresses in rust_net/socket_posix.rs: what `bind` and `connect` hand to the kernel, and
-- what `local_addr` reads back. Octets, ports and masks are numbers; `little` says that the machine
-- is little-endian, which decides what `to_be` and `from_be` do.
use rust_task_runner.Common.{
  ℕ, ◌+◌, ◌*◌, ◌/◌, ◌%◌, ◌^◌, ◌<◌, ◌≡◌, refl, Bool, true, false, List, if◌then◌else◌, arith,
}
use rust_task_runner.SocketPosix.{IoResult, ok, err}

pub record Ipv4Addr : Type 0 where
  pub a : ℕ
  pub b : ℕ
  pub c : ℕ
  pub d : ℕ

-- `u32::from(ip)` and `Ipv4Addr::from(bits)`.
abbrev pub ip_bits : Ipv4Addr → ℕ
ip_bits ip = ip.a * 2 ^ 24 + ip.b * 2 ^ 16 + ip.c * 2 ^ 8 + ip.d

abbrev pub ip_from : ℕ → Ipv4Addr
ip_from n = record { a = n / 2 ^ 24 % 256; b = n / 2 ^ 16 % 256; c = n / 2 ^ 8 % 256; d = n % 256 }

pub data SocketAddr : Type 0 where
  v4 : Ipv4Addr → ℕ → SocketAddr
  v6 : List ℕ → ℕ → ℕ → ℕ → SocketAddr

-- `to_be` of a `u16` and of a `u32`; `from_be` is the same function.
abbrev pub swap16 : Bool → ℕ → ℕ
swap16 little n = if little then n % 256 * 256 + n / 256 else n

abbrev pub swap32 : Bool → ℕ → ℕ
swap32 little n =
    if little
    then n % 256 * 2 ^ 24 + n / 256 % 256 * 2 ^ 16 + n / 2 ^ 16 % 256 * 256 + n / 2 ^ 24
    else n

-- `sockaddr_in` and `sockaddr_in6` in a `sockaddr_storage`, or one of another family.
pub data Sockaddr : Type 0 where
  sockaddr_in : ℕ → ℕ → Sockaddr
  sockaddr_in6 : ℕ → ℕ → List ℕ → ℕ → Sockaddr
  unknown : ℕ → Sockaddr

-- The `match` of `syscall_bind`, which that of `syscall_connect` repeats.
unfoldable pub to_sockaddr : Bool → SocketAddr → Sockaddr
to_sockaddr little (v4 ip port) = sockaddr_in (swap16 little port) (swap32 little (ip_bits ip))
to_sockaddr little (v6 ip port flowinfo scope_id) = sockaddr_in6 (swap16 little port) 0 ip 0

-- The `match` of `getsockname_addr`; `io::Error::other` has no number of the system.
abbrev pub other_error : ℕ
other_error = 0

unfoldable pub from_sockaddr : Bool → Sockaddr → IoResult SocketAddr
from_sockaddr little (sockaddr_in port addr) =
    ok (v4 (ip_from (swap32 little addr)) (swap16 little port))
from_sockaddr little (sockaddr_in6 port flowinfo ip scope_id) =
    ok (v6 ip (swap16 little port) flowinfo scope_id)
from_sockaddr little (unknown family) = err other_error

-- The fields fit their types.
abbrev pub IsAddr : SocketAddr → Type 0
IsAddr (v4 ip port) = (ip.a < 256) × (ip.b < 256) × (ip.c < 256) × (ip.d < 256) × (port < 2 ^ 16)
IsAddr (v6 ip port flowinfo scope_id) = port < 2 ^ 16

-- What the conversion keeps of an address: it leaves out the flow label and the scope.
abbrev pub without_scope : SocketAddr → SocketAddr
without_scope (v4 ip port) = v4 ip port
without_scope (v6 ip port flowinfo scope_id) = v6 ip port 0 0

swap16_twice : (little : Bool) (n : ℕ) → n < 2 ^ 16 → swap16 little (swap16 little n) ≡ n
swap16_twice true n h = omega arith
swap16_twice false n h = refl

swap32_twice : (little : Bool) (n : ℕ) → n < 2 ^ 32 → swap32 little (swap32 little n) ≡ n
swap32_twice true n h = omega arith
swap32_twice false n h = refl

ip_from-ip_bits :
    (a b c d : ℕ)
    → a < 256
    → b < 256
    → c < 256
    → d < 256
    → ip_from (ip_bits (record { a = a; b = b; c = c; d = d }))
      ≡ record { a = a; b = b; c = c; d = d }
ip_from-ip_bits a b c d p q r s = ground arith

-- An address that `bind` or `connect` hands to the kernel, read back as `local_addr` does, is the
-- address that was given, on machines of either byte order; of an IPv6 address the flow label and
-- the scope are lost.
pub from_sockaddr-to_sockaddr :
    (little : Bool) (addr : SocketAddr)
    → IsAddr addr
    → from_sockaddr little (to_sockaddr little addr) ≡ ok (without_scope addr)
unfolding from_sockaddr to_sockaddr
from_sockaddr-to_sockaddr little (v4 ip port) (p, q, r, s, t) =
    rw
      (
        swap16_twice little port t,
        swap32_twice little (ip_bits ip) (omega arith),
        ip_from-ip_bits ip.a ip.b ip.c ip.d p q r s,
      )
      refl
from_sockaddr-to_sockaddr little (v6 ip port flowinfo scope_id) h =
    rw (swap16_twice little port h) refl

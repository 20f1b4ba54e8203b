-- ===== src/Datagram.antt =====
-- src/datagram_client.h, with the addresses of the clients: what the datagram code keeps.
pub mod Client
pub mod Listener
pub mod Packet
pub mod Raw
pub mod Lifecycle
pub mod Tests
use tinyproxy.Base.{
  ℕ, zero, suc, ◌+◌, ◌*◌, ◌==◌, Bool, ◌&&◌, List, [], ◌∷◌, ◌++◌, Option, none, some, Bytes, length,
  get_elem?, drop, take, str_eq,
}
use tinyproxy.Worker.{Socket}
use tinyproxy.Proxy.{Sockaddr, sockaddr_in, sockaddr_in6, other_family}

-- A `struct sockaddr_storage` with its length is the list of its first bytes, so many as its
-- length says; the bytes behind them are 0.
abbrev pub or_zero : Option ℕ → ℕ
or_zero none = 0
or_zero (some b) = b

abbrev pub storage_byte : ℕ → Bytes → ℕ
storage_byte i addr = or_zero (get_elem? addr i)

-- A 16-bit number in the order of a little-endian machine.
abbrev pub ss_family : Bytes → ℕ
ss_family addr = storage_byte 0 addr + 256 * storage_byte 1 addr

abbrev pub af_inet : ℕ
af_inet = 2

abbrev pub af_inet6 : ℕ
af_inet6 = 10

-- The `n` bytes from `i` on.
abbrev pub storage_bytes : ℕ → ℕ → Bytes → Bytes
storage_bytes i zero addr = []
storage_bytes i (suc n) addr = storage_byte i addr ∷ storage_bytes (i + 1) n addr

abbrev pub sockaddr_equal : Bytes → Bytes → Bool
sockaddr_equal a b = length a == length b && ss_family a == ss_family b && str_eq a b

-- `fd` is `none` for -1, `ev` tells whether the event is there, and `id` is the pointer to the
-- client.
pub record DatagramClient : Type 0 where
  pub id : ℕ
  pub fd : Socket
  pub ev : Bool
  pub unix_local_path : Bytes
  pub client_addr : Bytes
  pub last_seen : ℕ

-- What was done outside of the program's memory, and the clients that were freed: sockets by
-- number, in order.
pub record Effects : Type 0 where
  pub opened : List ℕ
  pub closed : List ℕ
  pub unlinked : List Bytes
  pub freed : List ℕ

-- `clients` of a route's context, and the effects so far.
pub record Table : Type 0 where
  pub clients : List DatagramClient
  pub effects : Effects

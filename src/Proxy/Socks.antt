-- ===== src/Proxy/Socks.antt =====
-- internal/proxy/socks.go: the connection that both ends of the protocol read and write, the
-- constants, and the parts of Go's `net`, `strconv` and `encoding/binary` that they share.
pub mod Server
pub mod Client
pub mod Wire
pub mod Interop
pub mod Dialogue
pub mod Reaching
use go_packet_repeater.Base.{
  ℕ, zero, suc, ◌+◌, ◌-◌, ◌*◌, ◌/◌, ◌%◌, ◌≡◌, ◌<◌, Bool, true, false, Option, some, List, [], ◌∷◌,
  ◌++◌, Bytes, ltb, if◌then◌else◌, length, take, drop, All, ℤ, pos, negsuc, Result, ok, err,
}
use go_packet_repeater.HostPort.{AddrError}

abbrev pub version5 : ℕ
version5 = 0x05

abbrev pub auth_none : ℕ
auth_none = 0x00

abbrev pub auth_user_pass : ℕ
auth_user_pass = 0x02

abbrev pub auth_no_acceptable : ℕ
auth_no_acceptable = 0xff

abbrev pub user_pass_version : ℕ
user_pass_version = 0x01

abbrev pub user_pass_success : ℕ
user_pass_success = 0x00

abbrev pub cmd_connect : ℕ
cmd_connect = 0x01

abbrev pub atyp_ipv4 : ℕ
atyp_ipv4 = 0x01

abbrev pub atyp_domain : ℕ
atyp_domain = 0x03

abbrev pub atyp_ipv6 : ℕ
atyp_ipv6 = 0x04

abbrev pub reply_succeeded : ℕ
reply_succeeded = 0x00

abbrev pub reply_general_fail : ℕ
reply_general_fail = 0x01

abbrev pub reply_cmd_not_support : ℕ
reply_cmd_not_support = 0x07

abbrev pub reply_atyp_not_supp : ℕ
reply_atyp_not_supp = 0x08

-- One end of a TCP connection: what the peer will have sent before it stops, what was written so
-- far, which of the next writes fail, and whether the connection was closed.
pub record Conn : Type 0 where
  pub input : Bytes
  pub output : Bytes
  pub faults : List Bool
  pub closed : Bool

pub data SocksError : Type 0 where
  short_read write_failed no_acceptable_method name_too_long auth_too_long : SocksError
  bad_version bad_command bad_address_type bad_method : ℕ → SocksError
  auth_failed connect_failed : ℕ → SocksError
  dial_failed bad_target_port : Bytes → SocksError
  bad_target : AddrError → SocksError

abbrev pub Session : Type 0 → Type 0
Session A = Conn → Result SocksError A × Conn

abbrev and_then :
    {A B : Type 0} → Result SocksError A × Conn → (A → Session B) → Result SocksError B × Conn
and_then (ok a, c) f = f a c
and_then (err e, c) f = (err e, c)

infixl 5 ◌>>=◌ ◌>>◌
abbrev pub ◌>>=◌ : {A B : Type 0} → Session A → (A → Session B) → Session B
◌>>=◌ m f c = and_then (m c) f

abbrev pub ◌>>◌ : {B : Type 0} → Session (Unit {0}) → Session B → Session B
m >> k = m >>= λ _. k

abbrev pub return : {A : Type 0} → A → Session A
return a c = (ok a, c)

abbrev pub throw : {A : Type 0} → SocksError → Session A
throw e c = (err e, c)

abbrev pub throw_if : Bool → SocksError → Session (Unit {0})
throw_if true e c = (err e, c)
throw_if false e c = (ok tt, c)

-- `io.ReadFull(conn, make([]byte, n))`
unfoldable pub read_full : ℕ → Session Bytes
read_full n c =
    if ltb (length c.input) n
    then (err short_read, record c { input = [] })
    else (ok (take n c.input), record c { input = drop n c.input })

-- `conn.Write`
pub write_under : List Bool → Bytes → Session (Unit {0})
write_under [] bs c = (ok tt, record c { output = c.output ++ bs })
write_under (true ∷ fs) bs c = (err write_failed, record c { faults = fs })
write_under (false ∷ fs) bs c = (ok tt, record c { output = c.output ++ bs; faults = fs })

unfoldable pub write : Bytes → Session (Unit {0})
unfolding write_under
write bs c = write_under c.faults bs c

-- a call whose error the source drops
abbrev pub ignore : Session (Unit {0}) → Session (Unit {0})
ignore m c = (ok tt, (m c).1)

-- `b[i]`, at an index that the slice has
abbrev pub byte_at : Bytes → ℕ → ℕ
byte_at [] i = 0
byte_at (x ∷ xs) zero = x
byte_at (x ∷ xs) (suc i) = byte_at xs i

-- `binary.BigEndian`
unfoldable pub put_uint16 : ℕ → Bytes
put_uint16 n = (n / 256 % 256) ∷ (n % 256) ∷ []

unfoldable pub uint16 : Bytes → ℕ
uint16 b = byte_at b 0 * 256 + byte_at b 1

-- `uint16(n)` for an int
unfoldable pub to_uint16 : ℤ → ℕ
to_uint16 (pos n) = n % 65536
to_uint16 (negsuc n) = 65535 - n % 65536

-- `strconv.Itoa` of a number below 100000, by the digits left
digits : ℕ → ℕ → Bytes
digits zero n = (b'0' + n % 10) ∷ []
digits (suc k) n =
    let more = digits k (n / 10) ++ (b'0' + n % 10) ∷ [] in
    if ltb n 10 then (b'0' + n % 10) ∷ [] else more

unfoldable pub itoa : ℕ → Bytes
unfolding digits
itoa n = digits 4 n

-- An address that `net.ParseIP` reads, by whether `To4` gives it as 4 bytes.
pub data Ip : Type 0 where
  v4 v6 : Bytes → Ip

abbrev pub HasBytes : ℕ → Bytes → Type 0
HasBytes n b = (length b ≡ n) × All (λ x. x < 256) b

abbrev pub IsIp : Ip → Type 0
IsIp (v4 b) = HasBytes 4 b
IsIp (v6 b) = HasBytes 16 b

-- The notations of IP addresses that Go's `net` reads and prints.
pub record Addresses : Type 0 where
  pub parse_ip : Bytes → Option Ip
  pub ip_string : Bytes → Bytes
  pub parse_ip-IsIp : (s : Bytes) (ip : Ip) → parse_ip s ≡ some ip → IsIp ip

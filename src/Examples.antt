-- ===== src/Examples.antt =====
-- Concrete inputs: the theorems applied, and tests of the definitions.
pub mod Options
pub mod Endpoints
pub mod CommandLine
pub mod Certificates
pub mod Socks
pub mod Udp
pub mod Tls
pub mod Logx
pub mod Pipe
pub mod Http
pub mod Waiting
pub mod Chain
pub mod Serving
pub mod Gathering
use go_packet_repeater.Base.{
  ◌≡◌, refl, arith, ◌<◌, Option, none, some, List, [], ◌∷◌, Bytes, String, codes, text_eq, ◌==◌,
  if◌then◌else◌, length, ok-injective,
}
use go_packet_repeater.System.{System}
use go_packet_repeater.Proxy.Socks.{Addresses, Ip, v4, v6, IsIp}

abbrev pub words : List String → List Bytes
words [] = []
words (s ∷ ss) = codes s ∷ words ss

-- Each byte of a file is a block: `K` a private key, all others a certificate.
abbrev pub one_block : Bytes → Option (Bytes × Bytes)
one_block [] = none
one_block (c ∷ s) = some (if c == b'K' then codes "RSA PRIVATE KEY" else codes "CERTIFICATE", s)

pub one_block_shrinks :
    (input kind rest : Bytes) → one_block input ≡ some (kind, rest) → length rest < length input
one_block_shrinks [] kind rest e = cc
one_block_shrinks (c ∷ s) kind rest e = ground arith

abbrev pub sys : System
sys = record {
  read_file = λ path.
      if text_eq path (codes "both.pem")
      then some (codes "CK")
      else if text_eq path (codes "cert.pem")
      then some (codes "CC")
      else none;
  pem_decode = one_block;
  pem_shrinks = one_block_shrinks;
  unicode_upper = λ s. s;
  unicode_lower = λ s. s;
}

-- The only address notation is `::1`.
abbrev loopback : Bytes
loopback = 0 ∷ 0 ∷ 0 ∷ 0 ∷ 0 ∷ 0 ∷ 0 ∷ 0 ∷ 0 ∷ 0 ∷ 0 ∷ 0 ∷ 0 ∷ 0 ∷ 0 ∷ 1 ∷ []

abbrev parse_loopback : Bytes → Option Ip
parse_loopback s = if text_eq s (codes "::1") then some (v6 loopback) else none

pub parse_loopback-IsIp : (s : Bytes) (ip : Ip) → parse_loopback s ≡ some ip → IsIp ip
parse_loopback-IsIp s ip e = ground arith

abbrev pub net : Addresses
net = record {
  parse_ip = parse_loopback;
  ip_string = λ b. codes "::1";
  parse_ip-IsIp = parse_loopback-IsIp;
}

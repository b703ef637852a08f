-- ===== src/Sham.antt =====
-- The S.H.A.M. protocol of networking/sham.h: reliable transfer over UDP.
-- Sequence numbers are `uint32_t`, written out modulo 2^32; a flag test `flags & SHAM_X` reads a bit.
pub mod Server
pub mod Client
pub mod Conversation
pub mod Transfer
mod Tests
use operating_systems_and_ne.Prelude.{ℕ, ◌+◌, ◌%◌, ◌/◌, ◌^◌, Bool, List, [], ◌==◌}

abbrev pub u32 : ℕ → ℕ
u32 n = n % 2 ^ 32

-- `SHAM_SYN`, `SHAM_ACK`, `SHAM_FIN`
abbrev pub sham_syn : ℕ
sham_syn = 1

abbrev pub sham_ack : ℕ
sham_ack = 2

abbrev pub sham_fin : ℕ
sham_fin = 4

-- `SHAM_SYN | SHAM_ACK`
abbrev pub sham_syn_ack : ℕ
sham_syn_ack = 3

abbrev pub sham_data_size : ℕ
sham_data_size = 1024

abbrev pub sham_window_size : ℕ
sham_window_size = 10

abbrev pub sham_timeout_ms : ℕ
sham_timeout_ms = 500

abbrev pub sham_max_retries : ℕ
sham_max_retries = 10

-- `struct sham_header` with the payload of `struct sham_packet`.
pub record Packet : Type 0 where
  pub seq_num : ℕ
  pub ack_num : ℕ
  pub flags : ℕ
  pub window_size : ℕ
  pub payload : List ℕ

-- `flags & SHAM_SYN`, and so on.
unfoldable pub has_syn : ℕ → Bool
has_syn flags = flags % 2 == 1

unfoldable pub has_ack : ℕ → Bool
has_ack flags = flags / 2 % 2 == 1

unfoldable pub has_fin : ℕ → Bool
has_fin flags = flags / 4 % 2 == 1

-- `memset(&pkt, 0, sizeof(pkt))`
abbrev pub zeroed : Packet
zeroed = record { seq_num = 0; ack_num = 0; flags = 0; window_size = 0; payload = [] }

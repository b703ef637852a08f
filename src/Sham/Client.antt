-- ===== src/Sham/Client.antt =====
-- networking/client.c: the handshake and the termination.
-- What the socket delivers within the time of a wait is an argument; what is sent is a list of packets.
pub mod Connection
pub mod Chat
pub mod Window
use operating_systems_and_ne.Prelude.{
  ℕ, ◌+◌, Bool, ◌&&◌, List, [], ◌∷◌, if◌then◌else◌, Status, success, failure,
}
use operating_systems_and_ne.Sham.{
  u32, Packet, sham_syn, sham_ack, sham_fin, has_syn, has_ack, zeroed,
}

-- What one call of `recv_packet_timeout` brings: a packet, nothing within its time, or a failure, which
-- is also what fewer bytes than a header are.
pub data Answer : Type 0 where
  arrived : Packet → Answer
  timed_out broken : Answer

-- The static variables of the connection.
pub record Sender : Type 0 where
  pub next_seq_num : ℕ
  pub window_base : ℕ
  pub peer_window : ℕ

abbrev pub initial_seq : ℕ
initial_seq = 100

-- The SYN, the ACK of the handshake and the FIN.
abbrev pub syn_packet : Packet
syn_packet = record zeroed { seq_num = initial_seq; flags = sham_syn; window_size = 65535 }

abbrev pub ack_packet : ℕ → Packet
ack_packet server_seq = record zeroed {
  seq_num = initial_seq + 1;
  ack_num = u32 (server_seq + 1);
  flags = sham_ack;
  window_size = 65535;
}

abbrev pub fin_packet : ℕ → Packet
fin_packet seq = record zeroed { seq_num = seq; flags = sham_fin; window_size = 65535 }

-- `perform_handshake`
unfoldable pub perform_handshake : Sender → Answer → Sender × List Packet × Status
unfolding has_syn has_ack
perform_handshake s (arrived p) =
    if has_syn p.flags && has_ack p.flags
    then (
      record {
        next_seq_num = initial_seq + 1;
        window_base = initial_seq + 1;
        peer_window = p.window_size;
      },
      syn_packet ∷ ack_packet p.seq_num ∷ [],
      success,
    )
    else (s, syn_packet ∷ [], failure)
perform_handshake s timed_out = (s, syn_packet ∷ [], failure)
perform_handshake s broken = (s, syn_packet ∷ [], failure)

-- The final packet of `perform_termination`: `pkt` is zeroed before its `seq_num` is read.
abbrev pub last_ack : Packet
last_ack = record zeroed {
  ack_num = u32 (zeroed.seq_num + 1);
  flags = sham_ack;
  window_size = 65535;
}

-- `perform_termination`: what the two waits bring is only logged.
unfoldable pub perform_termination : Sender → Answer → Answer → List Packet
perform_termination s ack fin = fin_packet s.next_seq_num ∷ last_ack ∷ []

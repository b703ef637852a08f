-- ===== src/Sham/Transfer.antt =====
-- The transfer of a file between networking/client.c and networking/server.c over a network that may
-- lose, repeat and reorder packets: whatever was sent once may be received at any later time, as often
-- as the network likes, or never.
pub mod Delivered
pub mod Filling
pub mod LastHeard
pub mod Finishes
pub mod Silent
use operating_systems_and_ne.Prelude.{
  ℕ, ◌≡◌, Bool, Option, some, List, [], ◌∷◌, ◌++◌, length, get_elem?,
}
use operating_systems_and_ne.Sham.{Packet}
use operating_systems_and_ne.Sham.Client.{
  Sender, Answer, arrived, timed_out, broken, initial_seq, perform_handshake,
}
use operating_systems_and_ne.Sham.Client.Window.{
  Timeval, Transfer, start_transfer, Progress, sending, waiting, begin_round, end_round,
}
use operating_systems_and_ne.Sham.Server.{Receiver, receive_data, syn_ack}

-- Both sides, and what each has sent so far.
pub record World : Type 0 where
  pub client : Progress
  pub server : Receiver
  pub packets : List Packet
  pub acks : List Packet

-- The sender behind the handshake, from the static variables as the program starts.
unfoldable pub connected_sender : Sender
unfolding perform_handshake
connected_sender =
    (perform_handshake (record { next_seq_num = 0; window_base = 0; peer_window = 65535 })
      (arrived (syn_ack initial_seq))).0

-- Behind the handshake: the client is about to run `send_file`, the server `handle_data_transfer`. The
-- SYN-ACK of the handshake may still be repeated.
unfoldable pub connected : List (List ℕ) → World
unfolding connected_sender
connected reads = record {
  client = sending (start_transfer connected_sender reads);
  server = record { recv_buffer = []; next_expected_seq = connected_sender.next_seq_num };
  packets = [];
  acks = syn_ack initial_seq ∷ [];
}

-- What the client can hear: a packet that the server has sent.
abbrev pub Heard : World → Answer → Type 0
Heard w (arrived p) = (i : ℕ) × (get_elem? w.acks i ≡ some p)
Heard w timed_out = Unit
Heard w broken = Unit

module _ (clock : ℕ → Timeval) (file_size : ℕ) where
  -- The two parts of a round of `send_file`, and a round of `handle_data_transfer` on one of the client's
  -- packets, none of which is a FIN; `drawn` is the loss that the server simulates.
  pub data Step (w : World) : World → Type 0 where
    client_sends :
        {t : Transfer}
        → w.client ≡ sending t
        → Step w (record w {
          client = (begin_round clock file_size t).0;
          packets = w.packets ++ (begin_round clock file_size t).1;
        })
    client_hears :
        {t : Transfer} (a : Answer)
        → w.client ≡ waiting t
        → Heard w a
        → Step w (record w {
          client = (end_round clock t a).0;
          packets = w.packets ++ (end_round clock t a).1;
        })
    server_round :
        (i : ℕ) (p : Packet) (drawn : Bool)
        → get_elem? w.packets i ≡ some p
        → Step w (record w {
          server = (receive_data w.server p drawn).0;
          acks = w.acks ++ (receive_data w.server p drawn).1;
        })

  pub data Reach (w : World) : World → Type 0 where
    here : Reach w w
    next : {u v : World} → Reach w u → Step u v → Reach w v

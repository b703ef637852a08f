-- ===== src/Sham/Server.antt =====
-- networking/server.c: the handshake, and the reception of a file.
-- What the socket delivers is a list of events; what is sent is a list of packets. Logging, and the
-- digest printed at the end, are left out. `should_drop_packet` draws a number at each packet: the
-- draw stands beside the packet.
pub mod Delivery
use operating_systems_and_ne.Prelude.{
  ℕ, zero, suc, ◌+◌, ◌-◌, ◌%◌, ◌^◌, ◌≤◌, ◌<◌, Bool, true, false, not, ◌&&◌, Option, none, some,
  List, [], ◌∷◌, ◌++◌, ◌==◌, ltb, if◌then◌else◌, length,
}
use operating_systems_and_ne.Sham.{
  u32, Packet, sham_syn, sham_ack, sham_fin, sham_syn_ack, has_syn, has_ack, has_fin, zeroed,
}

-- What one call of `recvfrom` brings.
pub data Event : Type 0 where
  -- a packet, and whether the loss simulation draws it
  packet : Packet → Bool → Event
  -- fewer bytes than a header
  runt : Event
  timeout failed : Event

-- The static variables that the transfer works on.
pub record Receiver : Type 0 where
  pub recv_buffer : List ℕ
  pub next_expected_seq : ℕ

abbrev pub recv_buffer_size : Receiver → ℕ
recv_buffer_size r = length r.recv_buffer

-- `receiver_window`, never changed.
abbrev pub receiver_window : ℕ
receiver_window = 65535

abbrev pub server_seq : ℕ
server_seq = 5000

-- `recv_packet` until it returns something else than 0: what it returned, with the events left.
-- The loop never ends where nothing but timeouts comes: `silence`.
pub data Received : Type 0 where
  got : Packet → Bool → List Event → Received
  error : List Event → Received
  silence : Received

unfoldable pub recv_retry : List Event → Received
recv_retry [] = silence
recv_retry (packet p d ∷ es) = got p d es
recv_retry (runt ∷ es) = error es
recv_retry (timeout ∷ es) = recv_retry es
recv_retry (failed ∷ es) = error es

abbrev pub syn_ack : ℕ → Packet
syn_ack client_seq = record zeroed {
  seq_num = server_seq;
  ack_num = u32 (client_seq + 1);
  flags = sham_syn_ack;
  window_size = receiver_window;
}

-- How `handle_handshake` ends: established with `next_expected_seq`, or -1, or still waiting.
pub data Handshake : Type 0 where
  established : ℕ → List Event → Handshake
  refused : Handshake
  waiting : Handshake

unfoldable pub await_ack : Received → Handshake
await_ack (got p d es) = if has_ack p.flags then established p.seq_num es else refused
await_ack (error es) = refused
await_ack silence = waiting

unfoldable pub await_syn : Received → List Packet × Handshake
unfolding await_ack
await_syn (got p d es) =
    if has_syn p.flags then (syn_ack p.seq_num ∷ [], await_ack (recv_retry es)) else ([], refused)
await_syn (error es) = ([], refused)
await_syn silence = ([], waiting)

-- `handle_handshake`
unfoldable pub handle_handshake : List Event → List Packet × Handshake
unfolding await_syn recv_retry
handle_handshake es = await_syn (recv_retry es)

abbrev pub ack_of : ℕ → Packet
ack_of n = record zeroed { ack_num = n; flags = sham_ack; window_size = receiver_window }

abbrev pub fin_of : ℕ → Packet
fin_of n = record zeroed { seq_num = n; flags = sham_fin; window_size = receiver_window }

-- One packet of `handle_data_transfer` that is no FIN.
unfoldable pub receive_data : Receiver → Packet → Bool → Receiver × List Packet
receive_data r p drawn =
    let data_len = length p.payload in
    if drawn && ltb 0 data_len
    then (r, [])
    else if ltb 0 data_len && p.seq_num == r.next_expected_seq
    then (let next = u32 (r.next_expected_seq + data_len) in
        (
          record r { recv_buffer = r.recv_buffer ++ p.payload; next_expected_seq = next },
          ack_of next ∷ [],
        ))
    else (r, [])

-- The answer to a FIN.
abbrev pub closing : Receiver → Packet → List Packet
closing r p = ack_of (u32 (p.seq_num + 1)) ∷ fin_of r.next_expected_seq ∷ []

-- The loop of `handle_data_transfer`: the receiver that is written to the file, and what was sent.
unfoldable pub handle_data_transfer : Receiver → List Event → Receiver × List Packet
unfolding receive_data
handle_data_transfer r [] = (r, [])
handle_data_transfer r (timeout ∷ es) = handle_data_transfer r es
handle_data_transfer r (runt ∷ es) = (r, [])
handle_data_transfer r (failed ∷ es) = (r, [])
handle_data_transfer r (packet p drawn ∷ es) =
    let (r', sent) = receive_data r p drawn in
    let (r'', more) = handle_data_transfer r' es in
    let goes_on : Receiver × List Packet = (r'', sent ++ more) in
    if has_fin p.flags then (r, closing r p) else goes_on

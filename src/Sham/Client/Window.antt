-- ===== src/Sham/Client/Window.antt =====
-- networking/client.c: `send_file`, the sliding window.
-- `reads` are the results of `fread`, one after the other: when they are used up, or one is empty, the
-- file is at its end. Each call of `gettimeofday` reads the clock, a parameter, once more.
pub mod Pieces
pub mod Retries
pub mod Rounds
use operating_systems_and_ne.Prelude.{
  ℕ, zero, suc, ◌+◌, ◌-◌, ◌*◌, ◌/◌, ◌%◌, ◌^◌, Bool, true, false, not, ◌&&◌, ◌||◌, Option, none,
  some, List, [], ◌∷◌, ◌++◌, ltb, leb, if◌then◌else◌, get_or, set, length, replicate,
}
use operating_systems_and_ne.Sham.{
  u32, Packet, has_ack, zeroed, sham_window_size, sham_data_size, sham_max_retries, sham_timeout_ms,
}
use operating_systems_and_ne.Sham.Client.{Sender, Answer, arrived, timed_out, broken}

-- `struct timeval`
pub record Timeval : Type 0 where
  pub sec : ℕ
  pub usec : ℕ

-- `is_timeout`: whether `elapsed_ms` has reached `timeout_ms`. The quotient of the microseconds is cut
-- towards zero, on either side.
unfoldable pub is_timeout : Timeval → Timeval → ℕ → Bool
is_timeout sent now timeout_ms =
    if leb sent.usec now.usec
    then leb (sent.sec * 1000 + timeout_ms) (now.sec * 1000 + (now.usec - sent.usec) / 1000)
    else leb (sent.sec * 1000 + timeout_ms + (sent.usec - now.usec) / 1000) (now.sec * 1000)

-- `struct packet_window`; `data_len` is the length of the payload.
pub record Slot : Type 0 where
  pub packet : Packet
  pub send_time : Timeval
  pub retries : ℕ
  pub acked : Bool

abbrev pub empty_slot : Slot
empty_slot = record {
  packet = zeroed;
  send_time = record { sec = 0; usec = 0 };
  retries = 0;
  acked = false;
}

-- The static variables and the locals of `send_file`, with what is left to read and how often the
-- clock was read.
pub record Transfer : Type 0 where
  pub sender : Sender
  pub window : List Slot
  pub reads : List (List ℕ)
  pub done_sending : Bool
  pub ticks : ℕ

-- Behind the initialisation of the window.
abbrev pub start_transfer : Sender → List (List ℕ) → Transfer
start_transfer s reads = record {
  sender = s;
  window = replicate sham_window_size empty_slot;
  reads = reads;
  done_sending = false;
  ticks = 0;
}

-- `a - b` of two numbers of type `uint32_t`.
abbrev pub sub32 : ℕ → ℕ → ℕ
sub32 a b = (a + 2 ^ 32 - b) % 2 ^ 32

-- `win_idx` of a sequence number.
abbrev pub slot_index : Sender → ℕ → ℕ
slot_index s seq = sub32 seq s.window_base / sham_data_size % sham_window_size

-- The test for room in the window.
abbrev pub has_room : Sender → Bool
has_room s = ltb (sub32 s.next_seq_num s.window_base) (sham_window_size * sham_data_size)

abbrev pub data_packet : Sender → List ℕ → Packet
data_packet s bytes = record zeroed {
  seq_num = s.next_seq_num;
  window_size = 65535;
  payload = bytes;
}

-- `window_base` and `peer_window` behind an answer.
unfoldable pub take_ack : Sender → Answer → Sender
unfolding has_ack
take_ack s (arrived p) =
    if has_ack p.flags
    then record s {
      window_base = if ltb s.window_base p.ack_num then p.ack_num else s.window_base;
      peer_window = p.window_size;
    }
    else s
take_ack s timed_out = s
take_ack s broken = s

-- How the retransmissions of a round end: with the packets sent, or by too many retries.
pub data Resent : Type 0 where
  resent : Transfer → List Packet → Resent
  exceeded : List Packet → Resent

unfoldable pub behind_packet : Packet → Resent → Resent
behind_packet p (resent t sent) = resent t (p ∷ sent)
behind_packet p (exceeded sent) = exceeded (p ∷ sent)

-- Where `send_file` stands: at the head of its loop, waiting for an answer within it, or at its end,
-- returning 0 or -1.
pub data Progress : Type 0 where
  sending waiting : Transfer → Progress
  finished gave_up : Progress

module _ (clock : ℕ → Timeval) where
  -- One new packet: its slot in the window, and `next_seq_num` behind it.
  unfoldable pub put_packet : Transfer → List ℕ → List (List ℕ) → Transfer
  put_packet t bytes reads =
      let s = t.sender in
      let slot : Slot = record {
        packet = data_packet s bytes;
        send_time = clock t.ticks;
        retries = 0;
        acked = false;
      } in
      record t {
        sender = record s { next_seq_num = u32 (s.next_seq_num + length bytes) };
        window = set t.window (slot_index s s.next_seq_num) slot;
        reads = reads;
        ticks = t.ticks + 1;
      }

  -- The loop that sends new packets, over what there is to read.
  unfoldable pub fill : Transfer → List (List ℕ) → Transfer × List Packet
  unfolding put_packet
  fill t [] = (if has_room t.sender then record t { done_sending = true } else t, [])
  fill t ([] ∷ reads) = (if has_room t.sender then record t { done_sending = true } else t, [])
  fill t ((b ∷ bytes) ∷ reads) =
      let (t', sent) = fill (put_packet t (b ∷ bytes) reads) reads in
      if has_room t.sender then (t', data_packet t.sender (b ∷ bytes) ∷ sent) else (t, [])

  unfoldable pub fill_window : Transfer → Transfer × List Packet
  unfolding fill
  fill_window t = if t.done_sending then (t, []) else fill t t.reads

  -- The slot `i` is sent again, unless it was often enough; then the way on.
  unfoldable pub resend_slot : Transfer → ℕ → (Transfer → Resent) → Resent
  unfolding behind_packet
  resend_slot t i onward =
      let slot = get_or t.window i empty_slot in
      let again = record slot { send_time = clock (t.ticks + 1); retries = slot.retries + 1 } in
      if leb sham_max_retries slot.retries
      then exceeded []
      else behind_packet slot.packet
          (onward (record t { window = set t.window i again; ticks = t.ticks + 2 }))

  -- The check of the slot `i`: an acknowledged one does not read the clock.
  unfoldable pub check_slot : Transfer → ℕ → (Transfer → Resent) → Resent
  unfolding resend_slot is_timeout
  check_slot t i onward =
      let slot = get_or t.window i empty_slot in
      if slot.acked
      then onward t
      else if is_timeout slot.send_time (clock t.ticks) sham_timeout_ms
      then resend_slot t i onward
      else onward (record t { ticks = t.ticks + 1 })

  -- One round of the loop over the window, at the packet `i`.
  unfoldable pub check_packet : Transfer → ℕ → (Transfer → Resent) → Resent
  unfolding check_slot
  check_packet t i onward =
      let seq = u32 (t.sender.window_base + i * sham_data_size) in
      if leb t.sender.next_seq_num seq
      then resent t []
      else if ltb seq t.sender.window_base
      then onward t
      else check_slot t (slot_index t.sender seq) onward

  -- The loop over the window, with `n` packets left from `i` on.
  unfoldable pub resend : ℕ → ℕ → Transfer → Resent
  unfolding check_packet
  resend zero i t = resent t []
  resend (suc n) i t = check_packet t i (resend n (i + 1))

  -- The test at the end of a round: everything is acknowledged.
  unfoldable pub is_complete : Transfer → Bool
  is_complete t = t.done_sending && leb t.sender.next_seq_num t.sender.window_base

  unfoldable pub behind_resend : Resent → Progress × List Packet
  unfolding is_complete
  behind_resend (resent t sent) = (if is_complete t then finished else sending t, sent)
  behind_resend (exceeded sent) = (gave_up, sent)

  -- The test of the loop of `send_file`.
  unfoldable pub keeps_sending : ℕ → Transfer → Bool
  keeps_sending file_size t =
      ltb t.sender.window_base (u32 (t.sender.next_seq_num + u32 file_size)) || not t.done_sending

  unfoldable pub await_answer : Transfer × List Packet → Progress × List Packet
  await_answer (t, sent) = (waiting t, sent)

  -- From the head of the loop up to the wait: the new packets.
  unfoldable pub begin_round : ℕ → Transfer → Progress × List Packet
  unfolding fill_window keeps_sending await_answer
  begin_round file_size t =
      if keeps_sending file_size t then await_answer (fill_window t) else (finished, [])

  -- From the answer to the end of the loop: the retransmissions.
  unfoldable pub end_round : Transfer → Answer → Progress × List Packet
  unfolding take_ack resend behind_resend
  end_round t answer =
      behind_resend (resend sham_window_size 0 (record t { sender = take_ack t.sender answer }))

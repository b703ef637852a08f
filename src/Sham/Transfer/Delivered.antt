-- ===== src/Sham/Transfer/Delivered.antt =====
-- What the transfer between networking/client.c and networking/server.c delivers.
use operating_systems_and_ne.Prelude.{
  ℕ, zero, suc, ◌+◌, ◌*◌, ◌^◌, ◌≤◌, ◌<◌, ◌≡◌, refl, ap, ◌∙◌, subst, sym, Bool, some, List, [], ◌∷◌,
  length, length-append, append-nil, get_elem?, All-append, All, arith,
}
use operating_systems_and_ne.Sham.{Packet, has_ack, has_syn}
use operating_systems_and_ne.Sham.Client.{Answer, arrived, timed_out, broken}
use operating_systems_and_ne.Sham.Client.Window.{
  Timeval, Progress, sending, waiting, finished, begin_round, end_round,
}
use operating_systems_and_ne.Sham.Client.Window.Pieces.{IsSent, start_transfer-IsSending}
use operating_systems_and_ne.Sham.Client.Window.Rounds.{
  Acks, AnswerAcks, Leads, begin_round-Leads, end_round-Leads,
}
use operating_systems_and_ne.Sham.Server.{Receiver, receive_data}
use operating_systems_and_ne.Sham.Server.Delivery.{IsPrefix, joined, receive_data-IsPrefix}
use operating_systems_and_ne.Sham.Transfer.{
  World, connected_sender, connected, Heard, Step, client_sends, client_hears, server_round, Reach,
  here, next,
}

-- What holds in every state: the server has a beginning of the file, every acknowledgement and the
-- client's base lie within it, and the client sends pieces of the file.
pub record IsSound (isn : ℕ) (stream : List ℕ) (w : World) : Type 0 where
  pub prefix : IsPrefix isn stream w.server
  pub client : Leads isn stream (length w.server.recv_buffer) w.client
  pub packets : All (IsSent isn stream) w.packets
  pub acks : All (Acks isn (length w.server.recv_buffer)) w.acks

pub All-get {ℓ κ} :
    {A : Type ℓ} (P : A → Type κ) (xs : List A) (i : ℕ) (a : A)
    → get_elem? xs i ≡ some a
    → All P xs
    → P a
All-get P [] i a e h = cc
All-get P (x ∷ xs) zero a e h = subst P (cc) h.0
All-get P (x ∷ xs) (suc i) a e h = All-get P xs i a e h.1

Heard-AnswerAcks :
    (isn k : ℕ) (w : World) (a : Answer) → All (Acks isn k) w.acks → Heard w a → AnswerAcks isn k a
Heard-AnswerAcks isn k w (arrived p) h (i, e) = All-get (Acks isn k) w.acks i p e h
Heard-AnswerAcks isn k w timed_out h e = tt
Heard-AnswerAcks isn k w broken h e = tt

-- `recv_buffer` only grows, and what the server sends acknowledges no more than it.
receive_data-grows :
    (r : Receiver) (p : Packet) (drawn : Bool)
    → length r.recv_buffer ≤ length (receive_data r p drawn).0.recv_buffer
unfolding receive_data
receive_data-grows r p drawn = ground (arith, length-append r.recv_buffer p.payload)

receive_data-acks :
    (r : Receiver) (p : Packet) (drawn : Bool)
    → All
        (λ (a : Packet). a.ack_num ≡ (receive_data r p drawn).0.next_expected_seq)
        (receive_data r p drawn).1
unfolding receive_data
receive_data-acks r p drawn = ground arith

IsPrefix-next :
    (isn : ℕ) (stream : List ℕ) (r : Receiver)
    → IsPrefix isn stream r
    → r.next_expected_seq ≤ isn + length r.recv_buffer
unfolding IsPrefix
IsPrefix-next isn stream r (rest, e, n) = omega (arith, n)

Acks-mono : (isn k k' : ℕ) (ps : List Packet) → k ≤ k' → All (Acks isn k) ps → All (Acks isn k') ps
Acks-mono isn k k' [] l h = tt
Acks-mono isn k k' (p ∷ ps) l h = (λ e. omega (arith, h.0 e, l), Acks-mono isn k k' ps l h.1)

Acks-next :
    (isn k n : ℕ) (ps : List Packet)
    → n ≤ isn + k
    → All (λ (a : Packet). a.ack_num ≡ n) ps
    → All (Acks isn k) ps
Acks-next isn k n [] l h = tt
Acks-next isn k n (p ∷ ps) l h = (λ e. omega (arith, h.0, l), Acks-next isn k n ps l h.1)

Leads-mono :
    (isn : ℕ) (stream : List ℕ) (k k' : ℕ) (c : Progress)
    → k ≤ k'
    → Leads isn stream k c
    → Leads isn stream k' c
Leads-mono isn stream k k' (sending t) l h = (h.0, omega (arith, h.1))
Leads-mono isn stream k k' (waiting t) l h = (h.0, omega (arith, h.1))
Leads-mono isn stream k k' finished l h = omega (arith, h)
Leads-mono isn stream k k' Progress.gave_up l h = tt

module _ (clock : ℕ → Timeval) (isn : ℕ) (stream : List ℕ)
    (short : isn + 2 * length stream < 2 ^ 32) where
  pub Step-IsSound :
      {w v : World} → Step clock (length stream) w v → IsSound isn stream w → IsSound isn stream v
  Step-IsSound {w} (client_sends {t} e) s =
      let k = length w.server.recv_buffer in
      let (i, b) = subst (Leads isn stream k) e s.client in
      let (leads, sent) = begin_round-Leads clock isn stream short k t i b in
      record {
        prefix = s.prefix;
        client = leads;
        packets =
            All-append (IsSent isn stream) w.packets (begin_round clock (length stream) t).1
              s.packets sent;
        acks = s.acks;
      }
  Step-IsSound {w} (client_hears {t} a e h) s =
      let k = length w.server.recv_buffer in
      let (i, b) = subst (Leads isn stream k) e s.client in
      let (leads, sent) =
        end_round-Leads clock isn stream short k t a i b (Heard-AnswerAcks isn k w a s.acks h) in
      record {
        prefix = s.prefix;
        client = leads;
        packets = All-append (IsSent isn stream) w.packets (end_round clock t a).1 s.packets sent;
        acks = s.acks;
      }
  Step-IsSound {w} (server_round i p drawn e) s =
      let (piece, plain) = All-get (IsSent isn stream) w.packets i p e s.packets in
      let prefix = receive_data-IsPrefix isn stream w.server p drawn (omega arith) piece s.prefix in
      let grows = receive_data-grows w.server p drawn in
      let k = length (receive_data w.server p drawn).0.recv_buffer in
      record {
        prefix = prefix;
        client = Leads-mono isn stream (length w.server.recv_buffer) k w.client grows s.client;
        packets = s.packets;
        acks =
            All-append (Acks isn k) w.acks (receive_data w.server p drawn).1
              (Acks-mono isn (length w.server.recv_buffer) k w.acks grows s.acks)
              (Acks-next isn k _ (receive_data w.server p drawn).1
                (IsPrefix-next isn stream _ prefix) (receive_data-acks w.server p drawn));
      }

-- The first number behind the handshake.
pub first : (connected_sender.next_seq_num ≡ 101) × (connected_sender.window_base ≡ 101)
unfolding connected_sender has_syn has_ack
first = (refl, refl)

connected-IsSound :
    (reads : List (List ℕ))
    → All (λ bytes. 0 < length bytes) reads
    → IsSound connected_sender.next_seq_num (joined reads) (connected reads)
unfolding connected IsPrefix
connected-IsSound reads h = record {
  prefix = (joined reads, refl, omega (arith, first));
  client = (start_transfer-IsSending connected_sender reads h, omega (arith, first));
  packets = tt;
  acks = (λ e. omega (arith, first), tt);
}

whole :
    (isn : ℕ) (stream : List ℕ) (r : Receiver)
    → IsPrefix isn stream r
    → length stream ≤ length r.recv_buffer
    → r.recv_buffer ≡ stream
unfolding IsPrefix
whole isn stream r ([], e, n) l = sym (e ∙ append-nil r.recv_buffer)
whole isn stream r (x ∷ rest, e, n) l =
    absurd (omega (arith, ap length e ∙ length-append r.recv_buffer (x ∷ rest), l))

module _ (clock : ℕ → Timeval) (reads : List (List ℕ))
    (nonempty : All (λ bytes. 0 < length bytes) reads)
    (short : 101 + 2 * length (joined reads) < 2 ^ 32) where
  pub Reach-IsSound :
      {w : World}
      → Reach clock (length (joined reads)) (connected reads) w
      → IsSound connected_sender.next_seq_num (joined reads) w
  Reach-IsSound here = connected-IsSound reads nonempty
  Reach-IsSound (next r st) =
      Step-IsSound clock connected_sender.next_seq_num (joined reads) (omega (arith, short, first))
        st (Reach-IsSound r)

  -- Whatever packets the network loses, repeats and reorders, and whenever the client's timers go off:
  -- in every state of the transfer of a file of at most 2^31 - 51 bytes, no read of which is empty, `recv_buffer` of the
  -- server is a beginning of the file, and `next_expected_seq` numbers the byte behind it.
  pub Reach-IsPrefix :
      {w : World}
      → Reach clock (length (joined reads)) (connected reads) w
      → IsPrefix 101 (joined reads) w.server
  Reach-IsPrefix {w} r =
      subst (λ n. IsPrefix n (joined reads) w.server) first.0 (Reach-IsSound r).prefix

  -- Of a file whose length, doubled, and 101 are below 2^32 together, and of which no read is empty: when `send_file`
  -- returns 0, whatever packets were lost, repeated and reordered, the server has received the whole file, and
  -- nothing else.
  pub delivered :
      {w : World}
      → Reach clock (length (joined reads)) (connected reads) w
      → w.client ≡ finished
      → w.server.recv_buffer ≡ joined reads
  delivered {w} r e =
      let s = Reach-IsSound r in
      let enough =
        subst (Leads connected_sender.next_seq_num (joined reads) (length w.server.recv_buffer)) e
          s.client in
      whole connected_sender.next_seq_num (joined reads) w.server s.prefix enough

-- ===== src/Sham/Client/Connection.antt =====
-- The handshake between networking/client.c and networking/server.c.
use operating_systems_and_ne.Prelude.{
  ℕ, zero, suc, ◌≡◌, refl, ap, ◌∙◌, Bool, List, [], ◌∷◌, success,
}
use operating_systems_and_ne.Sham.{has_syn, has_ack}
use operating_systems_and_ne.Sham.Server.{
  Event, packet, timeout, recv_retry, syn_ack, established, await_ack, await_syn, handle_handshake,
}
use operating_systems_and_ne.Sham.Client.{
  Sender, arrived, initial_seq, syn_packet, ack_packet, perform_handshake,
}

-- Some timeouts before other events.
pub delayed : ℕ → List Event → List Event
delayed zero es = es
delayed (suc n) es = timeout ∷ delayed n es

recv_retry-delayed : (n : ℕ) (es : List Event) → recv_retry (delayed n es) ≡ recv_retry es
unfolding recv_retry delayed
recv_retry-delayed zero es = refl
recv_retry-delayed (suc n) es = recv_retry-delayed n es

-- Where every packet of the handshake arrives, after any timeouts of the server: the client has sent
-- its SYN and the acknowledgement of the server's number, both sides are connected, and the server
-- expects the number that the client sends next.
pub handshakes_agree :
    (s : Sender) (m n : ℕ) (drawn drawn' : Bool) (es : List Event)
    → ((perform_handshake s (arrived (syn_ack initial_seq))).1 ≡ syn_packet ∷ ack_packet 5000 ∷ [])
      × ((perform_handshake s (arrived (syn_ack initial_seq))).2 ≡ success)
      × (handle_handshake
            (delayed m (packet syn_packet drawn ∷ delayed n (packet (ack_packet 5000) drawn' ∷ es)))
          ≡ (
            syn_ack initial_seq ∷ [],
            established (perform_handshake s (arrived (syn_ack initial_seq))).0.next_seq_num es,
          ))
unfolding perform_handshake handle_handshake await_syn await_ack recv_retry has_syn has_ack
handshakes_agree s m n drawn drawn' es =
    let rest = packet (ack_packet 5000) drawn' ∷ es in
    (
      refl,
      refl,
      ap await_syn (recv_retry-delayed m (packet syn_packet drawn ∷ delayed n rest))
          ∙ ap (λ r. (syn_ack initial_seq ∷ [], await_ack r)) (recv_retry-delayed n rest),
    )

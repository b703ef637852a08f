-- ===== src/Sham/Tests.antt =====
-- Concrete transfers and chats, for networking/server.c and networking/client.c.
pub mod Transfers
use operating_systems_and_ne.Prelude.{
  ◌≡◌, refl, inr, some, none, true, false, List, [], ◌∷◌, ◌++◌, codes, arith, ◌+◌,
}
use operating_systems_and_ne.Sham.{Packet, zeroed, sham_fin, has_fin, u32}
use operating_systems_and_ne.Sham.Server.{
  Event, packet, timeout, Receiver, ack_of, fin_of, handle_data_transfer,
}
use operating_systems_and_ne.Sham.Server.Delivery.{
  IsChunk, Chunk, Chunks, IsPrefix, handle_data_transfer-IsPrefix, in_order, acks, joined, end_of,
  handle_data_transfer-in_order,
}
use operating_systems_and_ne.Sham.Server.{syn_ack, established, handle_handshake}
use operating_systems_and_ne.Sham.Client.{
  Sender, arrived, syn_packet, ack_packet, perform_handshake,
}
use operating_systems_and_ne.Sham.Client.Chat.{
  Ready, ready, handle_chat_mode, HasSent, handle_chat_mode-HasSent,
}
use operating_systems_and_ne.Sham.Client.Connection.{delayed, handshakes_agree}
use operating_systems_and_ne.Prelude.{success, map, text_eq}
use operating_systems_and_ne.Sham.Conversation.{serve_chat, typed, arrives, peer_line, conversation}

abbrev piece : Packet
piece = record zeroed { seq_num = 1001; payload = codes "ab" }

abbrev later_piece : Packet
later_piece = record zeroed { seq_num = 1003; payload = codes "cd" }

-- The second piece, then the first twice, and the end: "cd" is not received.
abbrev disordered : List Event
disordered =
    timeout
    ∷ packet later_piece false
    ∷ packet piece false
    ∷ packet piece false
    ∷ packet (record zeroed { seq_num = 1005; flags = sham_fin }) false
    ∷ []

abbrev nothing_yet : Receiver
nothing_yet = record { recv_buffer = []; next_expected_seq = 1001 }

disordered-Chunks : Chunks 1001 (codes "abcd") disordered
unfolding Chunks Chunk IsChunk has_fin
disordered-Chunks = (
  tt,
  (
    λ _. inr (codes "ab", [], refl, refl),
    (λ _. inr ([], codes "cd", refl, refl), (λ _. inr ([], codes "cd", refl, refl), (λ e. cc, tt))),
  ),
)

nothing_yet-IsPrefix : IsPrefix 1001 (codes "abcd") nothing_yet
unfolding IsPrefix
nothing_yet-IsPrefix = (codes "abcd", refl, refl)

handle_data_transfer-IsPrefix_example :
    IsPrefix 1001 (codes "abcd") (handle_data_transfer nothing_yet disordered).0
handle_data_transfer-IsPrefix_example =
    handle_data_transfer-IsPrefix 1001 (codes "abcd") nothing_yet disordered (omega arith)
      disordered-Chunks nothing_yet-IsPrefix

abbrev last : Packet
last = record zeroed { seq_num = 1005; flags = sham_fin }

last-has_fin : has_fin last.flags ≡ true
unfolding has_fin
last-has_fin = refl

handle_data_transfer-in_order_example :
    handle_data_transfer nothing_yet
      (in_order 1001 (codes "ab" ∷ codes "cd" ∷ []) ++ packet last true ∷ [])
    ≡ (
      record {
        recv_buffer = [] ++ joined (codes "ab" ∷ codes "cd" ∷ []);
        next_expected_seq = end_of 1001 (codes "ab" ∷ codes "cd" ∷ []);
      },
      acks 1001 (codes "ab" ∷ codes "cd" ∷ [])
          ++ (ack_of (u32 (1005 + 1)) ∷ fin_of (end_of 1001 (codes "ab" ∷ codes "cd" ∷ [])) ∷ []),
    )
handle_data_transfer-in_order_example =
    handle_data_transfer-in_order nothing_yet (codes "ab" ∷ codes "cd" ∷ []) last true []
      last-has_fin (omega arith, (omega arith, tt))

abbrev unconnected : Sender
unconnected = record { next_seq_num = 0; window_base = 0; peer_window = 65535 }

handshakes_agree_example :
    ((perform_handshake unconnected (arrived (syn_ack 100))).1 ≡ syn_packet ∷ ack_packet 5000 ∷ [])
    × ((perform_handshake unconnected (arrived (syn_ack 100))).2 ≡ success)
    × (handle_handshake (
          delayed 1
            (packet syn_packet false ∷ delayed 2 (packet (ack_packet 5000) false ∷ disordered)))
        ≡ (
          syn_ack 100 ∷ [],
          established
              (perform_handshake unconnected (arrived (syn_ack 100))).0.next_seq_num
              disordered,
        ))
handshakes_agree_example = handshakes_agree unconnected 1 2 false false disordered

conversation_example :
    serve_chat 7 (
      map arrives
        (handle_chat_mode unconnected
          (map typed (codes "hi" ∷ codes "ho" ∷ []) ++ typed (codes "/quit now") ∷ [])).1
      ++ [])
    ≡ (7, [], map peer_line (codes "hi" ∷ codes "ho" ∷ []))
unfolding text_eq
conversation_example =
    conversation unconnected 7 (codes "hi" ∷ codes "ho" ∷ []) (codes "/quit now") [] []
      ((omega arith, refl), ((omega arith, refl), tt)) refl

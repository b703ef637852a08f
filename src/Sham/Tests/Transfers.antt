-- ===== src/Sham/Tests/Transfers.antt =====
-- Concrete transfers between networking/client.c and networking/server.c.
use operating_systems_and_ne.Prelude.{
  ℕ, ◌<◌, All, length, ◌≡◌, refl, false, List, [], ◌∷◌, codes, arith,
}
use operating_systems_and_ne.Sham.{Packet, zeroed, has_ack, has_fin, has_syn}
use operating_systems_and_ne.Sham.Server.{receive_data, ack_of, syn_ack}
use operating_systems_and_ne.Sham.Server.Delivery.{IsPrefix, joined}
use operating_systems_and_ne.Sham.Client.{arrived, timed_out}
use operating_systems_and_ne.Sham.Client.Window.{
  Timeval, start_transfer, finished, begin_round, end_round,
}
use operating_systems_and_ne.Sham.Transfer.{
  World, connected_sender, connected, Reach, here, next, client_sends, client_hears, server_round,
}
use operating_systems_and_ne.Sham.Transfer.Delivered.{Reach-IsPrefix, delivered}
use operating_systems_and_ne.Sham.Transfer.LastHeard.{last_heard_rounds, last_heard_rounds-finished}
use operating_systems_and_ne.Sham.Transfer.Finishes.{transfer_ends}
use operating_systems_and_ne.Sham.Transfer.Silent.{whole-silent}

-- A clock that runs fast: between two readings, half a second passes.
abbrev clock : ℕ → Timeval
clock n = record { sec = n; usec = 0 }

abbrev reads : List (List ℕ)
reads = codes "ab" ∷ []

abbrev piece : Packet
piece = record zeroed { seq_num = 101; window_size = 65535; payload = codes "ab" }

-- The piece is lost, sent again, received twice, and acknowledged.
abbrev final : World
final = record {
  client = finished;
  server = record { recv_buffer = codes "ab"; next_expected_seq = 103 };
  packets = piece ∷ piece ∷ [];
  acks = syn_ack 100 ∷ ack_of 103 ∷ [];
}

to_final : Reach clock 2 (connected reads) final
unfolding connected connected_sender begin_round end_round receive_data has_ack has_fin has_syn
to_final =
    next
      (next
        (next
          (next (next (next here (client_sends refl)) (client_hears timed_out refl tt))
            (client_sends refl))
          (server_round 1 piece false refl))
        (server_round 0 piece false refl))
      (client_hears (arrived (ack_of 103)) refl (1, refl))

Reach-IsPrefix_example : IsPrefix 101 (codes "ab") final.server
unfolding joined
Reach-IsPrefix_example = Reach-IsPrefix clock reads (omega arith, tt) (omega arith) to_final

delivered_example : codes "ab" ≡ joined (codes "ab" ∷ [])
unfolding joined
delivered_example = delivered clock reads (omega arith, tt) (omega arith) to_final refl

-- More reads than a window has room for.
abbrev many_reads : List (List ℕ)
many_reads =
    codes "ab"
    ∷ codes "c"
    ∷ codes "d"
    ∷ codes "e"
    ∷ codes "f"
    ∷ codes "g"
    ∷ codes "h"
    ∷ codes "i"
    ∷ codes "j"
    ∷ codes "k"
    ∷ codes "l"
    ∷ codes "mn"
    ∷ []

one_each : All (λ bytes. 0 < length bytes) many_reads
one_each = ground arith

last_heard_rounds-finished_example :
    last_heard_rounds clock 14 13
      (start_transfer connected_sender many_reads)
      (record { recv_buffer = []; next_expected_seq = 101 })
    ≡ (finished, record { recv_buffer = codes "abcdefghijklmn"; next_expected_seq = 115 })
unfolding joined
last_heard_rounds-finished_example =
    last_heard_rounds-finished clock many_reads one_each (omega arith)

transfer_ends_example :
    (w : World) × Reach clock 14 (connected many_reads) w
    × (w.client ≡ finished)
    × (w.server ≡ record { recv_buffer = codes "abcdefghijklmn"; next_expected_seq = 115 })
unfolding joined
transfer_ends_example = transfer_ends clock many_reads one_each (omega arith)

-- The server has the piece, and its acknowledgement has not arrived.
abbrev unheard : World
unheard = record {
  client = (begin_round clock 2 (start_transfer connected_sender reads)).0;
  server = record { recv_buffer = codes "ab"; next_expected_seq = 103 };
  packets = piece ∷ [];
  acks = syn_ack 100 ∷ ack_of 103 ∷ [];
}

to_unheard : Reach clock 2 (connected reads) unheard
unfolding connected connected_sender begin_round receive_data has_ack has_fin has_syn
to_unheard = next (next here (client_sends refl)) (server_round 0 piece false refl)

-- The piece arrives again.
abbrev unheard_again : World
unheard_again = unheard

to_unheard_again : Reach clock 2 unheard unheard_again
unfolding receive_data
to_unheard_again = next here (server_round 0 piece false refl)

whole-silent_example : (unheard_again.server ≡ unheard.server) × (unheard_again.acks ≡ unheard.acks)
unfolding joined
whole-silent_example =
    whole-silent clock reads (omega arith, tt) (omega arith) to_unheard refl to_unheard_again

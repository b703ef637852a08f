-- ===== src/Sham/Transfer/Silent.antt =====
-- networking/server.c behind the last byte of a file: only a packet in order is acknowledged.
use operating_systems_and_ne.Prelude.{
  ℕ, ◌+◌, ◌*◌, ◌^◌, ◌<◌, ◌≡◌, refl, ap, ◌∙◌, Bool, List, [], ◌++◌, length, length-append,
  append-nil, All, get_elem?, some, arith, inl, inr,
}
use operating_systems_and_ne.Sham.{Packet}
use operating_systems_and_ne.Sham.Client.Window.{Timeval}
use operating_systems_and_ne.Sham.Client.Window.Pieces.{IsSent}
use operating_systems_and_ne.Sham.Server.{Receiver, receive_data}
use operating_systems_and_ne.Sham.Server.Delivery.{IsPrefix, IsChunk, IsPiece, joined}
use operating_systems_and_ne.Sham.Transfer.{
  World, connected, connected_sender, Step, client_sends, client_hears, server_round, Reach, here,
  next,
}
use operating_systems_and_ne.Sham.Transfer.Delivered.{
  first, IsSound, Step-IsSound, Reach-IsSound, All-get,
}

out_of_order :
    (r : Receiver) (p : Packet) (drawn : Bool)
    → (0 < length p.payload → p.seq_num < r.next_expected_seq)
    → receive_data r p drawn ≡ (r, [])
unfolding receive_data
out_of_order r p drawn h = ground (arith, h)

IsPiece-behind :
    (isn : ℕ) (stream : List ℕ) (p : Packet)
    → IsPiece isn stream p
    → 0 < length p.payload
    → p.seq_num < isn + length stream
unfolding IsChunk
IsPiece-behind isn stream p (inl e) l = absurd (omega (arith, ap length e, l))
IsPiece-behind isn stream p (inr (before, after, e, n)) l = omega (
  arith,
  n,
  l,
  ap length e ∙ length-append before (p.payload ++ after),
  length-append p.payload after,
)

module _ (clock : ℕ → Timeval) (isn : ℕ) (stream : List ℕ)
    (short : isn + 2 * length stream < 2 ^ 32) where
  -- The server is at the end of the stream.
  abbrev IsWhole : World → Type 0
  IsWhole w = IsSound isn stream w × (w.server.recv_buffer ≡ stream)

  whole_next : (w : World) → IsWhole w → w.server.next_expected_seq ≡ isn + length stream
  unfolding IsPrefix
  whole_next w (s, e) = omega (arith, s.prefix.2, ap length e, short)

  answers_nothing :
      (w : World) (i : ℕ) (p : Packet) (drawn : Bool)
      → IsWhole w
      → get_elem? w.packets i ≡ some p
      → receive_data w.server p drawn ≡ (w.server, [])
  answers_nothing w i p drawn h e =
      let (piece, plain) = All-get (IsSent isn stream) w.packets i p e h.0.packets in
      out_of_order w.server p drawn
        (λ l. omega (arith, IsPiece-behind isn stream p piece l, whole_next w h))

  -- What a step keeps, when the server is at the end.
  abbrev Keeps : World → World → Type 0
  Keeps w v = IsWhole v × (v.server ≡ w.server) × (v.acks ≡ w.acks)

  Step-Keeps : (w : World) {u v : World} → Step clock (length stream) u v → Keeps w u → Keeps w v
  Step-Keeps w (client_sends e) k =
      ((Step-IsSound clock isn stream short (client_sends e) k.0.0, k.0.1), k.1, k.2)
  Step-Keeps w (client_hears a e h) k =
      ((Step-IsSound clock isn stream short (client_hears a e h) k.0.0, k.0.1), k.1, k.2)
  Step-Keeps w {u} (server_round i p drawn e) k =
      let silent = answers_nothing u i p drawn k.0 e in
      let same = ap (λ (x : Receiver × List Packet). x.0) silent in
      (
        (
          Step-IsSound clock isn stream short (server_round i p drawn e) k.0.0,
          ap (λ (r : Receiver). r.recv_buffer) same ∙ k.0.1,
        ),
        same ∙ k.1,
        ap (λ (x : Receiver × List Packet). u.acks ++ x.1) silent ∙ append-nil u.acks ∙ k.2,
      )

  Reach-Keeps : {w v : World} → IsWhole w → Reach clock (length stream) w v → Keeps w v
  Reach-Keeps h here = (h, refl, refl)
  Reach-Keeps {w} h (next r st) = Step-Keeps w st (Reach-Keeps h r)

-- Once the server has the whole file, of at most 2^31 - 51 bytes, no read of which is empty, it acknowledges
-- nothing any more: whatever happens, it stays as it is and the acknowledgements sent stay the same, so that
-- a last acknowledgement that is lost is never repeated, however often the client sends its packet again.
pub whole-silent :
    (clock : ℕ → Timeval) (reads : List (List ℕ))
    → All (λ bytes. 0 < length bytes) reads
    → 101 + 2 * length (joined reads) < 2 ^ 32
    → {w v : World} → Reach clock (length (joined reads)) (connected reads) w
    → w.server.recv_buffer ≡ joined reads
    → Reach clock (length (joined reads)) w v
    → (v.server ≡ w.server) × (v.acks ≡ w.acks)
whole-silent clock reads h l r e r' =
    let (kept, server, acks) =
      Reach-Keeps clock connected_sender.next_seq_num (joined reads) (omega (arith, l, first))
        (Reach-IsSound clock reads h l r, e) r' in
    (server, acks)

-- ===== src/Sham/Server/Delivery.antt =====
-- What the reception of networking/server.c delivers: `recv_buffer` against the stream of the peer.
use operating_systems_and_ne.Prelude.{
  ℕ, ◌+◌, ◌^◌, ◌<◌, Bool, true, false, ◌&&◌, List, [], ◌∷◌, ◌++◌, ◌≡◌, refl, sym, ap, ◌∙◌, ◌==◌,
  ◌⊎◌, ==_iff, ltb, drop, length, length-append, append-nil, append_assoc, arith, Bool-cases, inl,
  inr, All,
}
use operating_systems_and_ne.Sham.{u32, Packet, has_fin, zeroed}
use operating_systems_and_ne.Sham.Server.{
  Event, packet, runt, timeout, failed, Receiver, ack_of, fin_of, receive_data,
  handle_data_transfer,
}

-- The non-FIN packet `p` carries its piece of `stream`, whose first byte has the sequence number `isn`.
unfoldable pub IsChunk : ℕ → List ℕ → Packet → Type 0
IsChunk isn stream p =
    (before : List ℕ) × (after : List ℕ) × (stream ≡ before ++ (p.payload ++ after))
    × (p.seq_num ≡ u32 (isn + length before))

-- The packet carries nothing, or its piece.
abbrev pub IsPiece : ℕ → List ℕ → Packet → Type 0
IsPiece isn stream p = (p.payload ≡ []) ⊎ IsChunk isn stream p

-- The same of an event, and of each event.
unfoldable pub Chunk : ℕ → List ℕ → Event → Type 0
unfolding IsChunk
Chunk isn stream (packet p drawn) = has_fin p.flags ≡ false → IsPiece isn stream p
Chunk isn stream e = Unit

unfoldable pub Chunks : ℕ → List ℕ → List Event → Type 0
unfolding Chunk
Chunks isn stream [] = Unit
Chunks isn stream (e ∷ es) = Chunk isn stream e × Chunks isn stream es

-- What was received is the beginning of the stream, and the next number is that of the byte after it.
unfoldable pub IsPrefix : ℕ → List ℕ → Receiver → Type 0
IsPrefix isn stream r =
    (rest : List ℕ) × (stream ≡ r.recv_buffer ++ rest)
    × (r.next_expected_seq ≡ u32 (isn + length r.recv_buffer))

u32_injective : (n a b : ℕ) → a < 2 ^ 32 → b < 2 ^ 32 → u32 (n + a) ≡ u32 (n + b) → a ≡ b
u32_injective n a b p q e = omega arith

u32_step : (a n : ℕ) → u32 (u32 a + n) ≡ u32 (a + n)
u32_step a n = omega arith

-- Two ways to cut a list at the same place.
same_cut : (xs ys xs' ys' : List ℕ) → xs ++ ys ≡ xs' ++ ys' → length xs ≡ length xs' → ys ≡ ys'
same_cut [] ys [] ys' e l = e
same_cut [] ys (x ∷ xs') ys' e l = let no : ⊥ = omega (arith, l) in elim no [ ]
same_cut (x ∷ xs) ys [] ys' e l = let no : ⊥ = omega (arith, l) in elim no [ ]
same_cut (x ∷ xs) ys (x' ∷ xs') ys' e l = same_cut xs ys xs' ys' (ap (drop 1) e) (omega (arith, l))

and_right : (a b : Bool) → (a && b) ≡ true → b ≡ true
and_right a b e = ground arith

-- The packet that is taken holds what follows `recv_buffer` in the stream.
taken :
    (isn : ℕ) (stream buffer rest payload before after : List ℕ) (next number : ℕ)
    → length stream < 2 ^ 32
    → stream ≡ buffer ++ rest
    → next ≡ u32 (isn + length buffer)
    → stream ≡ before ++ (payload ++ after)
    → number ≡ u32 (isn + length before)
    → number ≡ next
    → (stream ≡ (buffer ++ payload) ++ after)
      × (u32 (next + length payload) ≡ u32 (isn + length (buffer ++ payload)))
taken isn stream buffer rest payload before after next number short e at e' at' same =
    let l = ap length e ∙ length-append buffer rest in
    let l' = ap length e' ∙ length-append before (payload ++ after) in
    let lengths : length buffer ≡ length before =
      u32_injective isn (length buffer) (length before) (omega (arith, l)) (omega (arith, l'))
        (cc) in
    let rests : rest ≡ payload ++ after =
      same_cut buffer rest before (payload ++ after) (sym e ∙ e') lengths in
    (
      e ∙ ap (λ xs. buffer ++ xs) rests ∙ sym (append_assoc buffer payload after),
      ap (λ n. u32 (n + length payload)) at
          ∙ u32_step (isn + length buffer) (length payload)
          ∙ ap u32 (omega (arith, length-append buffer payload)),
    )

receive_data-chunk :
    (isn : ℕ) (stream : List ℕ) (r : Receiver) (p : Packet) (drawn : Bool)
    → length stream < 2 ^ 32
    → IsChunk isn stream p
    → IsPrefix isn stream r
    → IsPrefix isn stream (receive_data r p drawn).0
unfolding receive_data IsPrefix IsChunk
receive_data-chunk isn stream r p drawn short (before, after, e, number) (rest, e', number') =
    elim (Bool-cases (drawn && ltb 0 (length p.payload))) [
      | inl d ↦ rw (d) (rest, e', number')
      | inr d ↦ elim (Bool-cases (ltb 0 (length p.payload) && p.seq_num == r.next_expected_seq)) [
        | inl t ↦
            let (more, next) =
              taken isn stream r.recv_buffer rest p.payload before after r.next_expected_seq
                p.seq_num short e' number' e number
                ((==_iff p.seq_num r.next_expected_seq).0
                  (and_right (ltb 0 (length p.payload)) (p.seq_num == r.next_expected_seq) t)) in
            rw (d, t) (after, more, next)
        | inr t ↦ rw (d, t) (rest, e', number')
      ]
    ]

-- A packet that carries nothing is passed over.
receive_data-empty :
    (r : Receiver) (p : Packet) (drawn : Bool) → p.payload ≡ [] → (receive_data r p drawn).0 ≡ r
unfolding receive_data
receive_data-empty r p drawn e = ground (arith, ap (λ (xs : List ℕ). length xs) e)

pub receive_data-IsPrefix :
    (isn : ℕ) (stream : List ℕ) (r : Receiver) (p : Packet) (drawn : Bool)
    → length stream < 2 ^ 32
    → IsPiece isn stream p
    → IsPrefix isn stream r
    → IsPrefix isn stream (receive_data r p drawn).0
receive_data-IsPrefix isn stream r p drawn short (inl e) i = rw (receive_data-empty r p drawn e) i
receive_data-IsPrefix isn stream r p drawn short (inr h) i =
    receive_data-chunk isn stream r p drawn short h i

-- Where every packet that comes before the end carries nothing, or its piece of one stream of fewer
-- than 2^32 bytes, in whatever order they come, with whatever losses and repetitions: the transfer ends with a
-- beginning of the stream in `recv_buffer`, and `next_expected_seq` numbers the byte behind it.
pub handle_data_transfer-IsPrefix :
    (isn : ℕ) (stream : List ℕ) (r : Receiver) (es : List Event)
    → length stream < 2 ^ 32
    → Chunks isn stream es
    → IsPrefix isn stream r
    → IsPrefix isn stream (handle_data_transfer r es).0
unfolding handle_data_transfer Chunks Chunk
handle_data_transfer-IsPrefix isn stream r [] short h i = i
handle_data_transfer-IsPrefix isn stream r (timeout ∷ es) short h i =
    handle_data_transfer-IsPrefix isn stream r es short h.1 i
handle_data_transfer-IsPrefix isn stream r (runt ∷ es) short h i = i
handle_data_transfer-IsPrefix isn stream r (failed ∷ es) short h i = i
handle_data_transfer-IsPrefix isn stream r (packet p drawn ∷ es) short h i =
    elim (Bool-cases (has_fin p.flags)) [
      | inl f ↦ rw (f) i
      | inr f ↦ rw (f) (
          handle_data_transfer-IsPrefix isn stream (receive_data r p drawn).0 es short h.1
            (receive_data-IsPrefix isn stream r p drawn short (h.0 f) i))
    ]

-- The data packets that carry `pieces` one after the other from the number `n` on, none of them lost.
unfoldable pub in_order : ℕ → List (List ℕ) → List Event
in_order n [] = []
in_order n (bytes ∷ pieces) =
    packet (record zeroed { seq_num = n; payload = bytes }) false
    ∷ in_order (u32 (n + length bytes)) pieces

-- The acknowledgements that name the number behind each of `pieces`.
unfoldable pub acks : ℕ → List (List ℕ) → List Packet
acks n [] = []
acks n (bytes ∷ pieces) = let next = u32 (n + length bytes) in ack_of next ∷ acks next pieces

unfoldable pub joined : List (List ℕ) → List ℕ
joined [] = []
joined (bytes ∷ pieces) = bytes ++ joined pieces

unfoldable pub end_of : ℕ → List (List ℕ) → ℕ
end_of n [] = n
end_of n (bytes ∷ pieces) = end_of (u32 (n + length bytes)) pieces

expected : (len seq : ℕ) → 0 < len → (ltb 0 len && seq == seq) ≡ true
expected len seq h = ground arith

-- The pieces, none of them empty, that come in order and without a loss are all in `recv_buffer` when
-- a FIN ends the transfer, each was acknowledged by the number behind it, and the FIN is answered by
-- its acknowledgement and the server's own FIN.
pub handle_data_transfer-in_order :
    (r : Receiver) (pieces : List (List ℕ)) (fin : Packet) (drawn : Bool) (es : List Event)
    → has_fin fin.flags ≡ true
    → All (λ bytes. 0 < length bytes) pieces
    → handle_data_transfer r (in_order r.next_expected_seq pieces ++ packet fin drawn ∷ es) ≡ (
      record {
        recv_buffer = r.recv_buffer ++ joined pieces;
        next_expected_seq = end_of r.next_expected_seq pieces;
      },
      acks r.next_expected_seq pieces
          ++ (ack_of (u32 (fin.seq_num + 1)) ∷ fin_of (end_of r.next_expected_seq pieces) ∷ []),
    )
unfolding handle_data_transfer in_order acks joined end_of receive_data has_fin
handle_data_transfer-in_order r [] fin drawn es f h = rw (f, append-nil r.recv_buffer) refl
handle_data_transfer-in_order r (bytes ∷ pieces) fin drawn es f h = rw (
  expected (length bytes) r.next_expected_seq h.0,
  handle_data_transfer-in_order
      (record {
        recv_buffer = r.recv_buffer ++ bytes;
        next_expected_seq = u32 (r.next_expected_seq + length bytes);
      })
      pieces fin drawn es f h.1,
  append_assoc r.recv_buffer bytes (joined pieces),
)

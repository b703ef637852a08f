-- ===== src/Sham/Transfer/Filling.antt =====
-- The packets with which networking/client.c fills its window, as networking/server.c receives them
-- when none is lost.
use operating_systems_and_ne.Prelude.{
  ℕ, suc, ◌⊎◌, ◌+◌, ◌^◌, ◌≤◌, ◌<◌, ◌≡◌, refl, ap, ◌∙◌, subst, sym, Bool, true, false, List, [], ◌∷◌,
  ◌++◌, if_ind, length, length-append, append_assoc, All, arith, inl, inr,
}
use operating_systems_and_ne.Sham.{u32, Packet}
use operating_systems_and_ne.Sham.Client.{Sender, Answer, arrived, timed_out}
use operating_systems_and_ne.Sham.Client.Window.{
  Timeval, Transfer, has_room, data_packet, put_packet, fill,
}
use operating_systems_and_ne.Sham.Server.{Receiver, receive_data, ack_of}
use operating_systems_and_ne.Sham.Server.Delivery.{joined}

unfoldable pub last_of : List Packet → Answer → Answer
last_of [] a = a
last_of (p ∷ ps) a = last_of ps (arrived p)

-- Every packet arrives, in order: the receiver behind them, and the last answer to them.
unfoldable pub deliver : Receiver → List Packet → Answer → Receiver × Answer
unfolding last_of
deliver r [] a = (r, a)
deliver r (p ∷ ps) a = let (r', acks) = receive_data r p false in deliver r' ps (last_of acks a)

-- What an answer brings the base to.
abbrev pub Brings : Answer → (base next : ℕ) → Type 0
Brings a base next = (a ≡ arrived (ack_of next)) ⊎ ((a ≡ timed_out) × (base ≡ next))

-- What filling the window has come to, when its packets have arrived.
pub record Fed (t : Transfer) (reads : List (List ℕ)) (r : Receiver) (out : Transfer)
    (r' : Receiver) (a : Answer) : Type 0 where
  pub buffer : r'.recv_buffer ++ joined out.reads ≡ r.recv_buffer ++ joined reads
  pub expects : r'.next_expected_seq ≡ out.sender.next_seq_num
  pub ended : out.done_sending ≡ true → out.reads ≡ []
  pub nonempty : All (λ bytes. 0 < length bytes) out.reads
  pub numbers :
      out.sender.next_seq_num + length (joined out.reads)
      ≡ t.sender.next_seq_num + length (joined reads)
  pub grows : t.sender.next_seq_num ≤ out.sender.next_seq_num
  pub base : out.sender.window_base ≡ t.sender.window_base
  pub brings : Brings a out.sender.window_base out.sender.next_seq_num
  pub shorter : length out.reads ≤ length reads
  pub moves :
      has_room t.sender ≡ true → (out.done_sending ≡ true) ⊎ (suc (length out.reads) ≤ length reads)

receive_next :
    (s : Sender) (r : Receiver) (b : ℕ) (bytes : List ℕ)
    → r.next_expected_seq ≡ s.next_seq_num
    → receive_data r (data_packet s (b ∷ bytes)) false ≡ (
      record {
        recv_buffer = r.recv_buffer ++ (b ∷ bytes);
        next_expected_seq = u32 (s.next_seq_num + length (b ∷ bytes));
      },
      ack_of (u32 (s.next_seq_num + length (b ∷ bytes))) ∷ [],
    )
unfolding receive_data
receive_next s r b bytes e = ground (arith, e)

-- Nothing is sent.
stays :
    (t : Transfer) (reads : List (List ℕ)) (r : Receiver) (a : Answer) (done : Bool)
    → t.reads ≡ reads
    → r.next_expected_seq ≡ t.sender.next_seq_num
    → All (λ bytes. 0 < length bytes) reads
    → Brings a t.sender.window_base t.sender.next_seq_num
    → (done ≡ true → reads ≡ [])
    → (has_room t.sender ≡ true → done ≡ true)
    → Fed t reads r (record t { done_sending = done }) r a
stays t reads r a done e n h br f g = record {
  buffer = ap (λ rs. r.recv_buffer ++ joined rs) e;
  expects = n;
  ended = λ d. e ∙ f d;
  nonempty = subst (All (λ bytes. 0 < length bytes)) (sym e) h;
  numbers = ap (λ rs. t.sender.next_seq_num + length (joined rs)) e;
  grows = omega arith;
  base = refl;
  brings = br;
  shorter = omega (arith, ap length e);
  moves = λ room. inl (g room);
}

module _ (clock : ℕ → Timeval) where
  abbrev pub FillsTo :
      Transfer → List (List ℕ) → Receiver → Answer → Transfer × List Packet → Type 0
  FillsTo t reads r a out = Fed t reads r out.0 (deliver r out.1 a).0 (deliver r out.1 a).1

  -- The first packet arrives, then the others.
  first_arrives :
      (t : Transfer) (b : ℕ) (bytes : List ℕ) (reads : List (List ℕ)) (r : Receiver) (a : Answer)
      (out : Transfer × List Packet)
      → r.next_expected_seq ≡ t.sender.next_seq_num
      → t.sender.next_seq_num + (length (b ∷ bytes) + length (joined reads)) < 2 ^ 32
      → (let next = u32 (t.sender.next_seq_num + length (b ∷ bytes)) in
          FillsTo
            (put_packet clock t (b ∷ bytes) reads)
            reads
            (record { recv_buffer = r.recv_buffer ++ (b ∷ bytes); next_expected_seq = next })
            (arrived (ack_of next))
            out)
      → FillsTo t ((b ∷ bytes) ∷ reads) r a (out.0, data_packet t.sender (b ∷ bytes) ∷ out.1)
  unfolding put_packet deliver joined
  first_arrives t b bytes reads r a (out, sent) n l fed =
      let l' = length-append (b ∷ bytes) (joined reads) in
      subst
        (λ (x : Receiver × List Packet).
          Fed t ((b ∷ bytes) ∷ reads) r out (deliver x.0 sent (last_of x.1 a)).0
            (deliver x.0 sent (last_of x.1 a)).1)
        (sym (receive_next t.sender r b bytes n))
        (record {
          buffer = fed.buffer ∙ append_assoc r.recv_buffer (b ∷ bytes) (joined reads);
          expects = fed.expects;
          ended = fed.ended;
          nonempty = fed.nonempty;
          numbers = omega (arith, fed.numbers, l, l');
          grows = omega (arith, fed.grows, l, l');
          base = fed.base;
          brings = fed.brings;
          shorter = omega (arith, fed.shorter);
          moves = λ room. inr (omega (arith, fed.shorter));
        })

  pub fill-Fed :
      (t : Transfer) (reads : List (List ℕ)) (r : Receiver) (a : Answer)
      → t.reads ≡ reads
      → t.done_sending ≡ false
      → r.next_expected_seq ≡ t.sender.next_seq_num
      → All (λ bytes. 0 < length bytes) reads
      → t.sender.next_seq_num + length (joined reads) < 2 ^ 32
      → Brings a t.sender.window_base t.sender.next_seq_num
      → FillsTo t reads r a (fill clock t reads)
  unfolding fill deliver joined put_packet
  fill-Fed t [] r a e d n h l br =
      if_ind (λ (out : Transfer). Fed t [] r out r a) (has_room t.sender)
        (λ room. stays t [] r a true e n h br (λ _. refl) (λ _. refl))
        (λ room. stays t [] r a t.done_sending e n h br (λ _. refl) (λ full. cc))
  fill-Fed t ([] ∷ reads) r a e d n h l b = absurd (omega (arith, h.0))
  fill-Fed t ((b ∷ bytes) ∷ reads) r a e d n h l br =
      let l' = length-append (b ∷ bytes) (joined reads) in
      if_ind (FillsTo t ((b ∷ bytes) ∷ reads) r a) (has_room t.sender)
        (λ room.
          first_arrives t b bytes reads r a
            (fill clock (put_packet clock t (b ∷ bytes) reads) reads) n (omega (arith, l, l'))
            (fill-Fed (put_packet clock t (b ∷ bytes) reads) reads _ _ (refl) (d) (refl) h.1
              ((omega (arith, l, l'))) ((inl refl))))
        (λ room.
          stays t ((b ∷ bytes) ∷ reads) r a t.done_sending e n h br (λ done. cc) (λ full. cc))

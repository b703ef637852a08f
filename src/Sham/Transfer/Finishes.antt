-- ===== src/Sham/Transfer/Finishes.antt =====
-- A transfer between networking/client.c and networking/server.c can come to its end: the schedule of LastHeard is a
-- run of the client, the server and the network.
use operating_systems_and_ne.Prelude.{
  ℕ, zero, suc, ◌+◌, ◌^◌, ◌<◌, ◌≡◌, refl, ap, ◌∙◌, sym, subst, false, some, List, [], ◌∷◌, ◌++◌,
  length, get_elem?, append_assoc, append-nil, All,
}
use operating_systems_and_ne.Sham.{Packet, has_syn, has_ack}
use operating_systems_and_ne.Sham.Client.{Answer, arrived, timed_out, broken}
use operating_systems_and_ne.Sham.Client.Window.{
  Timeval, Transfer, start_transfer, Progress, sending, waiting, finished, gave_up, begin_round,
  end_round,
}
use operating_systems_and_ne.Sham.Server.{Receiver, receive_data}
use operating_systems_and_ne.Sham.Server.Delivery.{joined}
use operating_systems_and_ne.Sham.Transfer.{
  World, connected_sender, connected, Heard, client_sends, client_hears, server_round, Reach, here,
  next,
}
use operating_systems_and_ne.Sham.Transfer.Filling.{last_of, deliver}
use operating_systems_and_ne.Sham.Transfer.LastHeard.{
  behind_end, behind_begin, last_heard_rounds, last_heard_rounds-finished,
}

-- The answer is none, or one of these packets.
abbrev HeardIn : List Packet → Answer → Type 0
HeardIn acks (arrived p) = (i : ℕ) × (get_elem? acks i ≡ some p)
HeardIn acks timed_out = Unit
HeardIn acks broken = Unit

Heard-of_HeardIn : (w : World) (a : Answer) → HeardIn w.acks a → Heard w a
Heard-of_HeardIn w (arrived p) h = h
Heard-of_HeardIn w timed_out h = tt
Heard-of_HeardIn w broken h = tt

get_elem?-behind :
    (xs ys : List Packet) (p : Packet) → get_elem? (xs ++ p ∷ ys) (length xs) ≡ some p
get_elem?-behind [] ys p = refl
get_elem?-behind (x ∷ xs) ys p = get_elem?-behind xs ys p

-- The last of the answers is heard.
last_of-HeardIn :
    (acks new : List Packet) (a : Answer) → HeardIn acks a → HeardIn (acks ++ new) (last_of new a)
unfolding last_of
last_of-HeardIn acks [] a h = subst (λ xs. HeardIn xs a) (sym (append-nil acks)) h
last_of-HeardIn acks (p ∷ new) a h =
    subst (λ xs. HeardIn xs (last_of new (arrived p))) (append_assoc acks (p ∷ []) new)
      (last_of-HeardIn (acks ++ p ∷ []) new (arrived p) (length acks, get_elem?-behind acks [] p))

module _ (clock : ℕ → Timeval) (file_size : ℕ) (start : World) where
  -- A state that is reached from the start.
  record Reached (client : Progress) (server : Receiver) (packets : List Packet) (a : Answer)
      : Type 0 where
    pub world : World
    pub run : Reach clock file_size start world
    pub client_is : world.client ≡ client
    pub server_is : world.server ≡ server
    pub packets_are : world.packets ≡ packets
    pub heard : HeardIn world.acks a

  -- The packets behind `sent` arrive one after the other.
  deliver-Reached :
      (client : Progress) (r : Receiver) (sent ps : List Packet) (a : Answer)
      → Reached client r (sent ++ ps) a
      → Reached client (deliver r ps a).0 (sent ++ ps) (deliver r ps a).1
  unfolding deliver
  deliver-Reached client r sent [] a h = h
  deliver-Reached client r sent (p ∷ ps) a h =
      let (r', acks) = receive_data r p false in
      let there : get_elem? h.world.packets (length sent) ≡ some p =
        ap (λ xs. get_elem? xs (length sent)) h.packets_are ∙ get_elem?-behind sent ps p in
      let same = ap (λ s. receive_data s p false) h.server_is in
      let split = append_assoc sent (p ∷ []) ps in
      let arrives : Reached client r' ((sent ++ p ∷ []) ++ ps) (last_of acks a) = record {
        world = _;
        run = next h.run (server_round (length sent) p false there);
        client_is = h.client_is;
        server_is = ap (λ (out : Receiver × List Packet). out.0) same;
        packets_are = h.packets_are ∙ sym split;
        heard =
            subst (λ new. HeardIn (h.world.acks ++ new) (last_of acks a))
              (sym (ap (λ (out : Receiver × List Packet). out.1) same))
              (last_of-HeardIn h.world.acks acks a h.heard);
      } in
      let rest = deliver-Reached client r' (sent ++ p ∷ []) ps (last_of acks a) arrives in
      record {
        world = rest.world;
        run = rest.run;
        client_is = rest.client_is;
        server_is = rest.server_is;
        packets_are = rest.packets_are ∙ split;
        heard = rest.heard;
      }

  -- The client has finished, and the server is this one.
  Ends : Receiver → Type 0
  Ends r = (w : World) × Reach clock file_size start w × (w.client ≡ finished) × (w.server ≡ r)

  forget :
      (client : Progress) (r : Receiver) (packets : List Packet) (a : Answer)
      → Reached client r packets a
      → Reached client r packets timed_out
  forget client r packets a h = record {
    world = h.world;
    run = h.run;
    client_is = h.client_is;
    server_is = h.server_is;
    packets_are = h.packets_are;
    heard = tt;
  }

  -- Behind the wait: what is sent again arrives.
  behind_end-Ends :
      (out : Progress × List Packet) (r end_ : Receiver) (sent : List Packet)
      (onward : Transfer → Receiver → Progress × Receiver)
      → Reached out.0 r (sent ++ out.1) timed_out
      → ((t : Transfer) (r' : Receiver) (packets : List Packet)
          → Reached (sending t) r' packets timed_out
          → onward t r' ≡ (finished, end_)
          → Ends end_)
      → behind_end out r onward ≡ (finished, end_)
      → Ends end_
  unfolding behind_end Ends
  behind_end-Ends (sending t, again) r end_ sent onward h go e =
      go t _ _ (forget _ _ _ _ (deliver-Reached (sending t) r sent again timed_out h)) e
  behind_end-Ends (waiting t, again) r end_ sent onward h go e =
      absurd (let stopped : waiting t ≡ finished = ap (λ (o : Progress × Receiver). o.0) e in cc)
  behind_end-Ends (gave_up, again) r end_ sent onward h go e =
      absurd (let stopped : gave_up ≡ finished = ap (λ (o : Progress × Receiver). o.0) e in cc)
  behind_end-Ends (finished, again) r end_ sent onward h go e =
      let v = deliver-Reached finished r sent again timed_out h in
      (v.world, v.run, v.client_is, v.server_is ∙ ap (λ (o : Progress × Receiver). o.1) e)

  hears :
      (t : Transfer) (r : Receiver) (packets : List Packet) (a : Answer)
      → Reached (waiting t) r packets a
      → Reached (end_round clock t a).0 r (packets ++ (end_round clock t a).1) timed_out
  hears t r packets a h = record {
    world = _;
    run = next h.run (client_hears a h.client_is (Heard-of_HeardIn h.world a h.heard));
    client_is = refl;
    server_is = h.server_is;
    packets_are = ap (λ xs. xs ++ (end_round clock t a).1) h.packets_are;
    heard = tt;
  }

  sends :
      (t : Transfer) (r : Receiver) (packets : List Packet)
      → Reached (sending t) r packets timed_out
      → Reached
          (begin_round clock file_size t).0
          r
          (packets ++ (begin_round clock file_size t).1)
          timed_out
  sends t r packets h = record {
    world = _;
    run = next h.run (client_sends h.client_is);
    client_is = refl;
    server_is = h.server_is;
    packets_are = ap (λ xs. xs ++ (begin_round clock file_size t).1) h.packets_are;
    heard = tt;
  }

  behind_begin-Ends :
      (out : Progress × List Packet) (r end_ : Receiver) (sent : List Packet)
      (onward : Transfer → Receiver → Progress × Receiver)
      → Reached out.0 r (sent ++ out.1) timed_out
      → ((t : Transfer) (r' : Receiver) (packets : List Packet)
          → Reached (sending t) r' packets timed_out
          → onward t r' ≡ (finished, end_)
          → Ends end_)
      → behind_begin clock out r onward ≡ (finished, end_)
      → Ends end_
  unfolding behind_begin Ends
  behind_begin-Ends (waiting t, ps) r end_ sent onward h go e =
      let v = deliver-Reached (waiting t) r sent ps timed_out h in
      behind_end-Ends _ _ end_ _ onward (hears t _ _ _ v) go e
  behind_begin-Ends (sending t, ps) r end_ sent onward h go e =
      absurd (let stopped : sending t ≡ finished = ap (λ (o : Progress × Receiver). o.0) e in cc)
  behind_begin-Ends (gave_up, ps) r end_ sent onward h go e =
      absurd (let stopped : gave_up ≡ finished = ap (λ (o : Progress × Receiver). o.0) e in cc)
  behind_begin-Ends (finished, ps) r end_ sent onward h go e =
      (h.world, h.run, h.client_is, h.server_is ∙ ap (λ (o : Progress × Receiver). o.1) e)

  -- The rounds are a run.
  last_heard_rounds-Ends :
      (n : ℕ) (t : Transfer) (r end_ : Receiver) (packets : List Packet)
      → Reached (sending t) r packets timed_out
      → last_heard_rounds clock file_size n t r ≡ (finished, end_)
      → Ends end_
  unfolding last_heard_rounds
  last_heard_rounds-Ends zero t r end_ packets h e =
      absurd (let stopped : sending t ≡ finished = ap (λ (o : Progress × Receiver). o.0) e in cc)
  last_heard_rounds-Ends (suc n) t r end_ packets h e =
      behind_begin-Ends (begin_round clock file_size t) r end_ packets _ (sends t r packets h)
        (λ t' r' packets' h' e'. last_heard_rounds-Ends n t' r' end_ packets' h' e') e

-- Whatever the clock shows, and for every file of less than 2^32 - 101 bytes, no read of it empty: from the end of the
-- handshake some run of the client, the server and the network leads to a state in which `send_file` has
-- returned 0, and the server has the whole file and expects the byte behind it.
pub transfer_ends :
    (clock : ℕ → Timeval) (reads : List (List ℕ))
    → All (λ bytes. 0 < length bytes) reads
    → 101 + length (joined reads) < 2 ^ 32
    → (w : World) × Reach clock (length (joined reads)) (connected reads) w
      × (w.client ≡ finished)
      × (w.server
          ≡ record { recv_buffer = joined reads; next_expected_seq = 101 + length (joined reads) })
unfolding connected connected_sender has_syn has_ack Ends
transfer_ends clock reads nonempty short =
    last_heard_rounds-Ends clock (length (joined reads)) (connected reads) (suc (length reads))
      (start_transfer connected_sender reads) _ _ []
      (record {
        world = connected reads;
        run = here;
        client_is = refl;
        server_is = refl;
        packets_are = refl;
        heard = tt;
      })
      (last_heard_rounds-finished clock reads nonempty short)

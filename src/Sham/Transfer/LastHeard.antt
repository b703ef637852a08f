-- ===== src/Sham/Transfer/LastHeard.antt =====
-- The transfer between networking/client.c and networking/server.c when every packet arrives, and of the
-- acknowledgements of a window the last one does. Finishes makes a run of the three of it.
use operating_systems_and_ne.Prelude.{
  ℕ, zero, suc, ◌+◌, ◌^◌, ◌≤◌, ◌<◌, ◌≡◌, refl, ap, ◌∙◌, sym, true, false, List, [], ◌++◌,
  if◌then◌else◌, if_ind, length, append-nil, All, arith, inl, inr,
}
use operating_systems_and_ne.Sham.Transfer.{connected_sender}
use operating_systems_and_ne.Sham.{Packet, has_ack, has_syn, sham_window_size}
use operating_systems_and_ne.Sham.Client.{Sender, Answer, timed_out}
use operating_systems_and_ne.Sham.Client.Window.{
  Timeval, Transfer, start_transfer, take_ack, Resent, resent, fill, fill_window, check_packet,
  resend, Progress, sending, waiting, finished, gave_up, is_complete, behind_resend, keeps_sending,
  await_answer, begin_round, end_round,
}
use operating_systems_and_ne.Sham.Server.{Receiver}
use operating_systems_and_ne.Sham.Server.Delivery.{joined}
use operating_systems_and_ne.Sham.Transfer.Filling.{deliver, Brings, Fed, fill-Fed}

-- The server has what was sent behind the wait, and the client goes on.
unfoldable pub behind_end :
    Progress × List Packet
    → Receiver
    → (Transfer → Receiver → Progress × Receiver)
    → Progress × Receiver
unfolding deliver
behind_end (sending t, again) r onward = onward t (deliver r again timed_out).0
behind_end (waiting t, again) r onward = (waiting t, r)
behind_end (finished, again) r onward = (finished, (deliver r again timed_out).0)
behind_end (gave_up, again) r onward = (gave_up, r)

module _ (clock : ℕ → Timeval) where
  unfoldable pub behind_begin :
      Progress × List Packet
      → Receiver
      → (Transfer → Receiver → Progress × Receiver)
      → Progress × Receiver
  unfolding deliver behind_end
  behind_begin (waiting t, sent) r onward =
      let (r', a) = deliver r sent timed_out in behind_end (end_round clock t a) r' onward
  behind_begin (sending t, sent) r onward = (sending t, r)
  behind_begin (finished, sent) r onward = (finished, r)
  behind_begin (gave_up, sent) r onward = (gave_up, r)

  -- At most `n` rounds of `send_file`, each of which hears the last answer to its packets.
  unfoldable pub last_heard_rounds : ℕ → ℕ → Transfer → Receiver → Progress × Receiver
  unfolding behind_begin
  last_heard_rounds file_size zero t r = (sending t, r)
  last_heard_rounds file_size (suc n) t r =
      behind_begin (begin_round clock file_size t) r (last_heard_rounds file_size n)

module _ (clock : ℕ → Timeval) where
  stops_checking :
      (t : Transfer) (onward : Transfer → Resent)
      → t.sender.window_base ≡ t.sender.next_seq_num
      → t.sender.next_seq_num < 2 ^ 32
      → check_packet clock t 0 onward ≡ resent t []
  unfolding check_packet
  stops_checking t onward e l = ground (arith, e, l)

  -- Nothing is left to send again: the base has come to the next number.
  nothing_again :
      (t : Transfer)
      → t.sender.window_base ≡ t.sender.next_seq_num
      → t.sender.next_seq_num < 2 ^ 32
      → resend clock sham_window_size 0 t ≡ resent t []
  unfolding resend
  nothing_again t e l = stops_checking t (resend clock 9 1) e l

  heard :
      (s : Sender) (a : Answer)
      → Brings a s.window_base s.next_seq_num
      → s.window_base ≤ s.next_seq_num
      → ((take_ack s a).window_base ≡ s.next_seq_num)
        × ((take_ack s a).next_seq_num ≡ s.next_seq_num)
  unfolding take_ack has_ack
  heard s a (inl e) l = rw e (ground (arith, l))
  heard s a (inr (e, b)) l = rw e (b, refl)

  hear : Transfer → Answer → Transfer
  hear t a = record t { sender = take_ack t.sender a }

  complete_when :
      (t : Transfer)
      → t.sender.window_base ≡ t.sender.next_seq_num
      → is_complete clock t ≡ t.done_sending
  unfolding is_complete
  complete_when t e = ground (arith, e)

  begin_full :
      (file_size : ℕ) (t : Transfer)
      → t.done_sending ≡ false
      → begin_round clock file_size t ≡ (waiting (fill clock t t.reads).0, (fill clock t t.reads).1)
  unfolding begin_round keeps_sending await_answer fill_window
  begin_full file_size t d = ground (arith, d)

  behind_nothing :
      (t : Transfer)
      → t.sender.window_base ≡ t.sender.next_seq_num
      → t.sender.next_seq_num < 2 ^ 32
      → behind_resend clock (resend clock sham_window_size 0 t)
        ≡ (if t.done_sending then finished else sending t, [])
  unfolding behind_resend
  behind_nothing t e l = rw (nothing_again t e l, complete_when t e) refl

  end_heard :
      (t : Transfer) (a : Answer)
      → Brings a t.sender.window_base t.sender.next_seq_num
      → t.sender.window_base ≤ t.sender.next_seq_num
      → t.sender.next_seq_num < 2 ^ 32
      → end_round clock t a ≡ (if t.done_sending then finished else sending (hear t a), [])
  unfolding end_round hear behind_resend
  end_heard t a b l l' =
      let (e, e') = heard t.sender a b l in
      behind_nothing (hear t a) (e ∙ sym e') (omega (arith, e', l'))

  -- The head of a round, with everything heard.
  record IsReady (t : Transfer) (r : Receiver) : Type 0 where
    pub more : t.done_sending ≡ false
    pub base : t.sender.window_base ≡ t.sender.next_seq_num
    pub expects : r.next_expected_seq ≡ t.sender.next_seq_num
    pub nonempty : All (λ bytes. 0 < length bytes) t.reads
    pub short : t.sender.next_seq_num + length (joined t.reads) < 2 ^ 32

  -- The end of the transfer of the rest of a file.
  received : Transfer → Receiver → Progress × Receiver
  received t r = (
    finished,
    record {
      recv_buffer = r.recv_buffer ++ joined t.reads;
      next_expected_seq = t.sender.next_seq_num + length (joined t.reads);
    },
  )

  received_if :
      (t : Transfer) (r r' : Receiver)
      → r'.recv_buffer ≡ r.recv_buffer ++ joined t.reads
      → r'.next_expected_seq ≡ t.sender.next_seq_num + length (joined t.reads)
      → (finished, r') ≡ received t r
  unfolding received
  received_if t r r' e n = cc

  -- The window was filled and heard.
  module _ (t out : Transfer) (r r' : Receiver) (a : Answer) (h : IsReady t r)
      (fed : Fed t t.reads r out r' a) where
    next_short : out.sender.next_seq_num < 2 ^ 32
    next_short = omega (arith, fed.numbers, h.short)

    behind_base : out.sender.window_base ≤ out.sender.next_seq_num
    behind_base = omega (arith, h.base, fed.base, fed.grows)

    hears :
        end_round clock out a ≡ (if out.done_sending then finished else sending (hear out a), [])
    hears = end_heard out a fed.brings behind_base next_short

    hear-IsReady : out.done_sending ≡ false → IsReady (hear out a) r'
    unfolding hear
    hear-IsReady d =
        let (e, e') = heard out.sender a fed.brings behind_base in
        record {
          more = d;
          base = e ∙ sym e';
          expects = fed.expects ∙ sym e';
          nonempty = fed.nonempty;
          short = omega (arith, e', fed.numbers, h.short);
        }

    all_received : out.done_sending ≡ true → (finished, r') ≡ received t r
    unfolding joined
    all_received d =
        let none_left = fed.ended d in
        received_if t r r'
          (sym (append-nil r'.recv_buffer)
            ∙ ap (λ rs. r'.recv_buffer ++ joined rs) (sym none_left)
            ∙ fed.buffer)
          (omega (arith, fed.expects, fed.numbers, ap (λ rs. length (joined rs)) none_left))

    received-hear : received (hear out a) r' ≡ received t r
    unfolding received hear
    received-hear =
        let (e, e') = heard out.sender a fed.brings behind_base in
        received_if t r _ fed.buffer (omega (arith, e', fed.numbers))

    shrinks : out.done_sending ≡ false → suc (length out.reads) ≤ length t.reads
    shrinks d = elim (fed.moves (ground (arith, h.base))) [
      | inl done ↦ absurd (cc)
      | inr less ↦ less
    ]

  last_heard_rounds_lem :
      (file_size n : ℕ) (t : Transfer) (r : Receiver)
      → IsReady t r
      → length t.reads < n
      → last_heard_rounds clock file_size n t r ≡ received t r
  unfolding last_heard_rounds behind_begin behind_end deliver
  last_heard_rounds_lem file_size zero t r h l = absurd (omega (arith, l))
  last_heard_rounds_lem file_size (suc n) t r h l =
      let out = fill clock t t.reads in
      let ra = deliver r out.1 timed_out in
      let fed : Fed t t.reads r out.0 ra.0 ra.1 =
        (fill-Fed clock t t.reads r timed_out refl h.more h.expects h.nonempty h.short
          (inr (refl, h.base))) in
      rw (begin_full file_size t h.more, hears t out.0 r ra.0 ra.1 h fed)
        (if_ind (λ p. behind_end (p, []) ra.0 (last_heard_rounds clock file_size n) ≡ received t r)
          out.0.done_sending (λ d. all_received t out.0 r ra.0 ra.1 h fed d)
          (λ d.
            last_heard_rounds_lem file_size n (hear out.0 ra.1) ra.0
              (hear-IsReady t out.0 r ra.0 ra.1 h fed d)
              (unfold hear in (omega (arith, shrinks t out.0 r ra.0 ra.1 h fed d, l)))
            ∙ received-hear t out.0 r ra.0 ra.1 h fed))

  -- When the packets of each window reach the server once and in order, and of their acknowledgements only the last
  -- one of each window reaches the client, then `send_file` returns 0 within one round more than the file has
  -- reads, whatever the clock shows, and the server has the whole file: of less than 2^32 - 101 bytes, no read
  -- of it empty.
  pub last_heard_rounds-finished :
      (reads : List (List ℕ))
      → All (λ bytes. 0 < length bytes) reads
      → 101 + length (joined reads) < 2 ^ 32
      → last_heard_rounds clock
          (length (joined reads))
          (suc (length reads))
          (start_transfer connected_sender reads)
          (record { recv_buffer = []; next_expected_seq = 101 })
        ≡ (
          finished,
          record { recv_buffer = joined reads; next_expected_seq = 101 + length (joined reads) },
        )
  unfolding connected_sender received has_syn has_ack
  last_heard_rounds-finished reads h l =
      last_heard_rounds_lem (length (joined reads)) (suc (length reads))
        (start_transfer connected_sender reads) _
        (record { more = refl; base = refl; expects = refl; nonempty = h; short = l }) (omega arith)

-- ===== src/Sham/Client/Window/Rounds.antt =====
-- A round of `send_file` in networking/client.c against what the peer has acknowledged.
use operating_systems_and_ne.Prelude.{
  ℕ, ◌+◌, ◌*◌, ◌^◌, ◌≤◌, ◌<◌, ◌≡◌, refl, ap, ◌∙◌, subst, sym, true, false, ◌&&◌, List, ◌++◌,
  if◌then◌else◌, if_ind, length, length-append, append-nil, All, arith, leb,
}
use operating_systems_and_ne.Sham.{u32, Packet, has_ack, sham_window_size}
use operating_systems_and_ne.Sham.Client.{Sender, Answer, arrived, timed_out, broken}
use operating_systems_and_ne.Sham.Client.Window.{
  Timeval, Transfer, take_ack, Resent, resent, exceeded, resend, Progress, sending, waiting,
  finished, gave_up, is_complete, behind_resend, keeps_sending, await_answer, begin_round,
  end_round,
}
use operating_systems_and_ne.Sham.Client.Window.Pieces.{IsSent, IsSending, fill_window-Filled}
use operating_systems_and_ne.Sham.Client.Window.Retries.{Resends, resend-Resends}
use operating_systems_and_ne.Sham.Server.Delivery.{joined}

-- An acknowledgement names no byte behind the first `k`.
abbrev pub Acks : ℕ → ℕ → Packet → Type 0
Acks isn k p = has_ack p.flags ≡ true → p.ack_num ≤ isn + k

abbrev pub AnswerAcks : ℕ → ℕ → Answer → Type 0
AnswerAcks isn k (arrived p) = Acks isn k p
AnswerAcks isn k timed_out = Unit
AnswerAcks isn k broken = Unit

take_ack-base :
    (isn k : ℕ) (s : Sender) (a : Answer)
    → AnswerAcks isn k a
    → s.window_base ≤ isn + k
    → (take_ack s a).window_base ≤ isn + k
unfolding take_ack
take_ack-base isn k s (arrived p) h b = ground (arith, h)
take_ack-base isn k s timed_out h b = b
take_ack-base isn k s broken h b = b

take_ack-next : (s : Sender) (a : Answer) → (take_ack s a).next_seq_num ≡ s.next_seq_num
unfolding take_ack
take_ack-next s (arrived p) = ground arith
take_ack-next s timed_out = refl
take_ack-next s broken = refl

-- What a round may lead to, when the first `k` bytes are acknowledged.
abbrev pub Leads : ℕ → List ℕ → ℕ → Progress → Type 0
Leads isn stream k (sending t) = IsSending isn stream t × (t.sender.window_base ≤ isn + k)
Leads isn stream k (waiting t) = IsSending isn stream t × (t.sender.window_base ≤ isn + k)
Leads isn stream k finished = length stream ≤ k
Leads isn stream k gave_up = Unit

module _ (clock : ℕ → Timeval) (isn : ℕ) (stream : List ℕ)
    (short : isn + 2 * length stream < 2 ^ 32) (k : ℕ) where
  -- Everything was read and sent, and the base has come to the next number.
  complete_all :
      (t : Transfer)
      → IsSending isn stream t
      → t.done_sending ≡ true
      → t.sender.next_seq_num ≤ isn + k
      → length stream ≤ k
  unfolding joined
  complete_all t i d b =
      let l =
        ap length (i.split ∙ ap (λ rs. i.before ++ joined rs) (i.ended d) ∙ append-nil i.before) in
      omega (arith, l, i.next, b)

  complete-Leads :
      (t : Transfer)
      → IsSending isn stream t
      → t.sender.window_base ≤ isn + k
      → Leads isn stream k (if is_complete clock t then finished else sending t)
  unfolding is_complete
  complete-Leads t i b =
      if_ind (Leads isn stream k) (t.done_sending && leb t.sender.next_seq_num t.sender.window_base)
        (λ e. complete_all t i (ground arith) (ground arith)) (λ e. (i, b))

  behind_resend-Leads :
      (t : Transfer) (r : Resent)
      → t.sender.window_base ≤ isn + k
      → Resends clock isn stream (omega arith) t r
      → Leads isn stream k (behind_resend clock r).0
        × All (IsSent isn stream) (behind_resend clock r).1
  unfolding behind_resend
  behind_resend-Leads t (resent t' sent) b (i, e, p) =
      (complete-Leads t' i (subst (λ (s : Sender). s.window_base ≤ isn + k) (sym e) b), p)
  behind_resend-Leads t (exceeded sent) b p = (tt, p)

  -- What the round behind an answer leads to, and what it sends again.
  pub end_round-Leads :
      (t : Transfer) (a : Answer)
      → IsSending isn stream t
      → t.sender.window_base ≤ isn + k
      → AnswerAcks isn k a
      → Leads isn stream k (end_round clock t a).0 × All (IsSent isn stream) (end_round clock t a).1
  unfolding end_round
  end_round-Leads t a i b h =
      let heard : Transfer = record t { sender = take_ack t.sender a } in
      let i' : IsSending isn stream heard = record {
        before = i.before;
        split = i.split;
        next = take_ack-next t.sender a ∙ i.next;
        held = i.held;
        nonempty = i.nonempty;
        ended = i.ended;
      } in
      behind_resend-Leads heard (resend clock sham_window_size 0 heard)
        (take_ack-base isn k t.sender a h b)
        (resend-Resends clock isn stream (omega arith) sham_window_size 0 heard i')

  stops :
      (t : Transfer)
      → keeps_sending clock (length stream) t ≡ false
      → (t.done_sending ≡ true)
        × (u32 (t.sender.next_seq_num + u32 (length stream)) ≤ t.sender.window_base)
  unfolding keeps_sending
  stops t e = ground arith

  -- What the head of the loop leads to, and the new packets, for a file of `length stream` bytes.
  pub begin_round-Leads :
      (t : Transfer)
      → IsSending isn stream t
      → t.sender.window_base ≤ isn + k
      → Leads isn stream k (begin_round clock (length stream) t).0
        × All (IsSent isn stream) (begin_round clock (length stream) t).1
  unfolding begin_round await_answer
  begin_round-Leads t i b =
      let f = fill_window-Filled clock isn stream (omega arith) t i in
      if_ind
        (λ (out : Progress × List Packet). Leads isn stream k out.0 × All (IsSent isn stream) out.1)
        (keeps_sending clock (length stream) t)
        (λ e. ((f.sending, omega (arith, f.base, b)), f.sent))
        (λ e.
          let (d, stop) = stops t e in
          let l = ap length i.split ∙ length-append i.before (joined t.reads) in
          (complete_all t i d (omega (arith, stop, i.next, l, b)), tt))

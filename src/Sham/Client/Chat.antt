-- ===== src/Sham/Client/Chat.antt =====
-- networking/client.c: the chat. A round of its loop is what `select` found ready: the line that `fgets`
-- read, if any, and the answer of the socket, if any.
use operating_systems_and_ne.Prelude.{
  ℕ, ◌+◌, ◌^◌, ◌≡◌, ◌<◌, ap, Bool, true, false, Option, none, some, List, [], ◌∷◌, ◌++◌,
  if◌then◌else◌, Text, codes, text_eq, length, take, arith, Bool-cases, inl, inr,
}
use operating_systems_and_ne.Sham.{u32, Packet, has_fin, zeroed}
use operating_systems_and_ne.Sham.Client.{Sender, Answer, arrived, timed_out, perform_termination}

pub data Ready : Type 0 where
  select_failed : Ready
  ready : Option Text → Option Answer → Ready

-- A message, and the sender behind it.
abbrev pub message : Sender → Text → Packet
message s line = record zeroed { seq_num = s.next_seq_num; payload = line }

abbrev pub behind_message : Sender → Text → Sender
behind_message s line = record s { next_seq_num = u32 (s.next_seq_num + length line) }

-- What a round says to the socket: it ends the chat, or goes on with a sender.
pub data Said : Type 0 where
  quits : List Packet → Said
  says : Sender → List Packet → Said

unfoldable pub say : Sender → Option Text → Said
unfolding text_eq
say s none = says s []
say s (some line) =
    if text_eq (take 5 line) (codes "/quit")
    then quits (perform_termination s timed_out timed_out)
    else says (behind_message s line) (message s line ∷ [])

-- Whether the answer ends the chat.
unfoldable pub ends_chat : Option Answer → Bool
unfolding has_fin
ends_chat (some (arrived p)) = has_fin p.flags
ends_chat _ = false

abbrev pub go_on :
    Bool → Sender → List Packet → (Sender → Sender × List Packet) → Sender × List Packet
go_on true s sent onward = (s, sent)
go_on false s sent onward = let (s', more) = onward s in (s', sent ++ more)

unfoldable pub chat_round :
    Sender → Said → Bool → (Sender → Sender × List Packet) → Sender × List Packet
chat_round s (quits sent) over onward = (s, sent)
chat_round s (says s' sent) over onward = go_on over s' sent onward

-- `handle_chat_mode`: the sender at the end, and what was sent.
unfoldable pub handle_chat_mode : Sender → List Ready → Sender × List Packet
unfolding chat_round say ends_chat
handle_chat_mode s [] = (s, [])
handle_chat_mode s (select_failed ∷ rs) = (s, [])
handle_chat_mode s (ready line answer ∷ rs) =
    chat_round s (say s line) (ends_chat answer) (λ s'. handle_chat_mode s' rs)

-- The bytes of the packets sent.
pub total : List Packet → ℕ
total [] = 0
total (p ∷ ps) = length p.payload + total ps

total-append : (ps qs : List Packet) → total (ps ++ qs) ≡ total ps + total qs
unfolding total
total-append [] qs = omega arith
total-append (p ∷ ps) qs = omega (arith, total-append ps qs)

-- The sender's number moved on by the bytes of the packets.
abbrev pub HasSent : ℕ → Sender × List Packet → Type 0
HasSent n out = out.0.next_seq_num ≡ u32 (n + total out.1)

SaidSent : Sender → Said → Type 0
SaidSent s (quits sent) = HasSent s.next_seq_num (s, sent)
SaidSent s (says s' sent) = HasSent s.next_seq_num (s', sent)

say_sent : (s : Sender) (line : Option Text) → s.next_seq_num < 2 ^ 32 → SaidSent s (say s line)
unfolding say SaidSent total perform_termination
say_sent s none h = omega arith
say_sent s (some line) h = elim (Bool-cases (text_eq (take 5 line) (codes "/quit"))) [
  | inl e ↦ rw e (omega (arith, h))
  | inr e ↦ rw e (ap u32 (omega arith))
]

round_sent :
    (s : Sender) (said : Said) (over : Bool) (onward : Sender → Sender × List Packet)
    → SaidSent s said
    → ((s' : Sender) → s'.next_seq_num < 2 ^ 32 → HasSent s'.next_seq_num (onward s'))
    → HasSent s.next_seq_num (chat_round s said over onward)
unfolding chat_round SaidSent
round_sent s (quits sent) over onward h k = h
round_sent s (says s' sent) true onward h k = h
round_sent s (says s' sent) false onward h k =
    let next = k s' (omega (arith, h)) in
    let add = total-append sent (onward s').1 in omega (arith, next, add, h)

-- Whatever is typed and whatever arrives, the number behind the chat is the number before it, moved on
-- by the bytes of all the packets sent, modulo 2^32.
pub handle_chat_mode-HasSent :
    (s : Sender) (rs : List Ready)
    → s.next_seq_num < 2 ^ 32
    → HasSent s.next_seq_num (handle_chat_mode s rs)
unfolding handle_chat_mode
handle_chat_mode-HasSent s [] h = unfold total in omega arith
handle_chat_mode-HasSent s (select_failed ∷ rs) h = unfold total in omega arith
handle_chat_mode-HasSent s (ready line answer ∷ rs) h =
    round_sent s (say s line) (ends_chat answer) (λ s'. handle_chat_mode s' rs) (say_sent s line h)
      (λ s' k. handle_chat_mode-HasSent s' rs k)

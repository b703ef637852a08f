-- ===== src/Sham/Conversation.antt =====
-- networking/server.c: the chat, and the conversation with the chat of networking/client.c. A round of the loop is
-- what `select` found ready, as in Sham.Client.Chat; a line has no NUL in it.
use operating_systems_and_ne.Prelude.{
  ℕ, ◌+◌, ◌<◌, ◌≡◌, refl, true, false, Option, none, some, List, [], ◌∷◌, ◌++◌, map, if◌then◌else◌,
  Text, codes, text_eq, length, take, ltb, All, arith,
}
use operating_systems_and_ne.Sham.{u32, Packet, zeroed, has_fin, sham_fin}
use operating_systems_and_ne.Sham.Client.{Sender, Answer, arrived, timed_out, perform_termination}
use operating_systems_and_ne.Sham.Client.Chat.{
  Ready, select_failed, ready, message, behind_message, handle_chat_mode, chat_round, say,
  ends_chat,
}

-- What is sent for a line: the FIN that ends the chat, or a message, and `next_expected_seq` behind it.
pub data Told : Type 0 where
  leaves : List Packet → Told
  tells : ℕ → List Packet → Told

unfoldable pub tell : ℕ → Option Text → Told
unfolding text_eq
tell seq none = tells seq []
tell seq (some line) =
    if text_eq (take 5 line) (codes "/quit")
    then leaves (record zeroed { seq_num = seq; flags = sham_fin } ∷ [])
    else tells (u32 (seq + length line)) (record zeroed { seq_num = seq; payload = line } ∷ [])

-- What is printed for the answer of the socket; `none` ends the chat.
unfoldable pub print_peer : Option Answer → Option (List Text)
unfolding has_fin
print_peer (some (arrived p)) =
    if has_fin p.flags
    then none
    else if ltb 0 (length p.payload)
    then some ((codes "Peer: " ++ p.payload) ∷ [])
    else some []
print_peer _ = some []

-- Behind a line that does not end the chat.
abbrev pub go_on_serving :
    ℕ
    → List Packet
    → Option (List Text)
    → (ℕ → ℕ × List Packet × List Text)
    → ℕ × List Packet × List Text
go_on_serving seq sent none onward = (seq, sent, [])
go_on_serving seq sent (some printed) onward =
    let (seq', more, rest) = onward seq in (seq', sent ++ more, printed ++ rest)

unfoldable pub serve_round :
    ℕ → Told → Option (List Text) → (ℕ → ℕ × List Packet × List Text) → ℕ × List Packet × List Text
serve_round seq (leaves sent) heard onward = (seq, sent, [])
serve_round seq (tells seq' sent) heard onward = go_on_serving seq' sent heard onward

-- `handle_chat_mode` of the server: `next_expected_seq` at the end, what was sent, and what was printed.
unfoldable pub serve_chat : ℕ → List Ready → ℕ × List Packet × List Text
unfolding serve_round tell print_peer
serve_chat seq [] = (seq, [], [])
serve_chat seq (select_failed ∷ rs) = (seq, [], [])
serve_chat seq (ready line answer ∷ rs) =
    serve_round seq (tell seq line) (print_peer answer) (λ seq'. serve_chat seq' rs)

-- A line is typed and nothing arrives; a packet arrives and nothing is typed.
pub typed : Text → Ready
typed line = ready (some line) none

pub arrives : Packet → Ready
arrives p = ready none (some (arrived p))

pub peer_line : Text → Text
peer_line line = codes "Peer: " ++ line

-- A line is a message: it is not empty and does not begin with `/quit`.
abbrev pub IsMessage : Text → Type 0
IsMessage line = (0 < length line) × (text_eq (take 5 line) (codes "/quit") ≡ false)

-- One message more, on either side.
client_message :
    (s : Sender) (line : Text) (rs : List Ready)
    → IsMessage line
    → (s' : Sender) × ((handle_chat_mode s (typed line ∷ rs)).1
        ≡ message s line ∷ (handle_chat_mode s' rs).1)
unfolding handle_chat_mode say ends_chat chat_round typed
client_message s line rs h = (behind_message s line, rw h.1 refl)

server_message :
    (seq : ℕ) (s : Sender) (line : Text) (rs : List Ready)
    → IsMessage line
    → serve_chat seq (arrives (message s line) ∷ rs)
      ≡ (let (seq', sent, printed) = serve_chat seq rs in (seq', sent, peer_line line ∷ printed))
unfolding serve_chat arrives has_fin peer_line
server_message seq s line rs h =
    let longer : ltb 0 (length line) ≡ true = ground (arith, h.0) in rw longer refl

-- The line that ends the conversation, on either side.
client_quit :
    (s : Sender) (line : Text) (rs : List Ready)
    → text_eq (take 5 line) (codes "/quit") ≡ true
    → (handle_chat_mode s (typed line ∷ rs)).1 ≡ perform_termination s timed_out timed_out
unfolding handle_chat_mode say chat_round typed
client_quit s line rs h = rw h refl

server_quit :
    (seq : ℕ) (s : Sender) (rs : List Ready)
    → serve_chat seq (map arrives (perform_termination s timed_out timed_out) ++ rs) ≡ (seq, [], [])
unfolding serve_chat arrives perform_termination has_fin
server_quit seq s rs = refl

-- The user of the client types lines that are no commands, then a line that begins with `/quit`; nothing arrives
-- at the client meanwhile, nothing is typed at the server, and the packets arrive in order: the server prints exactly these lines, in
-- their order, sends nothing, and ends its chat at the FIN, whatever follows on either side.
pub conversation :
    (s : Sender) (seq : ℕ) (lines : List Text) (quit : Text) (rs more : List Ready)
    → All IsMessage lines
    → text_eq (take 5 quit) (codes "/quit") ≡ true
    → serve_chat seq
        (map arrives (handle_chat_mode s (map typed lines ++ typed quit ∷ rs)).1 ++ more)
      ≡ (seq, [], map peer_line lines)
conversation s seq [] quit rs more h q = rw (client_quit s quit rs q) (server_quit seq s more)
conversation s seq (line ∷ lines) quit rs more h q =
    let (s', sent) = client_message s line (map typed lines ++ typed quit ∷ rs) h.0 in
    rw (sent, server_message seq s line _ h.0, conversation s' seq lines quit rs more h.1 q) refl

-- ===== src/Sham/Client/Window/Pieces.antt =====
-- What `send_file` of networking/client.c sends: pieces of its file, new or again.
use operating_systems_and_ne.Prelude.{
  ℕ, ◌+◌, ◌^◌, ◌<◌, ◌≡◌, refl, sym, ap, subst, ◌∙◌, true, false, List, [], ◌∷◌, ◌++◌, if◌then◌else◌,
  length, length-append, append_assoc, All, All-replicate, All-set, arith, inl, inr, if_ind,
}
use operating_systems_and_ne.Sham.{Packet, sham_window_size}
use operating_systems_and_ne.Sham.Client.{Sender}
use operating_systems_and_ne.Sham.Client.Window.{
  Timeval, Slot, empty_slot, Transfer, start_transfer, has_room, data_packet, put_packet, fill,
  fill_window,
}
use operating_systems_and_ne.Sham.Server.Delivery.{IsChunk, IsPiece, joined}

-- A packet of `send_file`: a piece of the stream, and no flag is set.
abbrev pub IsSent : ℕ → List ℕ → Packet → Type 0
IsSent isn stream p = IsPiece isn stream p × (p.flags ≡ 0)

-- What was read so far is numbered up to `next_seq_num`, the rest is still to be read, and the window
-- holds pieces of the stream.
pub record IsSending (isn : ℕ) (stream : List ℕ) (t : Transfer) : Type 0 where
  pub before : List ℕ
  pub split : stream ≡ before ++ joined t.reads
  pub next : t.sender.next_seq_num ≡ isn + length before
  pub held : All (λ (s : Slot). IsSent isn stream s.packet) t.window
  pub nonempty : All (λ bytes. 0 < length bytes) t.reads
  pub ended : t.done_sending ≡ true → t.reads ≡ []

pub empty-IsSent : (isn : ℕ) (stream : List ℕ) → IsSent isn stream empty_slot.packet
empty-IsSent isn stream = (inl refl, refl)

pub start_transfer-IsSending :
    (s : Sender) (reads : List (List ℕ))
    → All (λ bytes. 0 < length bytes) reads
    → IsSending s.next_seq_num (joined reads) (start_transfer s reads)
start_transfer-IsSending s reads h = record {
  before = [];
  split = refl;
  next = omega arith;
  held =
      All-replicate (λ (slot : Slot). IsSent s.next_seq_num (joined reads) slot.packet)
        sham_window_size empty_slot (empty-IsSent s.next_seq_num (joined reads));
  nonempty = h;
  ended = λ e. cc;
}

module _ (clock : ℕ → Timeval) (isn : ℕ) (stream : List ℕ)
    (short : isn + length stream < 2 ^ 32) where
  abbrev pub Sends : Packet → Type 0
  Sends = IsSent isn stream

  data_packet-IsSent :
      (t : Transfer) (bytes : List ℕ) (reads : List (List ℕ))
      → t.reads ≡ bytes ∷ reads
      → IsSending isn stream t
      → Sends (data_packet t.sender bytes)
  unfolding IsChunk joined
  data_packet-IsSent t bytes reads e i =
      let l = ap length i.split ∙ length-append i.before (joined t.reads) in
      (
        inr (
          i.before,
          joined reads,
          i.split ∙ ap (λ rs. i.before ++ joined rs) e,
          omega (arith, i.next, l),
        ),
        refl,
      )

  put_packet-IsSending :
      (t : Transfer) (bytes : List ℕ) (reads : List (List ℕ))
      → t.reads ≡ bytes ∷ reads
      → t.done_sending ≡ false
      → IsSending isn stream t
      → IsSending isn stream (put_packet clock t bytes reads)
  unfolding put_packet joined
  put_packet-IsSending t bytes reads e d i =
      let split : stream ≡ (i.before ++ bytes) ++ joined reads =
        i.split
        ∙ ap (λ rs. i.before ++ joined rs) e
        ∙ sym (append_assoc i.before bytes (joined reads)) in
      let l = ap length split ∙ length-append (i.before ++ bytes) (joined reads) in
      let l' = length-append i.before bytes in
      record {
        before = i.before ++ bytes;
        split = split;
        next = omega (arith, i.next, l, l');
        held =
            All-set (λ (s : Slot). Sends s.packet) t.window _ _
              (data_packet-IsSent t bytes reads e i) i.held;
        nonempty = (subst (All (λ bytes. 0 < length bytes)) e i.nonempty).1;
        ended = λ h. cc;
      }

  -- What filling the window keeps: the base stays where it is.
  pub record Filled (t : Transfer) (out : Transfer × List Packet) : Type 0 where
    pub sending : IsSending isn stream out.0
    pub base : out.0.sender.window_base ≡ t.sender.window_base
    pub sent : All Sends out.1

  stops_reading :
      (t : Transfer) (reads : List (List ℕ))
      → t.reads ≡ reads
      → (has_room t.sender ≡ true → reads ≡ [])
      → IsSending isn stream t
      → Filled t (if has_room t.sender then record t { done_sending = true } else t, [])
  stops_reading t reads e h i =
      if_ind (λ (t' : Transfer). Filled t (t', [])) (has_room t.sender)
        (λ r. record {
          sending = record {
            before = i.before;
            split = i.split;
            next = i.next;
            held = i.held;
            nonempty = i.nonempty;
            ended = λ d. e ∙ h r;
          };
          base = refl;
          sent = tt;
        })
        (λ r. record { sending = i; base = refl; sent = tt })

  fill-Filled :
      (t : Transfer) (reads : List (List ℕ))
      → t.reads ≡ reads
      → t.done_sending ≡ false
      → IsSending isn stream t
      → Filled t (fill clock t reads)
  unfolding fill
  fill-Filled t [] e d i = stops_reading t [] e (λ r. refl) i
  fill-Filled t ([] ∷ reads) e d i =
      let never : 0 < 0 = (subst (All (λ bytes. 0 < length bytes)) e i.nonempty).0 in
      absurd (omega (arith, never))
  fill-Filled t ((b ∷ bytes) ∷ reads) e d i =
      let next = put_packet-IsSending t (b ∷ bytes) reads e d i in
      let more =
        fill-Filled (put_packet clock t (b ∷ bytes) reads) reads (unfold put_packet in refl)
          (unfold put_packet in d) next in
      if_ind (Filled t) (has_room t.sender)
        (λ r. record {
          sending = more.sending;
          base = more.base ∙ (unfold put_packet in refl);
          sent = (data_packet-IsSent t (b ∷ bytes) reads e i, more.sent);
        })
        (λ r. record { sending = i; base = refl; sent = tt })

  pub fill_window-Filled : (t : Transfer) → IsSending isn stream t → Filled t (fill_window clock t)
  unfolding fill_window
  fill_window-Filled t i =
      if_ind (Filled t) t.done_sending (λ d. record { sending = i; base = refl; sent = tt })
        (λ d. fill-Filled t t.reads refl d i)

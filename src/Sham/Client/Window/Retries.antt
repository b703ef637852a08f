-- ===== src/Sham/Client/Window/Retries.antt =====
-- What `send_file` of networking/client.c sends again: pieces of its file.
use operating_systems_and_ne.Prelude.{
  ℕ, zero, suc, ◌+◌, ◌*◌, ◌^◌, ◌<◌, ◌≡◌, refl, ◌∙◌, List, length, get_or, All, All-set, All-get_or,
  if_ind, ltb, leb,
}
use operating_systems_and_ne.Sham.{u32, Packet, sham_timeout_ms, sham_max_retries, sham_data_size}
use operating_systems_and_ne.Sham.Client.Window.{
  Timeval, is_timeout, Slot, empty_slot, Transfer, slot_index, Resent, resent, exceeded,
  behind_packet, resend_slot, check_slot, check_packet, resend,
}
use operating_systems_and_ne.Sham.Client.Window.Pieces.{IsSent, IsSending, empty-IsSent}

module _ (clock : ℕ → Timeval) (isn : ℕ) (stream : List ℕ)
    (short : isn + length stream < 2 ^ 32) where
  abbrev pub Sends : Packet → Type 0
  Sends = IsSent isn stream

  -- What the retransmissions keep: the sender's numbers, and what is sent are pieces.
  abbrev pub Resends : Transfer → Resent → Type 0
  Resends t (resent t' sent) = IsSending isn stream t' × (t'.sender ≡ t.sender) × All Sends sent
  Resends t (exceeded sent) = All Sends sent

  behind_packet-Resends :
      (t : Transfer) (p : Packet) (r : Resent)
      → Sends p
      → Resends t r
      → Resends t (behind_packet p r)
  unfolding behind_packet
  behind_packet-Resends t p (resent t' sent) h k = (k.0, k.1, (h, k.2))
  behind_packet-Resends t p (exceeded sent) h k = (h, k)

  abbrev Onward : Transfer → (Transfer → Resent) → Type 0
  Onward t onward =
      (t' : Transfer) → IsSending isn stream t' → t'.sender ≡ t.sender → Resends t (onward t')

  resend_slot-Resends :
      (t : Transfer) (i : ℕ) (onward : Transfer → Resent)
      → IsSending isn stream t
      → Onward t onward
      → Resends t (resend_slot clock t i onward)
  unfolding resend_slot
  resend_slot-Resends t i onward s k =
      let slot = get_or t.window i empty_slot in
      let here =
        All-get_or (λ (slot : Slot). Sends slot.packet) t.window i empty_slot
          (empty-IsSent isn stream) s.held in
      if_ind (Resends t) (leb sham_max_retries slot.retries) (λ e. tt)
        (λ e. behind_packet-Resends t slot.packet _ here (
          k _
            (record {
              before = s.before;
              split = s.split;
              next = s.next;
              held =
                  All-set (λ (slot : Slot). Sends slot.packet) t.window i
                    (record slot { send_time = clock (t.ticks + 1); retries = slot.retries + 1 })
                    here s.held;
              nonempty = s.nonempty;
              ended = s.ended;
            })
            refl))

  check_slot-Resends :
      (t : Transfer) (i : ℕ) (onward : Transfer → Resent)
      → IsSending isn stream t
      → Onward t onward
      → Resends t (check_slot clock t i onward)
  unfolding check_slot
  check_slot-Resends t i onward s k =
      let slot = get_or t.window i empty_slot in
      if_ind (Resends t) slot.acked (λ e. k t s refl)
        (λ e.
          if_ind (Resends t) (is_timeout slot.send_time (clock t.ticks) sham_timeout_ms)
            (λ e. resend_slot-Resends t i onward s k)
            (λ e.
              k _
                (record {
                  before = s.before;
                  split = s.split;
                  next = s.next;
                  held = s.held;
                  nonempty = s.nonempty;
                  ended = s.ended;
                })
                refl))

  check_packet-Resends :
      (t : Transfer) (i : ℕ) (onward : Transfer → Resent)
      → IsSending isn stream t
      → Onward t onward
      → Resends t (check_packet clock t i onward)
  unfolding check_packet
  check_packet-Resends t i onward s k =
      let seq = u32 (t.sender.window_base + i * sham_data_size) in
      if_ind (Resends t) (leb t.sender.next_seq_num seq) (λ e. (s, refl, tt))
        (λ e.
          if_ind (Resends t) (ltb seq t.sender.window_base) (λ e. k t s refl)
            (λ e. check_slot-Resends t (slot_index t.sender seq) onward s k))

  Resends-sender :
      (t t' : Transfer) (r : Resent) → t'.sender ≡ t.sender → Resends t' r → Resends t r
  Resends-sender t t' (resent t'' sent) e h = (h.0, h.1 ∙ e, h.2)
  Resends-sender t t' (exceeded sent) e h = h

  pub resend-Resends :
      (n i : ℕ) (t : Transfer) → IsSending isn stream t → Resends t (resend clock n i t)
  unfolding resend
  resend-Resends zero i t s = (s, refl, tt)
  resend-Resends (suc n) i t s =
      check_packet-Resends t i (resend clock n (i + 1)) s
        (λ t' s' e. Resends-sender t t' _ e (resend-Resends n (i + 1) t' s'))

-- ===== src/Ipc/Kernel/Leaks.antt =====
-- zipc/zipc_server_kernal.c: buffers that the server in the kernel does not get back.
use zcrt.Base.{
  ltb, ◌==◌, Bool-cases, Run, ◌>>=◌, length, All, ℕ, ◌+◌, ◌-◌, ◌%◌, ◌≤◌, ◌≡◌, refl, ap, ◌∙◌, ◌⊎◌,
  inl, inr, true, false, none, some, List, [], ◌∷◌, ◌++◌, arith,
}
use zcrt.Ipc.Request.{parse_payload}
use zcrt.Ipc.Pool.{zipc_buf_free, zipc_buf_malloc}
use zcrt.Ipc.Header.{type_default, type_link}
use zcrt.Ipc.EventOut.{encode_event, encode_with}
use zcrt.Buf.{Allocator, ZBuf, buf_clear, u32}
use zcrt.Ipc.Kernel.{
  World, Packet, recv_hdr, set_free, nl_data_recv, recv_with, got_hdr, msg_proc_job, proc_with,
  answer_work, respond, give_back, hookevent_cb, hookevent_with, send_notice, nlmsg_space,
  nlmsg_length,
}
use zcrt.Ipc.Server.{Luck}

module _ ⦃alloc : Allocator⦄ (w : World) (luck : Luck) (b : ZBuf) (l : List ZBuf)
    (free : w.server.freebuf ≡ b ∷ l) where
  -- With a free buffer at hand, a message of a type that is neither DEFAULT nor LINK costs the server
  -- that buffer: the buffer of the message comes back, and nothing else changes.
  pub msg_proc_job-unknown_type :
      (ibuf : ZBuf) (app_type pid : ℕ)
      → 2 ≤ app_type
      → msg_proc_job w luck (record { ibuf = ibuf; app_type = app_type; pid = pid })
        ≡ some (set_free w (ibuf ∷ l))
  unfolding msg_proc_job proc_with answer_work respond give_back zipc_buf_malloc zipc_buf_free
      parse_payload buf_clear
  msg_proc_job-unknown_type ibuf app_type pid other =
      let not_default : (app_type == type_default) ≡ false = ground arith in
      let not_link : (app_type == type_link) ≡ false = ground arith in
      rw (free, not_link, not_default, ◌>>=◌)

  -- With a free buffer at hand and no encoder set, an event that is hooked costs the server that
  -- buffer every time it is sent: nothing else changes.
  pub hookevent_cb-no_encoder :
      (id evtid evtdata pid : ℕ)
      → w.server.evt_encode ≡ none
      → hookevent_cb w luck id evtid evtdata pid ≡ some (set_free w l)
  unfolding hookevent_cb hookevent_with send_notice zipc_buf_malloc encode_event encode_with
      buf_clear
  hookevent_cb-no_encoder id evtid evtdata pid no_encoder = rw (free, no_encoder, ◌>>=◌)

-- A packet that is too short for the header, or whose header is refused.
abbrev pub IsRefused : Packet → Type 0
IsRefused packet =
    (ltb packet.skb_len nlmsg_space ≡ true)
    ⊎ (recv_hdr packet.content ((packet.nlmsg_len + (u32 - nlmsg_length)) % u32) ≡ some none)

module _ ⦃alloc : Allocator⦄ where
  -- Packets that come one after the other.
  abbrev pub recv_all : World → Luck → List Packet → Run World
  recv_all w luck [] = some w
  recv_all w luck (packet ∷ packets) = nl_data_recv w luck packet >>= λ w'. recv_all w' luck packets

  recv-IsRefused :
      (w : World) (luck : Luck) (packet : Packet) (b : ZBuf) (l : List ZBuf)
      → w.server.freebuf ≡ b ∷ l
      → IsRefused packet
      → nl_data_recv w luck packet ≡ some (set_free w l)
  unfolding nl_data_recv recv_with got_hdr zipc_buf_malloc
  recv-IsRefused w luck packet b l free (inl short) = rw (free, short)
  recv-IsRefused w luck packet b l free (inr refused) =
      elim (Bool-cases (ltb packet.skb_len nlmsg_space)) [
        | inl short ↦ rw (free, short)
        | inr long ↦ rw (free, long, refused, ◌>>=◌)
      ]

  recv_without_buffer :
      (w : World) (luck : Luck) (packet : Packet)
      → w.server.freebuf ≡ []
      → luck.granted ≡ false
      → nl_data_recv w luck packet ≡ some (set_free w [])
  unfolding nl_data_recv recv_with zipc_buf_malloc
  recv_without_buffer w luck packet empty unlucky = rw (empty, unlucky)

  recv_all_without_buffer :
      (packets : List Packet) (w : World) (luck : Luck)
      → luck.granted ≡ false
      → recv_all (set_free w []) luck packets ≡ some (set_free w [])
  recv_all_without_buffer [] w luck unlucky = refl
  recv_all_without_buffer (packet ∷ packets) w luck unlucky =
      rw (recv_without_buffer (set_free w []) luck packet refl unlucky, ◌>>=◌)
        (recv_all_without_buffer packets w luck unlucky)

  -- While malloc grants no buffers, refused packets stop the server, because each of them costs it a
  -- free buffer: once as many of them have come as there were free buffers, it drops every packet that
  -- comes, well-formed ones too. No buffer is free, and jobs, replies and events are as they were
  -- before the first of these packets.
  pub recv_all-IsRefused :
      (refused packets : List Packet) (bufs : List ZBuf) (w : World) (luck : Luck)
      → luck.granted ≡ false
      → w.server.freebuf ≡ bufs
      → length refused ≡ length bufs
      → All IsRefused refused
      → recv_all w luck (refused ++ packets) ≡ some (set_free w [])
  recv_all-IsRefused [] packets [] w luck unlucky free same bad =
      ap (λ l. recv_all (set_free w l) luck packets) free
      ∙ recv_all_without_buffer packets w luck unlucky
  recv_all-IsRefused [] packets (b ∷ bufs) w luck unlucky free same bad = absurd (omega arith)
  recv_all-IsRefused (p ∷ refused) packets [] w luck unlucky free same bad = absurd (omega arith)
  recv_all-IsRefused (p ∷ refused) packets (b ∷ bufs) w luck unlucky free same bad =
      rw (recv-IsRefused w luck p b bufs free bad.0, ◌>>=◌)
        (recv_all-IsRefused refused packets bufs (set_free w bufs) luck unlucky refl (omega arith)
          bad.1)

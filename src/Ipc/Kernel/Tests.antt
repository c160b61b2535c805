-- ===== src/Ipc/Kernel/Tests.antt =====
-- A server in the kernel with one free buffer.
use zcrt.Base.{◌>>=◌, length, ◌≡◌, refl, inl, true, false, none, some, [], ◌∷◌}
use zcrt.Ipc.Kernel.Leaks.{recv_all, recv_all-IsRefused}
use zcrt.Buf.Tests.{ample}
use zcrt.Ipc.Tests.{no_comps, empty}
use zcrt.Ipc.Server.{Luck}
use zcrt.Ipc.Kernel.{
  World, Packet, got_hdr, nl_data_recv, queue_work, recv_hdr, recv_with, set_free,
}
use zcrt.Ipc.Pool.{zipc_buf_malloc}
use zcrt.Ipc.Header.{parse_check_hdr}
use zcrt.Buf.{
  buf_append, buf_realloc, store, grow_cap, zcrt_realloc, buf_clear, buf_init, zcrt_malloc,
}

abbrev luck : Luck
luck = record { granted = true; node = true; taken = true }

abbrev no_memory : Luck
no_memory = record { granted = false; node = false; taken = true }

abbrev world : World
world = record {
  server = record no_comps { freebuf = empty ∷ []; evt_encode = none };
  events = none;
  cb = 3;
  ipc = 1;
  works = [];
  replies = [];
  notices = [];
  wire = [];
}

abbrev short_packet : Packet
short_packet = record { skb_len = 20; nlmsg_len = 20; content = []; pid = 9 }

-- A header with a payload of two bytes, and the payload.
abbrev good_packet : Packet
good_packet = record {
  skb_len = 40;
  nlmsg_len = 28;
  content = 71 ∷ 76 ∷ 0 ∷ 0 ∷ 0 ∷ 0 ∷ 0 ∷ 0 ∷ 0 ∷ 2 ∷ 8 ∷ 9 ∷ [];
  pid = 9;
}

-- Without a refused packet before it, the good one becomes a job.
good_run : (nl_data_recv world luck good_packet >>= λ w'. some (length w'.works)) ≡ some 1
unfolding nl_data_recv recv_with recv_hdr got_hdr queue_work zipc_buf_malloc buf_append buf_realloc
    store grow_cap zcrt_realloc parse_check_hdr buf_clear buf_init zcrt_malloc
good_run = refl

recv_all-IsRefused_example :
    recv_all world no_memory (short_packet ∷ good_packet ∷ []) ≡ some (set_free world [])
recv_all-IsRefused_example =
    recv_all-IsRefused (short_packet ∷ []) (good_packet ∷ []) (empty ∷ []) world no_memory refl refl
      refl (inl refl, tt)

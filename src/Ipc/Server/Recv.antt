-- ===== src/Ipc/Server/Recv.antt =====
-- zipc/zipc_server_os.c: a message that a client sends.
use zcrt.Base.{
  leb, ◌==◌, ◌>>=◌, length, take, take_all, ℕ, ◌+◌, ◌*◌, ◌/◌, ◌%◌, ◌^◌, ◌≤◌, ◌<◌, ◌≡◌, sym, ap, ◌∙◌,
  true, false, not, ◌&&◌, some, List, [], ◌∷◌, ◌++◌, arith,
}
use zcrt.Ipc.Server.{
  Luck, Work, World, client_round, got_hdr, got_payload, inc_jobcnt, queue_work, set_free, zipc_tag,
}
use zcrt.Ipc.Pool.{PoolIsValid, zipc_buf_malloc-zipc_buf_free}
use zcrt.Buf.Growth.{buf_realloc-Grown}
use zcrt.Buf.{Allocator, IsValid, ZBuf, unread}
use zcrt.Ipc.Server.{from_be32, recv_hdr, recv_payload}
use zcrt.Ipc.Pool.{buf_len}
use zcrt.Ipc.Header.{parse_check_hdr}
use zcrt.Ipc.EventOut.Size.{hdr_start}
use zcrt.Ipc.EventOut.{be32}
use zcrt.Buf.Append.{store_lem}
use zcrt.Buf.{u32}

from_be32-be32 : (n : ℕ) → n < u32 → from_be32 (be32 n) ≡ n
from_be32-be32 n small = omega arith

-- The header of a message with a payload of `size` bytes.
abbrev pub sized_hdr : ℕ → ℕ → List ℕ
sized_hdr app_type size = hdr_start app_type ++ be32 size

pub recv_hdr-sized_hdr :
    (app_type size : ℕ)
    → app_type < 2 ^ 16
    → size < buf_len
    → recv_hdr (some (sized_hdr app_type size)) ≡ some (app_type, size)
unfolding recv_hdr parse_check_hdr
recv_hdr-sized_hdr app_type size small fits =
    let number : from_be32 (be32 size) ≡ size = from_be32-be32 size (omega arith) in
    let below : leb buf_len size ≡ false = ground arith in
    let kind : app_type / 256 % 256 * 256 + app_type % 256 ≡ app_type = omega arith in
    rw (number, below, kind)

recv_payload_lem :
    (bytes block : List ℕ)
    → length bytes ≤ length block
    → (block' : List ℕ) × (recv_payload (length bytes) (some bytes) block ≡ some (block', true))
      × (length block' ≡ length block)
      × (take (length bytes) block' ≡ bytes)
unfolding recv_payload
recv_payload_lem bytes block fits =
    let whole : take (length bytes) bytes ≡ bytes = take_all (length bytes) bytes (omega arith) in
    let (block', run, same, holds) = store_lem block 0 bytes (omega arith) in
    let none_before : 0 + length bytes ≡ length bytes = omega arith in
    let room : (length block == 0 && not (length bytes == 0)) ≡ false = ground arith in
    let self : (length bytes == length bytes) ≡ true = ground arith in
    (
      block',
      rw (room, whole, run, ◌>>=◌, self),
      same,
      ap (λ n. take n block') (sym none_before) ∙ holds,
    )

-- The state with a message in the list of jobs.
abbrev pub with_work : World → Work → World
with_work w work = record w {
  client = record w.client { jobcnt = (w.atoms.atom_inc w.client.jobcnt).0 };
  works = w.works ++ (work ∷ []);
}

module _ ⦃alloc : Allocator⦄ (granted : (n : ℕ) → alloc.grants n ≡ true) where
  queue_work_lem :
      (w : World) (luck : Luck) (work : Work)
      → PoolIsValid w.server.freebuf
      → luck.granted ≡ true
      → luck.taken ≡ true
      → (l : List ZBuf) × (next : ZBuf) × (queue_work w luck work
          ≡ some (set_free (with_work w work) l, some next, true))
        × PoolIsValid l
        × IsValid next
  unfolding queue_work inc_jobcnt
  queue_work_lem w luck work pool lucky takes =
      let (l, next, run, pool', valid, _, _, _) =
        zipc_buf_malloc-zipc_buf_free granted w.server.freebuf zipc_tag pool in
      (l, next, rw (takes, ◌>>=◌, lucky, run), pool', valid)

  -- Where libc and malloc grant every request and the scheduler takes the job, a client's message
  -- whose header comes in one call of recv and whose payload, of less than 8192 bytes, in the next,
  -- is put behind the jobs that wait, with its type and a well-formed buffer that holds the payload
  -- and nothing else, none of it read. The count of the client's jobs is what `zcrt_atom_inc`
  -- makes of it, and the thread goes on with another well-formed buffer.
  pub client_round-message :
      (w : World) (luck : Luck) (buf : ZBuf) (app_type : ℕ) (body : List ℕ)
      → IsValid buf
      → PoolIsValid w.server.freebuf
      → luck.granted ≡ true
      → luck.taken ≡ true
      → app_type < 2 ^ 16
      → length body < buf_len
      → (l : List ZBuf) × (next ibuf : ZBuf) × (client_round w luck buf
            (some (sized_hdr app_type (length body)))
            (some body)
          ≡ some (
            set_free (with_work w (record { ibuf = ibuf; app_type = app_type })) l,
            some next,
            true,
          ))
        × PoolIsValid l
        × IsValid next
        × IsValid ibuf
        × (unread ibuf ≡ body)
  unfolding client_round got_hdr got_payload
  client_round-message w luck buf app_type body valid pool lucky takes small fits =
      let n = length body in
      let (b, run, g) = buf_realloc-Grown granted buf n valid (omega arith) in
      let (block, run', same, holds) =
        recv_payload_lem body b.buf (omega (arith, g.big, g.valid.room)) in
      let ibuf = record b { len = n; offset = 0; buf = block } in
      let (l, next, run'', pool', valid') =
        queue_work_lem w luck (record { ibuf = ibuf; app_type = app_type }) pool lucky takes in
      (
        l,
        next,
        ibuf,
        rw (recv_hdr-sized_hdr app_type n small fits, run, ◌>>=◌, run', run''),
        pool',
        valid',
        record {
          room = omega (arith, same, g.valid.room);
          fits = g.big;
          behind = omega arith;
          narrow = g.valid.narrow;
        },
        holds,
      )

-- ===== src/Ipc/Server/Respond.antt =====
-- zipc/zipc_server_os.c: what the job for a message does with its reply.
use zcrt.Base.{
  ◌==◌, Bool-cases, ◌>>=◌, length, ◌+◌, ◌-◌, ◌%◌, ◌≤◌, ◌≡◌, refl, ◌≢◌, ◌⊎◌, inl, inr, Bool, true,
  false, some, [], ◌∷◌, ◌++◌, arith,
}
use zcrt.Ipc.Server.{set_free}
use zcrt.Ipc.EventOut.{be32}
use zcrt.Buf.Append.{store_lem}
use zcrt.Buf.{u32}
use zcrt.Ipc.Server.{World, give_back, respond, send_reply}
use zcrt.Ipc.Pool.{zipc_buf_free}
use zcrt.Ipc.Header.{head_len}
use zcrt.Ipc.EventOut.{set_payload_size}
use zcrt.Buf.{IsValid, ZBuf}

-- A reply that holds nothing, or has room for the header of a message.
abbrev pub Sendable : ZBuf → Type 0
Sendable o = (o.len ≡ 0) ⊎ (head_len ≤ length o.buf)

-- The state after a buffer has been given back, or queued.
abbrev pub freed : World → ZBuf → World
freed w b = set_free w (b ∷ w.server.freebuf)

abbrev pub queued : World → ZBuf → World
queued w o = record w { replies = w.replies ++ (o ∷ []) }

-- What becomes of a reply: `reply` is the same buffer, with the same number of bytes in its block.
pub record Responded (w : World) (taken : Bool) (o : ZBuf) : Type 0 where
  pub reply : ZBuf
  pub same_reply : reply ≡ record o { buf = reply.buf }
  pub same_size : length reply.buf ≡ length o.buf
  pub valid : IsValid reply
  pub how :
      (((taken ≡ true) × (o.len ≢ 0)) × (respond w taken o ≡ some (queued w reply)))
      ⊎ (((taken ≡ false) ⊎ (o.len ≡ 0)) × (respond w taken o ≡ some (freed w reply)))

respond_empty : (w : World) (taken : Bool) (o : ZBuf) → IsValid o → o.len ≡ 0 → Responded w taken o
unfolding respond give_back zipc_buf_free
respond_empty w taken o valid empty =
    let nothing : (o.len == 0) ≡ true = ground arith in
    record {
      reply = o;
      same_reply = refl;
      same_size = refl;
      valid = valid;
      how = inr (inr empty, rw nothing);
    }

pub respond-Responded :
    (w : World) (taken : Bool) (o : ZBuf) → IsValid o → Sendable o → Responded w taken o
unfolding respond give_back zipc_buf_free set_payload_size send_reply
respond-Responded w taken o valid (inl empty) = respond_empty w taken o valid empty
respond-Responded w taken o valid (inr big) = elim (Bool-cases (o.len == 0)) [
  | inl nothing ↦ respond_empty w taken o valid (ground arith)
  | inr something ↦
      let (block, run, same, _) =
        store_lem o.buf 6 (be32 ((o.len + u32 - head_len) % u32)) (omega arith) in
      let full : o.len ≢ 0 = ground arith in
      record {
        reply = record o { buf = block };
        same_reply = refl;
        same_size = same;
        valid = record {
          room = omega (arith, same, valid.room);
          fits = valid.fits;
          behind = valid.behind;
          narrow = valid.narrow;
        };
        how = elim (Bool-cases taken) [
          | inl goes ↦ inl ((goes, full), rw (something, run, ◌>>=◌, goes))
          | inr stays ↦ inr (inl stays, rw (something, run, ◌>>=◌, stays))
        ];
      }
]

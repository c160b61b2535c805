-- ===== src/Ipc/Header/Round.antt =====
-- zipc/zipc_parse.c: a common header that is written and then read.
use zcrt.Ipc.Header.Replies.{encode_common_hdr_lem, full_hdr_values, length-counted_bytes}
use zcrt.Ipc.Header.Fields.{hdr_bytes, parse_common_hdr-hdr_bytes}
use zcrt.Ipc.Header.{encode_common_hdr, parse_common_hdr}
use zcrt.Buf.Reading.{Appended-unread, skip, unread-skip}
use zcrt.Buf.{Allocator, IsValid, ZBuf, u32, unread}
use zcrt.Base.{
  length, ℕ, ◌+◌, ◌^◌, ◌<◌, ◌≡◌, sym, ap, ◌∙◌, Bool, true, some, [], ◌∷◌, ◌++◌, append-nil, arith,
}
use zcrt.Ipc.Header.Fields.{sn, req, noti}

-- Where libc grants every request, `zipc_encode_common_hdr` on a well-formed buffer with nothing left
-- to read, whose contents are fewer than 2 ^ 31 - 100 bytes, does not fault, and `zipc_parse_common_hdr` then
-- returns true with the same number and the same two flags, and leaves nothing to read.
pub parse_common_hdr-encode_common_hdr :
    ⦃alloc : Allocator⦄
    → ((n : ℕ) → alloc.grants n ≡ true)
    → (v : ZBuf) (id : ℕ) (r n : Bool) → IsValid v
    → unread v ≡ []
    → id < u32
    → v.len + 100 < 2 ^ 31
    → (w u : ZBuf) × (encode_common_hdr v id r n ≡ some w)
      × (parse_common_hdr w ≡ some (u, some (record { sn = id; req = r; noti = n })))
      × (unread u ≡ [])
parse_common_hdr-encode_common_hdr granted v id r n valid empty small room =
    let fs = sn id ∷ req r ∷ noti n ∷ [] in
    let (w, run, a) = encode_common_hdr_lem granted v valid id r n small (omega arith) in
    let bytes = hdr_bytes fs in
    let more = length-counted_bytes 3 (full_hdr_values id r n) in
    let at : unread w ≡ bytes ++ [] =
      Appended-unread bytes valid a ∙ ap (λ l. l ++ bytes) empty ∙ sym (append-nil bytes) in
    (
      w,
      skip w (length bytes),
      run,
      parse_common_hdr-hdr_bytes fs w [] a.valid (omega (arith, a.longer, more)) (omega arith)
          (small, (tt, (tt, tt))) at,
      unread-skip w a.valid bytes [] at,
    )

-- ===== src/Ipc/EventOut/Size.antt =====
-- zipc/zipc_parse.c: the size in the header of a message that goes out.
use zcrt.Ipc.Header.{head_len, msg_hdr}
use zcrt.Ipc.EventOut.{be32, set_payload_size}
use zcrt.Buf.{IsValid, ZBuf, contents, store, u32}
use zcrt.Base.{
  leb, ◌>>=◌, length, drop, length-append, length-take, take-append, take_all, take-append-drop, ℕ,
  ◌+◌, ◌-◌, ◌/◌, ◌%◌, ◌≡◌, refl, sym, ap, ◌∙◌, true, some, List, [], ◌∷◌, ◌++◌, arith,
}

-- The bytes of the header before the size.
abbrev pub hdr_start : ℕ → List ℕ
hdr_start app_type = 71 ∷ 76 ∷ 0 ∷ 0 ∷ (app_type / 256 % 256) ∷ (app_type % 256) ∷ []

-- A whole message: the header with the size of the rest.
abbrev pub message : ℕ → List ℕ → List ℕ
message app_type body = hdr_start app_type ++ (be32 (length body) ++ body)

store-msg_hdr :
    (app_type n : ℕ) (rest : List ℕ)
    → store (msg_hdr app_type ++ rest) 6 (be32 n) ≡ some (hdr_start app_type ++ (be32 n ++ rest))
unfolding store msg_hdr
store-msg_hdr app_type n rest =
    let room : leb 10 (length (msg_hdr app_type ++ rest)) ≡ true = ground arith in rw room

pub set_payload_size_lem :
    (v : ZBuf) (app_type : ℕ) (body : List ℕ)
    → IsValid v
    → contents v ≡ msg_hdr app_type ++ body
    → (w : ZBuf) × (set_payload_size v ≡ some w)
      × IsValid w
      × (contents w ≡ message app_type body)
      × (w.len ≡ v.len)
      × (w.offset ≡ v.offset)
unfolding set_payload_size msg_hdr
set_payload_size_lem v app_type body valid holds =
    let tail = drop v.len v.buf in
    let size : v.len ≡ 10 + length body =
      omega (arith, ap length holds, length-take v.len v.buf, valid.room, valid.fits) in
    let block : v.buf ≡ msg_hdr app_type ++ (body ++ tail) =
      sym (take-append-drop v.len v.buf) ∙ ap (λ l. l ++ tail) holds in
    let n : (v.len + u32 - head_len) % u32 ≡ length body =
      omega (arith, size, valid.fits, valid.narrow) in
    let now = message app_type body in
    let w = record v { buf = now ++ tail } in
    let same : length (now ++ tail) ≡ length v.buf =
      omega (arith, ap length block, length-append now tail, length-append body tail) in
    (
      w,
      rw n (
          ap (λ b. store b 6 (be32 (length body)) >>= λ c. some (record v { buf = c })) block
          ∙ rw (store-msg_hdr app_type (length body) (body ++ tail), ◌>>=◌) refl),
      record {
        room = omega (arith, same, valid.room);
        fits = valid.fits;
        behind = valid.behind;
        narrow = valid.narrow;
      },
      take-append v.len now tail (omega (arith, size)) ∙ take_all v.len now (omega (arith, size)),
      refl,
      refl,
    )

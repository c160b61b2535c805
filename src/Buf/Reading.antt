-- ===== src/Buf/Reading.antt =====
-- What stands at the read position of a buffer, as a view of the whole block.
use zcrt.Base.{
  length, drop, length-append, length-take, length-drop, take-append-drop, drop-append, drop_all,
  drop-drop, ℕ, ◌+◌, ◌≤◌, ◌≡◌, sym, ap, ◌∙◌, List, ◌++◌, append_assoc, arith,
}
use zcrt.Buf.{ZBuf, IsValid, unread, contents}
use zcrt.Buf.Append.{Appended}

-- The read position moved on by `n`.
abbrev pub skip : ZBuf → ℕ → ZBuf
skip v n = record v { offset = v.offset + n }

module _ (v : ZBuf) (valid : IsValid v) (bytes rest : List ℕ) (at : unread v ≡ bytes ++ rest) where
  length-contents : length (contents v) ≡ v.len
  length-contents = omega (arith, length-take v.len v.buf, valid.room, valid.fits)

  pub unread_fits : v.offset + length bytes ≤ v.len
  unread_fits = omega (
    arith,
    ap length at,
    length-append bytes rest,
    length-drop v.offset (contents v),
    length-contents,
    valid.behind,
  )

  pub unread_block : drop v.offset v.buf ≡ bytes ++ (rest ++ drop v.len v.buf)
  unread_block =
      ap (drop v.offset) (sym (take-append-drop v.len v.buf))
      ∙ drop-append v.offset (contents v) (drop v.len v.buf)
          (omega (arith, length-contents, valid.behind))
      ∙ ap (λ l. l ++ drop v.len v.buf) at
      ∙ append_assoc bytes rest (drop v.len v.buf)

  pub skip-IsValid : IsValid (skip v (length bytes))
  skip-IsValid = record {
    room = valid.room;
    fits = valid.fits;
    behind = unread_fits;
    narrow = valid.narrow;
  }

  pub unread-skip : unread (skip v (length bytes)) ≡ rest
  unread-skip =
      sym (drop-drop (length bytes) v.offset (contents v))
      ∙ ap (drop (length bytes)) at
      ∙ drop-append (length bytes) bytes rest (omega arith)
      ∙ ap (λ l. l ++ rest) (drop_all (length bytes) bytes (omega arith))

-- What is written joins the end of what is still to be read.
pub Appended-unread :
    {v w : ZBuf} (bytes : List ℕ) → IsValid v → Appended v bytes w → unread w ≡ unread v ++ bytes
Appended-unread {v} {w} bytes valid a =
    ap (λ k. drop k (contents w)) a.same_offset
    ∙ ap (drop v.offset) a.written
    ∙ drop-append v.offset (contents v) bytes
        (omega (arith, length-take v.len v.buf, valid.room, valid.fits, valid.behind))

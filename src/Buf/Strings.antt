-- ===== src/Buf/Strings.antt =====
-- zcrtlib/zbuf.c: taking bytes and strings from a buffer, and the bound that wraps.
use zcrt.Base.{
  ltb, ltb→lt, le→ltb, Bool-cases, ℕ, ◌+◌, ◌-◌, ◌%◌, ◌≤◌, ◌<◌, ◌≡◌, refl, ◌⊎◌, inl, inr, true,
  false, none, some, arith,
}
use zcrt.Buf.{ZBuf, IsValid, u32, buf_getstr}

-- From a well-formed buffer, when the read position plus the length asked for does not wrap,
-- `zcrt_buf_getstr` returns true exactly if so many bytes are left. Then the string is those bytes
-- and the read position is behind them; otherwise the string is empty, its pointer NULL, and all
-- that was left is skipped. The buffer stays well formed either way.
pub buf_getstr_bounds :
    (v : ZBuf) (n : ℕ)
    → IsValid v
    → v.offset + n < u32
    → IsValid (buf_getstr v n).0
      × ((v.offset + n ≤ v.len)
            × (buf_getstr v n ≡ (
              record v { offset = v.offset + n },
              record { len = n; ptr = some v.offset },
              true,
            ))
          ⊎ (v.len < v.offset + n)
            × (buf_getstr v n
                ≡ (record v { offset = v.len }, record { len = 0; ptr = none }, false)))
unfolding buf_getstr
buf_getstr_bounds v n valid h =
    let same : (v.offset + n) % u32 ≡ v.offset + n = omega arith in
    rw same (elim (Bool-cases (ltb v.len (v.offset + n))) [
      | inl over ↦ (
        rw over (record {
          room = valid.room;
          fits = valid.fits;
          behind = omega arith;
          narrow = valid.narrow;
        }),
        inr (ltb→lt v.len (v.offset + n) over, rw over),
      )
      | inr inside ↦ (
        rw inside (record {
          room = valid.room;
          fits = valid.fits;
          behind = ground arith;
          narrow = valid.narrow;
        }),
        inl (ground arith, rw inside),
      )
    ])

-- When the read position plus the length asked for wraps round 2 ^ 32 to at most the length of the
-- contents, `zcrt_buf_getstr` returns true and a string longer than the whole block.
pub buf_getstr_wraps :
    (v : ZBuf) (n : ℕ)
    → IsValid v
    → n < u32
    → u32 ≤ v.offset + n
    → v.offset + n - u32 ≤ v.len
    → v.len < n
    → ((buf_getstr v n).2 ≡ true) × ((buf_getstr v n).1.len ≡ n) × (v.len < (buf_getstr v n).1.len)
unfolding buf_getstr
buf_getstr_wraps v n valid small big wrapped over =
    let off : (v.offset + n) % u32 ≡ v.offset + n - u32 =
      omega (arith, valid.behind, valid.fits, valid.narrow) in
    rw (off, le→ltb v.len (v.offset + n - u32) wrapped) (refl, refl, over)

-- ===== src/Buf/Append.antt =====
-- zcrtlib/zbuf.c: what is written behind the contents of a buffer.
use zcrt.Base.{
  ◌==◌, le→leb, ◌>>=◌, length, take, drop, length-append, length-take, length-drop, take-append,
  take_all, ℕ, ◌+◌, ◌%◌, ◌^◌, ◌≤◌, ◌<◌, ◌≡◌, refl, sym, ap, ◌∙◌, true, false, some, List, [], ◌∷◌,
  ◌++◌, append-nil, append_assoc, arith,
}
use native.Mathlib.Nat.{le_refl}
use zcrt.Buf.{Allocator, ZBuf, IsValid, u32, contents, store, buf_append}
use zcrt.Buf.Growth.{Grown, buf_realloc-Grown}

-- A write of `bytes` at `pos` inside the block.
pub store_lem :
    (block : List ℕ) (pos : ℕ) (bytes : List ℕ)
    → pos + length bytes ≤ length block
    → (block' : List ℕ) × (store block pos bytes ≡ some block')
      × (length block' ≡ length block)
      × (take (pos + length bytes) block' ≡ take pos block ++ bytes)
unfolding store
store_lem block pos bytes h =
    let front = take pos block in
    let back = drop (pos + length bytes) block in
    let size : length front ≡ pos = omega (arith, length-take pos block) in
    let whole : length (front ++ bytes) ≡ pos + length bytes =
      omega (arith, length-append front bytes) in
    (
      front ++ (bytes ++ back),
      rw (le→leb (pos + length bytes) (length block) h),
      omega (
        arith,
        length-append front (bytes ++ back),
        length-append bytes back,
        length-drop (pos + length bytes) block,
      ),
      rw (← append_assoc front bytes back) (
          take-append (pos + length bytes) (front ++ bytes) back (omega arith)
          ∙ take_all (pos + length bytes) (front ++ bytes) (omega arith)),
    )

-- `w` is `v` with `bytes` behind its contents, and nothing else changed.
pub record Appended (v : ZBuf) (bytes : List ℕ) (w : ZBuf) : Type 0 where
  pub valid : IsValid w
  pub written : contents w ≡ contents v ++ bytes
  pub longer : w.len ≡ v.len + length bytes
  pub same_offset : w.offset ≡ v.offset
  pub same_tag : w.tag ≡ v.tag

pub Appended-trans :
    {u v w : ZBuf} (a b : List ℕ) → Appended u a v → Appended v b w → Appended u (a ++ b) w
Appended-trans {u} a b p q = record {
  valid = q.valid;
  written = q.written ∙ rw p.written (append_assoc (contents u) a b);
  longer = omega (arith, p.longer, q.longer, length-append a b);
  same_offset = q.same_offset ∙ p.same_offset;
  same_tag = q.same_tag ∙ p.same_tag;
}

-- `memcpy(v->buf + v->len, bytes, n); v->len += n;` once there is room.
pub write_end :
    (v w : ZBuf) (n : ℕ) (bytes : List ℕ)
    → Grown v n w
    → v.len + length bytes ≤ n
    → (block : List ℕ) × (store w.buf w.len bytes ≡ some block)
      × Appended v bytes (record w { buf = block; len = v.len + length bytes })
write_end v w n bytes g h =
    let (block, run, same, now) =
      store_lem w.buf w.len bytes (omega (arith, g.same_len, g.big, g.valid.room)) in
    (
      block,
      run,
      record {
        valid = record {
          room = omega (arith, g.valid.room);
          fits = omega (arith, g.big);
          behind = omega (arith, g.same_offset, g.same_len, g.valid.behind);
          narrow = g.valid.narrow;
        };
        written =
            ap (λ k. take (k + length bytes) block) (sym g.same_len)
            ∙ now
            ∙ ap (λ l. l ++ bytes) g.kept;
        longer = refl;
        same_offset = g.same_offset;
        same_tag = g.same_tag;
      },
    )

module _ ⦃alloc : Allocator⦄ (granted : (n : ℕ) → alloc.grants n ≡ true) where
  append_nonempty :
      (v : ZBuf) (x : ℕ) (xs : List ℕ)
      → IsValid v
      → v.len + length (x ∷ xs) + 1 < 2 ^ 31
      → (w : ZBuf) × (buf_append v (x ∷ xs) ≡ some (w, length (x ∷ xs))) × Appended v (x ∷ xs) w
  unfolding buf_append
  append_nonempty v x xs valid h =
      let n = v.len + length (x ∷ xs) in
      let same : n % u32 ≡ n = omega arith in
      let (w, run, g) = buf_realloc-Grown granted v n valid h in
      let (block, stored, done) = write_end v w n (x ∷ xs) g (le_refl n) in
      let filled : (length (x ∷ xs) == 0) ≡ false = ground arith in
      (record w { buf = block; len = n }, rw (filled, same, run, ◌>>=◌, stored), done)

  -- Where libc grants every request and the total stays below 2 ^ 31 - 1, `zcrt_buf_append` does not
  -- fault: it returns the number of bytes, puts exactly those bytes behind the contents, and
  -- keeps the buffer well formed with its read position and tag.
  pub buf_append-Appended :
      (v : ZBuf) (bytes : List ℕ)
      → IsValid v
      → v.len + length bytes + 1 < 2 ^ 31
      → (w : ZBuf) × (buf_append v bytes ≡ some (w, length bytes)) × Appended v bytes w
  buf_append-Appended v [] valid h = (
    v,
    unfold buf_append in refl,
    record {
      valid = valid;
      written = sym (append-nil (contents v));
      longer = omega arith;
      same_offset = refl;
      same_tag = refl;
    },
  )
  buf_append-Appended v (x ∷ xs) valid h = append_nonempty v x xs valid h

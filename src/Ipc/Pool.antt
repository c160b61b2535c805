-- ===== src/Ipc/Pool.antt =====
-- zipc/zipc_parse.c: the buffers that a server keeps for its messages. The link `next` of a buffer is
-- its place in the list.
use zcrt.Base.{
  if◌then◌else◌, Run, ◌>>=◌, length, length-replicate, All, ℕ, ◌*◌, ◌≡◌, refl, Bool, true, Option,
  none, some, List, [], ◌∷◌, arith,
}
use zcrt.Buf.{Allocator, IsValid, ZBuf, buf_clear, buf_init, zcrt_malloc}

abbrev pub buf_len : ℕ
buf_len = 1024 * 8

-- `zipc_buf_malloc` and `zipc_buf_free` read no other field of the server.
unfoldable pub zipc_buf_free : List ZBuf → Option ZBuf → Run (List ZBuf)
zipc_buf_free freebuf none = none
zipc_buf_free freebuf (some buf) = some (buf ∷ freebuf)

module _ ⦃alloc : Allocator⦄ where
  -- The buffer comes from the list, or from malloc, which answers `granted` for its struct.
  unfoldable pub zipc_buf_malloc : List ZBuf → ℕ → Bool → List ZBuf × Option ZBuf
  zipc_buf_malloc [] tag granted =
      ([], if granted then some (buf_clear (buf_init buf_len tag)) else none)
  zipc_buf_malloc (buf ∷ freebuf) tag granted = (freebuf, some (buf_clear buf))

-- The buffers of a list are well formed.
abbrev pub PoolIsValid : List ZBuf → Type 0
PoolIsValid freebuf = All IsValid freebuf

pub buf_clear-IsValid : (v : ZBuf) → IsValid v → IsValid (buf_clear v)
unfolding buf_clear
buf_clear-IsValid v valid = record {
  room = valid.room;
  fits = omega arith;
  behind = omega arith;
  narrow = valid.narrow;
}

module _ ⦃alloc : Allocator⦄ (granted : (n : ℕ) → alloc.grants n ≡ true) where
  pub buf_init-IsValid : (tag : ℕ) → IsValid (buf_init buf_len tag)
  unfolding buf_init zcrt_malloc
  buf_init-IsValid tag =
      let given = granted buf_len in
      let size : length (zcrt_malloc buf_len) ≡ buf_len =
        rw (given) (length-replicate {A = ℕ} buf_len 0) in
      record {
        room = omega (arith, size);
        fits = omega arith;
        behind = omega arith;
        narrow = omega arith;
      }

  -- Where libc grants every request, a server whose free buffers are well formed gives out a well
  -- formed buffer that holds nothing, and its free buffers stay well formed; a buffer that is given
  -- back is the next one to be given out, cleared, and the list is what it was.
  pub zipc_buf_malloc-zipc_buf_free :
      (freebuf : List ZBuf) (tag : ℕ)
      → PoolIsValid freebuf
      → (freebuf' : List ZBuf) × (buf : ZBuf) × (zipc_buf_malloc freebuf tag true
          ≡ (freebuf', some buf))
        × PoolIsValid freebuf'
        × IsValid buf
        × (buf.len ≡ 0)
        × (buf.offset ≡ 0)
        × ((b : ZBuf)
            → (zipc_buf_free freebuf (some b) >>= λ l. some (zipc_buf_malloc l tag true))
              ≡ some (freebuf, some (buf_clear b)))
  unfolding zipc_buf_malloc zipc_buf_free buf_clear
  zipc_buf_malloc-zipc_buf_free [] tag h = (
    [],
    buf_clear (buf_init buf_len tag),
    refl,
    tt,
    buf_clear-IsValid (buf_init buf_len tag) (buf_init-IsValid tag),
    refl,
    refl,
    λ b. refl,
  )
  zipc_buf_malloc-zipc_buf_free (buf ∷ freebuf) tag h =
      (freebuf, buf_clear buf, refl, h.1, buf_clear-IsValid buf h.0, refl, refl, λ b. refl)

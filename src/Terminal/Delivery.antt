-- ===== src/Terminal/Delivery.antt =====
-- What a reader of the terminal gets from `canonic_wakeup_read` of kernel/drivers/tty.c.
use yinyang_os.Base.{
  Bool, add32, ◌^◌, ==_refl, List, [], arith, length, refl, some, suc, update, zero, ℕ, ◌%◌, ◌+◌,
  ◌<◌, ◌≤◌, ◌∷◌, ◌≡◌, ◌≢◌, ==_ne, ==_iff,
}
use yinyang_os.Paging.{Ram, copy_from_kernel, translated, v_to_p}
use yinyang_os.Paging.Words.{Apart, Keeps}
use yinyang_os.Paging.Walk.{table_at-Keeps, v_to_p-translated}
use yinyang_os.Paging.Copy.{copy_from_kernel-translated, put_bytes-same, put_bytes, put_bytes-Keeps}
use yinyang_os.Paging.Back.{translated-Keeps}
use yinyang_os.Terminal.{Pool}
use yinyang_os.Terminal.Readers.{Driver, canonic_wakeup_read, copy_line, read_stack_pop, skip}
use yinyang_os.Terminal.Lines.{Waiting, Waiting-passed, after, length-take, passed, take}

-- The page tables that translate one byte of the reader's buffer, in a later memory.
Apart-one :
    (table : ℕ → Bool) (m m' : Ram) (pdir buf n i : ℕ)
    → Apart table m pdir buf n
    → Keeps table m m'
    → i < n
    → Apart table m' pdir (buf + i) 1
Apart-one table m m' pdir buf n i apart same l = record {
  pde_in = λ k q j u. let e : buf + i + k ≡ buf + i = omega arith in rw e (apart.pde_in i l j u);
  pte_in = λ k q j u.
      let e : buf + i + k ≡ buf + i = omega arith in
      let w = table_at-Keeps table m pdir buf n apart m' same i l in
      rw (e, w) (apart.pte_in i l j u);
  bytes_out = λ k q.
      let e : buf + i + k ≡ buf + i = omega arith in
      let w = translated-Keeps table m pdir buf n apart m' same i l in
      rw (e, w) (apart.bytes_out i l);
}

-- One character goes to the reader.
copy_one :
    (table : ℕ → Bool) (m m' : Ram) (pdir buf n i c : ℕ)
    → Apart table m pdir buf n
    → Keeps table m m'
    → i < n
    → buf + n ≤ 2 ^ 32
    → (copy_from_kernel pdir (add32 buf i) (c ∷ []) m'
        ≡ some (update m' (translated m pdir (buf + i)) c))
      × Keeps table m (update m' (translated m pdir (buf + i)) c)
unfolding put_bytes
copy_one table m m' pdir buf n i c apart same l fits =
    let u : (buf + i) % 2 ^ 32 ≡ buf + i = omega arith in
    let run =
      copy_from_kernel-translated table m' pdir (buf + i) (c ∷ [])
        (Apart-one table m m' pdir buf n i apart same l) in
    let w = translated-Keeps table m pdir buf n apart m' same i l in
    let kept =
      put_bytes-Keeps table (translated m pdir) m (buf + i) (c ∷ []) m'
        (λ k q. let e : buf + i + k ≡ buf + i = omega arith in rw e (apart.bytes_out i l)) same in
    (rw u (rw w at run), kept)

copy_line_lem :
    (table : ℕ → Bool) (m : Ram) (pdir buf size : ℕ)
    → Apart table m pdir buf size
    → buf + size ≤ 2 ^ 32
    → (n i : ℕ) (cs : List ℕ) (p : Pool) (m' : Ram) → i + n ≤ size
    → Keeps table m m'
    → Waiting p.input_pool p.f cs
    → copy_line n i pdir buf p m'
      ≡ some (
        i + length (take n cs),
        record p { f = after (length (take n cs)) p.f },
        put_bytes (translated m pdir) (buf + i) (take n cs) m',
      )
unfolding copy_line take after put_bytes skip
copy_line_lem table m pdir buf size apart low zero i cs p m' fits same h =
    let e : i + 0 ≡ i = omega arith in rw e
copy_line_lem table m pdir buf size apart low (suc n) i [] p m' fits same h =
    let e : i + 0 ≡ i = omega arith in let z = (==_iff (p.input_pool p.f) 0).1 h in rw (z, e)
copy_line_lem table m pdir buf size apart low (suc n) i (c ∷ cs) p m' fits same (h, ne, r) =
    let z = ==_ne c 0 ne in
    let (run, kept) = copy_one table m m' pdir buf size i c apart same (omega arith) low in
    let next =
      copy_line_lem table m pdir buf size apart low n (i + 1) cs (skip p)
        (update m' (translated m pdir (buf + i)) c) (omega arith) kept r in
    let a : i + suc (length (take n cs)) ≡ i + 1 + length (take n cs) = omega arith in
    let b : buf + (i + 1) ≡ buf + i + 1 = omega arith in rw (copy_line, h, z, run, a) (rw b at next)

-- With a line of characters for the reader on top of the stack, whose buffer ends below 4 GB and has
-- its page tables outside of it, `canonic_wakeup_read` puts as many of them as the reader asks for, or
-- the whole line, into its buffer, takes them out of the pool, with the 0 behind a whole line, gives
-- the request back to the free ones and answers with the number of characters.
pub canonic_wakeup_read_lem :
    (pdir_of : ℕ → ℕ) (table : ℕ → Bool) (d : Driver) (t : ℕ) (cs : List ℕ)
    → d.readers.top ≡ some t
    → d.tty.pool.f ≢ d.tty.pool.r
    → Waiting d.tty.pool.input_pool d.tty.pool.f cs
    → Apart table d.ram
        (pdir_of (d.readers.read_pool t).pid)
        (d.readers.read_pool t).buf
        (d.readers.read_pool t).length
    → (d.readers.read_pool t).buf + (d.readers.read_pool t).length ≤ 2 ^ 32
    → (d' : Driver) × (canonic_wakeup_read pdir_of d
        ≡ some (
          d',
          some ((d.readers.read_pool t).pid, length (take (d.readers.read_pool t).length cs)),
        ))
      × (d'.ram
          ≡ put_bytes
              (v_to_p d.ram (pdir_of (d.readers.read_pool t).pid))
              (d.readers.read_pool t).buf
              (take (d.readers.read_pool t).length cs)
              d.ram)
      × (d'.tty ≡ record (d.tty) {
        pool = record (d.tty.pool) {
          f = after (passed (d.readers.read_pool t).length cs) d.tty.pool.f;
        };
      })
      × (d'.readers.top ≡ (d.readers.read_pool t).next)
      × (d'.readers.free ≡ some t)
      × ((d'.readers.read_pool t).next ≡ d.readers.free)
unfolding canonic_wakeup_read read_stack_pop
canonic_wakeup_read_lem pdir_of table d t cs top more line apart low =
    let q = d.readers.read_pool t in
    let n = length (take q.length cs) in
    let run =
      copy_line_lem table d.ram (pdir_of q.pid) q.buf q.length apart low q.length 0 cs d.tty.pool
        d.ram (omega arith) (λ a marked. refl) line in
    let z : 0 + n ≡ n = omega arith in
    let z' : q.buf + 0 ≡ q.buf = omega arith in
    let run' = rw (z, z') at run in
    let p = Waiting-passed d.tty.pool q.length cs line in
    let fewer : length (take q.length cs) ≤ q.length =
      let e = length-take q.length cs in ground (arith, e) in
    let stored : put_bytes (v_to_p d.ram (pdir_of q.pid)) q.buf (take q.length cs) d.ram
        ≡ put_bytes (translated d.ram (pdir_of q.pid)) q.buf (take q.length cs) d.ram =
      put_bytes-same (translated d.ram (pdir_of q.pid)) (v_to_p d.ram (pdir_of q.pid)) q.buf
        (take q.length cs) d.ram
        (λ k l. v_to_p-translated d.ram (pdir_of q.pid) (q.buf + k) (omega arith)) in
    let back = ==_refl t in
    let busy = ==_ne d.tty.pool.f d.tty.pool.r more in
    (
      record {
        tty = record (d.tty) {
          pool = record (d.tty.pool) { f = after (passed q.length cs) d.tty.pool.f };
        };
        readers = read_stack_pop t d.readers;
        ram = put_bytes (v_to_p d.ram (pdir_of q.pid)) q.buf (take q.length cs) d.ram;
      },
      rw (canonic_wakeup_read, top, busy, run', stored, p),
      refl,
      refl,
      refl,
      refl,
      rw back,
    )

-- ===== src/Terminal/Readers.antt =====
-- The readers and writers of kernel/drivers/tty.c: the stack of read requests, the pool of lines for
-- them, and the loop of the driver.
use yinyang_os.Base.{
  List, Option, [], if◌then◌else◌, leb, length, ltb, none, some, suc, update, zero, ℕ, ◌%◌, ◌+◌,
  ◌-◌, ◌==◌, ◌++◌, ◌∷◌, map, true, add32,
}
use yinyang_os.Kernel.{Message, msg_hard_intr}
use yinyang_os.Paging.{Ram, copy_from_kernel, copy_to_kernel}
use yinyang_os.Terminal.{Output, Pool, Tty, canonic_mode_getch, nr_input_pool, printc}
use yinyang_os.Timer.{nr_process}

-- `struct ReadStack`
pub record ReadStack : Type 0 where
  pub pid : ℕ
  pub buf : ℕ
  pub length : ℕ
  pub next : Option ℕ

-- `read_pool`, `free` and `top`
pub record Readers : Type 0 where
  pub read_pool : ℕ → ReadStack
  pub free : Option ℕ
  pub top : Option ℕ

unfoldable pub init_read_stack : Readers → Readers
init_read_stack r = record {
  read_pool = λ i.
      if ltb i (nr_process - 1)
      then record (r.read_pool i) { next = some (i + 1) }
      else if i == nr_process - 1
      then record (r.read_pool i) { next = none }
      else r.read_pool i;
  free = some 0;
  top = none;
}

-- `read_stack_push`. With no free entry it follows a NULL pointer: `none`.
unfoldable pub read_stack_push : (pid buf length : ℕ) → Readers → Option Readers
read_stack_push pid buf length r = elim r.free [
  | none ↦ none
  | some ptr ↦ some (record {
    read_pool =
        update r.read_pool ptr (record { pid = pid; buf = buf; length = length; next = r.top });
    free = (r.read_pool ptr).next;
    top = some ptr;
  })
]

-- `read_stack_pop`, where `ptr` is `top`.
unfoldable pub read_stack_pop : (ptr : ℕ) → Readers → Readers
read_stack_pop ptr r = record {
  read_pool = update r.read_pool ptr (record (r.read_pool ptr) { next = r.free });
  free = some ptr;
  top = (r.read_pool ptr).next;
}

unfoldable pub skip : Pool → Pool
skip p = record p { f = (p.f + 1) % nr_input_pool }

-- Lines 250 to 255, where `top->buf + i` is a 32-bit address: the number of characters that were copied, up to a length that has `left` to go.
unfoldable pub copy_line : (left i pdir buf : ℕ) → Pool → Ram → Option (ℕ × Pool × Ram)
copy_line zero i pdir buf p m = some (i, p, m)
copy_line (suc n) i pdir buf p m =
    let rest : Option (ℕ × Pool × Ram) =
      elim (copy_from_kernel pdir (add32 buf i) (p.input_pool p.f ∷ []) m) [
        | none ↦ none
        | some m' ↦ copy_line n (i + 1) pdir buf (skip p) m'
      ] in
    if p.input_pool p.f == 0 then some (i, p, m) else rest

-- The driver: the editor, the readers and the memory.
pub record Driver : Type 0 where
  pub tty : Tty
  pub readers : Readers
  pub ram : Ram

-- `canonic_wakeup_read`, where `pdir_of` gives the page directory of a process: the reader that gets
-- an answer, with the number of its characters.
unfoldable pub canonic_wakeup_read : (pdir_of : ℕ → ℕ) → Driver → Option (Driver × Option (ℕ × ℕ))
canonic_wakeup_read pdir_of d = elim d.readers.top [
  | none ↦ some (d, none)
  | some t ↦
      let q = d.readers.read_pool t in
      let served : Option (Driver × Option (ℕ × ℕ)) =
        elim (copy_line q.length 0 (pdir_of q.pid) q.buf d.tty.pool d.ram) [
          | none ↦ none
          | some (nread, p, m) ↦ some (
            record {
              tty = record (d.tty) { pool = if p.input_pool p.f == 0 then skip p else p };
              readers = read_stack_pop t d.readers;
              ram = m;
            },
            some (q.pid, nread),
          )
        ] in
      if d.tty.pool.f == d.tty.pool.r then some (d, none) else served
]

abbrev pub nr_output_buf : ℕ
nr_output_buf = 256

-- Lines 201 to 207, where `left` characters are to go from `buf` on.
unfoldable pub write_loop : (fuel pdir buf left : ℕ) → Ram → Option (List ℕ)
write_loop zero pdir buf left m = none
write_loop (suc f) pdir buf zero m = some []
write_loop (suc f) pdir buf (suc n) m =
    let count = if leb nr_output_buf (suc n) then nr_output_buf else suc n in
    elim (copy_to_kernel pdir buf count m) [
      | none ↦ none
      | some cs ↦ elim (write_loop f pdir (add32 buf count) (suc n - count) m) [
        | none ↦ none
        | some more ↦ some (cs ++ more)
      ]
    ]

-- `canonic_mode_write`: the characters that it prints, and the driver. The answer has the length.
unfoldable pub canonic_mode_write : (pdir buf length : ℕ) → Driver → Option (List ℕ × Driver)
canonic_mode_write pdir buf length d = elim (write_loop (length + 1) pdir buf length d.ram) [
  | none ↦ none
  | some cs ↦ some (
    cs,
    record d {
      tty = if d.tty.line.input_length == 0 then d.tty else record (d.tty) { dirty = true };
    },
  )
]

-- A round of the loop: what goes to the screen, and the answer to a process, its pid and a number.
pub record Round : Type 0 where
  pub shown : List Output
  pub answer : Option (ℕ × ℕ)
  pub driver : Driver

unfoldable pub wake_round : (pdir_of : ℕ → ℕ) → List Output → Driver → Option Round
wake_round pdir_of shown d = elim (canonic_wakeup_read pdir_of d) [
  | none ↦ none
  | some (d', answer) ↦ some (record { shown = shown; answer = answer; driver = d' })
]

-- A key with the code that the keyboard has, in canonic mode.
unfoldable pub key_round : (pdir_of : ℕ → ℕ) → (code : ℕ) → Driver → Option Round
key_round pdir_of code d = elim (canonic_mode_getch code d.tty) [
  | none ↦ none
  | some (shown, t, wakes) ↦
      let d' = record d { tty = t } in
      if wakes
      then wake_round pdir_of shown d'
      else some (record { shown = shown; answer = none; driver = d' })
]

unfoldable pub tty_driver_thread : (pdir_of : ℕ → ℕ) → (code : ℕ) → Message → Driver → Option Round
tty_driver_thread pdir_of code m d =
    let reads : Option Round = elim (read_stack_push m.w0 m.w1 m.w3 d.readers) [
      | none ↦ none
      | some r ↦ wake_round pdir_of [] (record d { readers = r })
    ] in
    let writes : Option Round = elim (canonic_mode_write (pdir_of m.w0) m.w1 m.w3 d) [
      | none ↦ none
      | some (cs, d') ↦
          some (record { shown = map printc cs; answer = some (m.w0, m.w3); driver = d' })
    ] in
    if m.src == msg_hard_intr
    then key_round pdir_of code d
    else if m.kind == 0x30
    then reads
    else if m.kind == 0x31
    then writes
    else some (record { shown = []; answer = none; driver = d })

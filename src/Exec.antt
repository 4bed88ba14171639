-- ===== src/Exec.antt =====
-- The arguments of a program: `execv` of lib/oslib.c packs them into a buffer, and lines 94 to 114
-- of `Exec_uthread` in kernel/pm.c read them from the memory of the process.
pub mod Bytes
pub mod Pack
pub mod Steps
pub mod Reading
pub mod Parse
use yinyang_os.Base.{List, [], if◌then◌else◌, leb, suc, update, zero, ℕ, ◌&&◌, ◌+◌, ◌-◌, ◌==◌, ◌∷◌}

abbrev pub argv_size : ℕ
argv_size = 150

abbrev pub nr_argv : ℕ
nr_argv = 10

-- The inner loop of `execv`, for a string without its final 0: the buffer and `argv_buf_ptr`.
unfoldable pub put_string : List ℕ → (ℕ → ℕ) → ℕ → (ℕ → ℕ) × ℕ
put_string [] buf ptr = (buf, ptr)
put_string (c ∷ cs) buf ptr = put_string cs (update buf ptr c) (ptr + 1)

-- The outer loop.
unfoldable pub put_strings : List (List ℕ) → (ℕ → ℕ) → ℕ → (ℕ → ℕ) × ℕ
put_strings [] buf ptr = (buf, ptr)
put_strings (str ∷ argv) buf ptr =
    let (copied, end) = put_string str buf ptr in put_strings argv (update copied end 0) (end + 1)

-- `argv_buf` when `execv` traps into the kernel
unfoldable pub execv : List (List ℕ) → (ℕ → ℕ) → ℕ → ℕ
execv argv buf = let (filled, end) = put_strings argv buf 0 in update filled end 0

-- The variables of `Exec_uthread`.
pub record Argv : Type 0 where
  pub bytes : ℕ → ℕ
  pub argv_ptr : ℕ → ℕ
  pub left : ℕ
  pub right : ℕ
  pub argc : ℕ

-- `overrun` is a write behind the end of `argv` or of `argv_ptr`.
pub data Parsed : Type 0 where
  parsed : Argv → Parsed
  overrun : Parsed
  out_of_fuel : Parsed

-- `++ right`, and the byte there is copied; `user` is the memory of the process from `argv_addr` on.
unfoldable pub advance : (user : ℕ → ℕ) → Argv → Argv
advance user st = record st {
  right = st.right + 1;
  bytes = update st.bytes (st.right + 1) (user (st.right + 1));
}

-- `argv_ptr[argc ++] = left; left = right + 1`
unfoldable pub push : Argv → Argv
push st = record st {
  argv_ptr = update st.argv_ptr st.argc st.left;
  argc = st.argc + 1;
  left = st.right + 1;
}

-- The `while (1)` of `Exec_uthread`.
unfoldable pub parse_loop : (fuel : ℕ) → (user : ℕ → ℕ) → Argv → Parsed
parse_loop zero user st = out_of_fuel
parse_loop (suc f) user st =
    let st' = advance user st in
    let ends = st'.bytes st'.right == 0 in
    let rest = parse_loop f user (if ends then push st' else st') in
    if leb argv_size st'.right
    then overrun
    else if ends && (st'.bytes (st'.right - 1) == 0)
    then parsed st'
    else if ends && leb nr_argv st'.argc
    then overrun
    else rest

-- Lines 94 to 114. Each round but the last reads one of the 150 bytes.
unfoldable pub parse : (user : ℕ → ℕ) → Argv → Parsed
parse user st =
    parse_loop (argv_size + 1) user
      (record st { left = 0; right = 0; argc = 0; bytes = update st.bytes 0 (user 0) })

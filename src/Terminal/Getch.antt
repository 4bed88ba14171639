-- ===== src/Terminal/Getch.antt =====
-- `canonic_mode_getch` of kernel/drivers/tty.c: a key, on the characters on either side of the cursor.
use yinyang_os.Base.{List, length, ℕ, ◌+◌, ◌<◌, ◌≡◌}
use yinyang_os.Terminal.{Output, Tty, canonic_mode_getch, get_ascii, update_input}
use yinyang_os.Terminal.Edit.{IsLine}
use yinyang_os.Terminal.Key.{Edits, update_input-pool}

module _ (code : ℕ) (t0 : Tty) (ls rs : List ℕ) (h0 : IsLine t0.line ls rs)
    (room : length ls + length rs < 255) where
  abbrev ch : ℕ
  ch = (get_ascii code t0.keys).0

  abbrev t : Tty
  t = (update_input (record t0 { keys = (get_ascii code t0.keys).1 })).1

  abbrev shown : List Output
  shown = (update_input (record t0 { keys = (get_ascii code t0.keys).1 })).0

  pool : t.pool ≡ t0.pool
  pool = update_input-pool (record t0 { keys = (get_ascii code t0.keys).1 })

  abbrev Getch : Type 0
  Getch = Edits ch code ls rs t0.pool (canonic_mode_getch code t0)

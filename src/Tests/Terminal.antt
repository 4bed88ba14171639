-- ===== src/Tests/Terminal.antt =====
-- kernel/drivers/tty.c with "ab" in the line and the cursor between them.
use yinyang_os.Base.{length, ◌≡◌, none, some, [], arith, false, refl, ◌==◌, ◌∷◌, if◌then◌else◌}
use yinyang_os.Terminal.{Tty}
use yinyang_os.Terminal.Readers.{Driver, canonic_wakeup_read}
use yinyang_os.Terminal.Delivery.{canonic_wakeup_read_lem}
use yinyang_os.Terminal.Lines.{after, passed, take}
use yinyang_os.Paging.{v_to_p}
use yinyang_os.Paging.Copy.{put_bytes}
use yinyang_os.Tests.Paging.{small_Apart, small_ram, small_tables}

abbrev two_chars : Tty
two_chars = record {
  keys = record { shift_level = 0; caps_on = false };
  line = record {
    input_buffer = λ i. if i == 0 then 97 else if i == 1 then 98 else 0;
    input_length = 2;
    cursor_pos = 1;
  };
  pool = record { input_pool = λ i. 0; f = 0; r = 0 };
  dirty = false;
}

-- Process 7 asks for two characters at 4095, over the end of a page; the line is "hi" and a line feed.
abbrev reading : Driver
reading = record {
  tty = record two_chars {
    pool = record {
      input_pool = λ i. if i == 0 then 104 else if i == 1 then 105 else if i == 2 then 10 else 0;
      f = 0;
      r = 4;
    };
  };
  readers = record {
    read_pool = λ i. record { pid = 7; buf = 4095; length = 2; next = none };
    free = some 1;
    top = some 0;
  };
  ram = small_ram;
}

canonic_wakeup_read_lem_example :
    (d' : Driver) × (canonic_wakeup_read (λ pid. 4096) reading
      ≡ some (d', some (7, length (take 2 (104 ∷ 105 ∷ 10 ∷ [])))))
    × (d'.ram ≡ put_bytes (v_to_p small_ram 4096) 4095 (take 2 (104 ∷ 105 ∷ 10 ∷ [])) small_ram)
    × (d'.tty ≡ record (reading.tty) {
      pool = record (reading.tty.pool) { f = after (passed 2 (104 ∷ 105 ∷ 10 ∷ [])) 0 };
    })
    × (d'.readers.top ≡ none)
    × (d'.readers.free ≡ some 0)
    × ((d'.readers.read_pool 0).next ≡ some 1)
canonic_wakeup_read_lem_example =
    canonic_wakeup_read_lem (λ pid. 4096) small_tables reading 0 (104 ∷ 105 ∷ 10 ∷ []) refl
      (λ e. absurd (omega (arith, e)))
      (
        refl,
        (λ e. absurd (omega (arith, e))),
        (refl, (λ e. absurd (omega (arith, e))), (refl, (λ e. absurd (omega (arith, e))), refl)),
      )
      small_Apart (omega arith)

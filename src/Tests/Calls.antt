-- ===== src/Tests/Calls.antt =====
-- System calls: a process that waits for another one, an unknown call, and a line of text.
use yinyang_os.Base.{
  arith, List, [], none, some, ℕ, ◌<◌, ◌∷◌, ◌≡◌, ◌⊎◌, ◌↔◌, get_elem?, length, true,
}
use yinyang_os.Kernel.{Message}
use yinyang_os.Calls.{Servers, int_handle}
use yinyang_os.Calls.Reach.{int_handle-panics_now_iff, panics_now}
use yinyang_os.Calls.Library.{Buffer, printf}
use yinyang_os.Calls.Library.Whole.{printf_lem}
use yinyang_os.Calls.Serving.{Manager}
use yinyang_os.Calls.Waits.{Waited, waitpid-exit}
use yinyang_os.Tests.Waiters.{three_waiters}
use yinyang_os.Print.{vfprintf, word}

abbrev three_servers : Servers
three_servers = record { tty = 3; timer = 4; pm = 5 }

abbrev blank : Message
blank = record { src = 0; dest = 0; kind = 0; w0 = 0; w1 = 0; w2 = 0; w3 = 0 }

int_handle-panics_now_iff_example :
    (panics_now (int_handle three_servers 7 blank (record { eax = 9; ebx = 0; ecx = 0 })) ≡ true)
    ↔ (8 < 9)
int_handle-panics_now_iff_example =
    int_handle-panics_now_iff three_servers 7 blank (record { eax = 9; ebx = 0; ecx = 0 })

-- "a%d", with 12
printf_lem_example :
    ((vfprintf (97 ∷ 37 ∷ 100 ∷ []) (word 12 ∷ []) ≡ none)
      × (printf (97 ∷ 37 ∷ 100 ∷ []) (word 12 ∷ []) (λ i. 0) ≡ none))
    ⊎ ((out : List ℕ) × (vfprintf (97 ∷ 37 ∷ 100 ∷ []) (word 12 ∷ []) ≡ some out)
        × (((200 < length out) × (printf (97 ∷ 37 ∷ 100 ∷ []) (word 12 ∷ []) (λ i. 0) ≡ none))
            ⊎ ((b : Buffer) × (printf (97 ∷ 37 ∷ 100 ∷ []) (word 12 ∷ []) (λ i. 0) ≡ some b)
                × (b.buf_ptr ≡ length out)
                × ((i : ℕ) → i < length out → get_elem? out i ≡ some (b.chars i)))))
printf_lem_example = printf_lem (97 ∷ 37 ∷ 100 ∷ []) (word 12 ∷ []) (λ i. 0)

abbrev managed : Manager
managed = record { waiters = three_waiters; wake_message = blank; exit_message = blank }

-- Process 7 waits for process 4, which exits with 42.
waitpid-exit_example :
    Waited three_servers 6 7 4 42 blank blank
      (record { eax = 0; ebx = 0; ecx = 0 })
      (record { eax = 0; ebx = 0; ecx = 0 })
      managed
waitpid-exit_example =
    waitpid-exit three_servers 6 7 4 42 blank blank (record { eax = 0; ebx = 0; ecx = 0 })
      (record { eax = 0; ebx = 0; ecx = 0 }) managed (omega arith)

-- ===== src/Kernel/Lock.antt =====
-- kernel/lock.c: nested critical sections that keep interrupts off.
use yinyang_os.Base.{
  ℕ, suc, ◌<◌, ◌≡◌, true, false, not, ◌&&◌, ◌||◌, arith, ◌==◌, if◌then◌else◌, u32_mod, add32, sub32,
}
use yinyang_os.Kernel.{Cpu, System}

unfoldable pub lock_cpu : Cpu → Cpu
lock_cpu c = record c {
  interrupts = if c.lock_counter == 0 then false else c.interrupts;
  lock_counter = add32 c.lock_counter 1;
}

unfoldable pub unlock_cpu : Cpu → Cpu
unlock_cpu c =
    let counter = sub32 c.lock_counter 1 in
    record c {
      lock_counter = counter;
      interrupts = if (counter == 0) && (c.enter_interrupt == 0) then true else c.interrupts;
    }

abbrev pub lock : System → System
lock s = record s { cpu = lock_cpu s.cpu }

abbrev pub unlock : System → System
unlock s = record s { cpu = unlock_cpu s.cpu }

-- A piece of kernel code as the calls that it makes, with the number of critical sections that it
-- stands in at the end. No code nests 2 ^ 32 of them or leaves one that it has not entered.
pub data Calls : ℕ → Type 0 where
  start : Calls 0
  enter : {d : ℕ} → suc d < u32_mod → Calls d → Calls (suc d)
  leave : {d : ℕ} → Calls (suc d) → Calls d

unfoldable pub run : {d : ℕ} → Calls d → Cpu → Cpu
run start c = c
run (enter h cs) c = lock_cpu (run cs c)
run (leave cs) c = unlock_cpu (run cs c)

-- `lock` undone by `unlock` leaves the counter as it was.
pub unlock-lock_counter :
    (c : Cpu) → c.lock_counter < u32_mod → (unlock_cpu (lock_cpu c)).lock_counter ≡ c.lock_counter
unfolding lock_cpu unlock_cpu
unlock-lock_counter c h = omega arith

-- Between the calls the counter is the depth, and interrupts are off inside a section.
record Nested (d : ℕ) (before after : Cpu) : Type 0 where
  counter : after.lock_counter ≡ d
  small : d < u32_mod
  held : (d == 0) || not after.interrupts ≡ true
  irq : after.enter_interrupt ≡ before.enter_interrupt

run-Nested : {d : ℕ} (cs : Calls d) (c : Cpu) → c.lock_counter ≡ 0 → Nested d c (run cs c)
unfolding run lock_cpu unlock_cpu
run-Nested start c h = ground arith
run-Nested (enter {d} less cs) c h = let n = run-Nested cs c h in ground arith
run-Nested (leave {d} cs) c h = let n = run-Nested cs c h in ground arith

-- Code entered with the counter at 0 counts the sections that it stands in, and inside at least
-- one of them interrupts are disabled.
pub run_inside :
    {d : ℕ} (cs : Calls (suc d)) (c : Cpu)
    → c.lock_counter ≡ 0
    → ((run cs c).lock_counter ≡ suc d) × ((run cs c).interrupts ≡ false)
run_inside cs c h = let n = run-Nested cs c h in ground arith

-- Code entered with the counter at 0 and outside of an interrupt, when it has left its last
-- section, has the counter at 0 again and interrupts enabled.
pub run_left :
    (cs : Calls 1) (c : Cpu)
    → c.lock_counter ≡ 0
    → c.enter_interrupt ≡ 0
    → ((run (leave cs) c).lock_counter ≡ 0) × ((run (leave cs) c).interrupts ≡ true)
unfolding run unlock_cpu
run_left cs c h e = let n = run-Nested cs c h in ground arith

-- ===== src/Terminal/Writes.antt =====
-- What a writer to the terminal prints, in kernel/drivers/tty.c.
use yinyang_os.Base.{
  add32, ◌^◌, ap, arith, if◌then◌else◌, leb, refl, some, suc, zero, ℕ, ◌%◌, ◌+◌, ◌-◌, ◌<◌, ◌≤◌,
  ◌++◌, ◌≡◌, ◌∙◌,
}
use yinyang_os.Paging.{Ram, translated}
use yinyang_os.Paging.Back.{copy_to_kernel_lem, get_bytes, get_bytes-add}
use yinyang_os.Terminal.Readers.{write_loop}

-- The next chunk begins below 4 GB, or there is none.
write_rest :
    (f pdir va n : ℕ) (m : Ram)
    → n < f
    → va + n ≤ 2 ^ 32
    → write_loop f pdir va n m ≡ some (get_bytes (translated m pdir) va n m)
    → write_loop f pdir (va % 2 ^ 32) n m ≡ some (get_bytes (translated m pdir) va n m)
unfolding write_loop get_bytes
write_rest zero pdir va n m enough fits e = absurd (omega arith)
write_rest (suc f) pdir va zero m enough fits e = refl
write_rest (suc f) pdir va (suc n) m enough fits e =
    let u : va % 2 ^ 32 ≡ va = omega arith in rw u e

-- The chunks of a write are the bytes of the writer's buffer, where that ends below 4 GB.
pub write_loop_lem :
    (f pdir buf n : ℕ) (m : Ram)
    → n < f
    → buf + n ≤ 2 ^ 32
    → write_loop f pdir buf n m ≡ some (get_bytes (translated m pdir) buf n m)
unfolding write_loop get_bytes
write_loop_lem zero pdir buf n m enough fits = absurd (omega arith)
write_loop_lem (suc f) pdir buf zero m enough fits = refl
write_loop_lem (suc f) pdir buf (suc n) m enough fits =
    let count = if leb 256 (suc n) then 256 else suc n in
    let some_go : (0 < count) × (count ≤ suc n) = ground arith in
    let t = translated m pdir in
    let split : suc n ≡ count + (suc n - count) = let (a, b) = some_go in omega arith in
    let next : write_loop f pdir (add32 buf count) (suc n - count) m
        ≡ some (get_bytes t (buf + count) (suc n - count) m) =
      write_rest f pdir (buf + count) (suc n - count) m (let (a, b) = some_go in omega arith)
        (let (a, b) = some_go in omega arith)
        (write_loop_lem f pdir (buf + count) (suc n - count) m (let (a, b) = some_go in omega arith)
          (let (a, b) = some_go in omega arith)) in
    let whole : get_bytes t buf (suc n) m
        ≡ get_bytes t buf count m ++ get_bytes t (buf + count) (suc n - count) m =
      ap (λ k. get_bytes t buf k m) split ∙ get_bytes-add t buf count (suc n - count) m in
    rw (write_loop, copy_to_kernel_lem m pdir buf count, next, whole)

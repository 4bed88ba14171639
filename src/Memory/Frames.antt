-- ===== src/Memory/Frames.antt =====
-- What a step of the memory manager keeps: the pages that are taken, and their bytes.
use yinyang_os.Base.{
  arith, inl, inr, refl, update, ℕ, ◌*◌, ◌+◌, ◌<◌, ◌≤◌, ◌^◌, ◌≡◌, ◌≢◌, ◌⊎◌, ◌∙◌, ap,
}
use yinyang_os.Paging.{read32}
use yinyang_os.Memory.{Store, write32}
use yinyang_os.Memory.Words.{write32-other, read32-same}
use yinyang_os.Memory.Allocate.{Takes}

abbrev pub page_of : ℕ → ℕ
page_of id = 2 ^ 24 + id * 4096

-- A byte of the kernel's memory, or of a page that is taken.
abbrev pub Used : Store → ℕ → Type 0
Used s a =
    (a < 2 ^ 24)
    ⊎ ((id : ℕ) × (id < 28672) × (s.flags id ≢ 0) × (page_of id ≤ a) × (a < page_of id + 4096))

-- Only empty pages, and the bytes from `x` up to `y`, have changed.
pub record Frame (x y : ℕ) (s s' : Store) : Type 0 where
  pub taken : (id : ℕ) → id < 28672 → s.flags id ≢ 0 → s'.flags id ≢ 0
  pub kept : (a : ℕ) → Used s a → (a < x) ⊎ (y ≤ a) → s'.ram a ≡ s.ram a

pub Used-mono : (x y : ℕ) (s s' : Store) → Frame x y s s' → (a : ℕ) → Used s a → Used s' a
Used-mono x y s s' f a (inl l) = inl l
Used-mono x y s s' f a (inr (id, b, t, l, h)) = inr (id, b, f.taken id b t, l, h)

pub Frame-refl : (x y : ℕ) (s : Store) → Frame x y s s
Frame-refl x y s = record { taken = λ id b t. t; kept = λ a u o. refl }

pub Frame-trans : (x y : ℕ) (s s' s'' : Store) → Frame x y s s' → Frame x y s' s'' → Frame x y s s''
Frame-trans x y s s' s'' f g = record {
  taken = λ id b t. g.taken id b (f.taken id b t);
  kept = λ a u o. g.kept a (Used-mono x y s s' f a u) o ∙ f.kept a u o;
}

pub Frame-widen :
    (x y x' y' : ℕ) (s s' : Store) → x' ≤ x → y ≤ y' → Frame x y s s' → Frame x' y' s s'
Frame-widen x y x' y' s s' l h f = record {
  taken = f.taken;
  kept = λ a u o. f.kept a u (elim o [ inl q ↦ inl (omega arith) | inr q ↦ inr (omega arith) ]);
}

-- What fills a page that was empty leaves the rest alone.
pub Frame-fresh :
    (x y : ℕ) (s s1 s' : Store) (id : ℕ)
    → s.flags id ≡ 0
    → Frame x y s s1
    → Frame (page_of id) (page_of id + 4096) s1 s'
    → Frame x y s s'
Frame-fresh x y s s1 s' id empty f g = record {
  taken = λ i b t. g.taken i b (f.taken i b t);
  kept = λ a u o.
      let out : (a < page_of id) ⊎ (page_of id + 4096 ≤ a) = elim u [
        | inl l ↦ inl (omega arith)
        | inr (i, b, t, l, h) ↦ let d : i ≢ id = λ e. t (ap s.flags e ∙ empty) in ground arith
      ] in
      g.kept a (Used-mono x y s s1 f a u) out ∙ f.kept a u o;
}

pub Takes-Frame : (x y : ℕ) (s : Store) (addr : ℕ) (s' : Store) → Takes s addr s' → Frame x y s s'
Takes-Frame x y s addr s' t = record {
  taken = λ id b n.
      let d : s'.flags id ≡ update s.flags t.id 1 id = ap (λ o. o.flags id) t.marks in ground arith;
  kept = λ a u o. ap (λ o. o.ram a) t.marks;
}

-- A write of an entry.
pub write32-Frame : (p w : ℕ) (s : Store) → Frame p (p + 4) s (record s { ram = write32 s.ram p w })
write32-Frame p w s = record { taken = λ id b n. n; kept = λ a u o. write32-other s.ram p w a o }

-- A word that lies in the memory that is kept.
pub read32-kept :
    (x y : ℕ) (s s' : Store)
    → Frame x y s s'
    → (p : ℕ) → ((j : ℕ) → j < 4 → Used s (p + j))
    → (p + 4 ≤ x) ⊎ (y ≤ p)
    → read32 s'.ram p ≡ read32 s.ram p
read32-kept x y s s' f p used out = read32-same s.ram s'.ram p (λ j l.
    f.kept (p + j) (used j l) (elim out [ inl q ↦ inl (omega arith) | inr q ↦ inr (omega arith) ]))

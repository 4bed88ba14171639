-- ===== src/Calls/Library/Whole.antt =====
-- `printf` of lib/oslib.c puts into its buffer what `vfprintf` of kernel/vfprintf.c prints.
use yinyang_os.Base.{
  ◌⊎◌, below_cases, Bool-cases, Option, Option-cases, ltb, none, some, ℕ, ◌==◌, ◌+◌, List, [], ◌∷◌,
  ◌++◌, ◌≡◌, ◌<◌, ◌≤◌, ◌∙◌, arith, inl, inr, refl, sym, length, update, get_elem?, suc, ==_ne,
  ==_refl, lt→ltb,
}
use yinyang_os.Print.{Arg, directive, map_some, vfprintf}
use yinyang_os.Calls.Library.{Buffer, then_some, put, put_text, format, printf}
use yinyang_os.Calls.Library.Printf.{put_directive_lem, put_text-append, put_text-one}

format-plain :
    (c : ℕ) (b : Buffer) (o : Option (List ℕ))
    → then_some (put c b) (λ b'. then_some o (λ cs. put_text cs b'))
      ≡ then_some (map_some (λ cs. c ∷ cs) o) (λ cs. put_text cs b)
unfolding put_text
format-plain c b none = elim (Option-cases (put c b)) [ inl e ↦ rw e | inr (b', e) ↦ rw e ]
format-plain c b (some cs) = refl

format-special :
    (b : Buffer) (out : List ℕ) (o : Option (List ℕ))
    → then_some (put_text out b) (λ b'. then_some o (λ cs. put_text cs b'))
      ≡ then_some (map_some (λ cs. out ++ cs) o) (λ cs. put_text cs b)
format-special b out none = elim (Option-cases (put_text out b)) [
  | inl e ↦ rw e
  | inr (b', e) ↦ rw e
]
format-special b out (some cs) = sym (put_text-append out cs b)

then_some-same :
    {A B : Type 0} (o : Option A) (f g : A → Option B)
    → ((a : A) → f a ≡ g a)
    → then_some o f ≡ then_some o g
then_some-same none f g same = refl
then_some-same (some a) f g same = same a

format_lem :
    (ctl : List ℕ) (args : List Arg) (b : Buffer)
    → format ctl args b ≡ then_some (vfprintf ctl args) (λ cs. put_text cs b)
unfolding format vfprintf put_text
format_lem [] args b = refl
format_lem (c ∷ []) args b = elim (Bool-cases (c == 37)) [
  | inl h ↦ rw h
  | inr h ↦ rw h (sym (put_text-one c b))
]
format_lem (c ∷ d ∷ ctl) args b = elim (Bool-cases (c == 37)) [
  | inl h ↦ elim (Option-cases (directive d args)) [
    | inl e ↦ rw (h, put_directive_lem d args b, e)
    | inr ((out, args'), e) ↦
        let p = format-special b out (vfprintf ctl args') in
        elim (Option-cases (put_text out b)) [
          | inl e2 ↦ rw (h, put_directive_lem d args b, e, e2) (rw e2 at p)
          | inr (b', e2) ↦
              rw (h, put_directive_lem d args b, e, e2) (format_lem ctl args' b' ∙ (rw e2 at p))
        ]
  ]
  | inr h ↦
      let o = vfprintf (d ∷ ctl) args in
      rw h (
        then_some-same (put c b) (λ b'. format (d ∷ ctl) args b')
          (λ b'. then_some o (λ cs. put_text cs b')) (format_lem (d ∷ ctl) args)
        ∙ format-plain c b o)
]

-- A string that fits is stored from `buf_ptr` on.
record Stored (cs : List ℕ) (b b' : Buffer) : Type 0 where
  ptr : b'.buf_ptr ≡ b.buf_ptr + length cs
  before : (i : ℕ) → i < b.buf_ptr → b'.chars i ≡ b.chars i
  chars : (i : ℕ) → i < length cs → get_elem? cs i ≡ some (b'.chars (b.buf_ptr + i))

put_text-Stored :
    (cs : List ℕ) (b : Buffer)
    → b.buf_ptr + length cs ≤ 200
    → (b' : Buffer) × (put_text cs b ≡ some b') × Stored cs b b'
unfolding put_text put
put_text-Stored [] b fits = (
  b,
  refl,
  record { ptr = omega arith; before = λ i l. refl; chars = λ i l. absurd (omega arith) },
)
put_text-Stored (c ∷ cs) b fits =
    let b1 : Buffer = record { chars = update b.chars b.buf_ptr c; buf_ptr = b.buf_ptr + 1 } in
    let room = lt→ltb b.buf_ptr 200 (omega arith) in
    let (b', run, st) = put_text-Stored cs b1 (omega arith) in
    let r = ==_refl b.buf_ptr in
    (
      b',
      rw room run,
      record {
        ptr = let q = st.ptr in omega arith;
        before =
            λ i l. let n = ==_ne i b.buf_ptr (omega arith) in st.before i (omega arith) ∙ (rw n);
        chars =
            below_cases (λ i. get_elem? (c ∷ cs) i ≡ some (b'.chars (b.buf_ptr + i))) (length cs)
              (let z : b.buf_ptr + 0 ≡ b.buf_ptr = omega arith in
                let e : b1.chars b.buf_ptr ≡ c = rw r in
                rw (z, st.before b.buf_ptr (omega arith), e))
              (λ i l.
                let e : b.buf_ptr + suc i ≡ b.buf_ptr + 1 + i = omega arith in rw e (st.chars i l));
      },
    )

put_text-overflow :
    (cs : List ℕ) (b : Buffer)
    → b.buf_ptr ≤ 200
    → 200 < b.buf_ptr + length cs
    → put_text cs b ≡ none
unfolding put_text put
put_text-overflow [] b low over = absurd (omega arith)
put_text-overflow (c ∷ cs) b low over = elim (Bool-cases (ltb b.buf_ptr 200)) [
  | inl h ↦ rw h (
      put_text-overflow cs (record { chars = update b.chars b.buf_ptr c; buf_ptr = b.buf_ptr + 1 })
        (ground arith) (omega arith))
  | inr h ↦ rw h
]

-- `printf` agrees with `vfprintf`: it fails where that does, and where the text is longer than 200
-- characters; otherwise the characters of its buffer, up to `buf_ptr`, are those that `vfprintf`
-- prints.
pub printf_lem :
    (ctl : List ℕ) (args : List Arg) (old : ℕ → ℕ)
    → ((vfprintf ctl args ≡ none) × (printf ctl args old ≡ none))
      ⊎ ((out : List ℕ) × (vfprintf ctl args ≡ some out)
          × (((200 < length out) × (printf ctl args old ≡ none))
              ⊎ ((b : Buffer) × (printf ctl args old ≡ some b)
                  × (b.buf_ptr ≡ length out)
                  × ((i : ℕ) → i < length out → get_elem? out i ≡ some (b.chars i)))))
unfolding printf
printf_lem ctl args old =
    let b0 : Buffer = record { chars = old; buf_ptr = 0 } in
    let f = format_lem ctl args b0 in
    elim (Option-cases (vfprintf ctl args)) [
      | inl e ↦ inl (e, f ∙ (rw e))
      | inr (out, e) ↦ inr (
        out,
        e,
        elim (Bool-cases (ltb 200 (length out))) [
          | inl h ↦
              inl (ground arith, f ∙ (rw e (put_text-overflow out b0 (omega arith) (ground arith))))
          | inr h ↦
              let (b, run, st) = put_text-Stored out b0 (ground arith) in
              inr (
                b,
                f ∙ (rw e run),
                let p = st.ptr in omega arith,
                λ i l. let z : 0 + i ≡ i = omega arith in rw z at (st.chars i l),
              )
        ],
      )
    ]

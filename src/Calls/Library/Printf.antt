-- ===== src/Calls/Library/Printf.antt =====
-- The parts of `printf`, against those of `vfprintf`.
use yinyang_os.Base.{
  Bool-cases, Option, Option-cases, ltb, none, some, ℕ, ◌==◌, ◌^◌, ◌-◌, ◌%◌, ◌||◌, List, [], ◌∷◌,
  ◌++◌, ◌≡◌, arith, inl, inr, refl, sym,
}
use yinyang_os.Print.{
  Arg, dec_char, dec_digits, directive, hex_char, hex_digits, map_some, max_len, print_back,
  print_dec, print_hex, text, word,
}
use yinyang_os.Calls.Library.{
  Buffer, then_some, put, put_text, put_back, put_char_of, put_dec, put_hex, put_directive,
}

pub put_text-append :
    (xs ys : List ℕ) (b : Buffer) → put_text (xs ++ ys) b ≡ then_some (put_text xs b) (put_text ys)
unfolding put_text
put_text-append [] ys b = refl
put_text-append (x ∷ xs) ys b = elim (Option-cases (put x b)) [
  | inl e ↦ rw e
  | inr (b', e) ↦ rw e (put_text-append xs ys b')
]

pub put_text-one : (c : ℕ) (b : Buffer) → put_text (c ∷ []) b ≡ put c b
unfolding put_text
put_text-one c b = elim (Option-cases (put c b)) [ inl e ↦ rw e | inr (b', e) ↦ rw e ]

put_back-print_back :
    (f g : ℕ → ℕ) (ds : List ℕ) (b : Buffer)
    → ((d : ℕ) → f d ≡ g d)
    → put_back f ds b ≡ put_text (print_back g ds) b
unfolding put_back print_back put_text
put_back-print_back f g [] b same = refl
put_back-print_back f g (d ∷ ds) b same =
    let next = put_back-print_back f g ds b same in
    elim (Option-cases (put_text (print_back g ds) b)) [
      | inl e ↦ rw (next, put_text-append (print_back g ds) (g d ∷ []) b, e)
      | inr (b', e) ↦
          rw (next, put_text-append (print_back g ds) (g d ∷ []) b, e, same d)
            (sym (put_text-one (g d) b'))
    ]

put_char_of_lem : (d : ℕ) → put_char_of d ≡ hex_char d
unfolding put_char_of hex_char
put_char_of_lem d = ground arith

put_digits :
    (f g : ℕ → ℕ) (o : Option (List ℕ)) (b : Buffer)
    → ((d : ℕ) → f d ≡ g d)
    → then_some o (λ ds. put_back f ds b)
      ≡ then_some (map_some (print_back g) o) (λ cs. put_text cs b)
put_digits f g none b same = refl
put_digits f g (some ds) b same = put_back-print_back f g ds b same

put_minus :
    (b : Buffer) (o : Option (List ℕ))
    → then_some (put 45 b) (λ b'. then_some o (λ ds. put_back dec_char ds b'))
      ≡ then_some
          (map_some (λ cs. 45 ∷ cs) (map_some (print_back dec_char) o))
          (λ cs. put_text cs b)
unfolding put_text
put_minus b none = elim (Option-cases (put 45 b)) [ inl e ↦ rw e | inr (b', e) ↦ rw e ]
put_minus b (some ds) = elim (Option-cases (put 45 b)) [
  | inl e ↦ rw e
  | inr (b', e) ↦ rw e (put_back-print_back dec_char dec_char ds b' (λ d. refl))
]

put_dec_lem :
    (dec : ℕ) (b : Buffer) → put_dec dec b ≡ then_some (print_dec dec) (λ cs. put_text cs b)
unfolding put_dec print_dec
put_dec_lem dec b =
    let z = put_text-one 48 b in
    let plus = put_digits dec_char dec_char (dec_digits max_len dec) b (λ d. refl) in
    let minus = put_minus b (dec_digits max_len (2 ^ 32 - dec)) in
    elim (Bool-cases (dec == 0)) [
      | inl h ↦ rw h (sym z)
      | inr h ↦ elim (Bool-cases (ltb dec (2 ^ 31))) [
        | inl h' ↦ rw (h, h') plus
        | inr h' ↦ elim (Bool-cases (dec == 2 ^ 31)) [
          | inl h'' ↦ rw (h, h', h'')
          | inr h'' ↦ rw (h, h', h'') minus
        ]
      ]
    ]

put_hex_lem :
    (hex : ℕ) (b : Buffer) → put_hex hex b ≡ then_some (print_hex hex) (λ cs. put_text cs b)
unfolding put_hex print_hex
put_hex_lem hex b =
    let z = put_text-one 48 b in
    let digits = put_digits put_char_of hex_char (hex_digits max_len hex) b put_char_of_lem in
    elim (Bool-cases (hex == 0)) [ inl h ↦ rw h (sym z) | inr h ↦ rw h digits ]

-- What a directive leads to in the buffer.
abbrev pub filled : Buffer → Option (List ℕ × List Arg) → Option (Buffer × List Arg)
filled b o = then_some o (λ p. map_some (λ b'. (b', p.1)) (put_text p.0 b))

filled-map_some :
    (b : Buffer) (args : List Arg) (o : Option (List ℕ))
    → map_some (λ b'. (b', args)) (then_some o (λ cs. put_text cs b))
      ≡ filled b (map_some (λ cs. (cs, args)) o)
filled-map_some b args none = refl
filled-map_some b args (some cs) = refl

pub put_directive_lem :
    (c : ℕ) (args : List Arg) (b : Buffer) → put_directive c args b ≡ filled b (directive c args)
unfolding put_directive directive put_text
put_directive_lem c [] b = elim (Bool-cases (c == 37)) [
  | inl h ↦ rw (h, put_text-one 37 b)
  | inr h ↦ elim (Bool-cases ((c == 100) || (c == 120) || (c == 99) || (c == 115))) [
    | inl h' ↦ rw (h, h')
    | inr h' ↦ rw (h, h')
  ]
]
put_directive_lem c (text cs ∷ args) b = elim (Bool-cases (c == 37)) [
  | inl h ↦ rw (h, put_text-one 37 b)
  | inr h ↦ elim (Bool-cases (c == 115)) [
    | inl h' ↦ rw (h, h')
    | inr h' ↦ elim (Bool-cases ((c == 100) || (c == 120) || (c == 99))) [
      | inl h'' ↦ rw (h, h', h'')
      | inr h'' ↦ rw (h, h', h'')
    ]
  ]
]
put_directive_lem c (word n ∷ args) b = elim (Bool-cases (c == 37)) [
  | inl h ↦ rw (h, put_text-one 37 b)
  | inr h ↦ elim (Bool-cases (c == 100)) [
    | inl h1 ↦ rw (h, h1, put_dec_lem n b) (filled-map_some b args (print_dec n))
    | inr h1 ↦ elim (Bool-cases (c == 120)) [
      | inl h2 ↦ rw (h, h1, h2, put_hex_lem n b) (filled-map_some b args (print_hex n))
      | inr h2 ↦ elim (Bool-cases (c == 99)) [
        | inl h3 ↦ rw (h, h1, h2, h3, put_text-one (n % 256) b)
        | inr h3 ↦ elim (Bool-cases (c == 115)) [
          | inl h4 ↦ rw (h, h1, h2, h3, h4)
          | inr h4 ↦ rw (h, h1, h2, h3, h4)
        ]
      ]
    ]
  ]
]

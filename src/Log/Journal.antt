-- ===== src/Log/Journal.antt =====
-- The lines of a record for the journal.
use service_lua.Base.{
  ℕ, zero, suc, ◌+◌, ◌-◌, ◌≤◌, ◌<◌, ◌≡◌, refl, ap, ap₂, sym, subst, ◌∙◌, Bool, true, false, ◌&&◌,
  not, List, [], ◌∷◌, ◌++◌, if◌then◌else◌, ◌==◌, ltb, length, arith, append_assoc, append-nil,
  length-append, Bool-cases, inl, inr, Option, none, some, take, leb,
}
use service_lua.Log.{
  log_line_max, append, split_line, is_empty, emit_lines, emit, mark_truncated, add_location,
}

-- The text, with the prefix behind each newline that more text follows
unfoldable pub continued : List ℕ → List ℕ → List ℕ
continued prefix [] = []
continued prefix (c ∷ cs) =
    let rest = continued prefix cs in
    c ∷ (if c == 10 && not (is_empty cs) then prefix ++ rest else rest)

-- What follows the first line
abbrev behind : List ℕ → List ℕ → Bool → List ℕ
behind prefix rest nl =
    if nl && not (is_empty rest) then prefix ++ continued prefix rest else continued prefix rest

split_line-continued :
    (prefix p : List ℕ)
    → continued prefix p ≡ (split_line p).0 ++ behind prefix (split_line p).1 (split_line p).2
unfolding split_line continued
split_line-continued prefix [] = refl
split_line-continued prefix (c ∷ cs) = elim (Bool-cases (c == 10)) [
  | inl newline ↦ rw newline refl
  | inr plain ↦ rw plain (ap (λ xs. c ∷ xs) (split_line-continued prefix cs))
]

append-fits : (buf s : List ℕ) → length (buf ++ s) ≤ 4095 → append buf s ≡ buf ++ s
unfolding append
append-fits buf s fits = ground (arith, length-append buf s, fits)

not_cut : (buf s : List ℕ) → ltb (length (buf ++ s) - length buf) (length s) ≡ false
not_cut buf s = ground (arith, length-append buf s)

and_true : (b : Bool) → (b && true) ≡ b
and_true true = refl
and_true false = refl

-- What follows a line is shorter than the text.
split_line-shorter : (c : ℕ) (cs : List ℕ) → length (split_line (c ∷ cs)).1 < length (c ∷ cs)
unfolding split_line
split_line-shorter c [] = ground arith
split_line-shorter c (d ∷ ds) = ground (arith, split_line-shorter d ds)

module _ (f : ℕ) (prefix : List ℕ) (c : ℕ) (cs buf : List ℕ) where
  abbrev chunk : List ℕ
  chunk = (split_line (c ∷ cs)).0

  abbrev rest : List ℕ
  rest = (split_line (c ∷ cs)).1

  abbrev more : Bool
  more = (split_line (c ∷ cs)).2 && not (is_empty rest)

  -- A round of the loop behind the copy of a line, and behind that of the prefix
  abbrev prefixed : List ℕ → Bool → List ℕ × Bool
  prefixed buf₂ cut = elim cut [ true ↦ (buf₂, true) | false ↦ emit_lines f true prefix rest buf₂ ]

  abbrev copied : List ℕ → Bool → Bool → List ℕ × Bool
  copied buf₁ cut again = elim cut [
    | true ↦ (buf₁, true)
    | false ↦ elim again [
      | false ↦ emit_lines f true prefix rest buf₁
      | true ↦
          let buf₂ = append buf₁ prefix in
          prefixed buf₂ (ltb (length buf₂ - length buf₁) (length prefix))
    ]
  ]

  emit_lines-copied :
      append buf chunk ≡ buf ++ chunk
      → emit_lines (suc f) true prefix (c ∷ cs) buf ≡ copied (buf ++ chunk) false more
  unfolding emit_lines
  emit_lines-copied fits =
      ap (λ b. copied b (ltb (length b - length buf) (length chunk)) (more && true)) fits
      ∙ ap₂ (λ cut again. copied (buf ++ chunk) cut again) (not_cut buf chunk) (and_true more)

  emit_lines-last :
      append buf chunk ≡ buf ++ chunk
      → more ≡ false
      → emit_lines (suc f) true prefix (c ∷ cs) buf ≡ emit_lines f true prefix rest (buf ++ chunk)
  emit_lines-last fits last = emit_lines-copied fits ∙ ap (copied (buf ++ chunk) false) last

  emit_lines-more :
      append buf chunk ≡ buf ++ chunk
      → append (buf ++ chunk) prefix ≡ (buf ++ chunk) ++ prefix
      → more ≡ true
      → emit_lines (suc f) true prefix (c ∷ cs) buf
        ≡ emit_lines f true prefix rest ((buf ++ chunk) ++ prefix)
  emit_lines-more fits fits' again =
      emit_lines-copied fits
      ∙ ap (copied (buf ++ chunk) false) again
      ∙ ap (λ b. prefixed b (ltb (length b - length (buf ++ chunk)) (length prefix))) fits'
      ∙ ap (prefixed ((buf ++ chunk) ++ prefix)) (not_cut (buf ++ chunk) prefix)

emit_lines-continued :
    (f : ℕ) (prefix p buf : List ℕ)
    → length p < f
    → length (buf ++ continued prefix p) ≤ 4095
    → emit_lines f true prefix p buf ≡ (buf ++ continued prefix p, false)
unfolding emit_lines
emit_lines-continued zero prefix p buf enough fits = absurd (omega arith)
emit_lines-continued (suc f) prefix [] buf enough fits =
    unfold continued in ap (λ b. (b, false)) (sym (append-nil buf))
emit_lines-continued (suc f) prefix (c ∷ cs) buf enough fits =
    let line = (split_line (c ∷ cs)).0 in
    let rest = (split_line (c ∷ cs)).1 in
    let tail = behind prefix rest (split_line (c ∷ cs)).2 in
    let split = split_line-continued prefix (c ∷ cs) in
    let whole : buf ++ continued prefix (c ∷ cs) ≡ (buf ++ line) ++ tail =
      ap (λ xs. buf ++ xs) split ∙ sym (append_assoc buf line tail) in
    let long : length ((buf ++ line) ++ tail) ≤ 4095 = subst (λ xs. length xs ≤ 4095) whole fits in
    let line_fits : append buf line ≡ buf ++ line =
      append-fits buf line (omega (arith, length-append (buf ++ line) tail, long)) in
    let less = split_line-shorter c cs in
    elim (Bool-cases ((split_line (c ∷ cs)).2 && not (is_empty rest))) [
      | inl again ↦
          let tail_is : tail ≡ prefix ++ continued prefix rest =
            ap (λ (b : Bool). if b then prefix ++ continued prefix rest else continued prefix rest)
              again in
          let whole' : (buf ++ line) ++ tail ≡ ((buf ++ line) ++ prefix) ++ continued prefix rest =
            ap (λ xs. (buf ++ line) ++ xs) tail_is
            ∙ sym (append_assoc (buf ++ line) prefix (continued prefix rest)) in
          let long' = subst (λ xs. length xs ≤ 4095) whole' long in
          emit_lines-more f prefix c cs buf line_fits
            (append-fits (buf ++ line) prefix (
              omega
                (arith, length-append ((buf ++ line) ++ prefix) (continued prefix rest), long')))
            again
          ∙ emit_lines-continued f prefix rest ((buf ++ line) ++ prefix)
              (omega (arith, less, enough)) long'
          ∙ ap (λ b. (b, false)) (sym (whole ∙ whole'))
      | inr last ↦
          let tail_is : tail ≡ continued prefix rest =
            ap (λ (b : Bool). if b then prefix ++ continued prefix rest else continued prefix rest)
              last in
          let whole' : (buf ++ line) ++ tail ≡ (buf ++ line) ++ continued prefix rest =
            ap (λ xs. (buf ++ line) ++ xs) tail_is in
          emit_lines-last f prefix c cs buf line_fits last
          ∙ emit_lines-continued f prefix rest (buf ++ line) (omega (arith, less, enough))
              (subst (λ xs. length xs ≤ 4095) whole' long)
          ∙ ap (λ b. (b, false)) (sym (whole ∙ whole'))
    ]

length-continued : (prefix p : List ℕ) → length p ≤ length (continued prefix p)
unfolding continued
length-continued prefix [] = omega arith
length-continued prefix (c ∷ cs) =
    ground (arith, length-continued prefix cs, length-append prefix (continued prefix cs))

abbrev pub located : Option (List ℕ) → List ℕ
located none = []
located (some location) = location

add_location-fits :
    (location : Option (List ℕ)) (buf : List ℕ)
    → length (buf ++ located location) < 4095
    → add_location location buf ≡ buf ++ located location
unfolding add_location
add_location-fits none buf fits = sym (append-nil buf)
add_location-fits (some l) buf fits = ground (arith, length-append buf l, fits)

take-enough : (n : ℕ) (xs : List ℕ) → length xs ≤ n → take n xs ≡ xs
take-enough zero [] h = refl
take-enough (suc n) [] h = refl
take-enough zero (x ∷ xs) h = absurd (omega (arith, h))
take-enough (suc n) (x ∷ xs) h = ap (λ ys. x ∷ ys) (take-enough n xs (omega (arith, h)))

emit_end :
    (prefix stamp : List ℕ) (location : Option (List ℕ)) (text : List ℕ) {start line : List ℕ}
    → take 4095 text ≡ text
    → add_location location (append [] prefix) ≡ start
    → emit_lines (length text + 1) true prefix text start ≡ (line, false)
    → leb log_line_max (length text) ≡ false
    → emit true prefix stamp location text ≡ line ++ (10 ∷ [])
unfolding emit mark_truncated
emit_end prefix stamp location text all begins lines short = rw (emit, all, begins, lines, short)

-- A record for the journal that fits into a line of `LOG_LINE_MAX` bytes with its location and its prefixes:
-- `emit` writes the prefix, the location if there is one, the text with the prefix again behind each newline
-- that more text follows, and a newline.
pub emit_journal :
    (prefix stamp : List ℕ) (location : Option (List ℕ)) (text : List ℕ)
    → length ((prefix ++ located location) ++ continued prefix text) < 4095
    → emit true prefix stamp location text
      ≡ ((prefix ++ located location) ++ continued prefix text) ++ (10 ∷ [])
emit_journal prefix stamp location text fits =
    let start = prefix ++ located location in
    let whole = length-append start (continued prefix text) in
    let front = length-append prefix (located location) in
    let shorter = length-continued prefix text in
    let begins : add_location location (append [] prefix) ≡ start =
      ap (add_location location) (append-fits [] prefix (omega (arith, whole, front, fits)))
      ∙ add_location-fits location prefix (omega (arith, whole, fits)) in
    emit_end prefix stamp location text
      (take-enough 4095 text (omega (arith, whole, shorter, fits))) begins
      (emit_lines-continued (length text + 1) prefix text start (omega arith) (omega (arith, fits)))
      (ground (arith, whole, shorter, fits))

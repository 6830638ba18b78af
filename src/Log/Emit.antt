-- ===== src/Log/Emit.antt =====
-- The line of a record: its length, its end, and the text in it.
use service_lua.Base.{
  ℕ, zero, suc, ◌+◌, ◌-◌, ◌≤◌, ◌<◌, ◌≡◌, refl, Bool, true, false, ◌||◌, Option, none, some, List,
  [], ◌∷◌, ◌++◌, if◌then◌else◌, ltb, leb, arith, length, take, length-append, length-take,
  Bool-cases, inl, inr, ltb→lt,
}
use service_lua.Log.{
  log_line_max, log_truncated, append, split_line, emit_lines, mark_truncated, add_location, emit,
}

-- A buffer with room for the last newline.
abbrev pub Roomy : List ℕ → Type 0
Roomy buf = length buf ≤ 4095

append-Roomy : (buf s : List ℕ) → Roomy buf → Roomy (append buf s)
unfolding append
append-Roomy buf s h =
    let room = 4095 - length buf in
    ground (arith, length-append buf s, length-append buf (take room s), length-take room s)

emit_lines-Roomy :
    (f : ℕ) (journal : Bool) (prefix p buf : List ℕ)
    → Roomy buf
    → Roomy (emit_lines f journal prefix p buf).0
unfolding emit_lines
emit_lines-Roomy zero journal prefix p buf h = h
emit_lines-Roomy (suc f) journal prefix p buf h = ground (
  arith,
  append-Roomy buf (split_line p).0 h,
  append-Roomy (append buf (split_line p).0) prefix,
  emit_lines-Roomy f journal prefix (split_line p).1 (append buf (split_line p).0),
  emit_lines-Roomy f journal prefix (split_line p).1 (append (append buf (split_line p).0) prefix),
)

cut-Roomy : (b : Bool) (buf : List ℕ) → Roomy buf → Roomy (if b then take 4092 buf else buf)
cut-Roomy false buf h = h
cut-Roomy true buf h = rw (length-take 4092 buf) (omega arith)

append-nil-short : (s : List ℕ) → length s < 4095 → append [] s ≡ s
unfolding append
append-nil-short s h = elim (Bool-cases (ltb 4095 (length s))) [
  | inl more ↦ absurd (omega (arith, ltb→lt 4095 (length s) more))
  | inr fits ↦ rw fits
]

mark_truncated-Roomy : (cut : Bool) (buf : List ℕ) → Roomy buf → Roomy (mark_truncated cut buf)
unfolding mark_truncated
mark_truncated-Roomy false buf h = h
mark_truncated-Roomy true buf h =
    append-Roomy (if ltb 4092 (length buf) then take 4092 buf else buf) log_truncated
      (cut-Roomy (ltb 4092 (length buf)) buf h)

add_location-Roomy :
    (location : Option (List ℕ)) (buf : List ℕ)
    → length buf < 4095
    → Roomy (add_location location buf)
unfolding add_location
add_location-Roomy none buf h = omega arith
add_location-Roomy (some l) buf h =
    let n = 4095 - length buf - 1 in
    ground (arith, length-append buf l, length-append buf (take n l), length-take n l)

start-short :
    (journal : Bool) (prefix stamp : List ℕ)
    → length prefix < 4095
    → length stamp < 4095
    → length (if journal then append [] prefix else stamp) < 4095
start-short false prefix stamp hp hs = hs
start-short true prefix stamp hp hs = rw (append-nil-short prefix hp) hp

-- The bytes written for a record are 4096 at most and the last one is a newline, whatever the message
-- and the location are, if the priority prefix and the stamp are shorter than the buffer.
pub emit_bound :
    (journal : Bool) (prefix stamp : List ℕ) (location : Option (List ℕ)) (text : List ℕ)
    → length prefix < 4095
    → length stamp < 4095
    → (line : List ℕ) × (emit journal prefix stamp location text ≡ line ++ (10 ∷ []))
      × (length (emit journal prefix stamp location text) ≤ log_line_max)
unfolding emit
emit_bound journal prefix stamp location text hp hs =
    let head = if journal then append [] prefix else stamp in
    let message = take 4095 text in
    let mid =
      emit_lines (length message + 1) journal (if journal then prefix else []) message
        (add_location location head) in
    let cut = leb log_line_max (length text) || mid.1 in
    let line = mark_truncated cut mid.0 in
    let roomy : Roomy line = mark_truncated-Roomy cut mid.0 (
      emit_lines-Roomy (length message + 1) journal (if journal then prefix else []) message
        (add_location location head)
        (add_location-Roomy location head (start-short journal prefix stamp hp hs))) in
    (line, refl, ground (arith, length-append line (10 ∷ [])))

-- ===== src/Edge/Walk/Listed.antt =====
-- What the directory listing returns (host/std_fs_walk/ref.c).
use fxlang.Prelude.{
  ℕ, zero, suc, ◌+◌, ◌-◌, ◌^◌, ◌≤◌, ◌<◌, ◌≡◌, refl, ◌∙◌, sym, ap, subst, ◌⊎◌, inl, inr, Bool, true,
  false, ◌&&◌, Option, some, List, [], ◌∷◌, ◌++◌, arith, append-nil, append_assoc, ltb, leb, ◌==◌,
  if◌then◌else◌, Bool-cases, update, Text, get_or, length, length-append, get_or-append,
}
use fxlang.Edge.Walk.{Buffer, Memory, ensure_cap, copy_in, put, skips, append_name, append_all}
use fxlang.Edge.Walk.Grow.{RefusedFor, ensure_cap-Ensured}

-- The names that a listing leaves out: the empty one, "." and "..".
abbrev pub left_out : Text → Bool
left_out [] = true
left_out (c ∷ []) = c == b'.'
left_out (c ∷ d ∷ []) = (c == b'.') && (d == b'.')
left_out (c ∷ d ∷ e ∷ s) = false

pub skips-left_out : (name : Text) → skips (some name) ≡ left_out name
skips-left_out [] = refl
skips-left_out (c ∷ []) = ground arith
skips-left_out (c ∷ d ∷ []) = ground arith
skips-left_out (c ∷ d ∷ e ∷ s) = ground arith

-- Each name that is not left out, with a newline behind it.
abbrev pub lines : List Text → Text
lines [] = []
lines (name ∷ names) = if left_out name then lines names else (name ++ (10 ∷ lines names))

-- The buffer holds a text of the length and a terminator behind it.
pub record Holds (text : Text) (len : ℕ) (b : Buffer) : Type 0 where
  pub measured : len ≡ length text
  pub bytes : (i : ℕ) → i < length text → b.cell i ≡ get_or text i 0
  pub ends : b.cell (length text) ≡ 0
  pub room : length text < b.size

-- The buffer with a name, a newline and a terminator written at the end of the text.
named : Text → (len : ℕ) → Buffer → Buffer
named name len b = record b {
  cell =
      update
        (update
          (λ i.
            if leb len i && ltb i (len + length name) then get_or name (i - len) 0 else b.cell i)
          (len + length name) 10)
        (len + length name + 1) 0;
}

append_name-named :
    (m : Memory) (name : Text) (len : ℕ) (b grown : Buffer)
    → skips (some name) ≡ false
    → ensure_cap m (len + length name + 2) b ≡ some (true, grown)
    → len + length name + 2 ≤ grown.size
    → append_name m (some name) len b ≡ some (true, len + length name + 1, named name len grown)
unfolding append_name copy_in put named
append_name-named m name len b grown kept e fits = ground (arith, kept, e)

get_or-single : (c k : ℕ) → get_or (c ∷ []) k 0 ≡ (if k == 0 then c else 0)
get_or-single c zero = refl
get_or-single c (suc k) = ground arith

length-line :
    (text name : Text) → length (text ++ (name ++ (10 ∷ []))) ≡ length text + length name + 1
length-line text name =
    omega (arith, length-append text (name ++ (10 ∷ [])), length-append name (10 ∷ []))

named-Holds :
    (text name : Text) (len : ℕ) (b grown : Buffer)
    → Holds text len b
    → len + length name + 2 ≤ grown.size
    → ((i : ℕ) → i < b.size → grown.cell i ≡ b.cell i)
    → Holds (text ++ (name ++ (10 ∷ []))) (len + length name + 1) (named name len grown)
unfolding named
named-Holds text name len b grown h fits kept = record {
  measured = omega (arith, h.measured, length-line text name);
  bytes = λ i below. ground (
    arith,
    get_or-append text (name ++ (10 ∷ [])) i 0,
    get_or-append name (10 ∷ []) (i - length text) 0,
    get_or-single 10 (i - length text - length name),
    h.bytes i,
    kept i,
    length-line text name,
  );
  ends = ground (arith, length-line text name);
  room = ground (arith, length-line text name);
}

-- What a refusal of memory leaves.
abbrev pub Refused : Memory → (need : ℕ) → Option (Bool × ℕ × Buffer) → Type 0
Refused m need o =
    (len : ℕ) × (b : Buffer) × (o ≡ some (false, len, b))
    × (0 < b.size)
    × (n : ℕ) × RefusedFor m need n

abbrev pub Appends : Memory → Text → Option (Bool × ℕ × Buffer) → Type 0
Appends m text o =
    ((len : ℕ) × (b : Buffer) × (o ≡ some (true, len, b)) × Holds text len b)
    ⊎ Refused m (length text + 1) o

pub RefusedFor-le :
    (m : Memory) {need need' : ℕ} (n : ℕ)
    → need ≤ need'
    → RefusedFor m need n
    → RefusedFor m need' n
RefusedFor-le m n le (refused, near) = (refused, ground arith)

append_name-Appends :
    (m : Memory) (text name : Text) (len : ℕ) (b : Buffer)
    → Holds text len b
    → skips (some name) ≡ false
    → length text + length name + 2 ≤ 2 ^ 63
    → Appends m (text ++ (name ++ (10 ∷ []))) (append_name m (some name) len b)
unfolding append_name
append_name-Appends m text name len b h kept small =
    elim (ensure_cap-Ensured m (len + length name + 2) b (omega (arith, h.measured))) [
      | inl (grown, e, fits, same) ↦ inl (
        len + length name + 1,
        named name len grown,
        append_name-named m name len b grown kept e fits,
        named-Holds text name len b grown h fits same,
      )
      | inr (e, n, refused) ↦ inr (
        len,
        b,
        ground (arith, kept, e),
        omega (arith, h.room),
        n,
        RefusedFor-le m n (omega (arith, h.measured, length-line text name)) refused,
      )
    ]

appends :
    (m : Memory) {t t' : Text} {o o' : Option (Bool × ℕ × Buffer)}
    → o ≡ o'
    → t ≡ t'
    → Appends m t' o'
    → Appends m t o
appends m {t = t} {o' = o'} e e' a =
    subst (Appends m t) (sym e) (subst (λ t. Appends m t o') (sym e') a)

append_all-skips :
    (m : Memory) (name : Text) (names : List Text) (len : ℕ) (b : Buffer)
    → skips (some name) ≡ true
    → append_all m (name ∷ names) len b ≡ append_all m names len b
unfolding append_all append_name
append_all-skips m name names len b skipped = ground (arith, skipped)

append_all-steps :
    (m : Memory) (name : Text) (names : List Text) (len : ℕ) (b : Buffer) (ok : Bool) (after : ℕ)
    (grown : Buffer)
    → append_name m (some name) len b ≡ some (ok, after, grown)
    → append_all m (name ∷ names) len b
      ≡ (if ok then append_all m names after grown else some (false, after, grown))
unfolding append_all
append_all-steps m name names len b true after grown e = ground (arith, e)
append_all-steps m name names len b false after grown e = ground (arith, e)

lines-line :
    (text name : Text) (names : List Text)
    → left_out name ≡ false
    → text ++ lines (name ∷ names) ≡ (text ++ (name ++ (10 ∷ []))) ++ lines names
lines-line text name names kept = ground (
  arith,
  kept,
  append_assoc text (name ++ (10 ∷ [])) (lines names),
  append_assoc name (10 ∷ []) (lines names),
)

pub append_all-Appends :
    (m : Memory) (names : List Text) (text : Text) (len : ℕ) (b : Buffer)
    → Holds text len b
    → length text + length (lines names) + 1 ≤ 2 ^ 63
    → Appends m (text ++ lines names) (append_all m names len b)
unfolding append_all
append_all-Appends m [] text len b h small =
    inl (len, b, refl, subst (λ t. Holds t len b) (sym (append-nil text)) h)
append_all-Appends m (name ∷ names) text len b h small = elim (Bool-cases (left_out name)) [
  | inl skipped ↦
      appends m (append_all-skips m name names len b (skips-left_out name ∙ skipped))
        (ground (arith, skipped))
        (append_all-Appends m names text len b h (ground (arith, skipped)))
  | inr kept ↦
      let line = lines-line text name names kept in
      let sizes = length-append (text ++ (name ++ (10 ∷ []))) (lines names) in
      let total : length text + length (lines (name ∷ names))
          ≡ length text + length name + 1 + length (lines names) =
        omega (
          arith,
          ap length line,
          length-append text (lines (name ∷ names)),
          sizes,
          length-line text name,
        ) in
      elim (append_name-Appends m text name len b h (skips-left_out name ∙ kept)
        (omega (arith, total))) [
          | inl (after, grown, e, h') ↦
              appends m (append_all-steps m name names len b true after grown e) line (
                append_all-Appends m names (text ++ (name ++ (10 ∷ []))) after grown h'
                  (omega (arith, total, length-line text name)))
          | inr (after, grown, e, some_room, n, refused) ↦ inr (
            after,
            grown,
            append_all-steps m name names len b false after grown e,
            some_room,
            n,
            RefusedFor-le m n
                (omega
                  (arith, total, length-line text name, length-append text (lines (name ∷ names))))
                refused,
          )
        ]
]

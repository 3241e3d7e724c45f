-- ===== src/Edge/Walk/Names.antt =====
-- The string that the directory listing returns (host/std_fs_walk/ref.c, `fx_fs_list_names`).
use fxlang.Prelude.{
  ℕ, zero, suc, ◌+◌, ◌^◌, ◌≤◌, ◌<◌, ◌≡◌, ◌≢◌, refl, ap, subst, ◌∙◌, ◌⊎◌, inl, inr, true, false,
  Option, some, List, [], ◌∷◌, ◌++◌, arith, Bool-cases, update, Text, is_blank, get_or, length, All,
}
use fxlang.Edge.Walk.{
  Buffer, Memory, ensure_cap, put, append_all, string_at, list_open, list_into, fx_fs_list_names,
}
use fxlang.Edge.Walk.Grow.{RefusedFor, ensure_cap-Ensured}
use fxlang.Edge.Walk.Listed.{Holds, left_out, lines, RefusedFor-le, append_all-Appends}

abbrev pub HasNoNul : Text → Type 0
HasNoNul = All (λ c. c ≢ 0)

pub HasNoNul-append : (s t : Text) → HasNoNul s → HasNoNul t → HasNoNul (s ++ t)
HasNoNul-append [] t hs ht = ht
HasNoNul-append (c ∷ s) t (h, hs) ht = (h, HasNoNul-append s t hs ht)

lines-HasNoNul : (names : List Text) → All HasNoNul names → HasNoNul (lines names)
lines-HasNoNul [] all = tt
lines-HasNoNul (name ∷ names) (h, all) = elim (Bool-cases (left_out name)) [
  | inl skipped ↦ subst HasNoNul (ground (arith, skipped)) (lines-HasNoNul names all)
  | inr kept ↦ subst HasNoNul (ground (arith, kept)) (
      HasNoNul-append name (10 ∷ lines names) h ((λ e. omega (arith, e)), lines-HasNoNul names all))
]

string_at-text :
    (cell : ℕ → ℕ) (text : Text) (fuel i : ℕ)
    → ((j : ℕ) → j < length text → cell (i + j) ≡ get_or text j 0)
    → cell (i + length text) ≡ 0
    → HasNoNul text
    → length text < fuel
    → string_at cell fuel i ≡ text
unfolding string_at
string_at-text cell [] zero i bytes ends clean enough = absurd (omega arith)
string_at-text cell [] (suc fuel) i bytes ends clean enough =
    let here : cell i ≡ 0 = subst (λ k. cell k ≡ 0) (omega arith) ends in ground (arith, here)
string_at-text cell (c ∷ text) zero i bytes ends clean enough = absurd (omega arith)
string_at-text cell (c ∷ text) (suc fuel) i bytes ends (h, clean) enough =
    let first : cell i ≡ c = subst (λ k. cell k ≡ c) (omega arith) (bytes 0 (omega arith)) in
    let rest : string_at cell fuel (suc i) ≡ text =
      string_at-text cell text fuel (suc i)
        (λ j below.
          subst (λ k. cell k ≡ get_or text j 0) (omega arith) (bytes (suc j) (omega arith)))
        (subst (λ k. cell k ≡ 0) (omega arith) ends) clean (omega arith) in
    ground (arith, first, rest)

pub Holds-string_at :
    (text : Text) (len : ℕ) (b : Buffer)
    → Holds text len b
    → HasNoNul text
    → string_at b.cell b.size 0 ≡ text
Holds-string_at text len b h clean =
    string_at-text b.cell text b.size 0
      (λ j below. subst (λ k. b.cell k ≡ get_or text j 0) (omega arith) (h.bytes j below))
      (subst (λ k. b.cell k ≡ 0) (omega arith) h.ends) clean h.room

-- The buffer after `g_list_buf[0] = '\0'`.
abbrev emptied : Buffer → Buffer
emptied b = record b { cell = update b.cell 0 0 }

emptied-Holds : (b : Buffer) → 0 < b.size → Holds [] 0 (emptied b)
emptied-Holds b room = record {
  measured = refl;
  bytes = λ i below. absurd (omega arith);
  ends = ground arith;
  room = room;
}

emptied-string_at : (b : Buffer) → 0 < b.size → string_at (emptied b).cell b.size 0 ≡ []
emptied-string_at b room = Holds-string_at [] 0 (emptied b) (emptied-Holds b room) tt

names-into :
    (m : Memory) (path : Option Text) (directory : Option (List Text)) (b start : Buffer)
    → ensure_cap m 1 b ≡ some (true, start)
    → fx_fs_list_names m path directory b ≡ list_into m path directory start
unfolding fx_fs_list_names
names-into m path directory b start e = ground (arith, e)

into-open :
    (m : Memory) (path : Option Text) (names : List Text) (start : Buffer)
    → is_blank path ≡ false
    → 1 ≤ start.size
    → list_into m path (some names) start ≡ list_open m names (emptied start)
unfolding list_into put
into-open m path names start asked fits = ground (arith, asked)

names-open :
    (m : Memory) (path : Option Text) (names : List Text) (b start : Buffer)
    → is_blank path ≡ false
    → ensure_cap m 1 b ≡ some (true, start)
    → 1 ≤ start.size
    → fx_fs_list_names m path (some names) b ≡ list_open m names (emptied start)
names-open m path names b start asked e fits =
    names-into m path (some names) b start e ∙ into-open m path names start asked fits

open-full :
    (m : Memory) (names : List Text) (empty : Buffer) (len : ℕ) (full : Buffer)
    → append_all m names 0 empty ≡ some (true, len, full)
    → list_open m names empty ≡ some (string_at full.cell full.size 0, full)
unfolding list_open
open-full m names empty len full run = ground (arith, run)

open-refused :
    (m : Memory) (names : List Text) (empty : Buffer) (len : ℕ) (full : Buffer)
    → append_all m names 0 empty ≡ some (false, len, full)
    → 0 < full.size
    → list_open m names empty ≡ some (string_at (emptied full).cell full.size 0, emptied full)
unfolding list_open put
open-refused m names empty len full run room = ground (arith, run)

names-unbegun :
    (m : Memory) (path : Option Text) (names : List Text) (b : Buffer)
    → ensure_cap m 1 b ≡ some (false, b)
    → fx_fs_list_names m path (some names) b ≡ some ([], b)
unfolding fx_fs_list_names
names-unbegun m path names b e = ground (arith, e)

-- On a directory that opens, with names without NUL that take less than 2 ^ 63 bytes together,
-- `fx_fs_list_names` ends, writes nothing outside of its buffer, and returns every name but "." and
-- ".." (and the empty one), each with a newline behind it; or it returns the empty string, and then
-- memory refuses a request of at most 4096 bytes, or of less than twice the bytes of these lines with
-- their terminator.
pub fx_fs_list_names-lines :
    (m : Memory) (path : Option Text) (names : List Text) (b : Buffer)
    → is_blank path ≡ false
    → All HasNoNul names
    → length (lines names) + 1 ≤ 2 ^ 63
    → (text : Text) × (after : Buffer) × (fx_fs_list_names m path (some names) b
        ≡ some (text, after))
      × ((text ≡ lines names) ⊎ ((text ≡ []) × (n : ℕ) × RefusedFor m (length (lines names) + 1) n))
fx_fs_list_names-lines m path names b asked clean small =
    elim (ensure_cap-Ensured m 1 b (omega arith)) [
      | inr (e, n, refused) ↦ (
        [],
        b,
        names-unbegun m path names b e,
        inr (refl, n, RefusedFor-le m {need = 1} n (omega arith) refused),
      )
      | inl (start, e, fits, same) ↦
          elim (append_all-Appends m names [] 0 (emptied start) (emptied-Holds start fits)
            (omega arith)) [
              | inl (len, full, run, h) ↦ (
                lines names,
                full,
                names-open m path names b start asked e fits
                    ∙ open-full m names (emptied start) len full run
                    ∙ ap (λ t. some (t, full))
                        (Holds-string_at (lines names) len full h (lines-HasNoNul names clean)),
                inl refl,
              )
              | inr (len, full, run, room, n, refused) ↦ (
                [],
                emptied full,
                names-open m path names b start asked e fits
                    ∙ open-refused m names (emptied start) len full run room
                    ∙ ap (λ t. some (t, emptied full)) (emptied-string_at full room),
                inr (refl, n, refused),
              )
            ]
    ]

-- ===== src/Edge/Walk.antt =====
-- The directory listing (host/std_fs_walk/ref.c), as it is compiled for POSIX. A write outside of
-- the buffer, and a loop that does not end, give `none`.
pub mod Grow
pub mod Listed
pub mod Names
pub mod Windows
use fxlang.Prelude.{
  ℕ, zero, suc, ◌+◌, ◌-◌, ◌*◌, ◌%◌, ◌^◌, Bool, true, false, not, ◌&&◌, ◌||◌, Option, none, some,
  List, [], ◌∷◌, ltb, leb, ◌==◌, if◌then◌else◌, update, Text, text_eq, is_blank, get_or, length,
}

-- `g_list_buf` and `g_list_cap`. What lies in the buffer before it is written is arbitrary.
pub record Buffer : Type 0 where
  pub cell : ℕ → ℕ
  pub size : ℕ

-- What `realloc` answers to a request of a size, and what lies in the bytes that it adds.
pub record Memory : Type 0 where
  pub grants : ℕ → Bool
  pub junk : ℕ → ℕ

-- `while (ncap < need) ncap *= 2;` in size_t.
unfoldable pub double_until : (fuel ncap need : ℕ) → Option ℕ
double_until zero ncap need = none
double_until (suc fuel) ncap need = elim (ltb ncap need) [
  | false ↦ some ncap
  | true ↦ double_until fuel (ncap * 2 % 2 ^ 64) need
]

-- From 1 on, 63 rounds reach every size up to 2 ^ 63.
unfoldable pub ensure_cap : Memory → (need : ℕ) → Buffer → Option (Bool × Buffer)
unfolding double_until
ensure_cap m need b =
    if leb need b.size
    then some (true, b)
    else elim (double_until 64 (if b.size == 0 then 4096 else b.size) need) [
      | none ↦ none
      | some ncap ↦
          if m.grants ncap
          then some (
            true,
            record { cell = λ i. if ltb i b.size then b.cell i else m.junk i; size = ncap },
          )
          else some (false, b)
    ]

-- `memcpy(g_list_buf + at, s, strlen(s))`
unfoldable pub copy_in : (at : ℕ) → Text → Buffer → Option Buffer
copy_in at s b =
    if leb (at + length s) b.size
    then some (record b {
      cell = λ i. if leb at i && ltb i (at + length s) then get_or s (i - at) 0 else b.cell i;
    })
    else none

-- `g_list_buf[at] = c`
unfoldable pub put : (at c : ℕ) → Buffer → Option Buffer
put at c b = if ltb at b.size then some (record b { cell = update b.cell at c }) else none

abbrev pub then_do {ℓ κ} : {A : Type ℓ} {B : Type κ} → Option A → (A → Option B) → Option B
then_do none f = none
then_do (some a) f = f a

-- Names that are left out.
abbrev pub skips : Option Text → Bool
skips none = true
skips (some s) = is_blank (some s) || text_eq s (b'.' ∷ []) || text_eq s (b'.' ∷ b'.' ∷ [])

-- The result, the new length and the buffer.
unfoldable pub append_name : Memory → Option Text → (len : ℕ) → Buffer → Option (Bool × ℕ × Buffer)
unfolding ensure_cap copy_in put
append_name m none len b = some (true, len, b)
append_name m (some name) len b =
    if skips (some name)
    then some (true, len, b)
    else then_do (ensure_cap m (len + length name + 2) b) λ (ok, grown).
      if not ok
      then some (false, len, grown)
      else then_do (copy_in len name grown) λ named.
        then_do (put (len + length name) 10 named) λ ended.
          then_do (put (len + length name + 1) 0 ended)
            λ closed. some (true, len + length name + 1, closed)

-- The loop over `readdir`.
unfoldable pub append_all : Memory → List Text → (len : ℕ) → Buffer → Option (Bool × ℕ × Buffer)
unfolding append_name
append_all m [] len b = some (true, len, b)
append_all m (name ∷ names) len b = then_do (append_name m (some name) len b) λ (ok, after, grown).
    elim ok [ true ↦ append_all m names after grown | false ↦ some (false, after, grown) ]

-- The C string in the buffer from index `i` on.
unfoldable pub string_at : (ℕ → ℕ) → (fuel i : ℕ) → Text
string_at cell zero i = []
string_at cell (suc fuel) i = elim (cell i == 0) [
  | true ↦ []
  | false ↦ cell i ∷ string_at cell fuel (suc i)
]

abbrev shown : Buffer → Option (Text × Buffer)
shown b = some (string_at b.cell b.size 0, b)

-- The listing of a directory that opens, after the buffer is emptied.
unfoldable pub list_open : Memory → List Text → Buffer → Option (Text × Buffer)
unfolding append_all put string_at
list_open m names empty =
    then_do (append_all m names 0 empty)
      λ (ok, len, full). if ok then shown full else then_do (put 0 0 full) shown

-- The listing once there is room for the terminator.
unfoldable pub list_into :
    Memory
    → (path : Option Text) → (directory : Option (List Text)) → Buffer
    → Option (Text × Buffer)
unfolding put list_open string_at
list_into m path directory start = then_do (put 0 0 start) λ empty.
    if is_blank path
    then shown empty
    else elim directory [ none ↦ shown empty | some names ↦ list_open m names empty ]

-- The string that is returned, and the buffer. `directory` is what `opendir` and `readdir` find.
unfoldable pub fx_fs_list_names :
    Memory
    → (path : Option Text) → (directory : Option (List Text)) → Buffer
    → Option (Text × Buffer)
unfolding ensure_cap list_into
fx_fs_list_names m path directory b =
    then_do (ensure_cap m 1 b)
      λ (ok, start). if ok then list_into m path directory start else some ([], start)

unfoldable pub fx_fs_list_ok : (path : Option Text) → (directory : Option (List Text)) → Bool
fx_fs_list_ok path none = false
fx_fs_list_ok path (some names) = not (is_blank path)

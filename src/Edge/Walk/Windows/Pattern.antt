-- ===== src/Edge/Walk/Windows/Pattern.antt =====
-- The pattern in its array (host/std_fs_walk/ref.c, Windows).
use fxlang.Prelude.{
  ℕ, zero, suc, ◌+◌, ◌-◌, ◌<◌, ◌≡◌, refl, sym, ap, subst, ◌∙◌, inl, inr, true, false, ◌&&◌, Option,
  none, some, Bool, ◌||◌, [], ◌∷◌, ◌++◌, arith, ltb, leb, ◌==◌, if◌then◌else◌, Bool-cases, update,
  Text, get_or, length, length-append, append_assoc, get_or-append,
}
use fxlang.Edge.Walk.{Buffer, copy_in, put}
use fxlang.Edge.Walk.Listed.{Holds}
use fxlang.Edge.Walk.Names.{HasNoNul, HasNoNul-append, Holds-string_at}
use fxlang.Edge.Walk.Windows.{max_path, ends_in_sep, put_star, fill_pattern, pattern_of}

-- Whether a path ends in a backslash or a '/'.
abbrev pub ends_cut : Text → Bool
ends_cut [] = false
ends_cut (c ∷ []) = (c == 92) || (c == 47)
ends_cut (c ∷ d ∷ s) = ends_cut (d ∷ s)

at_end :
    (c : ℕ) (s : Text)
    → ((get_or (c ∷ s) (length s) 0 == 92) || (get_or (c ∷ s) (length s) 0 == 47))
      ≡ ends_cut (c ∷ s)
at_end c [] = refl
at_end c (d ∷ s) = at_end d s

ends_in_sep-cut : (path : Text) → ends_in_sep path ≡ ends_cut path
ends_in_sep-cut [] = refl
ends_in_sep-cut (c ∷ s) =
    ap (λ k. (get_or (c ∷ s) k 0 == 92) || (get_or (c ∷ s) k 0 == 47)) {x = length (c ∷ s) - 1}
      {y = length s} (omega arith)
    ∙ at_end c s

-- The path, a separator unless it ends in one, and a star.
abbrev pub spelled : Text → Text
spelled path = path ++ (if ends_cut path then (b'*' ∷ []) else (b'\\' ∷ b'*' ∷ []))

-- A text at the start of an array, without a terminator.
record Starts (text : Text) (b : Buffer) : Type 0 where
  bytes : (i : ℕ) → i < length text → b.cell i ≡ get_or text i 0
  room : length text < b.size

copied : Text → (ℕ → ℕ) → Buffer
copied path junk = record {
  cell = λ i. if leb 0 i && ltb i (0 + length path) then get_or path (i - 0) 0 else junk i;
  size = max_path;
}

copy_in-copied :
    (path : Text) (junk : ℕ → ℕ)
    → length path + 3 < max_path
    → copy_in 0 path (record { cell = junk; size = max_path }) ≡ some (copied path junk)
unfolding copy_in copied
copy_in-copied path junk h = ground arith

copied-Starts :
    (path : Text) (junk : ℕ → ℕ) → length path + 3 < max_path → Starts path (copied path junk)
unfolding copied
copied-Starts path junk h = record { bytes = λ i below. ground arith; room = omega arith }

get_or-one : (c k : ℕ) → get_or (c ∷ []) k 0 ≡ (if k == 0 then c else 0)
get_or-one c zero = refl
get_or-one c (suc k) = ground arith

put-Starts :
    (text : Text) (b : Buffer) (c : ℕ)
    → Starts text b
    → length text + 1 < b.size
    → Starts (text ++ (c ∷ [])) (record b { cell = update b.cell (length text) c })
put-Starts text b c s fits = record {
  bytes = λ i below. ground (
    arith,
    get_or-append text (c ∷ []) i 0,
    get_or-one c (i - length text),
    s.bytes i,
    length-append text (c ∷ []),
  );
  room = omega (arith, length-append text (c ∷ []));
}

Starts-Holds :
    (text : Text) (len : ℕ) (b : Buffer)
    → Starts text b
    → len ≡ length text
    → Holds text len (record b { cell = update b.cell len 0 })
Starts-Holds text len b s e = record {
  measured = e;
  bytes = λ i below. ground (arith, s.bytes i below);
  ends = ground arith;
  room = s.room;
}

-- The text, a star and the terminator.
put_star-Holds :
    (text : Text) (b : Buffer)
    → Starts text b
    → length text + 2 < b.size
    → (b' : Buffer) × (put_star (length text) b ≡ some b')
      × Holds (text ++ (b'*' ∷ [])) (length text + 1) b'
      × (b'.size ≡ b.size)
unfolding put_star put
put_star-Holds text b s fits =
    let starred : Buffer = record b { cell = update b.cell (length text) b'*' } in
    let s' : Starts (text ++ (b'*' ∷ [])) starred = put-Starts text b b'*' s (omega arith) in
    (
      record starred { cell = update starred.cell (length text + 1) 0 },
      ground arith,
      Starts-Holds (text ++ (b'*' ∷ [])) (length text + 1) starred s'
          (omega (arith, length-append text (b'*' ∷ []))),
      refl,
    )

-- What is in the array once it is filled.
abbrev Filled : Text → Option Buffer → Type 0
Filled path o =
    (b : Buffer) × (o ≡ some b) × ((len : ℕ) × Holds (spelled path) len b) × (b.size ≡ max_path)

fill_pattern-sep :
    (path : Text) (junk : ℕ → ℕ) (here : Buffer)
    → copy_in 0 path (record { cell = junk; size = max_path }) ≡ some here
    → ends_in_sep path ≡ true
    → fill_pattern path junk ≡ put_star (length path) here
unfolding fill_pattern
fill_pattern-sep path junk here copy e = ground (arith, copy, e)

with_sep : Text → Buffer → Buffer
with_sep path here = record here { cell = update here.cell (length path) b'\\' }

fill_pattern-cut :
    (path : Text) (junk : ℕ → ℕ) (here : Buffer)
    → copy_in 0 path (record { cell = junk; size = max_path }) ≡ some here
    → ends_in_sep path ≡ false
    → 0 < length path
    → length path < here.size
    → fill_pattern path junk ≡ put_star (length path + 1) (with_sep path here)
unfolding fill_pattern put with_sep
fill_pattern-cut path junk here copy e some_path room = ground (arith, copy, e)

spelled-sep : (path : Text) → ends_in_sep path ≡ true → spelled path ≡ path ++ (b'*' ∷ [])
spelled-sep path e = rw (sym (ends_in_sep-cut path) ∙ e) refl

spelled-cut :
    (path : Text) → ends_in_sep path ≡ false → spelled path ≡ (path ++ (b'\\' ∷ [])) ++ (b'*' ∷ [])
spelled-cut path e =
    rw (sym (ends_in_sep-cut path) ∙ e) (sym (append_assoc path (b'\\' ∷ []) (b'*' ∷ [])))

-- Holds for the text that an equation gives.
Holds-eq : (t t' : Text) (len : ℕ) (b : Buffer) → t ≡ t' → Holds t' len b → Holds t len b
Holds-eq t t' len b e h = subst (λ t. Holds t len b) (sym e) h

fill_pattern-Filled :
    (path : Text) (junk : ℕ → ℕ)
    → 0 < length path
    → length path + 3 < max_path
    → Filled path (fill_pattern path junk)
unfolding copied with_sep
fill_pattern-Filled path junk ne h =
    let here : Buffer = copied path junk in
    let starts = copied-Starts path junk h in
    let copy = copy_in-copied path junk h in
    elim (Bool-cases (ends_in_sep path)) [
      | inl e ↦
          let (b, run, held, size) = put_star-Holds path here starts (omega (arith, h)) in
          (
            b,
            fill_pattern-sep path junk here copy e ∙ run,
            (length path + 1, Holds-eq _ _ _ b (spelled-sep path e) held),
            size,
          )
      | inr e ↦
          let cut : Buffer = with_sep path here in
          let starts' = put-Starts path here b'\\' starts (omega (arith, h)) in
          let longer : length (path ++ (b'\\' ∷ [])) ≡ length path + 1 =
            length-append path (b'\\' ∷ []) in
          let (b, run, held, size) =
            put_star-Holds (path ++ (b'\\' ∷ [])) cut starts' (omega (arith, h, longer)) in
          (
            b,
            fill_pattern-cut path junk here copy e ne (omega (arith, h))
                ∙ subst (λ k. put_star k cut ≡ some b) longer run,
            (_, Holds-eq _ _ _ b (spelled-cut path e) held),
            size,
          )
    ]

spelled-HasNoNul : (path : Text) → HasNoNul path → HasNoNul (spelled path)
spelled-HasNoNul path clean = elim (Bool-cases (ends_in_sep path)) [
  | inl e ↦
      subst HasNoNul (sym (spelled-sep path e))
        (HasNoNul-append path _ clean ((λ z. omega (arith, z)), tt))
  | inr e ↦ subst HasNoNul (sym (spelled-cut path e)) (
      HasNoNul-append _ _ (HasNoNul-append path _ clean ((λ z. omega (arith, z)), tt))
        ((λ z. omega (arith, z)), tt))
]

-- The pattern of a path that is short enough, and of one that is not.
pub pattern_of-spelled :
    (path : Text) (junk : ℕ → ℕ)
    → HasNoNul path
    → 0 < length path
    → pattern_of path junk
      ≡ some (if leb max_path (length path + 3) then none else some (spelled path))
unfolding pattern_of
pattern_of-spelled path junk clean ne = elim (Bool-cases (leb max_path (length path + 3))) [
  | inl long ↦ rw long refl
  | inr short ↦
      let (b, run, (len, held), size) = fill_pattern-Filled path junk ne (ground arith) in
      let reads = Holds-string_at (spelled path) len b held (spelled-HasNoNul path clean) in
      ground (arith, short, run, reads)
]

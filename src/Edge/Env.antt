-- ===== src/Edge/Env.antt =====
-- The environment (host/std_env/ref.c). `getenv` is an argument.
use fxlang.Prelude.{ℕ, Bool, true, false, Option, none, some, [], if◌then◌else◌, Text, is_blank}

abbrev text_or_empty : Option Text → Text
text_or_empty none = []
text_or_empty (some v) = v

-- `getenv` of a name that is not NULL.
abbrev looked_up : (getenv : Text → Option Text) → (name : Option Text) → Option Text
looked_up getenv none = none
looked_up getenv (some name) = getenv name

unfoldable pub fx_env_get : (getenv : Text → Option Text) → (name : Option Text) → Text
fx_env_get getenv name = if is_blank name then [] else text_or_empty (looked_up getenv name)

abbrev is_set : Option Text → Bool
is_set none = false
is_set (some v) = true

unfoldable pub fx_env_has : (getenv : Text → Option Text) → (name : Option Text) → ℕ
fx_env_has getenv name =
    if is_blank name then 0 else if is_set (looked_up getenv name) then 1 else 0

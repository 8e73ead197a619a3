-- ===== src/Events/Kind.antt =====
-- EventKind of src/events.h, and what the classes of kinds exclude.
use strfry.Prelude.{
  ℕ, suc, ◌≤◌, Bool, true, false, ◌&&◌, ◌||◌, List, [], ◌∷◌, arith, ltb, leb, ◌==◌,
}

unfoldable pub is_replaceable : ℕ → Bool
is_replaceable value =
    value == 0 || value == 3 || value == 41 || (leb 10000 value && ltb value 20000)

unfoldable pub is_param_replaceable : ℕ → Bool
is_param_replaceable value = leb 30000 value && ltb value 40000

unfoldable pub is_ephemeral : ℕ → Bool
is_ephemeral value = leb 20000 value && ltb value 30000

unfoldable pub is_deletion : ℕ → Bool
is_deletion value = value == 5

-- How many of the four classes a kind is in.
abbrev pub count_true : List Bool → ℕ
count_true [] = 0
count_true (true ∷ bs) = suc (count_true bs)
count_true (false ∷ bs) = count_true bs

-- A kind is in at most one of the classes replaceable, parameterised replaceable, ephemeral and
-- deletion.
pub kind_classes_exclusive :
    (value : ℕ)
    → count_true (
        is_replaceable value
        ∷ is_param_replaceable value
        ∷ is_ephemeral value
        ∷ is_deletion value
        ∷ [])
      ≤ 1
unfolding is_replaceable is_param_replaceable is_ephemeral is_deletion
kind_classes_exclusive value = ground arith

-- ===== src/CString.antt =====
-- The C library's functions on strings that the driver uses, on byte strings without their
-- terminating zero: `strchr`, `strrchr`, `strncmp` against a whole prefix, and `snprintf` of one
-- string into a buffer of `path_max` bytes.
pub mod Laws
use hepunion.Base.{ℕ, zero, suc, ◌-◌, Bool, true, false, ◌&&◌, Option, none, some, List, [], ◌∷◌}
use hepunion.Base.{◌==◌, if◌then◌else◌, length, take, path_max}

-- The offset of the first `c`.
unfoldable pub strchr : List ℕ → ℕ → Option ℕ
strchr [] c = none
strchr (x ∷ xs) c = elim (x == c) [
  | true ↦ some 0
  | false ↦ elim (strchr xs c) [ none ↦ none | some i ↦ some (suc i) ]
]

-- The offset of the last `c`.
unfoldable pub strrchr : List ℕ → ℕ → Option ℕ
strrchr [] c = none
strrchr (x ∷ xs) c = elim (strrchr xs c) [
  | some i ↦ some (suc i)
  | none ↦ if x == c then some 0 else none
]

-- `strncmp(s, p, n) == 0`: the first `n` bytes agree, where a string that ends is followed by a
-- zero, at which the comparison stops.
unfoldable pub strncmp_eq : ℕ → List ℕ → List ℕ → Bool
strncmp_eq zero s p = true
strncmp_eq (suc n) [] [] = true
strncmp_eq (suc n) [] (y ∷ p) = false
strncmp_eq (suc n) (x ∷ s) [] = false
strncmp_eq (suc n) (x ∷ s) (y ∷ p) = (x == y) && strncmp_eq n s p

-- What `snprintf(buf, PATH_MAX, "%s", s)` returns, and what it leaves in `buf`.
unfoldable pub snprintf : List ℕ → ℕ × List ℕ
snprintf s = (length s, take (path_max - 1) s)

-- ===== src/CString/Laws.antt =====
-- What `strrchr`, `strncmp` and `snprintf` compute, for the components that call them.
use hepunion.Base.{ℕ, zero, suc, ◌-◌, ◌<◌, ◌≡◌, refl, ap, true, false}
use hepunion.Base.{none, some, List, [], ◌∷◌, ◌++◌, arith, ◌==◌}
use hepunion.Base.{length, take, drop, path_max, take-length_le, Option-cases, inl, inr}
use hepunion.CString.{strrchr, strncmp_eq, snprintf}
use hepunion.Base.{Bool, not, ◌&&◌}

-- No byte of the list is `c`.
abbrev pub Lacks : ℕ → List ℕ → Type 0
Lacks c [] = Unit
Lacks c (x ∷ xs) = ((x == c) ≡ false) × Lacks c xs

strrchr_lacks : (c : ℕ) (xs : List ℕ) → Lacks c xs → strrchr xs c ≡ none
unfolding strrchr
strrchr_lacks c [] h = refl
strrchr_lacks c (x ∷ xs) h = rw (strrchr_lacks c xs h.1, h.0)

pub lacks_strrchr : (c : ℕ) (xs : List ℕ) → strrchr xs c ≡ none → Lacks c xs
unfolding strrchr
lacks_strrchr c [] h = tt
lacks_strrchr c (x ∷ xs) h = (ground arith, lacks_strrchr c xs (ground arith))

-- The last `c` of a string that ends in a part without one.
pub strrchr-append :
    (c : ℕ) (xs ys : List ℕ) → Lacks c ys → strrchr (xs ++ c ∷ ys) c ≡ some (length xs)
unfolding strrchr
strrchr-append c [] ys h = rw (strrchr_lacks c ys h) (ground arith)
strrchr-append c (x ∷ xs) ys h = rw (strrchr-append c xs ys h)

-- A string with a `c` is what stands before the last one, that `c`, and a part without one.
pub strrchr_split :
    (c : ℕ) (xs : List ℕ) (i : ℕ)
    → strrchr xs c ≡ some i
    → (i < length xs) × (xs ≡ take i xs ++ c ∷ drop (suc i) xs) × Lacks c (drop (suc i) xs)
unfolding strrchr
strrchr_split c [] i h = cc
strrchr_split c (x ∷ xs) zero h = elim (Option-cases (strrchr xs c)) [
  | inl e ↦ (omega arith, ground arith, lacks_strrchr c xs e)
  | inr (j, e) ↦ ground arith
]
strrchr_split c (x ∷ xs) (suc i) h =
    let (a, b, d) = strrchr_split c xs i (ground arith) in (omega arith, ap (λ r. x ∷ r) b, d)

-- `strncmp` over the length of the first string tests for a prefix.
strncmp_eq-prefix : (s p : List ℕ) → strncmp_eq (length s) s (s ++ p) ≡ true
unfolding strncmp_eq
strncmp_eq-prefix [] p = refl
strncmp_eq-prefix (x ∷ s) p = ground (arith, strncmp_eq-prefix s p)

pub strncmp_eq-append : (p s : List ℕ) → strncmp_eq (length p) (p ++ s) p ≡ true
unfolding strncmp_eq
strncmp_eq-append [] s = refl
strncmp_eq-append (x ∷ p) s = ground (arith, strncmp_eq-append p s)

prefix-strncmp_eq : (s p : List ℕ) → strncmp_eq (length s) s p ≡ true → p ≡ s ++ drop (length s) p
unfolding strncmp_eq
prefix-strncmp_eq [] p h = refl
prefix-strncmp_eq (x ∷ s) [] h = cc
prefix-strncmp_eq (x ∷ s) (y ∷ p) h = ground (arith, prefix-strncmp_eq s p)

-- A string that is short enough is written whole.
pub snprintf_fits : (s : List ℕ) → length s < path_max → (snprintf s).1 ≡ s
unfolding snprintf
snprintf_fits s h = take-length_le (path_max - 1) s (omega arith)

pub Lacks-append : (c : ℕ) (xs ys : List ℕ) → Lacks c xs → Lacks c ys → Lacks c (xs ++ ys)
Lacks-append c [] ys h k = k
Lacks-append c (x ∷ xs) ys h k = (h.0, Lacks-append c xs ys h.1 k)

pub Lacks-take : (c n : ℕ) (xs : List ℕ) → Lacks c xs → Lacks c (take n xs)
Lacks-take c zero xs h = tt
Lacks-take c (suc n) [] h = tt
Lacks-take c (suc n) (x ∷ xs) h = (h.0, Lacks-take c n xs h.1)

pub Lacks-drop : (c n : ℕ) (xs : List ℕ) → Lacks c xs → Lacks c (drop n xs)
Lacks-drop c zero xs h = h
Lacks-drop c (suc n) [] h = tt
Lacks-drop c (suc n) (x ∷ xs) h = Lacks-drop c n xs h.1

-- A test for `Lacks`.
abbrev pub lacks : ℕ → List ℕ → Bool
lacks c [] = true
lacks c (x ∷ xs) = not (x == c) && lacks c xs

pub lacks→Lacks : (c : ℕ) (xs : List ℕ) → lacks c xs ≡ true → Lacks c xs
lacks→Lacks c [] h = tt
lacks→Lacks c (x ∷ xs) h = (ground arith, lacks→Lacks c xs (ground arith))

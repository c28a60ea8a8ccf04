-- ===== src/Paths.antt =====
-- The part of Go's path/filepath that the program uses, on clean paths: `Dir`, `Join` and `==`.
use clustertest.Prelude.{
  ◌≡◌, refl, sym, ap, String, Bool, true, false, ◌&&◌, List, [], ◌∷◌, length, eq_iff, str_eq,
  Bool-cases, inl, inr, not, is_nonempty, arith,
}

-- A clean path: its names, last first. With no name it is "/" or ".".
pub record FilePath : Type 0 where
  pub rooted : Bool
  pub names : List String

-- `filepath.Dir`: the last name is dropped; "/" and "." are their own directories.
unfoldable pub dir_of : List String → List String
dir_of [] = []
dir_of (x ∷ names) = names

unfoldable pub dir : FilePath → FilePath
unfolding dir_of
dir p = record p { names = dir_of p.names }

-- `filepath.Join(p, name)`, where `name` is that of a directory's entry.
unfoldable pub join : FilePath → String → FilePath
join p name = record p { names = name ∷ p.names }

unfoldable pub names_eq : List String → List String → Bool
names_eq [] [] = true
names_eq [] (y ∷ ys) = false
names_eq (x ∷ xs) [] = false
names_eq (x ∷ xs) (y ∷ ys) = str_eq x y && names_eq xs ys

unfoldable pub bool_eq : Bool → Bool → Bool
bool_eq true b = b
bool_eq false true = false
bool_eq false false = true

-- `==` of two paths
unfoldable pub path_eq : FilePath → FilePath → Bool
unfolding names_eq bool_eq
path_eq p q = bool_eq p.rooted q.rooted && names_eq p.names q.names

pub names_eq→eq : (xs ys : List String) → names_eq xs ys ≡ true → xs ≡ ys
unfolding names_eq
names_eq→eq [] [] h = refl
names_eq→eq [] (y ∷ ys) h = cc
names_eq→eq (x ∷ xs) [] h = cc
names_eq→eq (x ∷ xs) (y ∷ ys) h = ground (arith, eq_iff x y, names_eq→eq xs ys)

pub bool_eq→eq : (a b : Bool) → bool_eq a b ≡ true → a ≡ b
unfolding bool_eq
bool_eq→eq true b e = sym e
bool_eq→eq false true e = absurd (ground arith)
bool_eq→eq false false e = refl

pub path_eq→eq : (p q : FilePath) → path_eq p q ≡ true → p ≡ q
unfolding path_eq
path_eq→eq p q e =
    let r : p.rooted ≡ q.rooted = bool_eq→eq _ _ (ground arith) in
    let n : p.names ≡ q.names = names_eq→eq _ _ (ground arith) in
    λ i. record { rooted = r i; names = n i }

names_eq_refl : (xs : List String) → names_eq xs xs ≡ true
unfolding names_eq
names_eq_refl [] = refl
names_eq_refl (x ∷ xs) = ground (arith, eq_iff x x, names_eq_refl xs)

bool_eq_refl : (b : Bool) → bool_eq b b ≡ true
unfolding bool_eq
bool_eq_refl true = refl
bool_eq_refl false = refl

pub path_eq_refl : (p : FilePath) → path_eq p p ≡ true
unfolding path_eq
path_eq_refl p = rw (bool_eq_refl p.rooted) (names_eq_refl p.names)

names_eq-cons : (x : String) (xs : List String) → names_eq xs (x ∷ xs) ≡ false
names_eq-cons x xs = elim (Bool-cases (names_eq xs (x ∷ xs))) [
  | inl e ↦ absurd (omega (arith, ap length (names_eq→eq xs (x ∷ xs) e)))
  | inr e ↦ e
]

abbrev pub at : Bool → List String → FilePath
at r names = record { rooted = r; names = names }

-- A path is its own directory exactly when it has no name.
pub path_eq-dir :
    (r : Bool) (names : List String)
    → path_eq (dir (at r names)) (at r names) ≡ not (is_nonempty names)
unfolding path_eq dir
path_eq-dir true [] = refl
path_eq-dir false [] = refl
path_eq-dir true (x ∷ xs) = names_eq-cons x xs
path_eq-dir false (x ∷ xs) = names_eq-cons x xs

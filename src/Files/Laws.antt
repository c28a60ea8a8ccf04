-- ===== src/Files/Laws.antt =====
-- `FindUp` finds the nearest file of the name, and always ends.
use clustertest.Prelude.{
  ◌≡◌, refl, ℕ, suc, String, Bool, true, false, List, [], ◌∷◌, none, some, length, is_nonempty,
  Bool-cases, Option-cases, inl, inr,
}
use clustertest.Paths.{FilePath, dir, join, at, path_eq-dir}
use clustertest.Files.{ReadDir, Found, found, absent, panicked, has_entry, find_up_loop, find_up}

-- A directory and those above it, nearest first.
unfoldable pub ancestors_of : Bool → List String → List FilePath
ancestors_of r [] = at r [] ∷ []
ancestors_of r (x ∷ names) = at r (x ∷ names) ∷ ancestors_of r names

module _ (read_dir : ReadDir) (name : String) where
  -- How a search through directories may end, as a relation.
  pub data Search : List FilePath → Found → Type 0 where
    nowhere : Search [] absent
    unreadable : {d : FilePath} {ds : List FilePath} → read_dir d ≡ none → Search (d ∷ ds) panicked
    here :
        {d : FilePath} {ds : List FilePath} {entries : List String}
        → read_dir d ≡ some entries
        → has_entry name entries ≡ true
        → Search (d ∷ ds) (found (join d name))
    above :
        {d : FilePath} {ds : List FilePath} {f : Found} {entries : List String}
        → read_dir d ≡ some entries
        → has_entry name entries ≡ false
        → Search ds f
        → Search (d ∷ ds) f

  -- One round of the loop.
  module _ (fuel : ℕ) (r : Bool) (names : List String) where
    round_unreadable :
        read_dir (at r names) ≡ none → find_up_loop read_dir name (suc fuel) (at r names) ≡ panicked
    unfolding find_up_loop
    round_unreadable e = rw (e, find_up_loop)

    round_found :
        (entries : List String)
        → read_dir (at r names) ≡ some entries
        → has_entry name entries ≡ true
        → find_up_loop read_dir name (suc fuel) (at r names) ≡ found (join (at r names) name)
    unfolding find_up_loop
    round_found entries e h = rw (e, find_up_loop) (rw h)

    round_last :
        (entries : List String)
        → read_dir (at r names) ≡ some entries
        → has_entry name entries ≡ false
        → is_nonempty names ≡ false
        → find_up_loop read_dir name (suc fuel) (at r names) ≡ absent
    unfolding find_up_loop
    round_last entries e h l = rw (e, find_up_loop) (rw h (rw path_eq-dir (rw l)))

    round_up :
        (entries : List String)
        → read_dir (at r names) ≡ some entries
        → has_entry name entries ≡ false
        → is_nonempty names ≡ true
        → find_up_loop read_dir name (suc fuel) (at r names)
          ≡ find_up_loop read_dir name fuel (dir (at r names))
    unfolding find_up_loop
    round_up entries e h l = rw (e, find_up_loop) (rw h (rw path_eq-dir (rw l)))

  find_up_loop-Search :
      (r : Bool) (names : List String)
      → Search (ancestors_of r names) (find_up_loop read_dir name (suc (length names)) (at r names))
  unfolding ancestors_of dir
  find_up_loop-Search r [] = elim (Option-cases (read_dir (at r []))) [
    | inl e ↦ rw (round_unreadable 0 r [] e) (unreadable e)
    | inr (entries, e) ↦ elim (Bool-cases (has_entry name entries)) [
      | inl h ↦ rw (round_found 0 r [] entries e h) (here e h)
      | inr h ↦ rw (round_last 0 r [] entries e h refl) (above e h nowhere)
    ]
  ]
  find_up_loop-Search r (x ∷ names) = elim (Option-cases (read_dir (at r (x ∷ names)))) [
    | inl e ↦ rw (round_unreadable _ r (x ∷ names) e) (unreadable e)
    | inr (entries, e) ↦ elim (Bool-cases (has_entry name entries)) [
      | inl h ↦ rw (round_found _ r (x ∷ names) entries e h) (here e h)
      | inr h ↦
          rw (round_up _ r (x ∷ names) entries e h refl) (above e h (find_up_loop-Search r names))
    ]
  ]

-- `FindUp` always ends. It goes through the directory and those above it, nearest first, and stops
-- at the first that has an entry of the name, with the path of that entry, or that cannot be read,
-- with a panic; past the last it returns the empty string.
pub find_up-Search :
    (read_dir : ReadDir) (name : String) (start_dir : FilePath)
    → Search read_dir name
        (ancestors_of start_dir.rooted start_dir.names)
        (find_up read_dir name start_dir)
unfolding find_up
find_up-Search read_dir name start_dir =
    find_up_loop-Search read_dir name start_dir.rooted start_dir.names

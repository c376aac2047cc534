-- ===== src/Overlay/Dict.antt =====
-- The dictionaries of kvfs.py: an assignment to a key that is there keeps its place, and a new key
-- goes to the end.
use minixfs.Prelude.{
  ℕ, ◌+◌, ◌≡◌, ◌∙◌, Bool-cases, inl, inr, refl, Option, none, some, List, [], ◌∷◌, ◌==◌, text_eq,
  text_eq_iff, if◌then◌else◌, arith,
}

-- Directory entries, by name.
abbrev pub Entries : Type 0
Entries = List (List ℕ × ℕ)

unfoldable pub dict_get : List ℕ → Entries → Option ℕ
dict_get k [] = none
dict_get k ((j, v) ∷ d) = if text_eq j k then some v else dict_get k d

unfoldable pub dict_set : List ℕ → ℕ → Entries → Entries
dict_set k v [] = (k, v) ∷ []
dict_set k v ((j, w) ∷ d) = if text_eq j k then (j, v) ∷ d else (j, w) ∷ dict_set k v d

-- Every entry of the key goes; a dictionary has one at most.
unfoldable pub dict_del : List ℕ → Entries → Entries
dict_del k [] = []
dict_del k ((j, w) ∷ d) = let rest = dict_del k d in if text_eq j k then rest else (j, w) ∷ rest

pub dict_get-dict_set :
    (k j : List ℕ) (v : ℕ) (d : Entries)
    → dict_get j (dict_set k v d) ≡ (if text_eq k j then some v else dict_get j d)
unfolding dict_get dict_set
dict_get-dict_set k j v [] = refl
dict_get-dict_set k j v ((i, w) ∷ d) =
    ground (arith, text_eq_iff k j, text_eq_iff i k, text_eq_iff i j, dict_get-dict_set k j v d)

pub dict_get-dict_del :
    (k j : List ℕ) (d : Entries)
    → dict_get j (dict_del k d) ≡ (if text_eq k j then none else dict_get j d)
unfolding dict_get dict_del
dict_get-dict_del k j [] = ground arith
dict_get-dict_del k j ((i, w) ∷ d) =
    ground (arith, text_eq_iff k j, text_eq_iff i k, text_eq_iff i j, dict_get-dict_del k j d)

-- A table of objects, by number.
abbrev pub Table : Type 0 → Type 0
Table V = List (ℕ × V)

module _ {V : Type 0} where
  unfoldable pub table_get : ℕ → Table V → Option V
  table_get k [] = none
  table_get k ((j, v) ∷ d) = if j == k then some v else table_get k d

  unfoldable pub table_set : ℕ → V → Table V → Table V
  table_set k v [] = (k, v) ∷ []
  table_set k v ((j, w) ∷ d) = if j == k then (j, v) ∷ d else (j, w) ∷ table_set k v d

  pub table_get-table_set :
      (k j : ℕ) (v : V) (d : Table V)
      → table_get j (table_set k v d) ≡ (if k == j then some v else table_get j d)
  unfolding table_get table_set
  table_get-table_set k j v [] = refl
  table_get-table_set k j v ((i, w) ∷ d) = ground (arith, table_get-table_set k j v d)

  unfoldable pub table_del : ℕ → Table V → Table V
  table_del k [] = []
  table_del k ((j, w) ∷ d) = if j == k then d else (j, w) ∷ table_del k d

  -- The sum of a number over the objects of the table.
  abbrev pub total : (V → ℕ) → Table V → ℕ
  total w [] = 0
  total w ((k, v) ∷ d) = w v + total w d

  abbrev pub weight : (V → ℕ) → Option V → ℕ
  weight w none = 0
  weight w (some v) = w v

  -- An assignment replaces the share of one object.
  pub total-table_set :
      (w : V → ℕ) (k : ℕ) (v : V) (d : Table V)
      → total w (table_set k v d) + weight w (table_get k d) ≡ total w d + w v
  unfolding table_get table_set
  total-table_set w k v [] = omega arith
  total-table_set w k v ((j, u) ∷ d) = elim (Bool-cases (j == k)) [
    | inl e ↦ rw e (omega arith)
    | inr e ↦ rw e (omega (arith, total-table_set w k v d))
  ]

  pub total-table_del :
      (w : V → ℕ) (k : ℕ) (d : Table V)
      → total w (table_del k d) + weight w (table_get k d) ≡ total w d
  unfolding table_get table_del
  total-table_del w k [] = omega arith
  total-table_del w k ((j, u) ∷ d) = elim (Bool-cases (j == k)) [
    | inl e ↦ rw e (omega arith)
    | inr e ↦ rw e (omega (arith, total-table_del w k d))
  ]

  -- No number stands twice.
  abbrev pub Distinct : Table V → Type 0
  Distinct [] = Unit {0}
  Distinct ((k, v) ∷ d) = (table_get k d ≡ none) × Distinct d

  pub table_set-Distinct : (k : ℕ) (v : V) (d : Table V) → Distinct d → Distinct (table_set k v d)
  unfolding table_get table_set
  table_set-Distinct k v [] h = (refl, tt)
  table_set-Distinct k v ((j, w) ∷ d) (h, hs) = elim (Bool-cases (j == k)) [
    | inl e ↦ rw e (h, hs)
    | inr e ↦ rw e (table_get-table_set k j v d ∙ ground (arith, e, h), table_set-Distinct k v d hs)
  ]

  -- Where each object has no share there is no sum.
  pub total-eq-zero :
      (w : V → ℕ) (d : Table V)
      → Distinct d
      → ((k : ℕ) (v : V) → table_get k d ≡ some v → w v ≡ 0)
      → total w d ≡ 0
  unfolding table_get
  total-eq-zero w [] h all = refl
  total-eq-zero w ((j, v) ∷ d) (h, hs) all =
      let first : w v ≡ 0 = all j v (ground arith) in
      let rest : total w d ≡ 0 = total-eq-zero w d hs (λ k u e. all k u (later j v d h k u e)) in
      omega (arith, first, rest)
    where
      later :
          (j : ℕ) (v : V) (d : Table V)
          → table_get j d ≡ none
          → (k : ℕ) (u : V) → table_get k d ≡ some u
          → table_get k ((j, v) ∷ d) ≡ some u
      later j v d h k u e = ground (arith, h, e)

  pub table_set-table_set :
      (k : ℕ) (u v : V) (d : Table V) → table_set k v (table_set k u d) ≡ table_set k v d
  unfolding table_set
  table_set-table_set k u v [] = ground arith
  table_set-table_set k u v ((j, w) ∷ d) = ground (arith, table_set-table_set k u v d)

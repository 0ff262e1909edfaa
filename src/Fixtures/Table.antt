-- ===== src/Fixtures/Table.antt =====
-- A map of numbers as an association list, for the examples.
use trixter.Prelude.{
  ℕ, ◌≡◌, ◌≢◌, refl, sym, ◌∙◌, ◌⊎◌, inl, inr, true, false, ◌==◌, ==_iff, Bool-cases, if◌then◌else◌,
  List, [], ◌∷◌, map, Memᴰ, Option, none, some, arith,
}
use trixter.Tokio.{DashMap, DashMapLaws}

same : (k : ℕ) → (k == k) ≡ true
same k = ground arith

module _ {V : Type 0} where
  unfoldable pub lookup : List (ℕ × V) → ℕ → Option V
  lookup [] k = none
  lookup (e ∷ m) k = let rest = lookup m k in if e.0 == k then some e.1 else rest

  unfoldable pub delete : List (ℕ × V) → ℕ → List (ℕ × V)
  delete [] k = []
  delete (e ∷ m) k = let rest = delete m k in if e.0 == k then rest else e ∷ rest

  lookup-delete : (m : List (ℕ × V)) (k : ℕ) → lookup (delete m k) k ≡ none
  unfolding lookup delete
  lookup-delete [] k = refl
  lookup-delete (e ∷ m) k = elim (Bool-cases (e.0 == k)) [
    | inl hit ↦ rw hit (lookup-delete m k)
    | inr miss ↦ rw (miss, miss) (lookup-delete m k)
  ]

  lookup-delete_other :
      (m : List (ℕ × V)) (k other : ℕ) → other ≢ k → lookup (delete m k) other ≡ lookup m other
  unfolding lookup delete
  lookup-delete_other [] k other ne = refl
  lookup-delete_other (e ∷ m) k other ne = elim (Bool-cases (e.0 == k)) [
    | inl hit ↦
        let miss : (e.0 == other) ≡ false = ground arith in
        rw (hit, miss) (lookup-delete_other m k other ne)
    | inr miss ↦ rw (miss, lookup-delete_other m k other ne) refl
  ]

  lookup-delete_cases :
      (m : List (ℕ × V)) (k other : ℕ) → (other ≡ k) ⊎ (lookup (delete m k) other ≡ lookup m other)
  lookup-delete_cases m k other = elim (Bool-cases (other == k)) [
    | inl e ↦ inl ((==_iff other k).0 e)
    | inr ne ↦ inr (lookup-delete_other m k other (ground arith))
  ]

  lookup-delete-none :
      (m : List (ℕ × V)) (k other : ℕ) → lookup m other ≡ none → lookup (delete m k) other ≡ none
  lookup-delete-none m k other h = elim (lookup-delete_cases m k other) [
    | inl e ↦ rw e (lookup-delete m k)
    | inr kept ↦ kept ∙ h
  ]

  key_listed :
      (m : List (ℕ × V)) (k : ℕ) → Memᴰ k (map (λ (e : ℕ × V). e.0) m) ⊎ (lookup m k ≡ none)
  unfolding lookup
  key_listed [] k = inr refl
  key_listed (e ∷ m) k = elim (Bool-cases (e.0 == k)) [
    | inl hit ↦ inl (Memᴰ.head (sym ((==_iff e.0 k).0 hit)))
    | inr miss ↦
        rw miss (elim (key_listed m k) [ inl at ↦ inl (Memᴰ.tail at) | inr gone ↦ inr gone ])
  ]

  -- A new binding goes to the front and hides an older one.
  instance unfoldable pub table : DashMap ℕ V (List (ℕ × V))
  table = record {
    get = lookup;
    update = λ m k v. (k, v) ∷ m;
    insert = λ m k v. (k, v) ∷ m;
    remove = λ m k. (lookup m k, delete m k);
    entries = λ m. m;
  }

  pub table_laws : DashMapLaws table
  unfolding table lookup
  table_laws = record {
    get-update = λ m k v. rw (same k) refl;
    get-insert = λ m k v. rw (same k) refl;
    get-update_other =
        λ m k other v ne. let miss : (k == other) ≡ false = ground arith in rw miss refl;
    get-insert_other =
        λ m k other v ne. let miss : (k == other) ≡ false = ground arith in rw miss refl;
    remove_gets = λ m k. refl;
    get-remove = lookup-delete;
    get-remove_none = lookup-delete-none;
    get-remove_other = lookup-delete_cases;
    entries_all = key_listed;
  }

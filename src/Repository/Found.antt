-- ===== src/Repository/Found.antt =====
-- What `findOne` returns after a row has been saved.
use aio_t_cloud.Base.{
  List, [], ◌∷◌, Memᴰ, is_empty, false, ap, Text, ◌==◌, eq_iff, eq_refl, Bool, true, some, ◌≡◌, ◌∙◌,
  refl, sym, arith, inl, inr, Bool-cases, Option-cases,
}
use aio_t_cloud.Repository.{Repository}

mem-not_empty : {Row : Type 0} {r : Row} (rs : List Row) → Memᴰ r rs → is_empty rs ≡ true → ⊥
mem-not_empty [] m e = elim m [ ]
mem-not_empty (x ∷ rs) m e = ground arith

module _ {Row : Type 0} {key : Row → Text} (R : Repository Row key) where
  -- At most one row passes the test, with this key.
  abbrev pub IsOnly : (Row → Bool) → Text → R.Table → Type 0
  IsOnly p i t = (j : Text) (r : Row) → R.row t j ≡ some r → p r ≡ true → i ≡ j

  -- The only row that passes a test is found, in what has been saved for it.
  pub find_one-save :
      (p : Row → Bool) (t : R.Table) (r : Row)
      → IsOnly p (key r) t
      → p r ≡ true
      → R.find_one p (R.save r t) ≡ some r
  find_one-save p t r only fits =
      let there : R.row (R.save r t) (key r) ≡ some r =
        R.row-save r t (key r) ∙ rw (eq_refl (key r)) refl in
      elim (Option-cases (R.find_one p (R.save r t))) [
        | inl lost ↦ absurd (ground (arith, R.find_one-none p (R.save r t) (key r) r lost there))
        | inr (x, e) ↦
            let (kept, passes) = R.find_one-some p (R.save r t) x e in
            e ∙ elim (Bool-cases (key r == key x)) [
              | inl same ↦ sym kept ∙ R.row-save r t (key x) ∙ rw same refl
              | inr differs ↦
                  let old : R.row t (key x) ≡ some x =
                    sym (R.row-save r t (key x) ∙ rw differs refl) ∙ kept in
                  absurd (ground (arith, eq_iff (key r) (key x), only (key x) x old passes))
            ]
      ]

  -- A row that is left after a removal was there before, and fails the test.
  pub remove-row :
      (p : Row → Bool) (t : R.Table) (i : Text) (r : Row)
      → R.row (R.remove p t) i ≡ some r
      → (R.row t i ≡ some r) × (p r ≡ false)
  remove-row p t i r left = elim (Option-cases (R.row t i)) [
    | inl e ↦ absurd (ground (arith, R.row-remove p t i))
    | inr (s, e) ↦ elim (Bool-cases (p s)) [
      | inl gone ↦ absurd (ground (arith, R.row-remove p t i))
      | inr kept ↦
          let same : s ≡ r = ground (arith, R.row-remove p t i) in
          (e ∙ ap some same, sym (ap p same) ∙ kept)
    ]
  ]

  -- A row that fails the test is left by a removal.
  pub row-remove_other :
      (p : Row → Bool) (t : R.Table) (i : Text) (r : Row)
      → R.row t i ≡ some r
      → p r ≡ false
      → R.row (R.remove p t) i ≡ some r
  row-remove_other p t i r stored kept = R.row-remove p t i ∙ rw (stored, kept) refl

  -- If a search finds nothing, every row fails the test.
  pub find-empty :
      (p : Row → Bool) (t : R.Table) (i : Text) (r : Row)
      → is_empty (R.find p t) ≡ true
      → R.row t i ≡ some r
      → p r ≡ false
  find-empty p t i r nothing stored = elim (Bool-cases (p r)) [
    | inr fails ↦ fails
    | inl fits ↦ absurd (mem-not_empty (R.find p t) (R.find_complete p t i r stored fits) nothing)
  ]

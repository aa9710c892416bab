-- ===== src/Repository/Updates.antt =====
-- An update by primary key changes that row and no other.
use aio_t_cloud.Base.{
  Text, ◌==◌, eq_iff, eq_refl, Bool, some, ◌≡◌, inl, inr, arith, any, any-mem, any-witness, sym,
  Bool-cases, Option-cases, if◌then◌else◌, ◌∙◌,
}
use aio_t_cloud.Repository.{Repository}

module _ {Row : Type 0} {key : Row → Text} (R : Repository Row key) where
  pub row-update_one :
      (r : Row) (f : Row → Row) (t : R.Table) (i : Text)
      → ((s : Row) → key (f s) ≡ key s)
      → R.row t (key r) ≡ some r
      → R.row (R.update (λ s. key s == key r) f t) i
        ≡ (if key r == i then some (f r) else R.row t i)
  row-update_one r f t i h stored =
      R.row-update (λ s. key s == key r) f t i h ∙ elim (Option-cases (R.row t i)) [
        | inl e ↦ ground (arith, eq_iff (key r) i)
        | inr (s, e) ↦ ground (arith, R.row-key t i s e, eq_iff (key r) i, eq_iff (key s) (key r))
      ]

  -- A stored row is found by a query exactly if it matches.
  pub any-find :
      (p : Row → Bool) (t : R.Table) (i : Text) (r : Row)
      → R.row t i ≡ some r
      → any (λ s. key r == key s) (R.find p t) ≡ p r
  any-find p t i r stored = elim (Bool-cases (p r)) [
    | inl so ↦
        any-mem (λ s. key r == key s) (R.find p t) (R.find_complete p t i r stored so)
          (eq_refl (key r))
        ∙ sym so
    | inr not_so ↦ elim (Bool-cases (any (λ s. key r == key s) (R.find p t))) [
      | inl listed ↦
          let (s, (stored', so), same) =
            any-witness _ (λ s. key r == key s) (R.find p t) (R.find_sound p t) listed in
          absurd (ground (arith, eq_iff (key r) (key s), R.row-key t i r stored))
      | inr unlisted ↦ unlisted ∙ sym not_so
    ]
  ]

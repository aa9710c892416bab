-- ===== src/Repository/Rows.antt =====
-- A table as a list of rows. It shows that the interface can be met, and runs in the tests.
use aio_t_cloud.Base.{
  Text, Option-cases, ◌++◌, length-append, ◌⊎◌, ◌==◌, eq_iff, eq_refl, ℕ, ◌≤◌, ◌≡◌, refl, Bool,
  true, false, not, Option, none, some, List, [], ◌∷◌, Memᴰ, All, All-keep, All-take, mem-keep,
  keep, take, length, length-take-le, if◌then◌else◌, Bool-cases, inl, inr, arith, ltb,
}
use aio_t_cloud.Repository.{Repository, patch, drop_if}

module _ {Row : Type 0} (key : Row → Text) where
  abbrev pub lookup_row : List Row → Text → Option Row
  lookup_row [] i = none
  lookup_row (r ∷ t) i = if key r == i then some r else lookup_row t i

  abbrev pub without : Text → List Row → List Row
  without i = keep (λ r. not (key r == i))

  -- Of several rows with one key the first is the current one.
  abbrev pub current : List Row → List Row
  current [] = []
  current (r ∷ t) = r ∷ without (key r) (current t)

  pub lookup_row-key : (t : List Row) (i : Text) (r : Row) → lookup_row t i ≡ some r → key r ≡ i
  lookup_row-key [] i r h = ground arith
  lookup_row-key (s ∷ t) i r h = ground (arith, lookup_row-key t i r, eq_iff (key s) i)

  current_sound : (t : List Row) → All (λ r. lookup_row t (key r) ≡ some r) (current t)
  current_sound [] = tt
  current_sound (r ∷ t) = (
    rw (eq_refl (key r)),
    All-keep (λ s. lookup_row t (key s) ≡ some s) _ (λ s. not (key s == key r))
        (λ s h k. ground (arith, eq_iff (key s) (key r), eq_iff (key r) (key s))) (current t)
        (current_sound t),
  )

  current_complete :
      (t : List Row) (i : Text) (r : Row) → lookup_row t i ≡ some r → Memᴰ r (current t)
  current_complete [] i r h = absurd (ground arith)
  current_complete (s ∷ t) i r h = elim (Bool-cases (key s == i)) [
    | inl here ↦ Memᴰ.head (ground arith)
    | inr later ↦
        let h' : lookup_row t i ≡ some r = ground arith in
        Memᴰ.tail (
          mem-keep _ (current t) (current_complete t i r h')
            (ground (arith, lookup_row-key t i r h', eq_iff (key s) i, eq_iff (key r) (key s))))
  ]

  lookup_row-without :
      (i j : Text) (t : List Row)
      → lookup_row (without i t) j ≡ (if i == j then none else lookup_row t j)
  lookup_row-without i j [] = ground arith
  lookup_row-without i j (r ∷ t) =
      ground (arith, lookup_row-without i j t, eq_iff (key r) i, eq_iff (key r) j, eq_iff i j)

  abbrev pub matching : (Row → Bool) → List Row → List Row
  matching p t = keep p (current t)

  pub matching_sound :
      (p : Row → Bool) (t : List Row)
      → All (λ r. (lookup_row t (key r) ≡ some r) × (p r ≡ true)) (matching p t)
  matching_sound p t =
      All-keep (λ r. lookup_row t (key r) ≡ some r) _ p (λ r h k. (h, k)) (current t)
        (current_sound t)

  pub matching_complete :
      (p : Row → Bool) (t : List Row) (i : Text) (r : Row)
      → lookup_row t i ≡ some r
      → p r ≡ true
      → Memᴰ r (matching p t)
  matching_complete p t i r h k = mem-keep p (current t) (current_complete t i r h) k

module _ {A : Type 0} (date : A → ℕ) where
  abbrev pub newer : A → Option A → A
  newer x none = x
  newer x (some s) = if ltb (date x) (date s) then s else x

  abbrev pub newest : List A → Option A
  newest [] = none
  newest (x ∷ t) = some (newer x (newest t))

  newer-cases : (x : A) (o : Option A) → (newer x o ≡ x) ⊎ (o ≡ some (newer x o))
  newer-cases x none = inl refl
  newer-cases x (some s) = elim (Bool-cases (ltb (date x) (date s))) [
    | inl older ↦ rw older (inr refl)
    | inr same ↦ rw same (inl refl)
  ]

  pub newest-All : (P : A → Type 0) (t : List A) (r : A) → newest t ≡ some r → All P t → P r
  newest-All P [] r h k = absurd (ground arith)
  newest-All P (x ∷ t) r h (k, ks) = elim (newer-cases x (newest t)) [
    | inl first ↦ let e : r ≡ x = ground arith in rw e k
    | inr later ↦ newest-All P t r (ground arith) ks
  ]

  newest-none : (t : List A) (s : A) → newest t ≡ none → Memᴰ s t → ⊥
  newest-none [] s h m = elim m [ ]
  newest-none (x ∷ t) s h m = ground arith

  pub newest_max : (t : List A) (r s : A) → newest t ≡ some r → Memᴰ s t → date s ≤ date r
  newest_max [] r s h m = elim m [ ]
  newest_max (x ∷ t) r s h (Memᴰ.head e) = elim (Option-cases (newest t)) [
    | inl only ↦ ground arith
    | inr (y, later) ↦ ground arith
  ]
  newest_max (x ∷ t) r s h (Memᴰ.tail m) = elim (Option-cases (newest t)) [
    | inl only ↦ absurd (newest-none t s only m)
    | inr (y, later) ↦ ground (arith, newest_max t y s later m)
  ]

  -- Insertion of a row into rows that stand newest first.
  abbrev pub insert_newest : A → List A → List A
  insert_newest x [] = x ∷ []
  insert_newest x (y ∷ t) = if ltb (date x) (date y) then y ∷ insert_newest x t else x ∷ y ∷ t

  abbrev pub newest_first : List A → List A
  newest_first [] = []
  newest_first (x ∷ t) = insert_newest x (newest_first t)

  insert_newest-All :
      (P : A → Type 0) (x : A) (t : List A) → P x → All P t → All P (insert_newest x t)
  insert_newest-All P x [] p h = (p, tt)
  insert_newest-All P x (y ∷ t) p (q, h) = elim (Bool-cases (ltb (date x) (date y))) [
    | inl older ↦ rw older (q, insert_newest-All P x t p h)
    | inr same ↦ rw same (p, (q, h))
  ]

  pub newest_first-All : (P : A → Type 0) (t : List A) → All P t → All P (newest_first t)
  newest_first-All P [] h = tt
  newest_first-All P (x ∷ t) (p, h) =
      insert_newest-All P x (newest_first t) p (newest_first-All P t h)

module _ {Row : Type 0} (key : Row → Text) where
  abbrev pub change : (Row → Bool) → (Row → Row) → List Row → List Row
  change p f [] = []
  change p f (r ∷ t) = (if p r then f r else r) ∷ change p f t

  pub lookup_row-change :
      (p : Row → Bool) (f : Row → Row) (t : List Row) (i : Text)
      → ((r : Row) → key (f r) ≡ key r)
      → lookup_row key (change p f t) i ≡ patch p f (lookup_row key t i)
  lookup_row-change p f [] i h = refl
  lookup_row-change p f (r ∷ t) i h = elim (Bool-cases (p r)) [
    | inl hit ↦
        rw (hit, h r)
          (elim (Bool-cases (key r == i)) [
            | inl here ↦ rw (here) (rw hit)
            | inr other ↦ rw (other) (lookup_row-change p f t i h)
          ])
    | inr miss ↦ rw miss (elim (Bool-cases (key r == i)) [
      | inl here ↦ rw (here) (rw miss)
      | inr other ↦ rw (other) (lookup_row-change p f t i h)
    ])
  ]

  -- A text longer than every key.
  abbrev pub fresh_key : List Row → Text
  fresh_key [] = b'0' ∷ []
  fresh_key (r ∷ t) = b'0' ∷ (key r ++ fresh_key t)

  pub lookup_row_of_long :
      (t : List Row) (i : Text) → length (fresh_key t) ≤ length i → lookup_row key t i ≡ none
  lookup_row_of_long [] i h = refl
  lookup_row_of_long (r ∷ t) i h =
      ground (arith, lookup_row_of_long t i, eq_iff (key r) i, length-append (key r) (fresh_key t))

  keep-without :
      (q : Row → Bool) (i : Text) (t : List Row)
      → keep q (without key i t) ≡ without key i (keep q t)
  keep-without q i [] = refl
  keep-without q i (r ∷ t) = ground (arith, keep-without q i t)

  pub lookup_row-remove :
      (p : Row → Bool) (t : List Row) (i : Text)
      → lookup_row key (keep (λ r. not (p r)) (current key t)) i ≡ drop_if p (lookup_row key t i)
  lookup_row-remove p [] i = refl
  lookup_row-remove p (r ∷ t) i = ground (
    arith,
    keep-without (λ s. not (p s)) (key r) (current key t),
    lookup_row-without key (key r) i (keep (λ s. not (p s)) (current key t)),
    lookup_row-remove p t i,
  )

  pub newest-matching-none :
      (p : Row → Bool) (date : Row → ℕ) (t : List Row) (i : Text) (r : Row)
      → newest date (matching key p t) ≡ none
      → lookup_row key t i ≡ some r
      → p r ≡ false
  newest-matching-none p date t i r h k = elim (Bool-cases (p r)) [
    | inl hit ↦
        absurd (newest-none date (matching key p t) r h (matching_complete key p t i r k hit))
    | inr miss ↦ miss
  ]

  abbrev pub rows_repository : Repository Row key
  rows_repository = record {
    Table = List Row;
    row = lookup_row key;
    row-key = lookup_row-key key;
    find = matching key;
    find_sound = matching_sound key;
    find_complete = matching_complete key;
    find_one = λ p t. newest (λ _. 0) (matching key p t);
    find_one-some =
        λ p t r h. newest-All (λ _. 0) _ (matching key p t) r h (matching_sound key p t);
    find_one-none = λ p t i r h k. newest-matching-none p (λ _. 0) t i r h k;
    find_latest = λ p date t. newest date (matching key p t);
    find_latest-some =
        λ p date t r h. newest-All date _ (matching key p t) r h (matching_sound key p t);
    find_latest_newest = λ p date t i r s h k q.
        newest_max date (matching key p t) r s h (matching_complete key p t i s k q);
    find_latest-none = newest-matching-none;
    find_page = λ p date n t. take n (newest_first date (matching key p t));
    find_page_sound = λ p date n t.
        All-take _ n _ (newest_first-All date _ (matching key p t) (matching_sound key p t));
    length-find_page = λ p date n t. length-take-le n (newest_first date (matching key p t));
    save = λ r t. r ∷ t;
    row-save = λ r t i. refl;
    update = change;
    row-update = lookup_row-change;
    remove = λ p t. keep (λ r. not (p r)) (current key t);
    row-remove = lookup_row-remove;
    next_id = fresh_key;
    next_id_fresh = λ t. lookup_row_of_long t (fresh_key t) (omega arith);
  }

-- ===== src/Accounts/Secrets.antt =====
-- A device secret works from its creation to its revocation: src/modules/device/device-secret.service.ts.
use aio_t_cloud.Base.{
  Text, ◌==◌, eq_iff, eq_refl, ℕ, true, false, Option, some, is_some, ◌≡◌, ◌≢◌, ◌∙◌, refl, sym, ap,
  arith, inl, inr, ◌⊎◌, Bool-cases, Option-cases, if◌then◌else◌,
}
use aio_t_cloud.Repository.{Repository}
use aio_t_cloud.Accounts.{Crypto, DeviceSecret, Vault, is_live_hash, create_secret, revoke, verify}

-- The row after `revoke`.
abbrev revoked : ℕ → DeviceSecret → DeviceSecret
revoked now s = if is_some s.revoked_at then s else record s { revoked_at = some now }

revoked-keeps :
    (now : ℕ) (s : DeviceSecret) (h : Text)
    → ((revoked now s).secret_hash ≡ s.secret_hash) × (is_live_hash h (revoked now s) ≡ false)
revoked-keeps now s h = elim (Option-cases s.revoked_at) [
  | inl live ↦ rw live (refl, ground arith)
  | inr (t, gone) ↦ rw gone (refl, ground arith)
]

module _ {R : Repository DeviceSecret (λ s. s.id)} where
  -- The unique index on the hash.
  abbrev pub HasOneHash : Vault R → Type 0
  HasOneHash v =
      (i j : Text) (a b : DeviceSecret)
      → R.row v.secrets i ≡ some a
      → R.row v.secrets j ≡ some b
      → a.secret_hash ≡ b.secret_hash
      → i ≡ j

  -- A stored row that fits makes its secret valid.
  pub row-verify :
      (c : Crypto) (secret : Text) (v : Vault R) (i : Text) (s : DeviceSecret)
      → R.row v.secrets i ≡ some s
      → is_live_hash (c.digest secret) s ≡ true
      → verify c secret v ≡ true
  unfolding verify
  row-verify c secret v i s stored live =
      elim (Option-cases (R.find_one (is_live_hash (c.digest secret)) v.secrets)) [
        | inl lost ↦ absurd (
            ground
              (arith, R.find_one-none (is_live_hash (c.digest secret)) v.secrets i s lost stored))
        | inr (r, e) ↦ rw e refl
      ]

  -- A secret is valid only because of a stored row that fits.
  pub verify-row :
      (c : Crypto) (secret : Text) (v : Vault R)
      → verify c secret v ≡ true
      → (s : DeviceSecret) × (R.row v.secrets s.id ≡ some s)
        × (is_live_hash (c.digest secret) s ≡ true)
  unfolding verify
  verify-row c secret v h =
      elim (Option-cases (R.find_one (is_live_hash (c.digest secret)) v.secrets)) [
        | inl lost ↦ absurd (ground arith)
        | inr (r, e) ↦
            let (stored, fits) = R.find_one-some (is_live_hash (c.digest secret)) v.secrets r e in
            (r, stored, fits)
      ]

  -- The row that `create` has stored.
  create_secret-row :
      (c : Crypto) (user_id : Text) (label : Option Text) (v : Vault R)
      → R.row (create_secret c user_id label v).1.secrets (R.next_id v.secrets)
        ≡ some (create_secret c user_id label v).0.device_secret
  unfolding create_secret
  create_secret-row c user_id label v =
      R.row-save (create_secret c user_id label v).0.device_secret v.secrets (R.next_id v.secrets)
      ∙ rw (eq_refl (R.next_id v.secrets)) refl

  -- The text that `create` hands out is valid at once.
  pub verify-create_secret :
      (c : Crypto) (user_id : Text) (label : Option Text) (v : Vault R)
      → verify c (create_secret c user_id label v).0.plaintext (create_secret c user_id label v).1
        ≡ true
  unfolding create_secret
  verify-create_secret c user_id label v =
      let r = create_secret c user_id label v in
      row-verify c r.0.plaintext r.1 (R.next_id v.secrets) r.0.device_secret
        (create_secret-row c user_id label v) (rw (eq_refl (c.digest (c.random v.drawn))) refl)

  -- The table after `revoke`.
  row-revoke :
      (now : ℕ) (i : Text) (v : Vault R) (s : DeviceSecret) (j : Text)
      → R.row v.secrets i ≡ some s
      → R.row (revoke now i v).1.secrets j
        ≡ (if i == j then some (revoked now s) else R.row v.secrets j)
  unfolding revoke
  row-revoke now i v s j stored = elim (Bool-cases (is_some s.revoked_at)) [
    | inr live ↦
        rw (stored, live, revoke)
          (R.row-save (record s { revoked_at = some now }) v.secrets j
            ∙ rw (R.row-key v.secrets i s stored) refl)
    | inl gone ↦
        rw (stored, gone, revoke)
          (elim (Bool-cases (i == j)) [
            | inl same ↦
                let e : i ≡ j = ground (arith, eq_iff i j) in
                rw same (ap (R.row v.secrets) (sym e) ∙ stored)
            | inr other ↦ rw other refl
          ])
  ]

  -- Every row after `revoke` is the revoked one or an old one.
  revoke-cases :
      (now : ℕ) (i : Text) (v : Vault R) (s r : DeviceSecret)
      → R.row v.secrets i ≡ some s
      → R.row (revoke now i v).1.secrets r.id ≡ some r
      → (r ≡ revoked now s) ⊎ ((R.row v.secrets r.id ≡ some r) × (i ≢ r.id))
  revoke-cases now i v s r stored there = elim (Bool-cases (i == r.id)) [
    | inl same ↦ inl (ground (arith, row-revoke now i v s r.id stored))
    | inr other ↦
        inr (ground (arith, row-revoke now i v s r.id stored), ground (arith, eq_iff i r.id))
  ]

  -- In a table where no two rows share a hash, a secret is refused after its row has been revoked.
  pub verify-revoke :
      (c : Crypto) (now : ℕ) (i secret : Text) (v : Vault R) (s : DeviceSecret)
      → HasOneHash v
      → R.row v.secrets i ≡ some s
      → s.secret_hash ≡ c.digest secret
      → verify c secret (revoke now i v).1 ≡ false
  verify-revoke c now i secret v s one stored own =
      elim (Bool-cases (verify c secret (revoke now i v).1)) [
        | inr refused ↦ refused
        | inl valid ↦
            let (r, there, fits) = verify-row c secret (revoke now i v).1 valid in
            absurd (elim (revoke-cases now i v s r stored there) [
              | inl same ↦ ground (arith, revoked-keeps now s (c.digest secret))
              | inr (old, other) ↦ other (
                  one i r.id s r stored old
                    (ground (arith, eq_iff r.secret_hash (c.digest secret))))
            ])
      ]

  -- Calls of the service that revoke only rows that are allowed.
  pub data VaultStep (c : Crypto) (P : Text → Type 0) (v : Vault R) : Vault R → Type 0 where
    creating :
        (user_id : Text) (label : Option Text) → VaultStep c P v (create_secret c user_id label v).1
    revoking : (now : ℕ) (i : Text) → P i → VaultStep c P v (revoke now i v).1

  pub data VaultRun (c : Crypto) (P : Text → Type 0) (v : Vault R) : Vault R → Type 0 where
    unchanged : VaultRun c P v v
    followed : {u x : Vault R} → VaultRun c P v u → VaultStep c P u x → VaultRun c P v x

  -- A creation keeps every row.
  row-create_secret :
      (c : Crypto) (user_id : Text) (label : Option Text) (v : Vault R) (i : Text)
      (s : DeviceSecret)
      → R.row v.secrets i ≡ some s
      → R.row (create_secret c user_id label v).1.secrets i ≡ some s
  unfolding create_secret
  row-create_secret c user_id label v i s stored =
      R.row-save (create_secret c user_id label v).0.device_secret v.secrets i
      ∙ ground (arith, eq_iff (R.next_id v.secrets) i, R.next_id_fresh v.secrets)

  -- A revocation keeps the rows that are not its own, and its own if it has been revoked.
  row-revoke_kept :
      (now : ℕ) (j i : Text) (v : Vault R) (s : DeviceSecret)
      → R.row v.secrets i ≡ some s
      → (j ≢ i) ⊎ (is_some s.revoked_at ≡ true)
      → R.row (revoke now j v).1.secrets i ≡ some s
  unfolding revoke
  row-revoke_kept now j i v s stored h = elim (Option-cases (R.row v.secrets j)) [
    | inl gone ↦ rw (gone, revoke) stored
    | inr (t, there) ↦ row-revoke now j v t i there ∙ elim (Bool-cases (j == i)) [
      | inr other ↦ rw other stored
      | inl same ↦
          let e : j ≡ i = (eq_iff j i).0 same in
          let is : t ≡ s = ground (arith, rw e at there) in
          rw same (elim h [
            | inl differs ↦ absurd (differs e)
            | inr dead ↦ ap some (ap (revoked now) is ∙ rw dead refl)
          ])
    ]
  ]

  VaultRun-live :
      (c : Crypto) (i : Text) {v u : Vault R} (s : DeviceSecret)
      → VaultRun c (λ j. j ≢ i) v u
      → R.row v.secrets i ≡ some s
      → R.row u.secrets i ≡ some s
  VaultRun-live c i s unchanged h = h
  VaultRun-live c i s (followed {u} r (creating user_id label)) h =
      row-create_secret c user_id label u i s (VaultRun-live c i s r h)
  VaultRun-live c i s (followed {u} r (revoking now j other)) h =
      row-revoke_kept now j i u s (VaultRun-live c i s r h) (inl other)

  VaultRun-dead :
      (c : Crypto) (i : Text) {v u : Vault R} (s : DeviceSecret)
      → VaultRun c (λ j. Unit) v u
      → is_some s.revoked_at ≡ true
      → R.row v.secrets i ≡ some s
      → R.row u.secrets i ≡ some s
  VaultRun-dead c i s unchanged dead h = h
  VaultRun-dead c i s (followed {u} r (creating user_id label)) dead h =
      row-create_secret c user_id label u i s (VaultRun-dead c i s r dead h)
  VaultRun-dead c i s (followed {u} r (revoking now j _)) dead h =
      row-revoke_kept now j i u s (VaultRun-dead c i s r dead h) (inr dead)

  -- A secret whose only row has been revoked is refused.
  verify-dead :
      (c : Crypto) (secret i : Text) (v : Vault R) (s : DeviceSecret)
      → HasOneHash v
      → R.row v.secrets i ≡ some s
      → is_some s.revoked_at ≡ true
      → s.secret_hash ≡ c.digest secret
      → verify c secret v ≡ false
  verify-dead c secret i v s one stored dead own = elim (Bool-cases (verify c secret v)) [
    | inr refused ↦ refused
    | inl valid ↦
        let (r, there, fits) = verify-row c secret v valid in
        let e : i ≡ r.id =
          one i r.id s r stored there
            (own ∙ sym (ground (arith, eq_iff r.secret_hash (c.digest secret)))) in
        let is : s ≡ r = ground (arith, rw e at stored) in absurd (ground arith)
  ]

  -- The text that `create` hands out is valid after any creations, and any revocations of other rows.
  -- Once its row has been revoked, it is refused after any further creations and revocations that leave
  -- no two rows with one hash.
  pub verify-revoke-create_secret :
      (c : Crypto) (user_id : Text) (label : Option Text) (now : ℕ) (v u x : Vault R)
      → VaultRun c
          (λ j. j ≢ (create_secret c user_id label v).0.device_secret.id)
          (create_secret c user_id label v).1
          u
      → VaultRun c
          (λ j. Unit)
          (revoke now (create_secret c user_id label v).0.device_secret.id u).1
          x
      → HasOneHash x
      → (verify c (create_secret c user_id label v).0.plaintext u ≡ true)
        × (verify c (create_secret c user_id label v).0.plaintext x ≡ false)
  unfolding create_secret
  verify-revoke-create_secret c user_id label now v u x before after one =
      let i : Text = R.next_id v.secrets in
      let s : DeviceSecret = (create_secret c user_id label v).0.device_secret in
      let live : R.row u.secrets i ≡ some s =
        VaultRun-live c i s before (create_secret-row c user_id label v) in
      let gone : R.row (revoke now i u).1.secrets i ≡ some (revoked now s) =
        row-revoke now i u s i live ∙ rw (eq_refl i) refl in
      (
        row-verify c (c.random v.drawn) u i s live
            (rw (eq_refl (c.digest (c.random v.drawn))) refl),
        verify-dead c (c.random v.drawn) i x (revoked now s) one
            (VaultRun-dead c i (revoked now s) after refl gone) refl refl,
      )

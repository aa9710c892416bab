-- ===== src/Notification/Tokens.antt =====
-- A browser that registers for web push and unregisters leaves no trace.
use aio_t_cloud.Base.{
  Text, ◌==◌, ◌&&◌, ◌++◌, eq_iff, eq_refl, true, false, some, List, [], ◌∷◌, any, ◌≡◌, ◌∙◌, refl,
  sym, ap, arith, inl, inr, Bool-cases, Option-cases, if◌then◌else◌,
}
use aio_t_cloud.Constants.{NotificationChannelType, zalo, web_push, same_channel}
use aio_t_cloud.Notification.{
  NotificationConfig, NotificationStore, Office, config_row, find_config, web_push_tokens,
  add_token, remove_token, register_web_push_token, unregister_web_push_token, save_config,
}

-- No token is held twice.
abbrev pub IsDistinct : List Text → Type 0
IsDistinct [] = Unit
IsDistinct (t ∷ ts) = (any (λ s. s == t) ts ≡ false) × IsDistinct ts

any-append :
    (t u : Text) (ts : List Text)
    → any (λ s. s == t) (ts ++ u ∷ []) ≡ (if u == t then true else any (λ s. s == t) ts)
any-append t u [] = ground arith
any-append t u (s ∷ ts) = ground (arith, any-append t u ts)

append-IsDistinct :
    (t : Text) (ts : List Text)
    → IsDistinct ts
    → any (λ s. s == t) ts ≡ false
    → IsDistinct (ts ++ t ∷ [])
append-IsDistinct t [] h k = ground arith
append-IsDistinct t (s ∷ ts) (h, hs) k = (
  any-append s t ts ∙ ground (arith, eq_iff t s, eq_iff s t),
  append-IsDistinct t ts hs (ground arith),
)

-- A token is held once it has been added, and tokens that were distinct stay so.
pub add_token-IsDistinct :
    (t : Text) (ts : List Text)
    → IsDistinct ts
    → IsDistinct (add_token t ts) × (any (λ s. s == t) (add_token t ts) ≡ true)
unfolding add_token
add_token-IsDistinct t ts h = elim (Bool-cases (any (λ s. s == t) ts)) [
  | inl held ↦ rw held (h, held)
  | inr new ↦ rw new (append-IsDistinct t ts h new, any-append t t ts ∙ rw (eq_refl t) refl)
]

remove_token-absent :
    (t : Text) (ts : List Text) → any (λ s. s == t) ts ≡ false → remove_token t (ts ++ t ∷ []) ≡ ts
unfolding remove_token
remove_token-absent t [] h = ground (arith, eq_refl t)
remove_token-absent t (s ∷ ts) h = ground (arith, remove_token-absent t ts)

pub remove_token-add_token :
    (t : Text) (ts : List Text)
    → any (λ s. s == t) ts ≡ false
    → remove_token t (add_token t ts) ≡ ts
unfolding add_token
remove_token-add_token t ts h = rw h (remove_token-absent t ts h)

abbrev with_tokens : List Text → NotificationConfig → NotificationConfig
with_tokens ts c = record c { config = some (web_push_tokens ts) }

both_push :
    (a b : NotificationChannelType)
    → same_channel a web_push ≡ true
    → same_channel b web_push ≡ true
    → same_channel a b ≡ true
both_push zalo b h k = absurd (ground arith)
both_push web_push zalo h k = absurd (ground arith)
both_push web_push web_push h k = refl

module _ {S : NotificationStore} where
  -- The unique index on a user and a channel.
  abbrev pub HasOneConfig : Office S → Type 0
  HasOneConfig o =
      (i j : Text) (a b : NotificationConfig)
      → config_row i o ≡ some a
      → config_row j o ≡ some b
      → a.user_id ≡ b.user_id
      → same_channel a.channel b.channel ≡ true
      → i ≡ j

  found_config :
      (user_id : Text) (o : Office S) (c : NotificationConfig)
      → find_config user_id web_push o ≡ some c
      → (config_row c.id o ≡ some c)
        × (c.user_id ≡ user_id)
        × (same_channel c.channel web_push ≡ true)
  found_config user_id o c h =
      let (stored, fits) =
        S.config_repository.find_one-some
          (λ x. x.user_id == user_id && same_channel x.channel web_push) o.configs c h in
      (stored, ground (arith, eq_iff c.user_id user_id), ground arith)

  saved_row :
      (c : NotificationConfig) (i : Text) (o : Office S)
      → config_row i (save_config c o) ≡ (if c.id == i then some c else config_row i o)
  saved_row c i o = S.config_repository.row-save c o.configs i

  -- The configuration of a user and channel is found again after it has been saved.
  found_saved :
      (user_id : Text) (o : Office S) (c : NotificationConfig) (ts : List Text)
      → HasOneConfig o
      → find_config user_id web_push o ≡ some c
      → find_config user_id web_push (save_config (with_tokens ts c) o) ≡ some (with_tokens ts c)
  found_saved user_id o c ts one h =
      let c' : NotificationConfig = with_tokens ts c in
      let o1 : Office S = save_config c' o in
      let (stored, own, push) = found_config user_id o c h in
      let there : config_row c.id o1 ≡ some c' = saved_row c' c.id o ∙ rw (eq_refl c.id) refl in
      elim (Option-cases (find_config user_id web_push o1)) [
        | inl lost ↦ absurd (
            ground (
              arith,
              S.config_repository.find_one-none
                  (λ x. x.user_id == user_id && same_channel x.channel web_push) o1.configs c.id c'
                  lost there,
              eq_iff c.user_id user_id,
            ))
        | inr (r, e) ↦
            let (kept, own', push') = found_config user_id o1 r e in
            e ∙ elim (Bool-cases (c.id == r.id)) [
              | inl same ↦ sym kept ∙ saved_row c' r.id o ∙ rw same refl
              | inr differs ↦ absurd (
                  ground (
                    arith,
                    eq_iff c.id r.id,
                    one c.id r.id c r stored (sym (saved_row c' r.id o ∙ rw differs refl) ∙ kept)
                        (own ∙ sym own') (both_push c.channel r.channel push push'),
                  ))
            ]
      ]

  -- For a user who has one configuration for web push, with some tokens, none of them the new one:
  -- registering the new token and unregistering it leaves every row of the table as it was.
  pub unregister_web_push_token-register_web_push_token :
      (user_id token i : Text) (o : Office S) (c : NotificationConfig) (t : Text) (ts : List Text)
      → HasOneConfig o
      → find_config user_id web_push o ≡ some c
      → c.config ≡ some (web_push_tokens (t ∷ ts))
      → any (λ s. s == token) (t ∷ ts) ≡ false
      → config_row i
          (unregister_web_push_token user_id token (register_web_push_token user_id token o).1).1
        ≡ config_row i o
  unfolding unregister_web_push_token register_web_push_token
  unregister_web_push_token-register_web_push_token user_id token i o c t ts one h k new =
      let added : List Text = add_token token (t ∷ ts) in
      let c' : NotificationConfig = with_tokens added c in
      let o1 : Office S = save_config c' o in
      let (stored, _, _) = found_config user_id o c h in
      let registered : (register_web_push_token user_id token o).1 ≡ o1 =
        rw (h, k, register_web_push_token) refl in
      let again : find_config user_id web_push o1 ≡ some c' = found_saved user_id o c added one h in
      let back : with_tokens (t ∷ ts) c ≡ c = ap (λ x. record c { config = x }) (sym k) in
      let restored : (unregister_web_push_token user_id token o1).1 ≡ save_config c o1 =
        rw (again, remove_token-add_token token (t ∷ ts) new, back, unregister_web_push_token)
          refl in
      ap (λ (x : Office S). config_row i (unregister_web_push_token user_id token x).1) registered
      ∙ ap (λ (x : Office S). config_row i x) restored
      ∙ saved_row c i o1
      ∙ rw (saved_row c' i o) (elim (Bool-cases (c.id == i)) [
        | inl here ↦
            let e : c.id ≡ i = (eq_iff c.id i).0 here in
            rw here (sym stored ∙ ap (λ j. config_row j o) e)
        | inr other ↦ rw other
      ])

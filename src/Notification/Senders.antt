-- ===== src/Notification/Senders.antt =====
-- The two senders: zalo-notification.sender.ts and firebase-notification.sender.ts in
-- src/modules/notification/senders. What the outside services answer is a parameter, for the n-th call. What is
-- posted to them, such as a text cut at 2000 units, is not.
use aio_t_cloud.Base.{
  Text, codes, ◌==◌, ◌||◌, ◌++◌, ℕ, Bool, not, ◌&&◌, Option, none, some, List, [], ◌∷◌, any, keep,
  length, is_empty, is_truthy, if◌then◌else◌,
}
use aio_t_cloud.Constants.{NotificationChannelType, zalo, web_push}
use aio_t_cloud.Notification.Rows.{
  zalo_chat, web_push_tokens, NotificationConfig, NotificationStore, Office, save_config,
}

-- What a call of an outside service comes to: an exception with a message, or an answer.
pub data Outcome (A : Type 0) : Type 0 where
  thrown : Text → Outcome A
  answered : A → Outcome A

-- The answers of Zalo (`response.ok && body.ok`) and of Firebase (the error code of each token), and
-- the configuration that the senders read.
pub record Outside : Type 0 where
  pub zalo_enabled : Bool
  pub has_send_message_url : Bool
  pub zalo_answer : ℕ → Outcome Bool
  pub firebase_enabled : Bool
  -- `admin.apps.length > 0`
  pub has_firebase_app : Bool
  pub firebase_answer : ℕ → Outcome (List (Option Text))
  -- `senderByChannel.has(channel)`
  pub has_sender : NotificationChannelType → Bool

-- `STALE_TOKEN_ERROR_CODES.has(errorCode)`
unfoldable pub is_stale_code : Text → Bool
is_stale_code c =
    c == codes "messaging/invalid-registration-token"
    || c == codes "messaging/registration-token-not-registered"

-- `staleTokens`; an empty token is not added, and an answer beyond the tokens has none.
unfoldable pub stale_tokens : List Text → List (Option Text) → List Text
unfolding is_stale_code
stale_tokens [] _ = []
stale_tokens (t ∷ ts) [] = []
stale_tokens (t ∷ ts) (none ∷ cs) = stale_tokens ts cs
stale_tokens (t ∷ ts) (some c ∷ cs) =
    let rest = stale_tokens ts cs in if is_truthy t && is_stale_code c then t ∷ rest else rest

-- `fcmTokens.filter((token) => !staleTokens.has(token))`
abbrev pub fresh_tokens : List Text → List Text → List Text
fresh_tokens stale = keep (λ t. not (any (λ s. s == t) stale))

module _ {S : NotificationStore} where
  -- `send` of the Zalo sender: it throws only where the call itself does, whatever Zalo answers.
  unfoldable pub zalo_send : Outside → NotificationConfig → Office S → Option Text × Office S
  zalo_send e c o = elim c.config [
    | some (zalo_chat _) ↦
        if e.zalo_enabled
        then if e.has_send_message_url
          then elim (e.zalo_answer (length o.handed)) [
            | thrown m ↦ (some m, o)
            | answered _ ↦ (none, o)
          ]
          else (none, o)
        else (none, o)
    | _ ↦ (none, o)
  ]

  -- The tokens that Firebase has named stale are taken off the configuration.
  unfoldable pub drop_stale :
      NotificationConfig → List Text → List (Option Text) → Office S → Office S
  unfolding stale_tokens
  drop_stale c tokens answers o =
      let stale = stale_tokens tokens answers in
      if is_empty stale
      then o
      else save_config (record c { config = some (web_push_tokens (fresh_tokens stale tokens)) }) o

  -- `send` of the Firebase sender.
  unfoldable pub firebase_send : Outside → NotificationConfig → Office S → Option Text × Office S
  unfolding drop_stale
  firebase_send e c o = elim c.config [
    | some (web_push_tokens (t ∷ ts)) ↦
        if e.firebase_enabled
        then if e.has_firebase_app
          then elim (e.firebase_answer (length o.handed)) [
            | thrown m ↦ (some m, o)
            | answered answers ↦ (none, drop_stale c (t ∷ ts) answers o)
          ]
          else (none, o)
        else (none, o)
    | _ ↦ (none, o)
  ]

  -- `sender.send(config, message)`: the message of the exception, if one is thrown.
  unfoldable pub send : Outside → NotificationConfig → Text → Office S → Option Text × Office S
  unfolding zalo_send firebase_send
  send e c text o =
      let (error, o') = (elim c.channel as (λ _. Option Text × Office S) [
        | zalo ↦ zalo_send e c o
        | web_push ↦ firebase_send e c o
      ]) in
      (error, record o' { handed = o'.handed ++ record { channel = c.channel; text = text } ∷ [] })

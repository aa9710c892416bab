-- ===== src/Notification/Sending.antt =====
-- What a sender leaves of the store, and what it throws:
-- src/modules/notification/senders.
use aio_t_cloud.Base.{
  Text, ◌++◌, ℕ, Option, none, some, List, [], ◌∷◌, ◌&&◌, length, if◌then◌else◌, ◌≡◌, arith,
}
use aio_t_cloud.Constants.{zalo, web_push}
use aio_t_cloud.Notification.{
  Outcome, thrown, answered, zalo_chat, web_push_tokens, NotificationConfig, NotificationStore,
  Office, Outside, send, zalo_send, firebase_send, drop_stale,
}

abbrev message_of : {A : Type 0} → Outcome A → Option Text
message_of (thrown m) = some m
message_of (answered _) = none

-- The exception of the sender, if the k-th call of the outside services throws one; a sender that is
-- not configured, or whose channel is not linked, calls none.
abbrev pub thrown_by : Outside → NotificationConfig → ℕ → Option Text
thrown_by e c k = elim c.channel [
  | zalo ↦ elim c.config [
    | some (zalo_chat _) ↦
        if e.zalo_enabled && e.has_send_message_url then message_of (e.zalo_answer k) else none
    | _ ↦ none
  ]
  | web_push ↦ elim c.config [
    | some (web_push_tokens (_ ∷ _)) ↦
        if e.firebase_enabled && e.has_firebase_app then message_of (e.firebase_answer k) else none
    | _ ↦ none
  ]
]

module _ {S : NotificationStore} where
  -- A sender changes no message and no event.
  pub record IsSent (c : NotificationConfig) (text : Text) (o o' : Office S) : Type 0 where
    pub messages : o'.messages ≡ o.messages
    pub created : o'.created ≡ o.created
    pub handed : o'.handed ≡ o.handed ++ record { channel = c.channel; text = text } ∷ []

  drop_stale-keeps :
      (c : NotificationConfig) (tokens : List Text) (answers : List (Option Text)) (o : Office S)
      → let o' = drop_stale c tokens answers o in
        (o'.messages ≡ o.messages) × (o'.created ≡ o.created) × (o'.handed ≡ o.handed)
  unfolding drop_stale
  drop_stale-keeps c tokens answers o = ground arith

  zalo_send-keeps : (e : Outside) (c : NotificationConfig) (o : Office S) → (zalo_send e c o).1 ≡ o
  unfolding zalo_send
  zalo_send-keeps e c o = ground arith

  firebase_send-keeps :
      (e : Outside) (c : NotificationConfig) (o : Office S)
      → let o' = (firebase_send e c o).1 in
        (o'.messages ≡ o.messages) × (o'.created ≡ o.created) × (o'.handed ≡ o.handed)
  unfolding firebase_send
  firebase_send-keeps e c o = ground (arith, drop_stale-keeps c)

  pub send-IsSent :
      (e : Outside) (c : NotificationConfig) (text : Text) (o : Office S)
      → IsSent c text o (send e c text o).1
  unfolding send
  send-IsSent e c text o = record {
    messages = ground (arith, zalo_send-keeps e c o, firebase_send-keeps e c o);
    created = ground (arith, zalo_send-keeps e c o, firebase_send-keeps e c o);
    handed = ground (arith, zalo_send-keeps e c o, firebase_send-keeps e c o);
  }

  zalo_send-thrown_by :
      (e : Outside) (c : NotificationConfig) (o : Office S)
      → c.channel ≡ zalo
      → (zalo_send e c o).0 ≡ thrown_by e c (length o.handed)
  unfolding zalo_send
  zalo_send-thrown_by e c o h = ground arith

  firebase_send-thrown_by :
      (e : Outside) (c : NotificationConfig) (o : Office S)
      → c.channel ≡ web_push
      → (firebase_send e c o).0 ≡ thrown_by e c (length o.handed)
  unfolding firebase_send
  firebase_send-thrown_by e c o h = ground arith

  pub send-thrown_by :
      (e : Outside) (c : NotificationConfig) (text : Text) (o : Office S)
      → (send e c text o).0 ≡ thrown_by e c (length o.handed)
  unfolding send
  send-thrown_by e c text o =
      ground (arith, zalo_send-thrown_by e c o, firebase_send-thrown_by e c o)
